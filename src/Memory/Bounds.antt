-- ===== src/Memory/Bounds.antt =====
-- What a copy that does not fault says of the sizes.
use stellar_bench.Base.{
  ℕ, zero, suc, ◌+◌, ◌≤◌, ◌≡◌, refl, ap, true, some, List, [], ◌∷◌, leb, length, length-append,
  length-drop, take, drop, arith, Bool-cases, inl, inr, some_inj,
}
use stellar_bench.Memory.{memcpy, read}

leb-le : (a b : ℕ) → leb a b ≡ true → a ≤ b
leb-le a b h = ground arith

pub length-take : {A : Type 0} (n : ℕ) (xs : List A) → n ≤ length xs → length (take n xs) ≡ n
length-take zero xs h = refl
length-take (suc n) [] h = absurd (omega arith)
length-take (suc n) (x ∷ xs) h = ap suc (length-take n xs (omega arith))

pub memcpy_bounds :
    (buf : List ℕ) (off : ℕ) (src : List ℕ) {out : List ℕ}
    → memcpy buf off src ≡ some out
    → (off + length src ≤ length buf) × (length out ≡ length buf)
unfolding memcpy
memcpy_bounds buf off src {out} h = elim (Bool-cases (leb (off + length src) (length buf))) [
  | inr outside ↦ let e = rw outside at h in cc
  | inl inside ↦
      let fits = leb-le (off + length src) (length buf) inside in
      let e = some_inj (rw inside at h) in
      (
        fits,
        rw (← e, length-append, length-append, length-drop, length-take off buf (omega arith))
            (omega arith),
      )
]

pub read_bounds :
    (buf : List ℕ) (off n : ℕ) {out : List ℕ} → read buf off n ≡ some out → length out ≡ n
unfolding read
read_bounds buf off n {out} h = elim (Bool-cases (leb (off + n) (length buf))) [
  | inr outside ↦ let e = rw outside at h in cc
  | inl inside ↦
      let e = some_inj (rw inside at h) in
      rw (← e) (
        length-take n (drop off buf)
          (omega (arith, leb-le (off + n) (length buf) inside, length-drop off buf)))
]
