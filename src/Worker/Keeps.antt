-- ===== src/Worker/Keeps.antt =====
-- What `FakeSubMF` leaves of two blocks: their sizes, and words in the place of words.
use stellar_bench.Base.{
  ℕ, zero, suc, ◌+◌, ◌*◌, ◌%◌, ◌^◌, ◌<◌, ◌≡◌, refl, sym, ap, ◌∙◌, some, List, [], ◌∷◌, ltb, length,
  get_elem?, set, length-set, Bool-cases, inl, inr, >>=-eq-some, some_inj, ◌==◌,
}
use stellar_bench.Block.{Block, dim_count}
use stellar_bench.Memory.Laws.{AreWords}
use stellar_bench.Worker.Descent.{
  Doubles, put, predict, step, descend, sample, samples, fake_sub_mf, sample_num,
}

-- The results of the additions, which are all that is stored, are 64-bit patterns.
abbrev pub AreDoubles : Doubles → Type 0
AreDoubles d = (a b : ℕ) → d.add a b < 2 ^ 64

AreWords-set : (xs : List ℕ) (i v : ℕ) → v < 2 ^ 64 → AreWords xs → AreWords (set xs i v)
AreWords-set [] i v small h = h
AreWords-set (x ∷ xs) zero v small h = (small, h.1)
AreWords-set (x ∷ xs) (suc i) v small h = (h.0, AreWords-set xs i v small h.1)

-- The same size, and words if there were words.
pub record IsKept (xs ys : List ℕ) : Type 0 where
  pub size : length ys ≡ length xs
  pub words : AreWords xs → AreWords ys

IsKept-trans : {xs ys zs : List ℕ} → IsKept xs ys → IsKept ys zs → IsKept xs zs
IsKept-trans a b = record { size = b.size ∙ a.size; words = λ h. b.words (a.words h) }

put-IsKept :
    (xs : List ℕ) (i v : ℕ) {ys : List ℕ} → v < 2 ^ 64 → put xs i v ≡ some ys → IsKept xs ys
unfolding put
put-IsKept xs i v {ys} small h = elim (Bool-cases (ltb i (length xs))) [
  | inr over ↦ let e = rw over at h in cc
  | inl inside ↦
      let e = some_inj (rw inside at h) in
      record {
        size = ap (length {A = ℕ}) (sym e) ∙ length-set xs i v;
        words = λ w. rw (← e) (AreWords-set xs i v small w);
      }
]

module _ (d : Doubles) (doubles : AreDoubles d) where
  descend-IsKept :
      (left k pr qc error : ℕ) (p q : List ℕ) {out : List ℕ × List ℕ}
      → descend d left k pr qc error p q ≡ some out
      → IsKept p out.0 × IsKept q out.1
  unfolding descend step
  descend-IsKept zero k pr qc error p q {out} h =
      let same = some_inj h in
      rw (← same) (record { size = refl; words = λ w. w }, record { size = refl; words = λ w. w })
  descend-IsKept (suc left) k pr qc error p q {out} h =
      let (a, e₁, h₁) = >>=-eq-some (get_elem? p (pr * dim_count + k)) _ h in
      let (b, e₂, h₂) = >>=-eq-some (get_elem? q (qc * dim_count + k)) _ h₁ in
      let (p', e₃, h₃) = >>=-eq-some (put p (pr * dim_count + k) (step d error a b)) _ h₂ in
      let (a', e₄, h₄) = >>=-eq-some (get_elem? p' (pr * dim_count + k)) _ h₃ in
      let (q', e₅, h₅) = >>=-eq-some (put q (qc * dim_count + k) (step d error b a')) _ h₄ in
      let (kp, kq) = descend-IsKept left (k + 1) pr qc error p' q' h₅ in
      (
        IsKept-trans (put-IsKept p (pr * dim_count + k) _ (doubles _ _) e₃) kp,
        IsKept-trans (put-IsKept q (qc * dim_count + k) _ (doubles _ _) e₅) kq,
      )

  samples-IsKept :
      (random : ℕ → ℕ) (p_height q_height left sn : ℕ) (p q : List ℕ) {out : List ℕ × List ℕ}
      → samples d random p_height q_height left sn p q ≡ some out
      → IsKept p out.0 × IsKept q out.1
  unfolding samples sample
  samples-IsKept random p_height q_height zero sn p q {out} h =
      let same = some_inj h in
      rw (← same) (record { size = refl; words = λ w. w }, record { size = refl; words = λ w. w })
  samples-IsKept random p_height q_height (suc left) sn p q {out} h =
      let pr = random (2 * sn) % p_height in
      let qc = random (2 * sn + 1) % q_height in
      let (mid, e₁, h₁) = >>=-eq-some (sample d pr qc p q) _ h in
      let (r, e₂, h₂) = >>=-eq-some (predict d dim_count 0 pr qc p q d.nought) _ e₁ in
      let (kp, kq) = descend-IsKept dim_count 0 pr qc (d.sub d.nought r) p q h₂ in
      let (kp', kq') = samples-IsKept random p_height q_height left (sn + 1) mid.0 mid.1 h₁ in
      (IsKept-trans kp kp', IsKept-trans kq kq')

  -- The two blocks after `FakeSubMF`: new words of the same number, and nothing else.
  pub fake_sub_mf-IsKept :
      (random : ℕ → ℕ) (pb qb : Block) {out : Block × Block}
      → fake_sub_mf d random pb qb ≡ some out
      → (p q : List ℕ) × (out ≡ (
        record pb { eles = record (pb.eles) { words = p } },
        record qb { eles = record (qb.eles) { words = q } },
      ))
        × IsKept pb.eles.words p
        × IsKept qb.eles.words q
  unfolding fake_sub_mf
  fake_sub_mf-IsKept random pb qb {out} h = elim (Bool-cases (pb.height == 0)) [
    | inl empty_p ↦ let e = rw empty_p at h in cc
    | inr some_p ↦
        let e = rw some_p at h in
        elim (Bool-cases (qb.height == 0)) [
          | inl empty_q ↦ let f = rw empty_q at e in cc
          | inr some_q ↦
              let f = rw some_q at e in
              let (mid, e₁, h₁) =
                >>=-eq-some
                  (samples d random pb.height qb.height sample_num 0 pb.eles.words qb.eles.words) _
                  f in
              let (kp, kq) =
                samples-IsKept random pb.height qb.height sample_num 0 pb.eles.words qb.eles.words
                  e₁ in
              (mid.0, mid.1, sym (some_inj h₁), kp, kq)
        ]
  ]
