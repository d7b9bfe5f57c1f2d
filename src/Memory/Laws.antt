-- ===== src/Memory/Laws.antt =====
-- Laws of the byte-level operations, for a buffer that is known as a row of parts.
use stellar_bench.Base.{
  ℕ, zero, suc, ◌+◌, ◌*◌, ◌/◌, ◌^◌, ◌≤◌, ◌<◌, ◌≡◌, refl, sym, ap, some, List, [], ◌∷◌, ◌++◌, ◌∙◌,
  append_assoc, append-nil, drop-drop, length-drop, arith, le→leb, length, take, drop,
  length-append, take-length_append, drop-length_append, drop-length,
}
use stellar_bench.Memory.{le_bytes, le_value, memcpy, read, words_bytes, words_of}

pub length-le_bytes : (w x : ℕ) → length (le_bytes w x) ≡ w
unfolding le_bytes
length-le_bytes zero x = refl
length-le_bytes (suc w) x = ap suc (length-le_bytes w (x / 256))

-- `x` has at most `w` bytes.
abbrev pub Fits : ℕ → ℕ → Type 0
Fits zero x = x ≡ 0
Fits (suc w) x = Fits w (x / 256)

pub le_value-le_bytes : (w x : ℕ) → Fits w x → le_value (le_bytes w x) ≡ x
unfolding le_bytes le_value
le_value-le_bytes zero x h = sym h
le_value-le_bytes (suc w) x h = omega (arith, le_value-le_bytes w (x / 256) h)

pub Fits-four : (x : ℕ) → x < 2 ^ 32 → Fits 4 x
Fits-four x h = omega arith

pub Fits-eight : (x : ℕ) → x < 2 ^ 64 → Fits 8 x
Fits-eight x h = omega arith

-- A copy to the place behind `pre` replaces what stood there.
pub memcpy-append :
    (pre rest src : List ℕ)
    → length src ≤ length rest
    → memcpy (pre ++ rest) (length pre) src ≡ some (pre ++ (src ++ drop (length src) rest))
unfolding memcpy
memcpy-append pre rest src h =
    rw
      (le→leb (length pre + length src) (length (pre ++ rest))
        (omega (arith, length-append pre rest)))
      (rw (take-length_append pre rest, drop-length_append pre rest (length src)) refl)

pub read-append :
    (pre mid rest : List ℕ) → read (pre ++ (mid ++ rest)) (length pre) (length mid) ≡ some mid
unfolding read
read-append pre mid rest =
    rw
      (le→leb (length pre + length mid) (length (pre ++ (mid ++ rest)))
        (omega (arith, length-append pre (mid ++ rest), length-append mid rest)))
      (rw (drop-length pre (mid ++ rest), take-length_append mid rest) refl)

pub length-words_bytes : (ws : List ℕ) → length (words_bytes ws) ≡ 8 * length ws
unfolding words_bytes
length-words_bytes [] = refl
length-words_bytes (w ∷ ws) = omega (
  arith,
  length-append (le_bytes 8 w) (words_bytes ws),
  length-le_bytes 8 w,
  length-words_bytes ws,
)

-- Every word is a 64-bit pattern.
abbrev pub AreWords : List ℕ → Type 0
AreWords [] = Unit {0}
AreWords (w ∷ ws) = (w < 2 ^ 64) × AreWords ws

take_behind : (xs ys : List ℕ) (n : ℕ) → length xs ≡ n → take n (xs ++ ys) ≡ xs
take_behind xs ys n e = rw (← e) (take-length_append xs ys)

drop_behind : (xs ys : List ℕ) (n : ℕ) → length xs ≡ n → drop n (xs ++ ys) ≡ ys
drop_behind xs ys n e = rw (← e) (drop-length xs ys)

pub words_of-words_bytes : (ws : List ℕ) → AreWords ws → words_of (length ws) (words_bytes ws) ≡ ws
unfolding words_of words_bytes
words_of-words_bytes [] h = refl
words_of-words_bytes (w ∷ ws) h = rw (
  take_behind (le_bytes 8 w) (words_bytes ws) 8 (length-le_bytes 8 w),
  drop_behind (le_bytes 8 w) (words_bytes ws) 8 (length-le_bytes 8 w),
  le_value-le_bytes 8 w (Fits-eight w h.0),
  words_of-words_bytes ws h.1,
)

-- The next of a row of copies: `pre` is written, and the rest of the buffer is as it was.
pub memcpy-next :
    (pre buf src : List ℕ) (off next : ℕ)
    → off ≡ length pre
    → next ≡ off + length src
    → next ≤ length buf
    → memcpy (pre ++ drop off buf) off src ≡ some ((pre ++ src) ++ drop next buf)
memcpy-next pre buf src off next e n h =
    ap (λ k. memcpy (pre ++ drop off buf) k src) e
    ∙ memcpy-append pre (drop off buf) src (omega (arith, length-drop off buf))
    ∙ ap some (sym (append_assoc pre src (drop (length src) (drop off buf))))
    ∙ ap (λ t. some ((pre ++ src) ++ t)) (drop-drop off (length src) buf)
    ∙ ap (λ k. some ((pre ++ src) ++ drop k buf)) (sym n)

pub read_whole : (xs : List ℕ) (n : ℕ) → n ≡ length xs → read xs 0 n ≡ some xs
read_whole xs n e =
    rw e (ap (λ t. read t 0 (length xs)) (sym (append-nil xs)) ∙ read-append [] xs [])

-- A read of a middle part, at any spelling of its place and size.
pub read_part :
    (pre mid rest : List ℕ) (off n : ℕ)
    → off ≡ length pre
    → n ≡ length mid
    → read (pre ++ (mid ++ rest)) off n ≡ some mid
read_part pre mid rest off n e f = rw (e, f) (read-append pre mid rest)
