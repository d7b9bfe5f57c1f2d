-- ===== src/Fill.antt =====
-- The loop `for (int j = 0; j < n; j++) xs[j] = v`, which ps.cpp runs on the elements of a block and
-- test_send.cpp on its buffer. A write past the array is the fault `none`.
use stellar_bench.Base.{
  ℕ, zero, suc, ◌+◌, ◌≡◌, ◌≤◌, ◌<◌, refl, sym, ap, ◌∙◌, true, Option, some, List, [], ◌∷◌, ◌++◌,
  ltb, length, replicate, drop, set, length-append, append_assoc, arith, ◌>>=◌,
}
use stellar_bench.Worker.Descent.{put}

-- The loop from `j` on, with the rounds that are left.
unfoldable pub fill_from : ℕ → ℕ → ℕ → List ℕ → Option (List ℕ)
unfolding put
fill_from zero j v buffer = some buffer
fill_from (suc left) j v buffer = do buffer' ← put buffer j v; fill_from left (j + 1) v buffer'

pub set_behind :
    (pre ys : List ℕ) (y v : ℕ) → set (pre ++ (y ∷ ys)) (length pre) v ≡ pre ++ (v ∷ ys)
set_behind [] ys y v = refl
set_behind (x ∷ pre) ys y v = ap (◌∷◌ x) (set_behind pre ys y v)

lt-ltb : (a b : ℕ) → a < b → ltb a b ≡ true
lt-ltb a b h = ground arith

-- The loop fills its part of the buffer.
pub fill_from-filled :
    (left j v : ℕ) (pre ys : List ℕ)
    → j ≡ length pre
    → left ≤ length ys
    → fill_from left j v (pre ++ ys) ≡ some (pre ++ (replicate left v ++ drop left ys))
unfolding fill_from put
fill_from-filled zero j v pre ys e h = refl
fill_from-filled (suc left) j v pre [] e h = absurd (omega arith)
fill_from-filled (suc left) j v pre (y ∷ ys) e h =
    let inside : ltb j (length (pre ++ (y ∷ ys))) ≡ true =
      lt-ltb j (length (pre ++ (y ∷ ys))) (omega (arith, e, length-append pre (y ∷ ys))) in
    let placed : set (pre ++ (y ∷ ys)) j v ≡ (pre ++ (v ∷ [])) ++ ys =
      rw e (set_behind pre ys y v) ∙ sym (append_assoc pre (v ∷ []) ys) in
    rw (inside, placed)
      (fill_from-filled left (j + 1) v (pre ++ (v ∷ [])) ys
          (omega (arith, e, length-append pre (v ∷ []))) (omega arith)
        ∙ ap some (append_assoc pre (v ∷ []) (replicate left v ++ drop left ys)))
