-- ===== src/Ps/Guards.antt =====
-- What the tests of the server's loops say of the counters.
use mathlib.Core.Path.{subst}
use stellar_bench.Base.{
  ℕ, zero, suc, ◌+◌, ◌≤◌, ◌<◌, ◌≡◌, ◌↔◌, true, false, ℤ, pos, minus_one, ◌+ℤ◌, ◌≤ℤ◌, ltb_ℤ, arith,
  if◌then◌else◌, Bool, refl, ℕ_discrete,
}
use stellar_bench.Ps.{can_merge_from, can_merge, can_send}

ltb_ℤ-not_le : (a b : ℤ) → ltb_ℤ a b ≡ false → b ≤ℤ a
ltb_ℤ-not_le a b h = ground arith

le-ltb_ℤ : (a b : ℤ) → b ≤ℤ a → ltb_ℤ a b ≡ false
le-ltb_ℤ a b h = ground arith

if-eq-true : (t x : Bool) → (if t then false else x) ≡ true → (t ≡ false) × (x ≡ true)
if-eq-true true x h = cc
if-eq-true false x h = (refl, h)

module _ (coming : ℤ) (r_iter : ℕ → ℤ) where
  -- Entry `j` does not hold the merge back.
  abbrev pub Arrived : ℕ → Type 0
  Arrived j = coming ≤ℤ (r_iter j +ℤ pos 1)

  can_merge_from-suc :
      (left i : ℕ)
      → can_merge_from coming r_iter (suc left) i ≡ true
      → Arrived i × (can_merge_from coming r_iter left (i + 1) ≡ true)
  unfolding can_merge_from
  can_merge_from-suc left i h =
      let (fine, rest) =
        if-eq-true (ltb_ℤ (r_iter i +ℤ pos 1) coming) (can_merge_from coming r_iter left (i + 1))
          h in
      (ltb_ℤ-not_le (r_iter i +ℤ pos 1) coming fine, rest)

  can_merge_from-all :
      (left i : ℕ)
      → can_merge_from coming r_iter left i ≡ true
      → (j : ℕ) → i ≤ j
      → j < i + left
      → Arrived j
  can_merge_from-all zero i h j lo hi = absurd (omega arith)
  can_merge_from-all (suc left) i h j lo hi = elim (ℕ_discrete i j) [
    | yes now ↦ subst Arrived now (can_merge_from-suc left i h).0
    | no later ↦
        can_merge_from-all left (i + 1) (can_merge_from-suc left i h).1 j (omega arith)
          (omega arith)
  ]

  all-can_merge_from :
      (left i : ℕ)
      → ((j : ℕ) → i ≤ j → j < i + left → Arrived j)
      → can_merge_from coming r_iter left i ≡ true
  unfolding can_merge_from
  all-can_merge_from zero i h = refl
  all-can_merge_from (suc left) i h =
      rw (le-ltb_ℤ (r_iter i +ℤ pos 1) coming (h i (omega arith) (omega arith)))
        (all-can_merge_from left (i + 1) (λ j lo hi. h j (omega arith) (omega arith)))

  -- `CanMerge` holds exactly if no entry below `len` is more than one iteration behind.
  pub can_merge_iff :
      (len : ℕ) → (can_merge coming r_iter len ≡ true) ↔ ((j : ℕ) → j < len → Arrived j)
  unfolding can_merge
  can_merge_iff len = (
    λ h j lt. can_merge_from-all len 0 h j (omega arith) (omega arith),
    λ h. all-can_merge_from len 0 (λ j lo hi. h j (omega arith)),
  )

pub arrived-le : (c t : ℕ) → (pos c ≤ℤ (pos t +ℤ minus_one +ℤ pos 1)) ↔ (c ≤ t)
arrived-le c t = ground arith

-- The tests on counters that are kept with 1 added.
pub can_merge-taken :
    (completed : ℕ) (taken : ℕ → ℕ) (n : ℕ)
    → (can_merge (pos completed) (λ i. pos (taken i) +ℤ minus_one) n ≡ true)
      ↔ ((i : ℕ) → i < n → completed ≤ taken i)
can_merge-taken completed taken n =
    let both = can_merge_iff (pos completed) (λ i. pos (taken i) +ℤ minus_one) n in
    (
      λ h i lt. (arrived-le completed (taken i)).0 (both.0 h i lt),
      λ h. both.1 (λ i lt. (arrived-le completed (taken i)).1 (h i lt)),
    )

pub can_send_iff :
    (to_send completed : ℕ)
    → (can_send (pos to_send) (pos completed +ℤ minus_one) ≡ true) ↔ (to_send < completed)
unfolding can_send
can_send_iff to_send completed = ground arith
