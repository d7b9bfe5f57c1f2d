-- ===== src/Gpu/Meet.antt =====
-- An array under two threads of the kernel, which have different starts, in either order.
use mathlib.Core.Path.{subst}
use native.Mathlib.Nat.{mod-lt}
use stellar_bench.Base.{
  ℕ, zero, suc, ◌/◌, ◌%◌, ◌≡◌, ◌≢◌, ◌<◌, refl, sym, ◌∙◌, true, false, List, [], ◌∷◌, ◌==◌, length,
  get_elem?, some_inj, Bool-cases, inl, inr, arith,
}
use stellar_bench.Gpu.Footprint.{Own, Keeps}
use stellar_bench.Gpu.Thread.{Own-same}
use stellar_bench.Gpu.Agree.{Agrees}

list_ext :
    (xs ys : List ℕ) → length xs ≡ length ys → ((x : ℕ) → get_elem? xs x ≡ get_elem? ys x) → xs ≡ ys
list_ext [] [] e h = refl
list_ext [] (y ∷ ys) e h = absurd (omega arith)
list_ext (x ∷ xs) [] e h = absurd (omega arith)
list_ext (x ∷ xs) (y ∷ ys) e h =
    let first : x ≡ y = some_inj (h 0) in
    let rest : xs ≡ ys = list_ext xs ys (omega arith) (λ i. h (suc i)) in cc

-- The start whose rows an element is in.
owner : ℕ → ℕ → ℕ → ℕ
owner dim wn x = x / dim % wn

owner-Own : (dim wn x : ℕ) → 0 < dim → 0 < wn → Own dim wn (owner dim wn x) x
unfolding owner
owner-Own dim wn x dim_pos wn_pos =
    (x / dim, x % dim, x / dim / wn, grind arith, mod-lt x dim_pos, grind arith)

pub ==-eq : (a b : ℕ) → (a == b) ≡ true → a ≡ b
==-eq a b h = ground arith

pub eq-ne : (a b : ℕ) → (a == b) ≡ false → a ≢ b
eq-ne a b h e = ground arith

-- Which of two threads has an element.
data Whose (dim wn a b x : ℕ) : Type 0 where
  first_has : Own dim wn a x → Whose dim wn a b x
  second_has : Own dim wn b x → Whose dim wn a b x
  neither : ¬ Own dim wn a x → ¬ Own dim wn b x → Whose dim wn a b x

whose : (dim wn a b x : ℕ) → 0 < wn → a < wn → b < wn → Whose dim wn a b x
unfolding owner
whose zero wn a b x pos a_lt b_lt =
    neither (λ own. absurd (omega (arith, own.4))) (λ own. absurd (omega (arith, own.4)))
whose (suc dim) wn a b x pos a_lt b_lt =
    let o = owner (suc dim) wn x in
    let own : Own (suc dim) wn o x = owner-Own (suc dim) wn x (omega arith) pos in
    let o_lt : o < wn = mod-lt (x / suc dim) pos in
    elim (Bool-cases (a == o)) [
      | inl at_a ↦ first_has (subst (λ k. Own (suc dim) wn k x) (sym (==-eq a o at_a)) own)
      | inr not_a ↦ elim (Bool-cases (b == o)) [
        | inl at_b ↦ second_has (subst (λ k. Own (suc dim) wn k x) (sym (==-eq b o at_b)) own)
        | inr not_b ↦
            neither (λ h. eq-ne a o not_a (Own-same (suc dim) wn a o x a_lt o_lt h own))
              (λ h. eq-ne b o not_b (Own-same (suc dim) wn b o x b_lt o_lt h own))
      ]
    ]

-- One array under two threads in either order.
pub meet :
    (dim wn a b : ℕ) (xs x₁ x₂ x₁₂ x₂₁ : List ℕ)
    → 0 < wn
    → a < wn
    → b < wn
    → a ≢ b
    → Keeps dim wn a xs x₁
    → Keeps dim wn b xs x₂
    → Keeps dim wn b x₁ x₁₂
    → Keeps dim wn a x₂ x₂₁
    → Agrees dim wn b x₂ x₁₂
    → Agrees dim wn a x₁ x₂₁
    → x₁₂ ≡ x₂₁
meet dim wn a b xs x₁ x₂ x₁₂ x₂₁ pos a_lt b_lt ne k₁ k₂ k₁₂ k₂₁ ag_b ag_a =
    list_ext x₁₂ x₂₁ (omega (arith, k₁.0, k₂.0, k₁₂.0, k₂₁.0))
      λ x. at x (whose dim wn a b x pos a_lt b_lt)
  where
    at : (x : ℕ) → Whose dim wn a b x → get_elem? x₁₂ x ≡ get_elem? x₂₁ x
    at x (first_has own) =
        k₁₂.1 x (λ other. ne (Own-same dim wn a b x a_lt b_lt own other)) ∙ sym (ag_a.same x own)
    at x (second_has own) =
        ag_b.same x own ∙ sym (k₂₁.1 x (λ other. ne (Own-same dim wn a b x a_lt b_lt other own)))
    at x (neither not_a not_b) = k₁₂.1 x not_b ∙ k₁.1 x not_a ∙ sym (k₂₁.1 x not_a ∙ k₂.1 x not_b)

-- A thread leaves alone what a thread with another start reads.
pub Keeps-Agrees :
    (dim wn a b : ℕ) (xs ys : List ℕ)
    → a < wn
    → b < wn
    → a ≢ b
    → Keeps dim wn a xs ys
    → Agrees dim wn b xs ys
Keeps-Agrees dim wn a b xs ys a_lt b_lt ne k = record {
  size = k.0;
  same = λ x own. k.1 x (λ other. ne (Own-same dim wn a b x a_lt b_lt other own));
}
