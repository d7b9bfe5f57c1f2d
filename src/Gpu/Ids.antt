-- ===== src/Gpu/Ids.antt =====
-- The ids of a launch, before and after the shuffle.
use mathlib.Core.Path.{subst}
use mathlib.Core.List.{Permᴰ}
use stellar_bench.Base.{
  ℕ, zero, suc, ◌+◌, ◌≤◌, ◌<◌, ◌≡◌, ◌≢◌, refl, sym, ap, ◌∙◌, some, List, [], ◌∷◌, ◌++◌, length,
  get_elem?, set, length-append, append_assoc, arith, some_inj,
}
use stellar_bench.Worker.Safety.{put-set}
use stellar_bench.Fill.{set_behind}
use stellar_bench.Gpu.Host.{number_from}

-- `i`, `i + 1` and so on.
abbrev pub ids_from : ℕ → ℕ → List ℕ
ids_from zero i = []
ids_from (suc left) i = i ∷ ids_from left (i + 1)

pub length-ids_from : (left i : ℕ) → length (ids_from left i) ≡ left
length-ids_from zero i = refl
length-ids_from (suc left) i = ap suc (length-ids_from left (i + 1))

pub number_from-ids :
    (left i : ℕ) (pre ys : List ℕ)
    → i ≡ length pre
    → left ≡ length ys
    → number_from left i (pre ++ ys) ≡ some (pre ++ ids_from left i)
unfolding number_from
number_from-ids zero i pre [] e h = refl
number_from-ids zero i pre (y ∷ ys) e h = absurd (omega arith)
number_from-ids (suc left) i pre [] e h = absurd (omega arith)
number_from-ids (suc left) i pre (y ∷ ys) e h =
    let placed : set (pre ++ (y ∷ ys)) i i ≡ (pre ++ (i ∷ [])) ++ ys =
      ap (λ k. set (pre ++ (y ∷ ys)) k i) e
      ∙ set_behind pre ys y i
      ∙ sym (append_assoc pre (i ∷ []) ys) in
    rw
      (
        put-set (pre ++ (y ∷ ys)) i i (omega (arith, e, length-append pre (y ∷ ys))),
        placed,
        number_from-ids left (i + 1) (pre ++ (i ∷ [])) ys
            (omega (arith, e, length-append pre (i ∷ []))) (omega arith),
      )
      (ap some (append_assoc pre (i ∷ []) (ids_from left (i + 1))))

-- `x` is none of the ids, and no two of them are the same.
abbrev Avoids : ℕ → List ℕ → Type 0
Avoids x [] = Unit {0}
Avoids x (y ∷ ys) = (x ≢ y) × Avoids x ys

abbrev AreDistinct : List ℕ → Type 0
AreDistinct [] = Unit {0}
AreDistinct (x ∷ xs) = Avoids x xs × AreDistinct xs

abbrev pub AreBelow : ℕ → List ℕ → Type 0
AreBelow n [] = Unit {0}
AreBelow n (x ∷ xs) = (x < n) × AreBelow n xs

-- A shuffle keeps the ids.
length-shuffle : {xs ys : List ℕ} → Permᴰ xs ys → length xs ≡ length ys
length-shuffle Permᴰ.nil = refl
length-shuffle (Permᴰ.cons e p) = ap suc (length-shuffle p)
length-shuffle (Permᴰ.swap e e') = refl
length-shuffle (Permᴰ.trans p q) = length-shuffle p ∙ length-shuffle q

Avoids-shuffle : {xs ys : List ℕ} (x : ℕ) → Permᴰ xs ys → Avoids x xs → Avoids x ys
Avoids-shuffle x Permᴰ.nil h = h
Avoids-shuffle x (Permᴰ.cons e p) h = (subst (λ y. x ≢ y) e h.0, Avoids-shuffle x p h.1)
Avoids-shuffle x (Permᴰ.swap e e') h =
    (subst (λ y. x ≢ y) e' h.1.0, (subst (λ y. x ≢ y) e h.0, h.1.1))
Avoids-shuffle x (Permᴰ.trans p q) h = Avoids-shuffle x q (Avoids-shuffle x p h)

AreDistinct-shuffle : {xs ys : List ℕ} → Permᴰ xs ys → AreDistinct xs → AreDistinct ys
AreDistinct-shuffle Permᴰ.nil h = h
AreDistinct-shuffle (Permᴰ.cons {l₂ = ys} e p) h =
    (subst (λ y. Avoids y ys) e (Avoids-shuffle _ p h.0), AreDistinct-shuffle p h.1)
AreDistinct-shuffle (Permᴰ.swap {l = l} e e') h = (
  (λ same. h.0.0 (e ∙ sym same ∙ sym e'), subst (λ y. Avoids y l) e' h.1.0),
  (subst (λ y. Avoids y l) e h.0.1, h.1.1),
)
AreDistinct-shuffle (Permᴰ.trans p q) h = AreDistinct-shuffle q (AreDistinct-shuffle p h)

pub AreBelow-shuffle : {xs ys : List ℕ} (n : ℕ) → Permᴰ xs ys → AreBelow n xs → AreBelow n ys
AreBelow-shuffle n Permᴰ.nil h = h
AreBelow-shuffle n (Permᴰ.cons e p) h = (subst (λ y. y < n) e h.0, AreBelow-shuffle n p h.1)
AreBelow-shuffle n (Permᴰ.swap e e') h =
    (subst (λ y. y < n) e' h.1.0, (subst (λ y. y < n) e h.0, h.1.1))
AreBelow-shuffle n (Permᴰ.trans p q) h = AreBelow-shuffle n q (AreBelow-shuffle n p h)

ids_from-Avoids : (left i x : ℕ) → x < i → Avoids x (ids_from left i)
ids_from-Avoids zero i x h = tt
ids_from-Avoids (suc left) i x h =
    (λ same. omega arith, ids_from-Avoids left (i + 1) x (omega arith))

ids_from-AreDistinct : (left i : ℕ) → AreDistinct (ids_from left i)
ids_from-AreDistinct zero i = tt
ids_from-AreDistinct (suc left) i =
    (ids_from-Avoids left (i + 1) i (omega arith), ids_from-AreDistinct left (i + 1))

ids_from-AreBelow : (left i n : ℕ) → i + left ≤ n → AreBelow n (ids_from left i)
ids_from-AreBelow zero i n h = tt
ids_from-AreBelow (suc left) i n h = (omega arith, ids_from-AreBelow left (i + 1) n (omega arith))

Avoids-get_elem? : (x : ℕ) (xs : List ℕ) (i y : ℕ) → Avoids x xs → get_elem? xs i ≡ some y → x ≢ y
Avoids-get_elem? x [] i y h e = cc
Avoids-get_elem? x (z ∷ zs) zero y h e = subst (λ w. x ≢ w) (some_inj e) h.0
Avoids-get_elem? x (z ∷ zs) (suc i) y h e = Avoids-get_elem? x zs i y h.1 e

AreDistinct-get_elem? :
    (xs : List ℕ) (i j x y : ℕ)
    → AreDistinct xs
    → get_elem? xs i ≡ some x
    → get_elem? xs j ≡ some y
    → i ≢ j
    → x ≢ y
AreDistinct-get_elem? [] i j x y h ei ej ne = cc
AreDistinct-get_elem? (z ∷ zs) zero zero x y h ei ej ne = absurd (ne refl)
AreDistinct-get_elem? (z ∷ zs) zero (suc j) x y h ei ej ne =
    subst (λ w. w ≢ y) (some_inj ei) (Avoids-get_elem? z zs j y h.0 ej)
AreDistinct-get_elem? (z ∷ zs) (suc i) zero x y h ei ej ne =
    λ same. Avoids-get_elem? z zs i x h.0 ei (some_inj ej ∙ sym same)
AreDistinct-get_elem? (z ∷ zs) (suc i) (suc j) x y h ei ej ne =
    AreDistinct-get_elem? zs i j x y h.1 ei ej (λ same. ne (ap suc same))

AreBelow-get_elem? :
    (n : ℕ) (xs : List ℕ) (i x : ℕ) → AreBelow n xs → get_elem? xs i ≡ some x → x < n
AreBelow-get_elem? n [] i x h e = cc
AreBelow-get_elem? n (z ∷ zs) zero x h e = subst (λ w. w < n) (some_inj e) h.0
AreBelow-get_elem? n (z ∷ zs) (suc i) x h e = AreBelow-get_elem? n zs i x h.1 e

-- What a launch needs of the ids that it is given for its `wn` threads.
pub record AreIds (wn : ℕ) (ids : List ℕ) : Type 0 where
  pub count : length ids ≡ wn
  pub below : (i x : ℕ) → get_elem? ids i ≡ some x → x < wn
  pub distinct : (i j x y : ℕ) → get_elem? ids i ≡ some x → get_elem? ids j ≡ some y → i ≢ j → x ≢ y

-- The ids of a launch after the shuffle.
pub shuffled-AreIds : (wn : ℕ) (ids : List ℕ) → Permᴰ (ids_from wn 0) ids → AreIds wn ids
shuffled-AreIds wn ids p = record {
  count = sym (length-shuffle p) ∙ length-ids_from wn 0;
  below = λ i x.
      AreBelow-get_elem? wn ids i x
        (AreBelow-shuffle wn p (ids_from-AreBelow wn 0 wn (omega arith)));
  distinct = λ i j x y.
      AreDistinct-get_elem? ids i j x y (AreDistinct-shuffle p (ids_from-AreDistinct wn 0));
}
