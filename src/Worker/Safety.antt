-- ===== src/Worker/Safety.antt =====
-- The gradient step stays within its arrays, keeps their sizes, and changes one row and one column.
use stellar_bench.Base.{
  ℕ, zero, suc, ◌+◌, ◌*◌, ◌%◌, ◌≤◌, ◌<◌, ◌≡◌, ◌≢◌, refl, ◌∙◌, none, some, List, length, get_elem?,
  set, lt→ltb, get_elem?-lt, length-set, get_elem?-set_ne, get_elem?-set_self, arith, ◌==◌, false,
  ◌⊎◌, inl, inr, dec_lt, some_inj, sym,
}
use mathlib.Core.Path.{ap₂}
use native.Mathlib.Nat.{mod-lt}
use stellar_bench.Block.{Block, dim_count}
use stellar_bench.Worker.Descent.{
  Doubles, put, predict, step, descend, sample, samples, fake_sub_mf, sample_num,
}

pub put-set : (xs : List ℕ) (i v : ℕ) → i < length xs → put xs i v ≡ some (set xs i v)
unfolding put
put-set xs i v h = rw (lt→ltb i (length xs) h)

module _ (d : Doubles) where
  predict_total :
      (left k pr qc : ℕ) (p q : List ℕ) (acc : ℕ)
      → pr * dim_count + (k + left) ≤ length p
      → qc * dim_count + (k + left) ≤ length q
      → (r : ℕ) × (predict d left k pr qc p q acc ≡ some r)
  unfolding predict
  predict_total zero k pr qc p q acc hp hq = (acc, refl)
  predict_total (suc left) k pr qc p q acc hp hq =
      let (a, ea) = get_elem?-lt p (pr * dim_count + k) (omega arith) in
      let (b, eb) = get_elem?-lt q (qc * dim_count + k) (omega arith) in
      let (r, e) =
        predict_total left (k + 1) pr qc p q (d.add acc (d.mul a b)) (omega arith) (omega arith) in
      (r, rw (ea, eb) e)

  -- `xs` and `ys` have the same size and agree outside of `[lo, hi)`.
  abbrev pub SameOutside : ℕ → ℕ → List ℕ → List ℕ → Type 0
  SameOutside lo hi xs ys =
      (length ys ≡ length xs) × ((i : ℕ) → (i < lo) ⊎ (hi ≤ i) → get_elem? ys i ≡ get_elem? xs i)

  -- One write at the low end, and later writes above it.
  SameOutside-set :
      (lo hi lo' hi' i v : ℕ) (xs ys : List ℕ)
      → lo ≡ i
      → i < hi
      → lo' ≡ lo + 1
      → hi' ≡ hi
      → SameOutside lo' hi' (set xs i v) ys
      → SameOutside lo hi xs ys
  SameOutside-set lo hi lo' hi' i v xs ys e lt el eh h = (
    h.0 ∙ length-set xs i v,
    λ j out. h.1 j (wider j out) ∙ get_elem?-set_ne xs {i = i} {j = j} v (apart j out),
  )
    where
      wider : (j : ℕ) → (j < lo) ⊎ (hi ≤ j) → (j < lo') ⊎ (hi' ≤ j)
      wider j out = ground arith

      apart : (j : ℕ) → (j < lo) ⊎ (hi ≤ j) → i ≢ j
      apart j (inl below) same = omega arith
      apart j (inr above) same = omega arith

  -- Columns `k` up to `k + left` of row `pr` of `p` and of row `qc` of `q` are updated, the `q` element
  -- from the new `p` element, and no others.
  pub record Updated (left k pr qc error : ℕ) (p q p' q' : List ℕ) : Type 0 where
    pub p_outside : SameOutside (pr * dim_count + k) (pr * dim_count + (k + left)) p p'
    pub q_outside : SameOutside (qc * dim_count + k) (qc * dim_count + (k + left)) q q'
    pub inside :
        (m a b : ℕ)
        → k ≤ m
        → m < k + left
        → get_elem? p (pr * dim_count + m) ≡ some a
        → get_elem? q (qc * dim_count + m) ≡ some b
        → (get_elem? p' (pr * dim_count + m) ≡ some (step d error a b))
          × (get_elem? q' (qc * dim_count + m) ≡ some (step d error b (step d error a b)))

  -- One more round in front.
  module _ (left k pr qc error : ℕ) (p q p' q' : List ℕ) (a b : ℕ)
      (hp : pr * dim_count + (k + suc left) ≤ length p)
      (hq : qc * dim_count + (k + suc left) ≤ length q)
      (ea : get_elem? p (pr * dim_count + k) ≡ some a)
      (eb : get_elem? q (qc * dim_count + k) ≡ some b) where
    abbrev i : ℕ
    i = pr * dim_count + k

    abbrev j : ℕ
    j = qc * dim_count + k

    abbrev p₁ : List ℕ
    p₁ = set p i (step d error a b)

    abbrev q₁ : List ℕ
    q₁ = set q j (step d error b (step d error a b))

    inside_first :
        Updated left (k + 1) pr qc error p₁ q₁ p' q'
        → (x y : ℕ) → get_elem? p i ≡ some x
        → get_elem? q j ≡ some y
        → (get_elem? p' i ≡ some (step d error x y))
          × (get_elem? q' j ≡ some (step d error y (step d error x y)))
    inside_first u x y ex ey =
        let same_x : a ≡ x = some_inj (sym ea ∙ ex) in
        let same_y : b ≡ y = some_inj (sym eb ∙ ey) in
        (
          u.p_outside.1 i (inl (omega arith))
              ∙ get_elem?-set_self p i _ (omega arith)
              ∙ ap₂ (λ s t. some (step d error s t)) same_x same_y,
          u.q_outside.1 j (inl (omega arith))
              ∙ get_elem?-set_self q j _ (omega arith)
              ∙ ap₂ (λ s t. some (step d error t (step d error s t))) same_x same_y,
        )

    inside-set :
        Updated left (k + 1) pr qc error p₁ q₁ p' q'
        → (m x y : ℕ) → k ≤ m
        → m < k + suc left
        → get_elem? p (pr * dim_count + m) ≡ some x
        → get_elem? q (qc * dim_count + m) ≡ some y
        → (get_elem? p' (pr * dim_count + m) ≡ some (step d error x y))
          × (get_elem? q' (qc * dim_count + m) ≡ some (step d error y (step d error x y)))
    inside-set u m x y lo hi ex ey = elim (dec_lt k m) [
      | yes later ↦
          u.inside m x y (omega arith) (omega arith)
            (get_elem?-set_ne p {i = i} {j = pr * dim_count + m} _ (λ e. omega arith) ∙ ex)
            (get_elem?-set_ne q {i = j} {j = qc * dim_count + m} _ (λ e. omega arith) ∙ ey)
      | no now ↦
          let here : m ≡ k = omega arith in
          rw here (inside_first u x y (rw here at ex) (rw here at ey))
    ]

    Updated-set :
        Updated left (k + 1) pr qc error p₁ q₁ p' q' → Updated (suc left) k pr qc error p q p' q'
    Updated-set u = record {
      p_outside =
          SameOutside-set i (pr * dim_count + (k + suc left)) _ _ i _ p p' refl (omega arith)
            (omega arith) (omega arith) u.p_outside;
      q_outside =
          SameOutside-set j (qc * dim_count + (k + suc left)) _ _ j _ q q' refl (omega arith)
            (omega arith) (omega arith) u.q_outside;
      inside = inside-set u;
    }

  descend-Updated :
      (left k pr qc error : ℕ) (p q : List ℕ)
      → pr * dim_count + (k + left) ≤ length p
      → qc * dim_count + (k + left) ≤ length q
      → (p' q' : List ℕ) × (descend d left k pr qc error p q ≡ some (p', q'))
        × Updated left k pr qc error p q p' q'
  unfolding descend
  descend-Updated zero k pr qc error p q hp hq = (
    p,
    q,
    refl,
    record {
      p_outside = (refl, λ i out. refl);
      q_outside = (refl, λ i out. refl);
      inside = λ m a b lo hi. absurd (omega arith);
    },
  )
  descend-Updated (suc left) k pr qc error p q hp hq =
      let i = pr * dim_count + k in
      let j = qc * dim_count + k in
      let (a, ea) = get_elem?-lt p i (omega arith) in
      let (b, eb) = get_elem?-lt q j (omega arith) in
      let a' = step d error a b in
      let b' = step d error b a' in
      let (p', q', e, u) =
        descend-Updated left (k + 1) pr qc error (set p i a') (set q j b')
          (omega (arith, length-set p i a')) (omega (arith, length-set q j b')) in
      (
        p',
        q',
        rw
            (
              ea,
              eb,
              put-set p i a' (omega arith),
              get_elem?-set_self p i a' (omega arith),
              put-set q j b' (omega arith),
            )
            e,
        Updated-set left k pr qc error p q p' q' a b hp hq ea eb u,
      )

  -- A sample on a row and a column within the blocks neither faults nor touches another row: with the
  -- prediction error, each element of the row takes a gradient step, and then each element of the
  -- column one from the row's new element.
  pub sample-Updated :
      (pr qc : ℕ) (p q : List ℕ)
      → (pr + 1) * dim_count ≤ length p
      → (qc + 1) * dim_count ≤ length q
      → (predict_r : ℕ) × (p' q' : List ℕ) × (predict d dim_count 0 pr qc p q d.nought
          ≡ some predict_r)
        × (sample d pr qc p q ≡ some (p', q'))
        × Updated dim_count 0 pr qc (d.sub d.nought predict_r) p q p' q'
  unfolding sample
  sample-Updated pr qc p q hp hq =
      let (r, er) = predict_total dim_count 0 pr qc p q d.nought (omega arith) (omega arith) in
      let (p', q', e, u) =
        descend-Updated dim_count 0 pr qc (d.sub d.nought r) p q (omega arith) (omega arith) in
      (r, p', q', er, rw (er) e, u)

  samples_total :
      (random : ℕ → ℕ) (p_height q_height left sn : ℕ) (p q : List ℕ)
      → 0 < p_height
      → 0 < q_height
      → p_height * dim_count ≤ length p
      → q_height * dim_count ≤ length q
      → (p' q' : List ℕ) × (samples d random p_height q_height left sn p q ≡ some (p', q'))
        × (length p' ≡ length p)
        × (length q' ≡ length q)
  unfolding samples
  samples_total random p_height q_height zero sn p q a b hp hq = (p, q, refl, refl, refl)
  samples_total random p_height q_height (suc left) sn p q a b hp hq =
      let pr = random (2 * sn) % p_height in
      let qc = random (2 * sn + 1) % q_height in
      let p_lt : pr < p_height = mod-lt (random (2 * sn)) a in
      let q_lt : qc < q_height = mod-lt (random (2 * sn + 1)) b in
      let (r, p₁, q₁, er, e, u) = sample-Updated pr qc p q (omega arith) (omega arith) in
      let (p', q', e', lp, lq) =
        samples_total random p_height q_height left (sn + 1) p₁ q₁ a b
          (omega (arith, u.p_outside.0)) (omega (arith, u.q_outside.0)) in
      (p', q', rw e e', lp ∙ u.p_outside.0, lq ∙ u.q_outside.0)

pos→== : (n : ℕ) → 0 < n → (n == 0) ≡ false
pos→== n h = ground arith

-- With heights that are not zero and an element for each row and dimension, `FakeSubMF` returns,
-- whatever numbers are drawn: no access leaves an array, and the two blocks keep all but the values
-- of their elements.
pub fake_sub_mf_total :
    (d : Doubles) (random : ℕ → ℕ) (pb qb : Block)
    → 0 < pb.height
    → 0 < qb.height
    → pb.height * dim_count ≤ length pb.eles.words
    → qb.height * dim_count ≤ length qb.eles.words
    → (p q : List ℕ) × (fake_sub_mf d random pb qb
        ≡ some (
          record pb { eles = record (pb.eles) { words = p } },
          record qb { eles = record (qb.eles) { words = q } },
        ))
      × (length p ≡ length pb.eles.words)
      × (length q ≡ length qb.eles.words)
unfolding fake_sub_mf
fake_sub_mf_total d random pb qb a b hp hq =
    let (p, q, e, lp, lq) =
      samples_total d random pb.height qb.height sample_num 0 pb.eles.words qb.eles.words a b hp
        hq in
    (p, q, rw (pos→== pb.height a, pos→== qb.height b, e), lp, lq)

-- A height of zero is a division by zero.
pub fake_sub_mf_fault :
    (d : Doubles) (random : ℕ → ℕ) (pb qb : Block)
    → (pb.height ≡ 0) ⊎ (qb.height ≡ 0)
    → fake_sub_mf d random pb qb ≡ none
unfolding fake_sub_mf
fake_sub_mf_fault d random pb qb h = ground arith
