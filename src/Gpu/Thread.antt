-- ===== src/Gpu/Thread.antt =====
-- A whole thread of the kernel, and two of them.
use stellar_bench.Base.{
  ℕ, zero, suc, ◌+◌, ◌*◌, ◌≡◌, ◌≢◌, ◌≤◌, ◌<◌, refl, sym, ap, ◌∙◌, Bool, some, List, ltb, length,
  get_elem?, Bool-cases, inl, inr, arith, some_inj,
}
use stellar_bench.Worker.Descent.{Doubles}
use stellar_bench.Gpu.{over_cols, over_rows, cuda_mf}
use stellar_bench.Gpu.Footprint.{
  Own, HasInts, int-same, Works, Keeps-refl, Keeps-trans, below, next_step, cell-Works,
}

module _ (d : Doubles) (is_zero : ℕ → Bool) (dim row_height col_height wn : ℕ)
    (rating_entries : List ℕ) (pos : HasInts dim row_height col_height wn)
    (rated : length rating_entries ≡ row_height * col_height) (r_rx r_cx : ℕ) where
  over_cols-Works :
      (fuel i j m l : ℕ) (rows cols : List ℕ)
      → i ≡ r_rx + m * wn
      → j ≡ r_cx + l * wn
      → i < row_height
      → col_height ≤ j + fuel
      → length rows ≡ row_height * dim
      → length cols ≡ col_height * dim
      → Works dim wn r_rx r_cx rows cols
          (over_cols d is_zero dim row_height col_height wn rating_entries fuel i j rows cols)
  unfolding over_cols
  over_cols-Works zero i j m l rows cols own_row own_col i_lt room hr hc =
      elim (Bool-cases (ltb j col_height)) [
        | inl inside ↦ absurd (omega (arith, below j col_height inside, room))
        | inr over ↦
            (rows, cols, rw over refl, Keeps-refl dim wn r_rx rows, Keeps-refl dim wn r_cx cols)
      ]
  over_cols-Works (suc fuel) i j m l rows cols own_row own_col i_lt room hr hc =
      elim (Bool-cases (ltb j col_height)) [
        | inr over ↦
            (rows, cols, rw over refl, Keeps-refl dim wn r_rx rows, Keeps-refl dim wn r_cx cols)
        | inl inside ↦
            let (rows₁, cols₁, e₁, keeps_r₁, keeps_c₁) =
              cell-Works d is_zero dim row_height col_height wn rating_entries pos rated r_rx r_cx i
                j m l own_row own_col rows cols i_lt (below j col_height inside) hr hc in
            let (rows₂, cols₂, e₂, keeps_r₂, keeps_c₂) =
              over_cols-Works fuel i (j + wn) m (l + 1) rows₁ cols₁ own_row
                (ap (λ (x : ℕ). x + wn) own_col ∙ next_step r_cx l wn) i_lt
                (omega (arith, pos.some_threads)) (keeps_r₁.0 ∙ hr) (keeps_c₁.0 ∙ hc) in
            (
              rows₂,
              cols₂,
              rw
                  (
                    inside,
                    e₁,
                    int-same (j + wn) (omega (arith, below j col_height inside, pos.col_counter)),
                  )
                  e₂,
              Keeps-trans dim wn r_rx rows rows₁ rows₂ keeps_r₁ keeps_r₂,
              Keeps-trans dim wn r_cx cols cols₁ cols₂ keeps_c₁ keeps_c₂,
            )
      ]

  over_rows-Works :
      (fuel i m : ℕ) (rows cols : List ℕ)
      → i ≡ r_rx + m * wn
      → row_height ≤ i + fuel
      → length rows ≡ row_height * dim
      → length cols ≡ col_height * dim
      → Works dim wn r_rx r_cx rows cols
          (over_rows d is_zero dim row_height col_height wn rating_entries fuel i r_cx rows cols)
  unfolding over_rows
  over_rows-Works zero i m rows cols own_row room hr hc = elim (Bool-cases (ltb i row_height)) [
    | inl inside ↦ absurd (omega (arith, below i row_height inside, room))
    | inr over ↦
        (rows, cols, rw over refl, Keeps-refl dim wn r_rx rows, Keeps-refl dim wn r_cx cols)
  ]
  over_rows-Works (suc fuel) i m rows cols own_row room hr hc =
      elim (Bool-cases (ltb i row_height)) [
        | inr over ↦
            (rows, cols, rw over refl, Keeps-refl dim wn r_rx rows, Keeps-refl dim wn r_cx cols)
        | inl inside ↦
            let (rows₁, cols₁, e₁, keeps_r₁, keeps_c₁) =
              over_cols-Works col_height i r_cx m 0 rows cols own_row (omega arith)
                (below i row_height inside) (omega arith) hr hc in
            let (rows₂, cols₂, e₂, keeps_r₂, keeps_c₂) =
              over_rows-Works fuel (i + wn) (m + 1) rows₁ cols₁
                (ap (λ (x : ℕ). x + wn) own_row ∙ next_step r_rx m wn)
                (omega (arith, pos.some_threads)) (keeps_r₁.0 ∙ hr) (keeps_c₁.0 ∙ hc) in
            (
              rows₂,
              cols₂,
              rw
                  (
                    inside,
                    e₁,
                    int-same (i + wn) (omega (arith, below i row_height inside, pos.row_counter)),
                  )
                  e₂,
              Keeps-trans dim wn r_rx rows rows₁ rows₂ keeps_r₁ keeps_r₂,
              Keeps-trans dim wn r_cx cols cols₁ cols₂ keeps_c₁ keeps_c₂,
            )
      ]

-- Two starts below `wn` that share an element are the same.
same_row : (dim i j k l : ℕ) → i * dim + k ≡ j * dim + l → k < dim → l < dim → i ≡ j
same_row dim i j k l e k_lt l_lt = grind arith

same_start : (wn a b m n : ℕ) → a + m * wn ≡ b + n * wn → a < wn → b < wn → a ≡ b
same_start wn a b m n e a_lt b_lt =
    let turns : m ≡ n = same_row wn m n a b (omega (arith, e)) a_lt b_lt in
    omega (arith, e, ap (λ (k : ℕ). k * wn) turns)

pub Own-same : (dim wn a b x : ℕ) → a < wn → b < wn → Own dim wn a x → Own dim wn b x → a ≡ b
Own-same dim wn a b x a_lt b_lt (i, k, m, ex, k_lt, ei) (j, l, n, ey, l_lt, ej) =
    let rows : i ≡ j = same_row dim i j k l (sym ex ∙ ey) k_lt l_lt in
    same_start wn a b m n (sym ei ∙ rows ∙ ej) a_lt b_lt

-- With at least one thread, arrays of the sizes that gpu_mf allocates, and indices and counters that
-- are `int`s (`HasInts`), a thread of the kernel ends, it
-- stays within its arrays, and it changes only elements of its own rows and columns.
pub cuda_mf-Works :
    (d : Doubles) (is_zero : ℕ → Bool) (dim row_height col_height wn : ℕ)
    (rating_entries random_row_id random_col_id rows cols : List ℕ) (tid r_rx r_cx : ℕ)
    → HasInts dim row_height col_height wn
    → length rating_entries ≡ row_height * col_height
    → length rows ≡ row_height * dim
    → length cols ≡ col_height * dim
    → get_elem? random_row_id tid ≡ some r_rx
    → get_elem? random_col_id tid ≡ some r_cx
    → Works dim wn r_rx r_cx rows cols (
        cuda_mf d is_zero dim row_height col_height wn rating_entries random_row_id random_col_id
          tid rows cols)
unfolding cuda_mf
cuda_mf-Works d is_zero dim row_height col_height wn rating_entries random_row_id random_col_id rows
      cols tid r_rx r_cx pos rated hr hc er ec =
    rw (er, ec)
      (over_rows-Works d is_zero dim row_height col_height wn rating_entries pos rated r_rx r_cx
        row_height r_rx 0 rows cols (omega arith) (omega arith) hr hc)

-- With at least one thread, arrays of the sizes that gpu_mf allocates, and indices and counters that
-- are `int`s (`HasInts`), of two threads with different rows and columns to start from, below `wn`,
-- neither changes an element of the other's rows or columns.
pub cuda_mf-disjoint :
    (d : Doubles) (is_zero : ℕ → Bool) (dim row_height col_height wn : ℕ)
    (rating_entries random_row_id random_col_id rows cols rows' cols' : List ℕ)
    (tid r_rx r_cx other_rx other_cx x y : ℕ)
    → HasInts dim row_height col_height wn
    → length rating_entries ≡ row_height * col_height
    → length rows ≡ row_height * dim
    → length cols ≡ col_height * dim
    → get_elem? random_row_id tid ≡ some r_rx
    → get_elem? random_col_id tid ≡ some r_cx
    → r_rx < wn
    → r_cx < wn
    → other_rx < wn
    → other_cx < wn
    → other_rx ≢ r_rx
    → other_cx ≢ r_cx
    → cuda_mf d is_zero dim row_height col_height wn rating_entries random_row_id random_col_id tid
        rows cols
      ≡ some (rows', cols')
    → Own dim wn other_rx x
    → Own dim wn other_cx y
    → (get_elem? rows' x ≡ get_elem? rows x) × (get_elem? cols' y ≡ get_elem? cols y)
cuda_mf-disjoint d is_zero dim row_height col_height wn rating_entries random_row_id random_col_id
      rows cols rows' cols' tid r_rx r_cx other_rx other_cx x y pos rated hr hc er ec r_lt c_lt
      or_lt oc_lt r_ne c_ne run other_r other_c =
    let (rows₁, cols₁, e, keeps_r, keeps_c) =
      cuda_mf-Works d is_zero dim row_height col_height wn rating_entries random_row_id
        random_col_id rows cols tid r_rx r_cx pos rated hr hc er ec in
    let same = some_inj (sym e ∙ run) in
    (
      ap (λ z. get_elem? z.0 x) (sym same)
          ∙ keeps_r.1 x (λ own. r_ne (Own-same dim wn other_rx r_rx x or_lt r_lt other_r own)),
      ap (λ z. get_elem? z.1 y) (sym same)
          ∙ keeps_c.1 y (λ own. c_ne (Own-same dim wn other_cx r_cx y oc_lt c_lt other_c own)),
    )
