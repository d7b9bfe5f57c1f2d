-- ===== src/Gpu/Agree.antt =====
-- What a thread of the kernel reads: on arrays that agree on its rows and columns it does the same.
use stellar_bench.Base.{
  ℕ, zero, suc, ◌+◌, ◌*◌, ◌^◌, ◌≡◌, ◌≤◌, ◌<◌, refl, sym, ◌∙◌, Bool, Option, some, List, ◌==◌,
  length, length-set, get_elem?, get_elem?-lt, get_elem?-set_self, get_elem?-set_ne, set,
  Bool-cases, inl, inr, arith,
}
use stellar_bench.Worker.Descent.{Doubles, step}
use stellar_bench.Worker.Safety.{put-set}
use stellar_bench.Gpu.{residual, update_cell, cell}
use stellar_bench.Gpu.Footprint.{Own, HasInts, at_int-get, put_int-put, row_end}

-- The same size, and the same elements in the thread's rows.
pub record Agrees (dim wn start : ℕ) (xs ys : List ℕ) : Type 0 where
  pub size : length ys ≡ length xs
  pub same : (x : ℕ) → Own dim wn start x → get_elem? ys x ≡ get_elem? xs x

-- Two runs of a thread's work end, with arrays of the sizes that they had, which agree.
pub record Both (dim wn r_rx r_cx : ℕ) (rows cols : List ℕ) (out out' : Option (List ℕ × List ℕ))
    : Type 0 where
  pub rows₁ : List ℕ
  pub cols₁ : List ℕ
  pub rows₂ : List ℕ
  pub cols₂ : List ℕ
  pub first : out ≡ some (rows₁, cols₁)
  pub second : out' ≡ some (rows₂, cols₂)
  pub row_size : length rows₁ ≡ length rows
  pub col_size : length cols₁ ≡ length cols
  pub row_agrees : Agrees dim wn r_rx rows₁ rows₂
  pub col_agrees : Agrees dim wn r_cx cols₁ cols₂

module _ (dim wn start : ℕ) where
  Agrees-set :
      (xs ys : List ℕ) (i v : ℕ)
      → i < length xs
      → Agrees dim wn start xs ys
      → Agrees dim wn start (set xs i v) (set ys i v)
  Agrees-set xs ys i v inside a = record {
    size = length-set ys i v ∙ a.size ∙ sym (length-set xs i v);
    same = λ x own. elim (Bool-cases (i == x)) [
      | inl here ↦
          let e : i ≡ x = ground arith in
          rw (← e) (
            get_elem?-set_self ys i v (omega (arith, a.size, inside))
            ∙ sym (get_elem?-set_self xs i v inside))
      | inr there ↦
          get_elem?-set_ne ys v (λ e. ground arith)
          ∙ a.same x own
          ∙ sym (get_elem?-set_ne xs v (λ e. ground arith))
    ];
  }

module _ (d : Doubles) (is_zero : ℕ → Bool) (dim row_height col_height wn : ℕ) (ratings : List ℕ)
    (rated : length ratings ≡ row_height * col_height) (pos : HasInts dim row_height col_height wn)
    (r_rx r_cx : ℕ) where
  pub done :
      (rows cols rows' cols' : List ℕ)
      → Agrees dim wn r_rx rows rows'
      → Agrees dim wn r_cx cols cols'
      → Both dim wn r_rx r_cx rows cols (some (rows, cols)) (some (rows', cols'))
  done rows cols rows' cols' ar ac = record {
    rows₁ = rows;
    cols₁ = cols;
    rows₂ = rows';
    cols₂ = cols';
    first = refl;
    second = refl;
    row_size = refl;
    col_size = refl;
    row_agrees = ar;
    col_agrees = ac;
  }

  -- The rest of the work after a first part.
  pub later :
      {rows cols : List ℕ} {mid mid' out out' : Option (List ℕ × List ℕ)}
      (b : Both dim wn r_rx r_cx rows cols mid mid')
      → Both dim wn r_rx r_cx b.rows₁ b.cols₁ out out'
      → Both dim wn r_rx r_cx rows cols out out'
  later b c = record {
    rows₁ = c.rows₁;
    cols₁ = c.cols₁;
    rows₂ = c.rows₂;
    cols₂ = c.cols₂;
    first = c.first;
    second = c.second;
    row_size = c.row_size ∙ b.row_size;
    col_size = c.col_size ∙ b.col_size;
    row_agrees = c.row_agrees;
    col_agrees = c.col_agrees;
  }

  module _ (i j m l : ℕ) (own_row : i ≡ r_rx + m * wn) (own_col : j ≡ r_cx + l * wn) where
    residual-same :
        (left k err : ℕ) (rows cols rows' cols' : List ℕ)
        → k + left ≤ dim
        → i * dim + dim ≤ length rows
        → j * dim + dim ≤ length cols
        → i * dim + dim ≤ 2 ^ 31
        → j * dim + dim ≤ 2 ^ 31
        → Agrees dim wn r_rx rows rows'
        → Agrees dim wn r_cx cols cols'
        → (e : ℕ) × (residual d is_zero dim row_height col_height wn ratings left k i j err rows
              cols
            ≡ some e)
          × (residual d is_zero dim row_height col_height wn ratings left k i j err rows' cols'
              ≡ some e)
    unfolding residual
    residual-same zero k err rows cols rows' cols' room hr hc ir ic ar ac = (err, refl, refl)
    residual-same (suc left) k err rows cols rows' cols' room hr hc ir ic ar ac =
        let (a, ea) = get_elem?-lt rows (i * dim + k) (omega arith) in
        let (b, eb) = get_elem?-lt cols (j * dim + k) (omega arith) in
        let ea' = ar.same (i * dim + k) (i, k, m, refl, omega arith, own_row) ∙ ea in
        let eb' = ac.same (j * dim + k) (j, k, l, refl, omega arith, own_col) ∙ eb in
        let (e, run, run') =
          residual-same left (k + 1) (d.sub err (d.mul a b)) rows cols rows' cols' (omega arith) hr
            hc ir ic ar ac in
        (
          e,
          rw
              (
                at_int-get rows (i * dim + k) (omega arith),
                ea,
                at_int-get cols (j * dim + k) (omega arith),
                eb,
              )
              run,
          rw
              (
                at_int-get rows' (i * dim + k) (omega arith),
                ea',
                at_int-get cols' (j * dim + k) (omega arith),
                eb',
              )
              run',
        )

    update_cell-Both :
        (left k err : ℕ) (rows cols rows' cols' : List ℕ)
        → k + left ≤ dim
        → i * dim + dim ≤ length rows
        → j * dim + dim ≤ length cols
        → i * dim + dim ≤ 2 ^ 31
        → j * dim + dim ≤ 2 ^ 31
        → Agrees dim wn r_rx rows rows'
        → Agrees dim wn r_cx cols cols'
        → Both dim wn r_rx r_cx rows cols
            (update_cell d is_zero dim row_height col_height wn ratings left k i j err rows cols)
            (update_cell d is_zero dim row_height col_height wn ratings left k i j err rows' cols')
    unfolding update_cell
    update_cell-Both zero k err rows cols rows' cols' room hr hc ir ic ar ac =
        done rows cols rows' cols' ar ac
    update_cell-Both (suc left) k err rows cols rows' cols' room hr hc ir ic ar ac =
        let x = i * dim + k in
        let y = j * dim + k in
        let (a, ea) = get_elem?-lt rows x (omega arith) in
        let (b, eb) = get_elem?-lt cols y (omega arith) in
        let ea' = ar.same x (i, k, m, refl, omega arith, own_row) ∙ ea in
        let eb' = ac.same y (j, k, l, refl, omega arith, own_col) ∙ eb in
        let a' = step d err a b in
        let b' = step d err b a' in
        let rest =
          update_cell-Both left (k + 1) err (set rows x a') (set cols y b') (set rows' x a')
            (set cols' y b') (omega arith) (omega (arith, length-set rows x a'))
            (omega (arith, length-set cols y b')) ir ic
            (Agrees-set dim wn r_rx rows rows' x a' (omega arith) ar)
            (Agrees-set dim wn r_cx cols cols' y b' (omega arith) ac) in
        record {
          rows₁ = rest.rows₁;
          cols₁ = rest.cols₁;
          rows₂ = rest.rows₂;
          cols₂ = rest.cols₂;
          first =
              rw
                (
                  at_int-get rows x (omega arith),
                  ea,
                  at_int-get cols y (omega arith),
                  eb,
                  put_int-put rows x a' (omega arith),
                  put-set rows x a' (omega arith),
                  at_int-get (set rows x a') x (omega arith),
                  get_elem?-set_self rows x a' (omega arith),
                  put_int-put cols y b' (omega arith),
                  put-set cols y b' (omega arith),
                )
                rest.first;
          second =
              rw
                (
                  at_int-get rows' x (omega arith),
                  ea',
                  at_int-get cols' y (omega arith),
                  eb',
                  put_int-put rows' x a' (omega arith),
                  put-set rows' x a' (omega (arith, ar.size)),
                  at_int-get (set rows' x a') x (omega arith),
                  get_elem?-set_self rows' x a' (omega (arith, ar.size)),
                  put_int-put cols' y b' (omega arith),
                  put-set cols' y b' (omega (arith, ac.size)),
                )
                rest.second;
          row_size = rest.row_size ∙ length-set rows x a';
          col_size = rest.col_size ∙ length-set cols y b';
          row_agrees = rest.row_agrees;
          col_agrees = rest.col_agrees;
        }

    pub cell-Both :
        (rows cols rows' cols' : List ℕ)
        → i < row_height
        → j < col_height
        → length rows ≡ row_height * dim
        → length cols ≡ col_height * dim
        → Agrees dim wn r_rx rows rows'
        → Agrees dim wn r_cx cols cols'
        → Both dim wn r_rx r_cx rows cols
            (cell d is_zero dim row_height col_height wn ratings i j rows cols)
            (cell d is_zero dim row_height col_height wn ratings i j rows' cols')
    unfolding cell
    cell-Both rows cols rows' cols' i_lt j_lt hr hc ar ac =
        let room_r : i * dim + dim ≤ length rows =
          omega (arith, hr, row_end i row_height dim i_lt) in
        let room_c : j * dim + dim ≤ length cols =
          omega (arith, hc, row_end j col_height dim j_lt) in
        let int_r : i * dim + dim ≤ 2 ^ 31 =
          omega (arith, pos.row_indices, row_end i row_height dim i_lt) in
        let int_c : j * dim + dim ≤ 2 ^ 31 =
          omega (arith, pos.col_indices, row_end j col_height dim j_lt) in
        let inside : i * col_height + j < row_height * col_height =
          omega (arith, row_end i row_height col_height i_lt) in
        let (err, e₀) = get_elem?-lt ratings (i * col_height + j) (omega (arith, rated, inside)) in
        let e =
          at_int-get ratings (i * col_height + j) (omega (arith, pos.rating_indices, inside))
          ∙ e₀ in
        let (left, e₁, e₁') =
          residual-same dim 0 err rows cols rows' cols' (omega arith) room_r room_c int_r int_c ar
            ac in
        elim (Bool-cases (is_zero err)) [
          | inl zero_entry ↦ rw (e, zero_entry) (done rows cols rows' cols' ar ac)
          | inr rating ↦
              rw (e, rating, e₁, e₁')
                (update_cell-Both dim 0 left rows cols rows' cols' (omega arith) room_r room_c int_r
                  int_c ar ac)
        ]
