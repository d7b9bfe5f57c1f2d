-- ===== src/Gpu/Footprint.antt =====
-- The elements that the body of the kernel's two loops changes.
use stellar_bench.Base.{
  ℕ, zero, suc, ◌+◌, ◌*◌, ◌^◌, ◌≡◌, ◌≤◌, ◌<◌, refl, sym, ◌∙◌, Bool, true, false, Option, some, List,
  ltb, length, length-set, get_elem?, get_elem?-lt, get_elem?-set_self, get_elem?-set_ne, set,
  Bool-cases, inl, inr, arith,
}
use stellar_bench.Worker.Descent.{Doubles, step, put}
use stellar_bench.Worker.Safety.{put-set}
use stellar_bench.Gpu.{int, at_int, put_int, residual, update_cell, cell}

-- With at least one thread, the indices and the counters of the loops are `int`s.
pub record HasInts (dim row_height col_height wn : ℕ) : Type 0 where
  pub some_threads : 0 < wn
  pub row_indices : row_height * dim ≤ 2 ^ 31
  pub col_indices : col_height * dim ≤ 2 ^ 31
  pub rating_indices : row_height * col_height ≤ 2 ^ 31
  pub row_counter : row_height + wn ≤ 2 ^ 31
  pub col_counter : col_height + wn ≤ 2 ^ 31

pub int-same : (n : ℕ) → n < 2 ^ 31 → int n ≡ some n
unfolding int
int-same n h = ground arith

pub at_int-get : (xs : List ℕ) (i : ℕ) → i < 2 ^ 31 → at_int xs i ≡ get_elem? xs i
unfolding at_int
at_int-get xs i h = rw (int-same i h) refl

pub put_int-put : (xs : List ℕ) (i v : ℕ) → i < 2 ^ 31 → put_int xs i v ≡ put xs i v
unfolding put_int
put_int-put xs i v h = rw (int-same i h) refl

-- `x` is the index of an element of row `start`, `start + wn`, `start + 2 * wn` and so on.
abbrev pub Own : ℕ → ℕ → ℕ → ℕ → Type 0
Own dim wn start x = (i k m : ℕ) × (x ≡ i * dim + k) × (k < dim) × (i ≡ start + m * wn)

-- The same size, and the same elements outside of the thread's rows.
abbrev pub Keeps : ℕ → ℕ → ℕ → List ℕ → List ℕ → Type 0
Keeps dim wn start xs ys =
    (length ys ≡ length xs) × ((x : ℕ) → ¬ Own dim wn start x → get_elem? ys x ≡ get_elem? xs x)

pub row_end : (i h dim : ℕ) → i < h → i * dim + dim ≤ h * dim
row_end i h dim lt = grind arith

module _ (dim wn start : ℕ) where
  pub Keeps-refl : (xs : List ℕ) → Keeps dim wn start xs xs
  Keeps-refl xs = (refl, λ x out. refl)

  pub Keeps-trans :
      (xs ys zs : List ℕ)
      → Keeps dim wn start xs ys
      → Keeps dim wn start ys zs
      → Keeps dim wn start xs zs
  Keeps-trans xs ys zs a b = (b.0 ∙ a.0, λ x out. b.1 x out ∙ a.1 x out)

  Keeps-set :
      (xs : List ℕ) (i k m v : ℕ)
      → k < dim
      → i ≡ start + m * wn
      → Keeps dim wn start xs (set xs (i * dim + k) v)
  Keeps-set xs i k m v lt e = (
    length-set xs (i * dim + k) v,
    λ x out. get_elem?-set_ne xs v (λ same. out (i, k, m, sym same, lt, e)),
  )

-- A thread's work ends with arrays of the same sizes, changed only in its rows and in its columns.
abbrev pub Works : ℕ → ℕ → ℕ → ℕ → List ℕ → List ℕ → Option (List ℕ × List ℕ) → Type 0
Works dim wn r_rx r_cx rows cols out =
    (rows' cols' : List ℕ) × (out ≡ some (rows', cols'))
    × Keeps dim wn r_rx rows rows'
    × Keeps dim wn r_cx cols cols'

pub not_below : (i h : ℕ) → ltb i h ≡ false → h ≤ i
not_below i h e = ground arith

pub below : (i h : ℕ) → ltb i h ≡ true → i < h
below i h e = ground arith

pub next_step : (start m wn : ℕ) → start + m * wn + wn ≡ start + (m + 1) * wn
next_step start m wn = grind arith

module _ (d : Doubles) (is_zero : ℕ → Bool) (dim row_height col_height wn : ℕ)
    (rating_entries : List ℕ) (pos : HasInts dim row_height col_height wn)
    (rated : length rating_entries ≡ row_height * col_height) (r_rx r_cx : ℕ) where
  residual-total :
      (left k i j err : ℕ) (rows cols : List ℕ)
      → k + left ≤ dim
      → i * dim + dim ≤ length rows
      → j * dim + dim ≤ length cols
      → i * dim + dim ≤ 2 ^ 31
      → j * dim + dim ≤ 2 ^ 31
      → (e : ℕ) × (residual d is_zero dim row_height col_height wn rating_entries left k i j err
            rows cols
          ≡ some e)
  unfolding residual
  residual-total zero k i j err rows cols room hr hc ir ic = (err, refl)
  residual-total (suc left) k i j err rows cols room hr hc ir ic =
      let (a, ea) = get_elem?-lt rows (i * dim + k) (omega arith) in
      let (b, eb) = get_elem?-lt cols (j * dim + k) (omega arith) in
      let (e, run) =
        residual-total left (k + 1) i j (d.sub err (d.mul a b)) rows cols (omega arith) hr hc ir
          ic in
      (
        e,
        rw
            (
              at_int-get rows (i * dim + k) (omega arith),
              ea,
              at_int-get cols (j * dim + k) (omega arith),
              eb,
            )
            run,
      )

  module _ (i j m l : ℕ) (own_row : i ≡ r_rx + m * wn) (own_col : j ≡ r_cx + l * wn) where
    update_cell-Works :
        (left k err : ℕ) (rows cols : List ℕ)
        → k + left ≤ dim
        → i * dim + dim ≤ length rows
        → j * dim + dim ≤ length cols
        → i * dim + dim ≤ 2 ^ 31
        → j * dim + dim ≤ 2 ^ 31
        → Works dim wn r_rx r_cx rows cols (
            update_cell d is_zero dim row_height col_height wn rating_entries left k i j err rows
              cols)
    unfolding update_cell
    update_cell-Works zero k err rows cols room hr hc ir ic =
        (rows, cols, refl, Keeps-refl dim wn r_rx rows, Keeps-refl dim wn r_cx cols)
    update_cell-Works (suc left) k err rows cols room hr hc ir ic =
        let x = i * dim + k in
        let y = j * dim + k in
        let (a, ea) = get_elem?-lt rows x (omega arith) in
        let (b, eb) = get_elem?-lt cols y (omega arith) in
        let a' = step d err a b in
        let b' = step d err b a' in
        let (rows', cols', run, keeps_r, keeps_c) =
          update_cell-Works left (k + 1) err (set rows x a') (set cols y b') (omega arith)
            (omega (arith, length-set rows x a')) (omega (arith, length-set cols y b')) ir ic in
        (
          rows',
          cols',
          rw
              (
                at_int-get rows x (omega arith),
                ea,
                at_int-get cols y (omega arith),
                eb,
                put_int-put rows x a' (omega arith),
                put-set rows x a' (omega arith),
                at_int-get (set rows x a') x (omega arith),
                get_elem?-set_self rows x a' (omega arith),
                put_int-put cols y b' (omega arith),
                put-set cols y b' (omega arith),
              )
              run,
          Keeps-trans dim wn r_rx rows _ rows'
              (Keeps-set dim wn r_rx rows i k m a' (omega arith) own_row) keeps_r,
          Keeps-trans dim wn r_cx cols _ cols'
              (Keeps-set dim wn r_cx cols j k l b' (omega arith) own_col) keeps_c,
        )

    pub cell-Works :
        (rows cols : List ℕ)
        → i < row_height
        → j < col_height
        → length rows ≡ row_height * dim
        → length cols ≡ col_height * dim
        → Works dim wn r_rx r_cx rows cols
            (cell d is_zero dim row_height col_height wn rating_entries i j rows cols)
    unfolding cell
    cell-Works rows cols i_lt j_lt hr hc =
        let room_r : i * dim + dim ≤ length rows =
          omega (arith, hr, row_end i row_height dim i_lt) in
        let room_c : j * dim + dim ≤ length cols =
          omega (arith, hc, row_end j col_height dim j_lt) in
        let int_r : i * dim + dim ≤ 2 ^ 31 =
          omega (arith, pos.row_indices, row_end i row_height dim i_lt) in
        let int_c : j * dim + dim ≤ 2 ^ 31 =
          omega (arith, pos.col_indices, row_end j col_height dim j_lt) in
        let inside : i * col_height + j < row_height * col_height =
          omega (arith, row_end i row_height col_height i_lt) in
        let (err, e₀) =
          get_elem?-lt rating_entries (i * col_height + j) (omega (arith, rated, inside)) in
        let e =
          at_int-get rating_entries (i * col_height + j) (omega (arith, pos.rating_indices, inside))
          ∙ e₀ in
        let (left, e₁) =
          residual-total dim 0 i j err rows cols (omega arith) room_r room_c int_r int_c in
        let (rows', cols', e₂, keeps_r, keeps_c) =
          update_cell-Works dim 0 left rows cols (omega arith) room_r room_c int_r int_c in
        elim (Bool-cases (is_zero err)) [
          | inl zero_entry ↦ (
            rows,
            cols,
            rw (e, zero_entry) refl,
            Keeps-refl dim wn r_rx rows,
            Keeps-refl dim wn r_cx cols,
          )
          | inr rating ↦ (rows', cols', rw (e, rating, e₁) e₂, keeps_r, keeps_c)
        ]
