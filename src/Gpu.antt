-- ===== src/Gpu.antt =====
-- The kernel of cuda_kernel_mf.cu, which gpu_mf.cu launches: gradient descent by `wn` threads, each with a
-- row and a column to start from, in steps of `wn`. A read or write outside of an array is the fault
-- `none`, and so are an `int` that overflows and a loop that does not end. `is_zero` tells whether a
-- `double` equals 0; `yita` and `theta` of `Doubles` are 0.2 here.
pub mod Footprint
pub mod Thread
pub mod Host
pub mod Ids
pub mod Launches
pub mod Agree
pub mod Alike
pub mod Meet
pub mod Order
pub mod AnyOrder
mod Tests
use stellar_bench.Base.{
  ℕ, zero, suc, ◌+◌, ◌*◌, ◌^◌, Bool, Option, some, none, List, ltb, get_elem?, if◌then◌else◌, ◌>>=◌,
}
use stellar_bench.Worker.Descent.{Doubles, put, step}

-- The value of an `int` expression that is not negative.
unfoldable pub int : ℕ → Option ℕ
int n = if ltb n (2 ^ 31) then some n else none

-- A read and a write at an index that is an `int`.
unfoldable pub at_int : List ℕ → ℕ → Option ℕ
unfolding int
at_int xs i = int i >>= get_elem? xs

unfoldable pub put_int : List ℕ → ℕ → ℕ → Option (List ℕ)
unfolding int put
put_int xs i v = do n ← int i; put xs n v

module _ (d : Doubles) (is_zero : ℕ → Bool) (dim row_height col_height wn : ℕ)
    (rating_entries : List ℕ) where
  -- The first loop over `k`, which takes the products from `err`, with the rounds that are left.
  unfoldable pub residual : ℕ → ℕ → ℕ → ℕ → ℕ → List ℕ → List ℕ → Option ℕ
  unfolding at_int
  residual zero k i j err rows cols = some err
  residual (suc left) k i j err rows cols = do
    a ← at_int rows (i * dim + k)
    b ← at_int cols (j * dim + k)
    residual left (k + 1) i j (d.sub err (d.mul a b)) rows cols

  -- The second loop over `k`: the column's element is updated from the new element of the row.
  unfoldable pub update_cell : ℕ → ℕ → ℕ → ℕ → ℕ → List ℕ → List ℕ → Option (List ℕ × List ℕ)
  unfolding step put_int at_int
  update_cell zero k i j err rows cols = some (rows, cols)
  update_cell (suc left) k i j err rows cols = do
    a ← at_int rows (i * dim + k)
    b ← at_int cols (j * dim + k)
    rows' ← put_int rows (i * dim + k) (step d err a b)
    a' ← at_int rows' (i * dim + k)
    cols' ← put_int cols (j * dim + k) (step d err b a')
    update_cell left (k + 1) i j err rows' cols'

  -- The body of the loop over `j`: an entry that is 0 is no rating.
  unfoldable pub cell : ℕ → ℕ → List ℕ → List ℕ → Option (List ℕ × List ℕ)
  unfolding residual update_cell at_int
  cell i j rows cols = do
    err ← at_int rating_entries (i * col_height + j)
    let rated = residual dim 0 i j err rows cols >>= λ e. update_cell dim 0 i j e rows cols
    if is_zero err then some (rows, cols) else rated

  -- The loop over `j`; `fuel` bounds its rounds.
  unfoldable pub over_cols : ℕ → ℕ → ℕ → List ℕ → List ℕ → Option (List ℕ × List ℕ)
  unfolding cell int
  over_cols zero i j rows cols = if ltb j col_height then none else some (rows, cols)
  over_cols (suc fuel) i j rows cols =
      let round = do (r, c) ← cell i j rows cols; j' ← int (j + wn); over_cols fuel i j' r c
      in if ltb j col_height then round else some (rows, cols)

  -- The loop over `i`.
  unfoldable pub over_rows : ℕ → ℕ → ℕ → List ℕ → List ℕ → Option (List ℕ × List ℕ)
  unfolding over_cols int
  over_rows zero i r_cx rows cols = if ltb i row_height then none else some (rows, cols)
  over_rows (suc fuel) i r_cx rows cols =
      let round = do
        (r, c) ← over_cols col_height i r_cx rows cols
        i' ← int (i + wn)
        over_rows fuel i' r_cx r c
      in if ltb i row_height then round else some (rows, cols)

  -- Thread `tid`.
  unfoldable pub cuda_mf : List ℕ → List ℕ → ℕ → List ℕ → List ℕ → Option (List ℕ × List ℕ)
  unfolding over_rows
  cuda_mf random_row_id random_col_id tid rows cols = do
    r_rx ← get_elem? random_row_id tid
    r_cx ← get_elem? random_col_id tid
    over_rows row_height r_rx r_cx rows cols
