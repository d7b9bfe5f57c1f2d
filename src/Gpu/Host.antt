-- ===== src/Gpu/Host.antt =====
-- gpu_mf of gpu_mf.cu: the arrays go to the device, a hundred launches of the kernel follow, each with the
-- ids shuffled anew, and the two factors come back. `random_shuffle` is `shuffle_rows` and
-- `shuffle_cols`, which are given the number of the launch. The threads of a launch share the arrays
-- and may run in any order; here they run one after another, in the order `order` has for the launch.
-- `cudaMalloc` and `cudaMemcpy` succeed; the sizes that they are given are `size_t`, of 64 bits, and of
-- arrays with at most 2^31 entries.
use stellar_bench.Base.{
  ℕ, zero, suc, ◌+◌, ◌*◌, ◌>>=◌, Bool, Option, none, some, List, [], ◌∷◌, leb, length, take,
  if◌then◌else◌,
}
use stellar_bench.Worker.Descent.{Doubles, put}
use stellar_bench.Wire.{overwrite}
use stellar_bench.Gpu.{cuda_mf}

-- `cudaMemcpy` of `n` elements to the device.
unfoldable pub to_device : List ℕ → ℕ → Option (List ℕ)
to_device xs n = if leb n (length xs) then some (take n xs) else none

-- The loop that sets entry `i` to `i`, from `i` on, with the rounds that are left.
unfoldable pub number_from : ℕ → ℕ → List ℕ → Option (List ℕ)
unfolding put
number_from zero i ids = some ids
number_from (suc left) i ids = do ids' ← put ids i i; number_from left (i + 1) ids'

-- What is random in a call.
pub record Chance : Type 0 where
  pub shuffle_rows : ℕ → List ℕ → List ℕ
  pub shuffle_cols : ℕ → List ℕ → List ℕ
  pub order : ℕ → List ℕ

abbrev pub iter_num : ℕ
iter_num = 100

module _ (d : Doubles) (is_zero : ℕ → Bool) (dim row_height col_height wn : ℕ) where
  -- The threads of a launch.
  unfoldable pub launch :
      List ℕ → List ℕ → List ℕ → List ℕ → List ℕ → List ℕ → Option (List ℕ × List ℕ)
  unfolding cuda_mf
  launch ratings row_ids col_ids [] rows cols = some (rows, cols)
  launch ratings row_ids col_ids (tid ∷ order) rows cols =
      cuda_mf d is_zero dim row_height col_height wn ratings row_ids col_ids tid rows cols
      >>= λ (r, c). launch ratings row_ids col_ids order r c

  -- The loop over `iter`, with the rounds that are left.
  unfoldable pub launches :
      Chance → List ℕ → ℕ → ℕ → List ℕ → List ℕ → List ℕ → List ℕ → Option (List ℕ × List ℕ)
  unfolding number_from to_device launch
  launches ch ratings zero iter random_row_id random_col_id rows cols = some (rows, cols)
  launches ch ratings (suc left) iter random_row_id random_col_id rows cols = do
    row_ids ← number_from wn 0 random_row_id
    col_ids ← number_from wn 0 random_col_id
    let row_ids' = ch.shuffle_rows iter row_ids
    let col_ids' = ch.shuffle_cols iter col_ids
    d_row_ids ← to_device row_ids' wn
    d_col_ids ← to_device col_ids' wn
    (r, c) ← launch ratings d_row_ids d_col_ids (ch.order iter) rows cols
    launches ch ratings left (iter + 1) row_ids' col_ids' r c

  unfoldable pub gpu_mf :
      Chance → List ℕ → List ℕ → List ℕ → List ℕ → List ℕ → Option (List ℕ × List ℕ)
  unfolding launches to_device overwrite
  gpu_mf ch row_eles col_eles rating_entries random_row_id random_col_id = do
    d_row_eles ← to_device row_eles (row_height * dim)
    d_col_eles ← to_device col_eles (col_height * dim)
    d_rating_entries ← to_device rating_entries (row_height * col_height)
    (r, c) ←
        launches ch d_rating_entries iter_num 0 random_row_id random_col_id d_row_eles d_col_eles
    row_eles' ← overwrite row_eles r
    col_eles' ← overwrite col_eles c
    some (row_eles', col_eles')
