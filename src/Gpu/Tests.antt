-- ===== src/Gpu/Tests.antt =====
-- Two threads on three rows and two columns of one element, with numbers for the bit patterns.
use mathlib.Core.List.{Permᴰ}
use stellar_bench.Base.{ℕ, ◌+◌, ◌-◌, ◌*◌, ◌==◌, ◌≡◌, refl, some, List, [], ◌∷◌, get_elem?, arith}
use stellar_bench.Worker.Descent.{Doubles}
use stellar_bench.Gpu.{cuda_mf}
use stellar_bench.Gpu.Footprint.{HasInts}
use stellar_bench.Gpu.Host.{Chance, launch, gpu_mf}
use stellar_bench.Gpu.Launches.{IsFair, HasArrays, gpu_mf-HasArrays}
use stellar_bench.Gpu.AnyOrder.{reordered, gpu_mf-any_order}
use stellar_bench.Gpu.Thread.{cuda_mf-disjoint}

abbrev numbers : Doubles
numbers = record {
  nought = 0;
  yita = 1;
  theta = 0;
  add = λ a b. a + b;
  sub = λ a b. a - b;
  mul = λ a b. a * b;
}

abbrev ratings : List ℕ
ratings = 9 ∷ 8 ∷ 7 ∷ 6 ∷ 5 ∷ 4 ∷ []

-- The rows and the columns to start from: thread 0 has row 1 and column 0.
abbrev row_ids : List ℕ
row_ids = 1 ∷ 0 ∷ []

abbrev col_ids : List ℕ
col_ids = 0 ∷ 1 ∷ []

abbrev rows : List ℕ
rows = 1 ∷ 2 ∷ 3 ∷ []

abbrev cols : List ℕ
cols = 1 ∷ 1 ∷ []

run_of_0 :
    cuda_mf numbers (λ x. x == 0) 1 3 2 2 ratings row_ids col_ids 0 rows cols
    ≡ some (1 ∷ 7 ∷ 3 ∷ [], 36 ∷ 1 ∷ [])
unfolding cuda_mf
run_of_0 = refl

few-HasInts : HasInts 1 3 2 2
few-HasInts = record {
  some_threads = omega arith;
  row_indices = omega arith;
  col_indices = omega arith;
  rating_indices = omega arith;
  row_counter = omega arith;
  col_counter = omega arith;
}

-- The element of row 2, which is thread 1's, and that of column 1.
cuda_mf-disjoint_example :
    (get_elem? (1 ∷ 7 ∷ 3 ∷ []) 2 ≡ get_elem? rows 2)
    × (get_elem? (36 ∷ 1 ∷ []) 1 ≡ get_elem? cols 1)
cuda_mf-disjoint_example =
    cuda_mf-disjoint numbers (λ x. x == 0) 1 3 2 2 ratings row_ids col_ids rows cols
      (1 ∷ 7 ∷ 3 ∷ []) (36 ∷ 1 ∷ []) 0 1 0 0 1 2 1 few-HasInts refl refl refl refl refl
      (omega arith) (omega arith) (omega arith) (omega arith) (omega arith) (omega arith) run_of_0
      (2, 0, 1, refl, omega arith, refl) (1, 0, 0, refl, omega arith, refl)

-- Shuffles that leave the ids as they are, and thread 0 before thread 1.
abbrev chance : Chance
chance = record {
  shuffle_rows = λ iter ids. ids;
  shuffle_cols = λ iter ids. ids;
  order = λ iter. 0 ∷ 1 ∷ [];
}

same_ids : (ids : List ℕ) → Permᴰ ids ids
same_ids [] = Permᴰ.nil
same_ids (x ∷ xs) = Permᴰ.cons refl (same_ids xs)

chance-IsFair : IsFair 2 chance
chance-IsFair = record {
  rows = λ iter. same_ids;
  cols = λ iter. same_ids;
  threads = λ iter. (omega arith, (omega arith, tt));
}

gpu_mf-HasArrays_example :
    HasArrays numbers
      (λ x. x == 0)
      1
      3
      2
      2
      few-HasInts
      ratings
      refl
      (gpu_mf numbers (λ x. x == 0) 1 3 2 2 chance rows cols ratings row_ids col_ids)
gpu_mf-HasArrays_example =
    gpu_mf-HasArrays numbers (λ x. x == 0) 1 3 2 2 few-HasInts ratings refl chance chance-IsFair
      rows cols row_ids col_ids refl refl refl refl

gpu_mf-any_order_example :
    gpu_mf numbers (λ x. x == 0) 1 3 2 2 chance rows cols ratings row_ids col_ids
    ≡ gpu_mf numbers
        (λ x. x == 0)
        1
        3
        2
        2
        (reordered chance (λ iter. 1 ∷ 0 ∷ []))
        rows
        cols
        ratings
        row_ids
        col_ids
gpu_mf-any_order_example =
    gpu_mf-any_order numbers (λ x. x == 0) 1 3 2 2 few-HasInts ratings refl chance chance-IsFair
      (λ iter. 1 ∷ 0 ∷ []) (λ iter. Permᴰ.swap refl refl) rows cols row_ids col_ids refl refl refl
      refl

-- A launch by two threads, in both orders.
launch_in_order :
    launch numbers (λ x. x == 0) 1 3 2 2 ratings row_ids col_ids (0 ∷ 1 ∷ []) rows cols
    ≡ launch numbers (λ x. x == 0) 1 3 2 2 ratings row_ids col_ids (1 ∷ 0 ∷ []) rows cols
unfolding launch cuda_mf
launch_in_order = refl
