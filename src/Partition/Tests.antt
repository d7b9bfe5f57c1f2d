-- ===== src/Partition/Tests.antt =====
-- Ten rows in four blocks, and the theorems of Partition at that input.
use stellar_bench.Base.{ℕ, ◌<◌, ◌≡◌, refl, some, List, [], ◌∷◌, map, arith, replicate}
use mathlib.Core.Option
use stellar_bench.Block.{Block, Region}
use stellar_bench.Partition.{partition_block}
use stellar_bench.Partition.Cover.{Owner, partition_block-Owner}

abbrev blank : Block
blank = record {
  block_id = 7;
  data_age = 7;
  sta_idx = 7;
  height = 7;
  ele_num = 7;
  is_p = 0;
  padding = 0;
  eles = record { addr = 0; words = [] };
}

abbrev alloc : ℕ → Region
alloc n = record { addr = 4096; words = replicate n 0 }

abbrev extent : Block → ℕ × ℕ × ℕ
extent b = (b.sta_idx, b.height, b.ele_num)

heights :
    Option.map (map extent) (partition_block alloc 10 2 4 (replicate 5 blank))
    ≡ some ((0, 3, 6) ∷ (3, 3, 6) ∷ (6, 3, 6) ∷ (9, 1, 2) ∷ (7, 7, 7) ∷ [])
unfolding partition_block
heights = refl

partition_block-Owner_example :
    (bs : List Block) × (partition_block alloc 10 2 4 (replicate 5 blank) ≡ some bs)
    × ((r : ℕ) → r < 10 → Owner 4 bs r)
partition_block-Owner_example =
    partition_block-Owner alloc 10 2 4 (replicate 5 blank) (omega arith) (omega arith)
