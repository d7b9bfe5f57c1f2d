-- ===== src/Partition.antt =====
-- `partitionBlock` of ps.cpp, which cuts the rows (or columns) of the rating matrix into blocks.
-- `malloc` is the argument `alloc`. A write past the array of blocks is the fault `none`, and so is
-- the division by a `portion_num` of zero.
pub mod Tiling
pub mod Cover
mod Tests
use mathlib.Core.Option
use stellar_bench.Base.{
  ℕ, zero, suc, ◌+◌, ◌-◌, ◌*◌, ◌/◌, Option, none, some, List, [], ◌∷◌, leb, ◌==◌, if◌then◌else◌,
}
use stellar_bench.Block.{Block, Region}

-- The height of every full block.
abbrev pub full_height : ℕ → ℕ → ℕ
full_height rc_num portion_num = (rc_num + portion_num - 1) / portion_num

module _ (alloc : ℕ → Region) (rc_num dim height : ℕ) where
  -- What one round writes to `Blocks[i]`, with the height that it has chosen.
  abbrev pub place : ℕ → ℕ → Block → Block
  place i h b = record b {
    block_id = i;
    data_age = 0;
    sta_idx = i * height;
    height = h;
    ele_num = h * dim;
    eles = alloc (h * dim);
  }

  -- One round of the loop.
  pub assign : ℕ → ℕ → Block → Block
  assign i acc_height b =
      place i (if leb (acc_height + height) rc_num then height else rc_num - acc_height) b

  -- The loop, with the rounds that are left.
  pub fill : ℕ → ℕ → ℕ → List Block → Option (List Block)
  fill zero i acc_height blocks = some blocks
  fill (suc left) i acc_height [] = none
  fill (suc left) i acc_height (b ∷ blocks) =
      let b' = assign i acc_height b in
      Option.map (◌∷◌ b') (fill left (i + 1) (acc_height + b'.height) blocks)

pub partition_block : (ℕ → Region) → ℕ → ℕ → ℕ → List Block → Option (List Block)
unfolding fill assign
partition_block alloc rc_num dim portion_num blocks =
    if portion_num == 0
    then none
    else fill alloc rc_num dim (full_height rc_num portion_num) portion_num 0 0 blocks
