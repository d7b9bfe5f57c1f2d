-- ===== src/Partition/Tiling.antt =====
-- `partitionBlock` in closed form, and the tiling of the rows by the blocks.
use Prim.Native.Nat.{min}
use mathlib.Core.Option
use stellar_bench.Base.{
  ℕ, zero, suc, ◌+◌, ◌-◌, ◌*◌, ◌≤◌, ◌<◌, ◌≡◌, refl, ap, some, List, [], ◌∷◌, arith, leb,
  if◌then◌else◌, length, get_elem?,
}
use stellar_bench.Block.{Block, Region}
use stellar_bench.Partition.{place, assign, fill, partition_block, full_height}

-- The rows of block `i`, by its index alone.
abbrev pub rows_of : ℕ → ℕ → ℕ → ℕ
rows_of rc_num height i = if leb (i * height + height) rc_num then height else rc_num - i * height

module _ (alloc : ℕ → Region) (rc_num dim height : ℕ) where
  -- Block `i`, by its index alone.
  abbrev pub tile : ℕ → Block → Block
  tile i b = place alloc rc_num dim height i (rows_of rc_num height i) b

  abbrev pub tiles : ℕ → ℕ → List Block → List Block
  tiles zero i blocks = blocks
  tiles (suc left) i [] = []
  tiles (suc left) i (b ∷ blocks) = tile i b ∷ tiles left (i + 1) blocks

  -- The height chosen from the running total is the one by the index.
  height_lem :
      (i : ℕ)
      → (if leb (min (i * height) rc_num + height) rc_num
          then height
          else rc_num - min (i * height) rc_num)
        ≡ rows_of rc_num height i
  height_lem i = ground arith

  assign-tile :
      (i : ℕ) (b : Block) → assign alloc rc_num dim height i (min (i * height) rc_num) b ≡ tile i b
  unfolding assign
  assign-tile i b = ap (λ h. place alloc rc_num dim height i h b) (height_lem i)

  next_total :
      (i : ℕ) → min (i * height) rc_num + rows_of rc_num height i ≡ min ((i + 1) * height) rc_num
  next_total i = ground arith

  fill-tiles :
      (left i : ℕ) (blocks : List Block)
      → left ≤ length blocks
      → fill alloc rc_num dim height left i (min (i * height) rc_num) blocks
        ≡ some (tiles left i blocks)
  unfolding fill
  fill-tiles zero i blocks h = refl
  fill-tiles (suc left) i [] h = elim h [ ]
  fill-tiles (suc left) i (b ∷ blocks) h =
      rw (assign-tile i b, next_total i, fill-tiles left (i + 1) blocks (omega arith))

  pub get_elem?-tiles :
      (left i j : ℕ) (blocks : List Block)
      → j < left
      → get_elem? (tiles left i blocks) j ≡ Option.map (tile (i + j)) (get_elem? blocks j)
  get_elem?-tiles zero i j blocks h = elim h [ ]
  get_elem?-tiles (suc left) i zero [] h = refl
  get_elem?-tiles (suc left) i (suc j) [] h = refl
  get_elem?-tiles (suc left) i zero (b ∷ blocks) h = ap (λ k. some (tile k b)) (omega arith)
  get_elem?-tiles (suc left) i (suc j) (b ∷ blocks) h =
      rw (get_elem?-tiles left (i + 1) j blocks (omega arith))
        (ap (λ k. Option.map (tile k) (get_elem? blocks j)) (omega arith))

  -- Without faults, the blocks are those that their indices determine.
  pub partition_block-tiles :
      (portion_num : ℕ) (blocks : List Block)
      → 0 < portion_num
      → portion_num ≤ length blocks
      → height ≡ full_height rc_num portion_num
      → partition_block alloc rc_num dim portion_num blocks ≡ some (tiles portion_num 0 blocks)
  unfolding partition_block
  partition_block-tiles portion_num blocks pos room e =
      rw (← e) (ground (arith, fill-tiles portion_num 0 blocks room))
