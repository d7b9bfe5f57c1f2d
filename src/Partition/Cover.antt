-- ===== src/Partition/Cover.antt =====
-- Every row lies in one block, and the blocks hold all elements.
use native.Mathlib.Nat.{zero-add}
use mathlib.Core.Option
use stellar_bench.Base.{
  ℕ, ◌+◌, ◌-◌, ◌*◌, ◌/◌, ◌≤◌, ◌<◌, ◌≡◌, refl, ap, some, List, arith, some_inj, length, get_elem?,
  get_elem?-lt, sym, ◌∙◌,
}
use stellar_bench.Block.{Block, Region}
use stellar_bench.Partition.{partition_block, full_height}
use stellar_bench.Partition.Tiling.{rows_of, tile, tiles, get_elem?-tiles, partition_block-tiles}

pub full_height-covers : (rc p : ℕ) → 0 < p → rc ≤ p * full_height rc p
full_height-covers rc p h = grind arith

pub full_height-pos : (rc p : ℕ) → 0 < rc → 0 < p → 0 < full_height rc p
full_height-pos rc p a h = grind arith

pub full_height-slack : (rc p : ℕ) → 0 < p → p * full_height rc p ≤ rc + p - 1
full_height-slack rc p h = grind arith

-- `b` holds row `r`.
abbrev pub Holds : Block → ℕ → Type 0
Holds b r = (b.sta_idx ≤ r) × (r < b.sta_idx + b.height)

rows-lower : (rc h i r : ℕ) → i * h ≤ r → r < i * h + rows_of rc h i → (i * h ≤ r) × (r < i * h + h)
rows-lower rc h i r a b = ground arith

rows-upper : (rc h i r : ℕ) → r < rc → i * h ≤ r → r < i * h + h → r < i * h + rows_of rc h i
rows-upper rc h i r c a b = ground arith

same_quotient : (h i j r : ℕ) → i * h ≤ r → r < i * h + h → j * h ≤ r → r < j * h + h → i ≡ j
same_quotient h i j r a b c d = grind arith

quotient_lt : (h p r rc : ℕ) → 0 < h → r < rc → rc ≤ p * h → r / h < p
quotient_lt h p r rc a b c = grind arith

quotient_bounds : (h r : ℕ) → 0 < h → (r / h * h ≤ r) × (r < r / h * h + h)
quotient_bounds h r a = (grind arith, grind arith)

-- The one block of the first `portion_num` that holds row `r`.
abbrev pub Owner : ℕ → List Block → ℕ → Type 0
Owner portion_num bs r =
    (j : ℕ) × (b : Block) × (j < portion_num)
    × (get_elem? bs j ≡ some b)
    × Holds b r
    × ((k : ℕ) (c : Block) → k < portion_num → get_elem? bs k ≡ some c → Holds c r → k ≡ j)

module _ (alloc : ℕ → Region) (rc_num dim height portion_num : ℕ) (blocks : List Block)
    (room : portion_num ≤ length blocks) where
  abbrev pub cut : List Block
  cut = tiles alloc rc_num dim height portion_num 0 blocks

  -- An entry of the result is the tile of its index.
  pub get_elem?-cut :
      (k : ℕ)
      → k < portion_num
      → (b : Block) × (get_elem? cut k ≡ some (tile alloc rc_num dim height k b))
  get_elem?-cut k lt =
      let (b, e) = get_elem?-lt blocks k (omega arith) in
      (
        b,
        get_elem?-tiles alloc rc_num dim height portion_num 0 k blocks lt
            ∙ ap (Option.map (tile alloc rc_num dim height (0 + k))) e
            ∙ ap (λ i. some (tile alloc rc_num dim height i b)) (zero-add k),
      )

  cut-Holds :
      (k : ℕ) (c : Block) (r : ℕ)
      → k < portion_num
      → get_elem? cut k ≡ some c
      → Holds c r
      → (k * height ≤ r) × (r < k * height + height)
  cut-Holds k c r lt e held =
      let (b, e') = get_elem?-cut k lt in
      let same : tile alloc rc_num dim height k b ≡ c = some_inj (sym e' ∙ e) in
      rows-lower rc_num height k r (rw (← same) at held.0) (rw (← same) at held.1)

  cut-Owner :
      0 < height → rc_num ≤ portion_num * height → (r : ℕ) → r < rc_num → Owner portion_num cut r
  cut-Owner pos covers r lt =
      let j_lt = quotient_lt height portion_num r rc_num pos lt covers in
      let (b, e) = get_elem?-cut (r / height) j_lt in
      let (lo, hi) = quotient_bounds height r pos in
      (
        r / height,
        tile alloc rc_num dim height (r / height) b,
        j_lt,
        e,
        (lo, rows-upper rc_num height (r / height) r lt lo hi),
        λ k c k_lt ek held.
            let (lo', hi') = cut-Holds k c r k_lt ek held in
            same_quotient height k (r / height) r lo' hi' lo hi,
      )

-- With at least one portion and one slot of the array for each, `partitionBlock` does not fault, and
-- each row below `rc_num` lies in exactly one of the first `portion_num` blocks.
pub partition_block-Owner :
    (alloc : ℕ → Region) (rc_num dim portion_num : ℕ) (blocks : List Block)
    → 0 < portion_num
    → portion_num ≤ length blocks
    → (bs : List Block) × (partition_block alloc rc_num dim portion_num blocks ≡ some bs)
      × ((r : ℕ) → r < rc_num → Owner portion_num bs r)
partition_block-Owner alloc rc_num dim portion_num blocks pos room =
    let height = full_height rc_num portion_num in
    (
      tiles alloc rc_num dim height portion_num 0 blocks,
      partition_block-tiles alloc rc_num dim height portion_num blocks pos room refl,
      λ r lt.
          cut-Owner alloc rc_num dim height portion_num blocks room
            (full_height-pos rc_num portion_num (omega arith) pos)
            (full_height-covers rc_num portion_num pos) r lt,
    )

-- The entries of a result, in both directions.
module _ (alloc : ℕ → Region) (rc_num dim portion_num : ℕ) (blocks bs : List Block)
    (pos : 0 < portion_num) (room : portion_num ≤ length blocks)
    (done : partition_block alloc rc_num dim portion_num blocks ≡ some bs) where
  result-cut : bs ≡ tiles alloc rc_num dim (full_height rc_num portion_num) portion_num 0 blocks
  result-cut =
      some_inj
        (sym done ∙ partition_block-tiles alloc rc_num dim _ portion_num blocks pos room refl)

  pub partition_block-entry :
      (i : ℕ)
      → i < portion_num
      → (b : Block) × (get_elem? bs i
          ≡ some (tile alloc rc_num dim (full_height rc_num portion_num) i b))
  partition_block-entry i lt =
      rw result-cut (
        get_elem?-cut alloc rc_num dim (full_height rc_num portion_num) portion_num blocks room i
          lt)

  pub ele_num_lem :
      (i : ℕ) (c : Block)
      → i < portion_num
      → get_elem? bs i ≡ some c
      → c.ele_num ≡ rows_of rc_num (full_height rc_num portion_num) i * dim
  ele_num_lem i c lt e =
      let (b, e') = partition_block-entry i lt in ap (λ x. x.ele_num) (some_inj (sym e ∙ e'))
