-- ===== src/Wire/Capacity.antt =====
-- Which numbers of portions leave every message within the registered buffer (BUFFER_SIZE of
-- common.h), for the matrix sizes of mf_common.h.
use native.Mathlib.Nat.{mul-le-mul_left, mul-le-mul_right}
use stellar_bench.Context.{buffer_size}
use stellar_bench.Base.{
  ℕ, suc, ◌+◌, ◌-◌, ◌*◌, ◌/◌, ◌^◌, ◌≤◌, ◌<◌, zero, ◌≡◌, ◌↔◌, some, List, length, get_elem?, arith,
  dec_lt,
}
use stellar_bench.Block.{Block, Region, row_count, col_count, dim_count}
use stellar_bench.Partition.{partition_block, full_height}
use stellar_bench.Partition.Tiling.{rows_of}
use stellar_bench.Partition.Cover.{full_height-slack, partition_block-entry, ele_num_lem}
use stellar_bench.Wire.{total_len}
use stellar_bench.Wire.Image.{data_size-small}

-- Each worker's pair of blocks fits.
abbrev pub AllFit : ℕ → List Block → List Block → Type 0
AllFit portion_num ps qs =
    (i : ℕ) (pb qb : Block)
    → i < portion_num
    → get_elem? ps i ≡ some pb
    → get_elem? qs i ≡ some qb
    → total_len pb qb ≤ buffer_size

mul_bound : (h t p rc : ℕ) → p * h + 1 ≤ rc + p → rc ≤ 3 * t + 3 → 3 ≤ p → h ≤ t + 1
mul_bound h t p rc a b c = elim (dec_lt (t + 1) h) [
  | yes far ↦ absurd (omega (arith, mul-le-mul_left p far, mul-le-mul_right (t + 1) c))
  | no near ↦ omega arith
]

full_height-le_third : (rc p : ℕ) → 0 < rc → 3 ≤ p → full_height rc p ≤ (rc - 1) / 3 + 1
full_height-le_third rc p a h =
    mul_bound (full_height rc p) ((rc - 1) / 3) p rc
      (omega (arith, full_height-slack rc p (omega arith))) (omega arith) h

rows_of-le : (rc h i : ℕ) → rows_of rc h i ≤ h
rows_of-le rc h i = ground arith

total_len_small :
    (pb qb : Block)
    → pb.ele_num < 2 ^ 31
    → qb.ele_num < 2 ^ 31
    → total_len pb qb ≡ 64 + 8 * pb.ele_num + 8 * qb.ele_num
unfolding total_len
total_len_small pb qb p q =
    omega (arith, data_size-small pb.ele_num p, data_size-small qb.ele_num q)

full_height-le_all : (rc p : ℕ) → 0 < rc → 0 < p → full_height rc p ≤ rc
full_height-le_all rc p a h = elim (dec_lt rc (full_height rc p)) [
  | yes far ↦
      absurd (omega (arith, full_height-slack rc p h, mul-le-mul_left p far, mul-le-mul_right rc h))
  | no near ↦ omega arith
]

-- With fewer than three portions the first pair is too large.
too_large :
    (p : ℕ)
    → 0 < p
    → p < 3
    → 524288000
      < 64
        + 8 * (rows_of row_count (full_height row_count p) 0 * dim_count)
        + 8 * (rows_of col_count (full_height col_count p) 0 * dim_count)
too_large zero a b = elim a [ ]
too_large (suc zero) a b = omega arith
too_large (suc (suc zero)) a b = omega arith
too_large (suc (suc (suc p))) a b = absurd (omega arith)

module _ (alloc : ℕ → Region) (portion_num : ℕ) (p_slots q_slots ps qs : List Block)
    (pos : 0 < portion_num) (p_room : portion_num ≤ length p_slots)
    (q_room : portion_num ≤ length q_slots)
    (p_done : partition_block alloc row_count dim_count portion_num p_slots ≡ some ps)
    (q_done : partition_block alloc col_count dim_count portion_num q_slots ≡ some qs) where
  p_rows-le :
      (i : ℕ) → 3 ≤ portion_num → rows_of row_count (full_height row_count portion_num) i ≤ 333664
  p_rows-le i three = omega (
    arith,
    rows_of-le row_count (full_height row_count portion_num) i,
    full_height-le_third row_count portion_num (omega arith) three,
  )

  q_rows-le :
      (i : ℕ) → 3 ≤ portion_num → rows_of col_count (full_height col_count portion_num) i ≤ 208321
  q_rows-le i three = omega (
    arith,
    rows_of-le col_count (full_height col_count portion_num) i,
    full_height-le_third col_count portion_num (omega arith) three,
  )

  p_rows-le_all : (i : ℕ) → rows_of row_count (full_height row_count portion_num) i ≤ row_count
  p_rows-le_all i = omega (
    arith,
    rows_of-le row_count (full_height row_count portion_num) i,
    full_height-le_all row_count portion_num (omega arith) pos,
  )

  q_rows-le_all : (i : ℕ) → rows_of col_count (full_height col_count portion_num) i ≤ col_count
  q_rows-le_all i = omega (
    arith,
    rows_of-le col_count (full_height col_count portion_num) i,
    full_height-le_all col_count portion_num (omega arith) pos,
  )

  -- The length of a message by the rows of its blocks.
  total_len-rows :
      (i : ℕ) (pb qb : Block)
      → i < portion_num
      → get_elem? ps i ≡ some pb
      → get_elem? qs i ≡ some qb
      → total_len pb qb
        ≡ 64
          + 8 * (rows_of row_count (full_height row_count portion_num) i * dim_count)
          + 8 * (rows_of col_count (full_height col_count portion_num) i * dim_count)
  total_len-rows i pb qb lt ep eq =
      let p_num =
        ele_num_lem alloc row_count dim_count portion_num p_slots ps pos p_room p_done i pb lt ep in
      let q_num =
        ele_num_lem alloc col_count dim_count portion_num q_slots qs pos q_room q_done i qb lt eq in
      rw (
        total_len_small pb qb (omega (arith, p_num, p_rows-le_all i))
            (omega (arith, q_num, q_rows-le_all i)),
        p_num,
        q_num,
      )

  fits_from_three : 3 ≤ portion_num → AllFit portion_num ps qs
  fits_from_three three i pb qb lt ep eq =
      rw (total_len-rows i pb qb lt ep eq) (omega (arith, p_rows-le i three, q_rows-le i three))

  three_from_fits : AllFit portion_num ps qs → 3 ≤ portion_num
  three_from_fits fit = elim (dec_lt portion_num 3) [
    | yes few ↦
        let (_, ep) =
          partition_block-entry alloc row_count dim_count portion_num p_slots ps pos p_room p_done 0
            pos in
        let (_, eq) =
          partition_block-entry alloc col_count dim_count portion_num q_slots qs pos q_room q_done 0
            pos in
        absurd (
          omega (
            arith,
            too_large portion_num pos few,
            total_len-rows 0 _ _ pos ep eq,
            fit 0 _ _ pos ep eq,
          ))
    | no enough ↦ omega arith
  ]

  -- For the sizes of mf_common.h: exactly from three portions on does every message, one P block
  -- and the Q block of the same index, fit the registered buffer.
  pub AllFit-iff : AllFit portion_num ps qs ↔ (3 ≤ portion_num)
  AllFit-iff = (three_from_fits, fits_from_three)
