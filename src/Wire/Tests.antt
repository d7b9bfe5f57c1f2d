-- ===== src/Wire/Tests.antt =====
-- A message of two small blocks, and the theorems of Wire at concrete inputs.
use stellar_bench.Base.{ℕ, ◌≤◌, ◌≡◌, ◌↔◌, refl, some, List, [], ◌∷◌, ◌>>=◌, arith, replicate}
use stellar_bench.Block.{Block, Region, row_count, col_count, dim_count}
use stellar_bench.Partition.{full_height}
use stellar_bench.Partition.Tiling.{tiles, partition_block-tiles}
use stellar_bench.Memory.{memcpy, read, le_bytes, le_value, words_bytes, words_of}
use stellar_bench.Wire.{data_size, header, receive_block, load, copy_in, receive, total_len}
use stellar_bench.Wire.RoundTrip.{IsRepresentable, contents, receive-copy_in}
use stellar_bench.Wire.Capacity.{AllFit, AllFit-iff}

abbrev small_p : Block
small_p = record {
  block_id = 1;
  data_age = 3;
  sta_idx = 300;
  height = 1;
  ele_num = 2;
  is_p = 1;
  padding = 0;
  eles = record { addr = 0x7f00; words = 0x3ff0_0000_0000_0000 ∷ 5 ∷ [] };
}

abbrev small_q : Block
small_q = record small_p {
  block_id = 2;
  ele_num = 1;
  is_p = 0;
  eles = record { addr = 0x7f80; words = 9 ∷ [] };
}

small_p-IsRepresentable : IsRepresentable small_p
small_p-IsRepresentable = record {
  well_formed = record { counted = refl; small = omega arith };
  id_fits = omega arith;
  age_fits = omega arith;
  sta_fits = omega arith;
  height_fits = omega arith;
  is_p_fits = omega arith;
  words_fit = omega arith;
}

small_q-IsRepresentable : IsRepresentable small_q
small_q-IsRepresentable = record {
  well_formed = record { counted = refl; small = omega arith };
  id_fits = omega arith;
  age_fits = omega arith;
  sta_fits = omega arith;
  height_fits = omega arith;
  is_p_fits = omega arith;
  words_fit = omega arith;
}

round_trip :
    (copy_in small_p small_q (replicate 90 255) >>= receive)
    ≡ some (contents small_p, contents small_q)
unfolding copy_in data_size header memcpy read le_bytes le_value words_bytes words_of receive
    receive_block load
round_trip = refl

receive-copy_in_example :
    (copy_in small_p small_q (replicate 90 255) >>= receive)
    ≡ some (contents small_p, contents small_q)
unfolding total_len data_size
receive-copy_in_example =
    receive-copy_in small_p small_q (replicate 90 255) small_p-IsRepresentable
      small_q-IsRepresentable (omega arith)

abbrev alloc : ℕ → Region
alloc n = record { addr = 4096; words = [] }

abbrev three_of : ℕ → List Block
three_of rc_num = tiles alloc rc_num dim_count (full_height rc_num 3) 3 0 (replicate 3 small_p)

AllFit-iff_example : AllFit 3 (three_of row_count) (three_of col_count) ↔ ◌≤◌ 3 3
AllFit-iff_example =
    AllFit-iff alloc 3 (replicate 3 small_p) (replicate 3 small_p) (three_of row_count)
      (three_of col_count) (omega arith) (omega arith) (omega arith)
      (partition_block-tiles alloc row_count dim_count _ 3 (replicate 3 small_p) (omega arith)
        (omega arith) refl)
      (partition_block-tiles alloc col_count dim_count _ 3 (replicate 3 small_p) (omega arith)
        (omega arith) refl)
