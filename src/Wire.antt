-- ===== src/Wire.antt =====
-- The message that carries one P block and one Q block: the copies of `rdma_sendTd` into the
-- registered buffer and those of `rdma_recvTd` out of it, which ps.cpp and worker.cpp share in form.
pub mod Image
pub mod RoundTrip
pub mod Capacity
mod Tests
use mathlib.Core.Option
use stellar_bench.Base.{
  ℕ, ◌+◌, ◌-◌, ◌*◌, ◌/◌, ◌%◌, ◌^◌, Option, none, some, List, ◌++◌, ◌>>=◌, leb, ltb, if◌then◌else◌,
  length, drop,
}
use stellar_bench.Block.{Block, Region, block_size, double_size}
use stellar_bench.Memory.{le_bytes, le_value, memcpy, read, words_bytes, words_of}

-- The conversion of an `int`, given as its bit pattern, to `size_t`.
abbrev pub to_size : ℕ → ℕ
to_size w = if ltb w (2 ^ 31) then w else w + 2 ^ 64 - 2 ^ 32

-- sizeof(double) * ele_num, in `size_t`.
unfoldable pub data_size : ℕ → ℕ
data_size ele_num = (double_size * to_size ele_num) % 2 ^ 64

-- The object representation of a `Block`, its fields in declaration order.
unfoldable pub header : Block → List ℕ
header b =
    le_bytes 4 b.block_id
    ++ (le_bytes 4 b.data_age
        ++ (le_bytes 4 b.sta_idx
            ++ (le_bytes 4 b.height
                ++ (le_bytes 4 b.ele_num
                    ++ (le_bytes 1 b.is_p ++ (le_bytes 3 b.padding ++ le_bytes 8 b.eles.addr))))))

-- total_len
unfoldable pub total_len : Block → Block → ℕ
total_len pb qb =
    let p_total = block_size + data_size pb.ele_num in
    let q_total = block_size + data_size qb.ele_num in p_total + q_total

-- The four copies of `rdma_sendTd`.
unfoldable pub copy_in : Block → Block → List ℕ → Option (List ℕ)
copy_in pb qb buf = do
  let p_data_sz = data_size pb.ele_num
  let p_total = block_size + p_data_sz
  let q_data_sz = data_size qb.ele_num
  buf₁ ← memcpy buf 0 (header pb)
  p_data ← read (words_bytes pb.eles.words) 0 p_data_sz
  buf₂ ← memcpy buf₁ block_size p_data
  buf₃ ← memcpy buf₂ p_total (header qb)
  q_data ← read (words_bytes qb.eles.words) 0 q_data_sz
  memcpy buf₃ (p_total + block_size) q_data

-- What the receiver reads through `pb` or `qb`, with the words behind the header.
pub record Received : Type 0 where
  pub block_id : ℕ
  pub data_age : ℕ
  pub sta_idx : ℕ
  pub height : ℕ
  pub ele_num : ℕ
  pub is_p : ℕ
  pub words : List ℕ

unfoldable pub load : List ℕ → ℕ → ℕ → Option ℕ
load buf off w = Option.map le_value (read buf off w)

unfoldable pub receive_block : List ℕ → ℕ → Option Received
receive_block buf off = do
  block_id ← load buf off 4
  data_age ← load buf (off + 4) 4
  sta_idx ← load buf (off + 8) 4
  height ← load buf (off + 12) 4
  ele_num ← load buf (off + 16) 4
  is_p ← load buf (off + 20) 1
  let data_sz = data_size ele_num
  bytes ← read buf (off + block_size) data_sz
  some (record {
    block_id = block_id;
    data_age = data_age;
    sta_idx = sta_idx;
    height = height;
    ele_num = ele_num;
    is_p = is_p;
    words = words_of (data_sz / double_size) bytes;
  })

-- The P block at the start of the buffer, and the Q block behind it.
unfoldable pub receive : List ℕ → Option (Received × Received)
receive buf = do
  p ← receive_block buf 0
  q ← receive_block buf (block_size + data_size p.ele_num)
  some (p, q)

-- `memcpy` into an object that is already there.
unfoldable pub overwrite : List ℕ → List ℕ → Option (List ℕ)
overwrite old new =
    if leb (length new) (length old) then some (new ++ drop (length new) old) else none
