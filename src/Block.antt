-- ===== src/Block.antt =====
-- `struct Block` and the constants of mf_common.h. An `int` is kept as its non-negative value or, in
-- a message, as its bit pattern; a `double` is its 64-bit pattern; `eles` is the address that the
-- pointer holds with the words of the object that it points to.
use stellar_bench.Base.{ℕ, List}

-- What `malloc` returned: the pointer's value and the words of the object.
pub record Region : Type 0 where
  pub addr : ℕ
  pub words : List ℕ

pub record Block : Type 0 where
  pub block_id : ℕ
  pub data_age : ℕ
  pub sta_idx : ℕ
  pub height : ℕ
  pub ele_num : ℕ
  pub is_p : ℕ  -- the byte of `isP`
  pub padding : ℕ  -- the three bytes up to the alignment of `eles`
  pub eles : Region

-- N, M, K, CAP and WORKER_NUM
abbrev pub row_count : ℕ
row_count = 1000990

abbrev pub col_count : ℕ
col_count = 624961

abbrev pub dim_count : ℕ
dim_count = 100

abbrev pub capacity : ℕ
capacity = 2000

abbrev pub default_worker_num : ℕ
default_worker_num = 4

-- sizeof(double) and sizeof(Block) with 64-bit pointers.
abbrev pub double_size : ℕ
double_size = 8

abbrev pub block_size : ℕ
block_size = 32
