-- ===== src/Wire/Image.antt =====
-- The bytes that the sender's copies leave in the buffer.
use stellar_bench.Base.{
  ℕ, ◌+◌, ◌*◌, ◌^◌, ◌≤◌, ◌<◌, ◌≡◌, refl, sym, some, List, [], ◌++◌, ◌>>=◌, lt→ltb, length, drop,
  arith, length-append, append_assoc,
}
use stellar_bench.Block.{Block, block_size}
use stellar_bench.Memory.{le_bytes, memcpy, words_bytes}
use stellar_bench.Memory.Laws.{memcpy-next, read_whole, length-words_bytes}
use stellar_bench.Wire.{data_size, header, total_len, copy_in}

-- `ele_num` is the number of words behind `eles`, and no `int` overflows.
pub record IsWellFormed (b : Block) : Type 0 where
  pub counted : length b.eles.words ≡ b.ele_num
  pub small : b.ele_num < 2 ^ 31

pub length-header : (b : Block) → length (header b) ≡ block_size
unfolding header le_bytes
length-header b = refl

pub data_size-small : (n : ℕ) → n < 2 ^ 31 → data_size n ≡ 8 * n
unfolding data_size
data_size-small n h = rw (lt→ltb n (2 ^ 31) h) (omega arith)

-- The message as one row of bytes.
abbrev pub image : Block → Block → List ℕ
image pb qb = header pb ++ (words_bytes pb.eles.words ++ (header qb ++ words_bytes qb.eles.words))

pub length-image :
    (pb qb : Block) → IsWellFormed pb → IsWellFormed qb → length (image pb qb) ≡ total_len pb qb
unfolding total_len
length-image pb qb wp wq = omega (
  arith,
  length-append (header pb) (words_bytes pb.eles.words ++ (header qb ++ words_bytes qb.eles.words)),
  length-append (words_bytes pb.eles.words) (header qb ++ words_bytes qb.eles.words),
  length-append (header qb) (words_bytes qb.eles.words),
  length-header pb,
  length-header qb,
  length-words_bytes pb.eles.words,
  length-words_bytes qb.eles.words,
  data_size-small pb.ele_num wp.small,
  data_size-small qb.ele_num wq.small,
)

-- Four copies, each to the place behind the one before it.
copies :
    (s₁ s₂ s₃ s₄ buf : List ℕ) (o₂ o₃ o₄ total : ℕ)
    → o₂ ≡ length s₁
    → o₃ ≡ o₂ + length s₂
    → o₄ ≡ o₃ + length s₃
    → total ≡ o₄ + length s₄
    → total ≤ length buf
    → (do
      buf₁ ← memcpy buf 0 s₁
      buf₂ ← memcpy buf₁ o₂ s₂
      buf₃ ← memcpy buf₂ o₃ s₃
      memcpy buf₃ o₄ s₄)
      ≡ some ((s₁ ++ (s₂ ++ (s₃ ++ s₄))) ++ drop total buf)
copies s₁ s₂ s₃ s₄ buf o₂ o₃ o₄ total e₂ e₃ e₄ e h =
    rw
      (
        memcpy-next [] buf s₁ 0 o₂ refl (omega arith) (omega arith),
        memcpy-next s₁ buf s₂ o₂ o₃ e₂ e₃ (omega arith),
        memcpy-next (s₁ ++ s₂) buf s₃ o₃ o₄ (omega (arith, length-append s₁ s₂)) e₄ (omega arith),
        memcpy-next ((s₁ ++ s₂) ++ s₃) buf s₄ o₄ total
            (omega (arith, length-append s₁ s₂, length-append (s₁ ++ s₂) s₃)) e h,
      )
      (simp append_assoc)

pub copy_in-image :
    (pb qb : Block) (buf : List ℕ)
    → IsWellFormed pb
    → IsWellFormed qb
    → total_len pb qb ≤ length buf
    → copy_in pb qb buf ≡ some (image pb qb ++ drop (total_len pb qb) buf)
unfolding copy_in total_len
copy_in-image pb qb buf wp wq fits =
    let bytes_p = length-words_bytes pb.eles.words in
    let bytes_q = length-words_bytes qb.eles.words in
    let size_p = data_size-small pb.ele_num wp.small in
    let size_q = data_size-small qb.ele_num wq.small in
    rw
      (
        read_whole (words_bytes pb.eles.words) (data_size pb.ele_num) (omega arith),
        read_whole (words_bytes qb.eles.words) (data_size qb.ele_num) (omega arith),
      )
      (copies (header pb) (words_bytes pb.eles.words) (header qb) (words_bytes qb.eles.words) buf
        block_size (block_size + data_size pb.ele_num)
        (block_size + data_size pb.ele_num + block_size) (total_len pb qb) (sym (length-header pb))
        (omega arith) (omega (arith, length-header qb)) (omega arith) fits)
