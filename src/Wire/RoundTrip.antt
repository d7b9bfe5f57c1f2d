-- ===== src/Wire/RoundTrip.antt =====
-- What the receiver reads is what the sender copied in.
use stellar_bench.Base.{
  ℕ, ◌+◌, ◌/◌, ◌^◌, ◌≤◌, ◌<◌, ◌≡◌, refl, ap, ◌∙◌, some, List, [], ◌++◌, ◌>>=◌, le→leb, length, drop,
  take, arith, length-append, append_assoc, drop-length_append,
}
use stellar_bench.Block.{Block, block_size, double_size}
use stellar_bench.Memory.{le_bytes, read, words_bytes, words_of}
use stellar_bench.Memory.Laws.{
  read_part, length-words_bytes, Fits, Fits-four, le_value-le_bytes, words_of-words_bytes, AreWords,
}
use stellar_bench.Wire.{
  data_size, header, total_len, copy_in, load, receive_block, receive, Received,
}
use stellar_bench.Wire.Image.{IsWellFormed, length-header, data_size-small, image, copy_in-image}

-- The fields of `b` are the bit patterns of their types, and so are its words.
pub record IsRepresentable (b : Block) : Type 0 where
  pub well_formed : IsWellFormed b
  pub id_fits : b.block_id < 2 ^ 32
  pub age_fits : b.data_age < 2 ^ 32
  pub sta_fits : b.sta_idx < 2 ^ 32
  pub height_fits : b.height < 2 ^ 32
  pub is_p_fits : b.is_p < 256
  pub words_fit : AreWords b.eles.words

-- What the receiver should read.
abbrev pub contents : Block → Received
contents b = record {
  block_id = b.block_id;
  data_age = b.data_age;
  sta_idx = b.sta_idx;
  height = b.height;
  ele_num = b.ele_num;
  is_p = b.is_p;
  words = b.eles.words;
}

read_behind :
    (pre s : List ℕ) (off k n : ℕ)
    → off ≡ length pre + k
    → k + n ≤ length s
    → read (pre ++ s) off n ≡ some (take n (drop k s))
unfolding read
read_behind pre s off k n e h = rw e (
    rw (le→leb (length pre + k + n) (length (pre ++ s)) (omega (arith, length-append pre s)))
      (rw (drop-length_append pre s k) refl))

load_behind :
    (pre s : List ℕ) (off k w x : ℕ)
    → off ≡ length pre + k
    → k + w ≤ length s
    → Fits w x
    → take w (drop k s) ≡ le_bytes w x
    → load (pre ++ s) off w ≡ some x
unfolding load
load_behind pre s off k w x e h f same =
    rw (read_behind pre s off k w e h) (rw same (ap some (le_value-le_bytes w x f)))

module _ (pre : List ℕ) (b : Block) (rest : List ℕ) (r : IsRepresentable b) where
  room : 32 ≤ length (header b ++ rest)
  room = omega (arith, length-append (header b) rest, length-header b)

  abbrev At : ℕ → ℕ → ℕ → Type 0
  At k w x = (off : ℕ) → off ≡ length pre + k → load (pre ++ (header b ++ rest)) off w ≡ some x

  -- Each field is read from its place in the struct.
  record Loads : Type 0 where
    block_id : At 0 4 b.block_id
    data_age : At 4 4 b.data_age
    sta_idx : At 8 4 b.sta_idx
    height : At 12 4 b.height
    ele_num : At 16 4 b.ele_num
    is_p : At 20 1 b.is_p

  load-header : Loads
  unfolding header le_bytes
  load-header = record {
    block_id = λ off e.
        load_behind pre (header b ++ rest) off 0 4 b.block_id e (omega (arith, room))
          (Fits-four _ r.id_fits) refl;
    data_age = λ off e.
        load_behind pre (header b ++ rest) off 4 4 b.data_age e (omega (arith, room))
          (Fits-four _ r.age_fits) refl;
    sta_idx = λ off e.
        load_behind pre (header b ++ rest) off 8 4 b.sta_idx e (omega (arith, room))
          (Fits-four _ r.sta_fits) refl;
    height = λ off e.
        load_behind pre (header b ++ rest) off 12 4 b.height e (omega (arith, room))
          (Fits-four _ r.height_fits) refl;
    ele_num = λ off e.
        load_behind pre (header b ++ rest) off 16 4 b.ele_num e (omega (arith, room))
          (Fits-four _ (omega (arith, r.well_formed))) refl;
    is_p = λ off e.
        load_behind pre (header b ++ rest) off 20 1 b.is_p e (omega (arith, room))
          (omega (arith, r.is_p_fits)) refl;
  }

data_size-words :
    (b : Block) → IsWellFormed b → data_size b.ele_num ≡ length (words_bytes b.eles.words)
data_size-words b w =
    omega (arith, w.counted, data_size-small b.ele_num w.small, length-words_bytes b.eles.words)

words_back :
    (b : Block)
    → IsRepresentable b
    → words_of (data_size b.ele_num / double_size) (words_bytes b.eles.words) ≡ b.eles.words
words_back b r =
    ap (λ n. words_of n (words_bytes b.eles.words))
      (omega (arith, r.well_formed.counted, data_size-small b.ele_num r.well_formed.small))
    ∙ words_of-words_bytes b.eles.words r.words_fit

-- A block in the buffer is read in full from its place.
receive_block-image :
    (pre : List ℕ) (b : Block) (rest : List ℕ) (off : ℕ)
    → IsRepresentable b
    → off ≡ length pre
    → receive_block (pre ++ (header b ++ (words_bytes b.eles.words ++ rest))) off
      ≡ some (contents b)
unfolding receive_block
receive_block-image pre b rest off r e =
    rw
      (
        loads.block_id off (omega arith),
        loads.data_age (off + 4) (omega arith),
        loads.sta_idx (off + 8) (omega arith),
        loads.height (off + 12) (omega arith),
        loads.ele_num (off + 16) (omega arith),
        loads.is_p (off + 20) (omega arith),
        body,
      )
      (ap
        (λ ws. some (record {
          block_id = b.block_id;
          data_age = b.data_age;
          sta_idx = b.sta_idx;
          height = b.height;
          ele_num = b.ele_num;
          is_p = b.is_p;
          words = ws;
        }))
        (words_back b r))
  where
    loads : Loads pre b (words_bytes b.eles.words ++ rest) r
    loads = load-header pre b (words_bytes b.eles.words ++ rest) r

    body :
        read
          (pre ++ (header b ++ (words_bytes b.eles.words ++ rest)))
          (off + block_size)
          (data_size b.ele_num)
        ≡ some (words_bytes b.eles.words)
    body = rw (← append_assoc pre (header b) (words_bytes b.eles.words ++ rest)) (
        read_part (pre ++ header b) (words_bytes b.eles.words) rest (off + block_size)
          (data_size b.ele_num) (omega (arith, length-append pre (header b), length-header b))
          (data_size-words b r.well_formed))

image-second :
    (pb qb : Block) (rest : List ℕ)
    → image pb qb ++ rest
      ≡ (header pb ++ words_bytes pb.eles.words)
        ++ (header qb ++ (words_bytes qb.eles.words ++ rest))
image-second pb qb rest = simp append_assoc

image-first :
    (pb qb : Block) (rest : List ℕ)
    → image pb qb ++ rest
      ≡ header pb
        ++ (words_bytes pb.eles.words ++ ((header qb ++ words_bytes qb.eles.words) ++ rest))
image-first pb qb rest = simp append_assoc

pub receive-image :
    (pb qb : Block) (rest : List ℕ)
    → IsRepresentable pb
    → IsRepresentable qb
    → receive (image pb qb ++ rest) ≡ some (contents pb, contents qb)
unfolding receive
receive-image pb qb rest rp rq = rw (first, second)
  where
    first : receive_block (image pb qb ++ rest) 0 ≡ some (contents pb)
    first =
        rw (image-first pb qb rest)
          (receive_block-image [] pb ((header qb ++ words_bytes qb.eles.words) ++ rest) 0 rp refl)

    second :
        receive_block (image pb qb ++ rest) (block_size + data_size pb.ele_num) ≡ some (contents qb)
    second = rw (image-second pb qb rest) (
        receive_block-image (header pb ++ words_bytes pb.eles.words) qb rest
          (block_size + data_size pb.ele_num) rq
          (omega (
            arith,
            length-append (header pb) (words_bytes pb.eles.words),
            length-header pb,
            data_size-words pb rp.well_formed,
          )))

-- A sender copies two blocks into a buffer that has room for the message: the receiver, given a
-- buffer with those bytes, reads both with all fields and words, whatever the buffer held before.
pub receive-copy_in :
    (pb qb : Block) (buf : List ℕ)
    → IsRepresentable pb
    → IsRepresentable qb
    → total_len pb qb ≤ length buf
    → (copy_in pb qb buf >>= receive) ≡ some (contents pb, contents qb)
receive-copy_in pb qb buf rp rq fits =
    rw (copy_in-image pb qb buf rp.well_formed rq.well_formed fits)
      (receive-image pb qb (drop (total_len pb qb) buf) rp rq)
