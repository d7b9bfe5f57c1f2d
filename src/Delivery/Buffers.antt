-- ===== src/Delivery/Buffers.antt =====
-- Facts that both directions share: the buffer after the RDMA write of a message, and what the
-- receiver reads from it. The write itself is the adapter's, and a parameter: `rdma_write src len dst`
-- is the receiver's buffer after the first `len` bytes of `src` have been written to its start.
use stellar_bench.Base.{
  ℕ, ◌+◌, ◌≡◌, ap, ◌∙◌, some, List, ◌++◌, length, take, drop, arith, le→leb, drop_none, append-nil,
  take-length_append,
}
use stellar_bench.Block.{Block, block_size}
use stellar_bench.Context.{ClientContext, ConnContext}
use stellar_bench.Wire.{total_len, data_size, Received, receive_block, receive, overwrite}
use stellar_bench.Wire.Image.{image, length-image}
use stellar_bench.Wire.RoundTrip.{IsRepresentable, contents, receive-image}

-- The message that is received in one piece is received block by block.
pub receive-parts :
    (buf : List ℕ) (p q : Received)
    → receive buf ≡ some (p, q)
    → (receive_block buf 0 ≡ some p)
      × (receive_block buf (block_size + data_size p.ele_num) ≡ some q)
unfolding receive
receive-parts buf p q h = ground arith

pub overwrite_all : (old new : List ℕ) → length new ≡ length old → overwrite old new ≡ some new
unfolding overwrite
overwrite_all old new e = rw (le→leb (length new) (length old) (omega arith)) (
    ap (λ t. some (new ++ t)) (drop_none old (length new) (omega arith)) ∙ ap some (append-nil new))

-- What the receiver's buffer holds after the write of a message.
module _ (rdma_write : List ℕ → ℕ → List ℕ → List ℕ)
    (writes : (src : List ℕ) (len : ℕ) (dst : List ℕ)
      → rdma_write src len dst ≡ take len src ++ drop len dst) where
  pub receive-written :
      (pb qb : Block) (buf rest dst : List ℕ)
      → IsRepresentable pb
      → IsRepresentable qb
      → buf ≡ image pb qb ++ rest
      → receive (rdma_write buf (total_len pb qb) dst) ≡ some (contents pb, contents qb)
  receive-written pb qb buf rest dst rp rq e =
      rw (writes buf (total_len pb qb) dst, e, taken)
        (receive-image pb qb (drop (total_len pb qb) dst) rp rq)
    where
      taken : take (total_len pb qb) (image pb qb ++ rest) ≡ image pb qb
      taken =
          rw (← length-image pb qb rp.well_formed rq.well_formed)
            (take-length_append (image pb qb) rest)

-- The receiver's context after the write of a sender's message.
abbrev pub written : (List ℕ → ℕ → List ℕ → List ℕ) → ClientContext → ConnContext → ConnContext
written rdma_write c k = record k { buffer = rdma_write c.buffer c.buf_len k.buffer }
