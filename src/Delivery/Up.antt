-- ===== src/Delivery/Up.antt =====
-- One message from a worker back to the server: `rdma_sendTd` of worker.cpp, the RDMA write, and
-- `rdma_recvTd` of ps.cpp.
use stellar_bench.Base.{
  ℕ, ◌+◌, ◌≤◌, ◌≡◌, refl, sym, ◌∙◌, some, true, false, List, ◌++◌, pos, minus_one, ◌+ℤ◌, ltb_ℤ,
  length, take, drop, get_elem?, set,
}
use stellar_bench.Block.{Block, block_size}
use stellar_bench.Context.{ClientContext, ConnContext, update, update_self}
use stellar_bench.Wire.{total_len, data_size, receive_block}
use stellar_bench.Wire.Image.{image, IsWellFormed, copy_in-image}
use stellar_bench.Wire.RoundTrip.{IsRepresentable, contents}
use stellar_bench.Ps
use stellar_bench.Ps.{Ps, int_bits}
use stellar_bench.Worker
use stellar_bench.Worker.{Worker}
use stellar_bench.Delivery.Buffers.{receive-parts, overwrite_all, receive-written, written}

-- The server's block at that index after it took `b`: the words replace those of its object.
abbrev pub merged_with : Block → Block → Block
merged_with old b = record old {
  block_id = b.block_id;
  sta_idx = b.sta_idx;
  height = b.height;
  ele_num = b.ele_num;
  is_p = b.is_p;
  eles = record { addr = old.eles.addr; words = b.eles.words };
  data_age = b.data_age;
}

Ps-store_block :
    (blocks : List Block) (old b : Block)
    → get_elem? blocks b.block_id ≡ some old
    → length old.eles.words ≡ b.ele_num
    → IsWellFormed b
    → Ps.store_block blocks (contents b) ≡ some (set blocks b.block_id (merged_with old b))
unfolding Ps.store_block
Ps-store_block blocks old b e sized w =
    rw (e, overwrite_all old.eles.words b.eles.words (w.counted ∙ sym sized))

module _ (rdma_write : List ℕ → ℕ → List ℕ → List ℕ)
    (writes : (src : List ℕ) (len : ℕ) (dst : List ℕ)
      → rdma_write src len dst ≡ take len src ++ drop len dst) where
  -- A worker that may send, and the server's thread `i` that waits for its message: the worker's
  -- round, the write and the server's round succeed, if the server has a block of the size sent at
  -- each index sent. The server's blocks at these two indices have the fields and words of the worker's
  -- blocks, in their old objects, no other block changes, and both sides have counted the message.
  pub delivery_up :
      (s : Ps) (i : ℕ) (w : Worker) (old_p old_q : Block)
      → get_elem? s.p_blocks w.p_block.block_id ≡ some old_p
      → get_elem? s.q_blocks w.q_block.block_id ≡ some old_q
      → length old_p.eles.words ≡ w.p_block.ele_num
      → length old_q.eles.words ≡ w.q_block.ele_num
      → IsRepresentable w.p_block
      → IsRepresentable w.q_block
      → total_len w.p_block w.q_block ≤ length w.c_ctx.buffer
      → Worker.can_send w.to_send_age w.completed_iter ≡ true
      → ltb_ℤ (pos (s.s_ctx i).buf_recv_counter +ℤ minus_one) (s.recved_iter i +ℤ pos 1) ≡ false
      → (w' : Worker) × (s' : Ps) × (Worker.send_round w ≡ some w')
        × (Ps.recv_round i
              (record s { s_ctx = update s.s_ctx i (written rdma_write w'.c_ctx (s.s_ctx i)) })
            ≡ some s')
        × (s'.p_blocks ≡ set s.p_blocks w.p_block.block_id (merged_with old_p w.p_block))
        × (s'.q_blocks ≡ set s.q_blocks w.q_block.block_id (merged_with old_q w.q_block))
        × (s'.recved_iter i ≡ s.recved_iter i +ℤ pos 1)
        × (w'.to_send_age ≡ w.to_send_age +ℤ pos 1)
  unfolding Worker.send_round Ps.recv_round
  delivery_up s i w old_p old_q ep eq sp sq rp rq fits g h = (
    w',
    s',
    sent,
    received,
    refl,
    refl,
    update_self s.recved_iter i (s.recved_iter i +ℤ pos 1),
    refl,
  )
    where
      pb : Block
      pb = w.p_block

      qb : Block
      qb = w.q_block

      ctx : ClientContext
      ctx = record (w.c_ctx) {
        buffer = image pb qb ++ drop (total_len pb qb) w.c_ctx.buffer;
        buf_len = total_len pb qb;
        can_send = true;
      }

      w' : Worker
      w' = record w { c_ctx = ctx; to_send_age = w.to_send_age +ℤ pos 1 }

      k : ConnContext
      k = written rdma_write ctx (s.s_ctx i)

      waiting : Ps
      waiting = record s { s_ctx = update s.s_ctx i k }

      s' : Ps
      s' = record waiting {
        p_blocks = set s.p_blocks pb.block_id (merged_with old_p pb);
        q_blocks = set s.q_blocks qb.block_id (merged_with old_q qb);
        recved_iter = update s.recved_iter i (s.recved_iter i +ℤ pos 1);
        s_ctx = update waiting.s_ctx i (record k { buf_prepared = false; can_recv = true });
      }

      sent : Worker.send_round w ≡ some w'
      sent = rw (g, copy_in-image pb qb w.c_ctx.buffer rp.well_formed rq.well_formed fits)

      here : waiting.s_ctx i ≡ k
      here = update_self s.s_ctx i k

      parts :
          (receive_block k.buffer 0 ≡ some (contents pb))
          × (receive_block k.buffer (block_size + data_size pb.ele_num) ≡ some (contents qb))
      parts = receive-parts k.buffer (contents pb) (contents qb) (
          receive-written rdma_write writes pb qb ctx.buffer (drop (total_len pb qb) w.c_ctx.buffer)
            (s.s_ctx i).buffer rp rq refl)

      received : Ps.recv_round i waiting ≡ some s'
      received = rw (
        here,
        h,
        parts.0,
        Ps-store_block s.p_blocks old_p pb ep sp rp.well_formed,
        parts.1,
        Ps-store_block s.q_blocks old_q qb eq sq rq.well_formed,
      )
