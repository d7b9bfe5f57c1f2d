-- ===== src/Delivery/Down.antt =====
-- One message from the server to a worker: `rdma_sendTd` of ps.cpp, the RDMA write, and `rdma_recvTd` of
-- worker.cpp.
use stellar_bench.Base.{
  ℕ, ◌≤◌, ◌<◌, ◌≡◌, refl, sym, ap, ◌∙◌, some, true, false, List, ◌++◌, ℤ, pos, negsuc, ◌^◌, ◌+ℤ◌,
  leb_ℤ, length, take, drop, get_elem?, set, arith,
}
use stellar_bench.Block.{Block, Region}
use stellar_bench.Context.{ClientContext, update, update_self}
use stellar_bench.Wire.{total_len, receive}
use stellar_bench.Wire.Image.{image, IsWellFormed, copy_in-image}
use stellar_bench.Wire.RoundTrip.{IsRepresentable, contents}
use stellar_bench.Ps
use stellar_bench.Ps.{Ps, int_bits}
use stellar_bench.Worker
use stellar_bench.Worker.{Worker}
use stellar_bench.Delivery.Buffers.{receive-parts, overwrite_all, receive-written, written}

-- A worker's block after it took `b`: `isP` and the padding stay, the words are in a new object.
abbrev pub taken_by : (ℕ → Region) → Block → Block → Block
taken_by alloc old b = record old {
  block_id = b.block_id;
  sta_idx = b.sta_idx;
  height = b.height;
  ele_num = b.ele_num;
  eles = record { addr = (alloc b.ele_num).addr; words = b.eles.words };
  data_age = b.data_age;
}

pub Worker-store_block :
    (alloc : ℕ → Region) (old b : Block)
    → ((n : ℕ) → length (alloc n).words ≡ n)
    → IsWellFormed b
    → Worker.store_block alloc old (contents b) ≡ some (taken_by alloc old b)
unfolding Worker.store_block
Worker-store_block alloc old b sized w =
    rw (overwrite_all (alloc b.ele_num).words b.eles.words (w.counted ∙ sym (sized b.ele_num)))

-- A worker's round on a buffer with a message.
Worker-recv_round :
    (alloc : ℕ → Region) (w : Worker) (pb qb : Block)
    → ((n : ℕ) → length (alloc n).words ≡ n)
    → IsRepresentable pb
    → IsRepresentable qb
    → receive w.s_ctx.buffer ≡ some (contents pb, contents qb)
    → leb_ℤ (pos w.s_ctx.buf_recv_counter) (w.recved_age +ℤ pos 1) ≡ false
    → Worker.recv_round alloc w
      ≡ some (record w {
        p_block = taken_by alloc w.p_block pb;
        q_block = taken_by alloc w.q_block qb;
        recved_age = w.recved_age +ℤ pos 1;
        s_ctx = record (w.s_ctx) { can_recv = true };
      })
unfolding Worker.recv_round
Worker-recv_round alloc w pb qb sized rp rq got g =
    let (first, second) = receive-parts w.s_ctx.buffer (contents pb) (contents qb) got in
    rw (
      g,
      first,
      Worker-store_block alloc w.p_block pb sized rp.well_formed,
      second,
      Worker-store_block alloc w.q_block qb sized rq.well_formed,
    )

-- The server after it has put the message with `pb'` and `qb'` into the buffer for worker `i`.
abbrev message_ctx : ClientContext → Block → Block → ClientContext
message_ctx c pb' qb' = record c {
  buffer = image pb' qb' ++ drop (total_len pb' qb') c.buffer;
  buf_len = total_len pb' qb';
  buf_prepared = true;
  can_send = true;
}

abbrev sent_state : Ps → ℕ → Block → Block → Ps
sent_state s i pb' qb' = record s {
  p_blocks = set s.p_blocks (s.worker_pidx i) pb';
  q_blocks = set s.q_blocks (s.worker_qidx i) qb';
  c_ctx = update s.c_ctx i (message_ctx (s.c_ctx i) pb' qb');
  to_send_iter = update s.to_send_iter i (s.to_send_iter i +ℤ pos 1);
}

-- The server's round fills the worker's buffer.
Ps-send_round :
    (s : Ps) (i : ℕ) (pb qb : Block)
    → get_elem? s.p_blocks (s.worker_pidx i) ≡ some pb
    → get_elem? s.q_blocks (s.worker_qidx i) ≡ some qb
    → Ps.can_send (s.to_send_iter i) s.completed_iter ≡ true
    → (pb' qb' : Block) → pb' ≡ record pb { data_age = int_bits (s.to_send_iter i) }
    → qb' ≡ record qb { data_age = int_bits (s.to_send_iter i) }
    → IsWellFormed pb'
    → IsWellFormed qb'
    → total_len pb' qb' ≤ length (s.c_ctx i).buffer
    → Ps.send_round i s ≡ some (sent_state s i pb' qb')
unfolding Ps.send_round
Ps-send_round s i pb qb ep eq g pb' qb' p_is q_is wp wq fits =
    rw (g, ep, eq, ← p_is, ← q_is, copy_in-image pb' qb' (s.c_ctx i).buffer wp wq fits)

int_bits-lt : (a : ℤ) → int_bits a < 2 ^ 32
int_bits-lt (pos n) = omega arith
int_bits-lt (negsuc n) = omega arith

abbrev pub aged : ℤ → Block → Block
aged age b = record b { data_age = int_bits age }

pub aged-IsRepresentable : (age : ℤ) (b : Block) → IsRepresentable b → IsRepresentable (aged age b)
aged-IsRepresentable age b r = record {
  well_formed = record { counted = r.well_formed.counted; small = r.well_formed.small };
  id_fits = r.id_fits;
  age_fits = int_bits-lt age;
  sta_fits = r.sta_fits;
  height_fits = r.height_fits;
  is_p_fits = r.is_p_fits;
  words_fit = r.words_fit;
}

module _ (rdma_write : List ℕ → ℕ → List ℕ → List ℕ)
    (writes : (src : List ℕ) (len : ℕ) (dst : List ℕ)
      → rdma_write src len dst ≡ take len src ++ drop len dst) where
  -- The server may send to worker `i`, and its blocks at that worker's indices are representable and
  -- fit the buffer. Then its round, the write, and a round of the worker that waits for the message
  -- succeed: the worker has the fields and words of both blocks, aged by the iteration sent, in new
  -- objects, and both sides have counted the message.
  pub delivery_down :
      (alloc : ℕ → Region) (s : Ps) (i : ℕ) (w : Worker) (pb qb : Block)
      → ((n : ℕ) → length (alloc n).words ≡ n)
      → get_elem? s.p_blocks (s.worker_pidx i) ≡ some pb
      → get_elem? s.q_blocks (s.worker_qidx i) ≡ some qb
      → IsRepresentable pb
      → IsRepresentable qb
      → total_len pb qb ≤ length (s.c_ctx i).buffer
      → Ps.can_send (s.to_send_iter i) s.completed_iter ≡ true
      → leb_ℤ (pos w.s_ctx.buf_recv_counter) (w.recved_age +ℤ pos 1) ≡ false
      → (s' : Ps) × (w' : Worker) × (Ps.send_round i s ≡ some s')
        × (Worker.recv_round alloc (record w { s_ctx = written rdma_write (s'.c_ctx i) w.s_ctx })
            ≡ some w')
        × (w'.p_block ≡ taken_by alloc w.p_block (aged (s.to_send_iter i) pb))
        × (w'.q_block ≡ taken_by alloc w.q_block (aged (s.to_send_iter i) qb))
        × (w'.recved_age ≡ w.recved_age +ℤ pos 1)
        × (s'.to_send_iter i ≡ s.to_send_iter i +ℤ pos 1)
  unfolding total_len
  delivery_down alloc s i w pb qb sized ep eq rp rq fits g h = (
    s',
    w',
    sent,
    received,
    refl,
    refl,
    refl,
    update_self s.to_send_iter i (s.to_send_iter i +ℤ pos 1),
  )
    where
      pb' : Block
      pb' = aged (s.to_send_iter i) pb

      qb' : Block
      qb' = aged (s.to_send_iter i) qb

      rp' : IsRepresentable pb'
      rp' = aged-IsRepresentable (s.to_send_iter i) pb rp

      rq' : IsRepresentable qb'
      rq' = aged-IsRepresentable (s.to_send_iter i) qb rq

      s' : Ps
      s' = sent_state s i pb' qb'

      waiting : Worker
      waiting = record w { s_ctx = written rdma_write (s'.c_ctx i) w.s_ctx }

      w' : Worker
      w' = record waiting {
        p_block = taken_by alloc w.p_block pb';
        q_block = taken_by alloc w.q_block qb';
        recved_age = w.recved_age +ℤ pos 1;
        s_ctx = record (waiting.s_ctx) { can_recv = true };
      }

      sent : Ps.send_round i s ≡ some s'
      sent = Ps-send_round s i pb qb ep eq g pb' qb' refl refl rp'.well_formed rq'.well_formed fits

      in_buffer : receive waiting.s_ctx.buffer ≡ some (contents pb', contents qb')
      in_buffer =
          ap (λ (c : ClientContext). receive (rdma_write c.buffer c.buf_len w.s_ctx.buffer))
            (update_self s.c_ctx i (message_ctx (s.c_ctx i) pb' qb'))
          ∙ receive-written rdma_write writes pb' qb' (message_ctx (s.c_ctx i) pb' qb').buffer
              (drop (total_len pb' qb') (s.c_ctx i).buffer) w.s_ctx.buffer rp' rq' refl

      received : Worker.recv_round alloc waiting ≡ some w'
      received = Worker-recv_round alloc waiting pb' qb' sized rp' rq' in_buffer h
