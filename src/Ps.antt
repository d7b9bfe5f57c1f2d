-- ===== src/Ps.antt =====
-- The parameter server, ps.cpp: its globals as one record, the guards, and one function for each body
-- of a thread's main loop. A round that only sleeps returns the state unchanged; a fault is `none`.
-- Arrays that every thread indexes below CAP are functions; `Pblocks` and `Qblocks`, which a message
-- indexes, are lists.
pub mod Guards
mod Tests
use stellar_bench.Base.{
  ℕ, zero, suc, ◌+◌, ◌-◌, ◌%◌, ◌^◌, Option, some, none, Bool, true, false, List, ◌>>=◌,
  if◌then◌else◌, ℤ, pos, negsuc, minus_one, ◌+ℤ◌, ltb_ℤ, leb_ℤ, eqb_ℤ, get_elem?, set, not,
}
use stellar_bench.Block.{Block, Region, block_size}
use stellar_bench.Context.{ClientContext, ConnContext, update}
use stellar_bench.Wire.{data_size, total_len, copy_in, Received, receive_block, overwrite}

pub record Ps : Type 0 where
  pub c_ctx : ℕ → ClientContext
  pub s_ctx : ℕ → ConnContext
  pub p_blocks : List Block
  pub q_blocks : List Block
  pub worker_num : ℕ
  pub recved_iter : ℕ → ℤ
  pub to_send_iter : ℕ → ℤ
  pub worker_pidx : ℕ → ℕ
  pub worker_qidx : ℕ → ℕ
  pub iter_t : ℤ
  pub completed_iter : ℤ

-- The loop of `CanMerge` from entry `i` on, with the entries that are left.
unfoldable pub can_merge_from : ℤ → (ℕ → ℤ) → ℕ → ℕ → Bool
can_merge_from coming_iter r_iter zero i = true
can_merge_from coming_iter r_iter (suc left) i =
    if ltb_ℤ (r_iter i +ℤ pos 1) coming_iter
    then false
    else can_merge_from coming_iter r_iter left (i + 1)

unfoldable pub can_merge : ℤ → (ℕ → ℤ) → ℕ → Bool
unfolding can_merge_from
can_merge coming_iter r_iter len = can_merge_from coming_iter r_iter len 0

unfoldable pub can_send : ℤ → ℤ → Bool
can_send to_send_iter completed_age = if leb_ℤ to_send_iter completed_age then true else false

-- The bit pattern of an `int`.
abbrev pub int_bits : ℤ → ℕ
int_bits (pos n) = n % 2 ^ 32
int_bits (negsuc n) = 2 ^ 32 - 1 - n % 2 ^ 32

-- A round of `main`'s loop: `none` is its `exit(0)` at iteration 1200.
unfoldable pub main_round : Ps → Option Ps
unfolding can_merge
main_round s =
    if can_merge s.iter_t s.recved_iter s.worker_num
    then (let iter_t = s.iter_t +ℤ pos 1 in
        if eqb_ℤ iter_t (pos 1200)
        then none
        else some (record s { completed_iter = s.iter_t; iter_t = iter_t }))
    else some s

-- A round of `rdma_sendTd`, once the send buffer is registered.
unfoldable pub send_round : ℕ → Ps → Option Ps
unfolding can_send
send_round i s = if not (can_send (s.to_send_iter i) s.completed_iter) then some s else do
  let pbid = s.worker_pidx i
  let qbid = s.worker_qidx i
  pb ← get_elem? s.p_blocks pbid
  qb ← get_elem? s.q_blocks qbid
  let pb' = record pb { data_age = int_bits (s.to_send_iter i) }
  let qb' = record qb { data_age = int_bits (s.to_send_iter i) }
  let ctx = s.c_ctx i
  buf ← copy_in pb' qb' ctx.buffer
  some (record s {
    p_blocks = set s.p_blocks pbid pb';
    q_blocks = set s.q_blocks qbid qb';
    c_ctx = update s.c_ctx i (record ctx {
      buffer = buf;
      buf_len = total_len pb' qb';
      buf_prepared = true;
      can_send = true;
    });
    to_send_iter = update s.to_send_iter i (s.to_send_iter i +ℤ pos 1);
  })

-- What `rdma_recvTd` does with a block that it reads: the words go into the object that the block at
-- that index has.
unfoldable pub store_block : List Block → Received → Option (List Block)
unfolding overwrite
store_block blocks r = do
  b ← get_elem? blocks r.block_id
  words ← overwrite b.eles.words r.words
  some (
      set blocks r.block_id (record b {
        block_id = r.block_id;
        sta_idx = r.sta_idx;
        height = r.height;
        ele_num = r.ele_num;
        is_p = r.is_p;
        eles = record { addr = b.eles.addr; words = words };
        data_age = r.data_age;
      }))

-- A round of `rdma_recvTd`, once the receive buffer is registered.
unfoldable pub recv_round : ℕ → Ps → Option Ps
unfolding store_block
recv_round i s =
    let ctx = s.s_ctx i in
    let to_recv_iter = s.recved_iter i +ℤ pos 1 in
    if ltb_ℤ (pos ctx.buf_recv_counter +ℤ minus_one) to_recv_iter then some s else do
      p ← receive_block ctx.buffer 0
      p_blocks ← store_block s.p_blocks p
      q ← receive_block ctx.buffer (block_size + data_size p.ele_num)
      q_blocks ← store_block s.q_blocks q
      some (record s {
        p_blocks = p_blocks;
        q_blocks = q_blocks;
        recved_iter = update s.recved_iter i (s.recved_iter i +ℤ pos 1);
        s_ctx = update s.s_ctx i (record ctx { buf_prepared = false; can_recv = true });
      })
