-- ===== src/Worker.antt =====
-- A worker, worker.cpp: its globals as one record, the guards, and one function for each body of a
-- thread's main loop, as in Ps.antt. The gradient step is Worker/Descent.antt. `malloc` is the
-- argument `alloc`.
pub mod Descent
pub mod Guards
mod Tests
pub mod Safety
pub mod Keeps
use stellar_bench.Base.{
  ℕ, ◌+◌, Option, some, none, Bool, true, false, ◌>>=◌, if◌then◌else◌, ℤ, pos, ◌+ℤ◌, ltb_ℤ, leb_ℤ,
  eqb_ℤ,
}
use stellar_bench.Block.{Block, Region, block_size}
use stellar_bench.Context.{ClientContext, ConnContext}
use stellar_bench.Wire.{data_size, total_len, copy_in, Received, receive_block, overwrite}
use Descent.{Doubles, fake_sub_mf}

-- The contexts are those at the index `thread_id`, the only ones in use.
pub record Worker : Type 0 where
  pub c_ctx : ClientContext
  pub s_ctx : ConnContext
  pub p_block : Block
  pub q_block : Block
  pub iter_t : ℤ
  pub recved_age : ℤ
  pub to_send_age : ℤ
  pub completed_iter : ℤ

unfoldable pub can_compute : ℤ → ℤ → Bool
can_compute coming_iter recved_age = if leb_ℤ coming_iter recved_age then true else false

unfoldable pub can_send : ℤ → ℤ → Bool
can_send to_send_iter completed_age = if eqb_ℤ to_send_iter completed_age then true else false

-- A round of `main`'s loop, with the numbers that `random()` returns in it.
unfoldable pub main_round : Doubles → (ℕ → ℕ) → Worker → Option Worker
unfolding can_compute
main_round d random s =
    if can_compute s.iter_t s.recved_age
    then (do
      (p, q) ← fake_sub_mf d random s.p_block s.q_block
      some (record s {
        p_block = p;
        q_block = q;
        completed_iter = s.iter_t;
        iter_t = s.iter_t +ℤ pos 1;
      }))
    else some s

-- A round of `rdma_sendTd`. Unlike the server it does not wait for the buffer to be registered.
unfoldable pub send_round : Worker → Option Worker
unfolding can_send
send_round s =
    let ctx = s.c_ctx in
    if can_send s.to_send_age s.completed_iter
    then (do
      buf ← copy_in s.p_block s.q_block ctx.buffer
      some (record s {
        c_ctx = record ctx {
          buffer = buf;
          buf_len = total_len s.p_block s.q_block;
          can_send = true;
        };
        to_send_age = s.to_send_age +ℤ pos 1;
      }))
    else some s

-- What `rdma_recvTd` does with a block that it reads: the words go into a new object.
unfoldable pub store_block : (ℕ → Region) → Block → Received → Option Block
unfolding overwrite
store_block alloc b r = do
  let fresh = alloc r.ele_num
  words ← overwrite fresh.words r.words
  some (record b {
    block_id = r.block_id;
    sta_idx = r.sta_idx;
    height = r.height;
    ele_num = r.ele_num;
    eles = record { addr = fresh.addr; words = words };
    data_age = r.data_age;
  })

-- A round of `rdma_recvTd`, once the receive buffer is registered.
unfoldable pub recv_round : (ℕ → Region) → Worker → Option Worker
unfolding store_block
recv_round alloc s =
    let ctx = s.s_ctx in
    let to_recv_age = s.recved_age +ℤ pos 1 in
    if leb_ℤ (pos ctx.buf_recv_counter) to_recv_age then some s else do
      p ← receive_block ctx.buffer 0
      p_block ← store_block alloc s.p_block p
      q ← receive_block ctx.buffer (block_size + data_size p.ele_num)
      q_block ← store_block alloc s.q_block q
      some (record s {
        p_block = p_block;
        q_block = q_block;
        recved_age = s.recved_age +ℤ pos 1;
        s_ctx = record ctx { can_recv = true };
      })
