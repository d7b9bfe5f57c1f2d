-- ===== src/TwoSided/Client.antt =====
-- The handlers of rdma_two_sided_client_op.cpp: what the poll thread does on a completion, for the
-- connection of the `rdma_cm_id` at address `id`, whose context `ctx` is.
use stellar_bench.Base.{
  ℕ, ◌%◌, ◌^◌, Bool, true, false, List, [], ◌∷◌, Option, none, some, ◌==◌, if◌then◌else◌, ◌+◌,
}
use stellar_bench.Context.{ClientContext, Message, MessageId, Mr, buffer_size}
use stellar_bench.Io.{Io, Outcome, ◌>>=◌, ◌>>◌, pure, get, modify, wait_for}
use stellar_bench.Verbs.{
  Library, World, Wc, SendOpcode, rdma_write_with_imm, SendWr, RecvWr, Sge, Access, local_write,
  local_remote_write, ibv_post_send, ibv_post_recv, ibv_reg_mr, posix_memalign, rdma_disconnect,
  ibv_get_cq_event, ibv_ack_cq_events, ibv_req_notify_cq, call, test_nz, test_mr,
}
pub mod Events

abbrev pub ClientWorld : Type 0
ClientWorld = World ClientContext

-- `sizeof(struct message)`: an `int`, padding to 8, and a union of 16 bytes.
abbrev pub message_size : ℕ
message_size = 24

abbrev pub set_ctx : (ClientContext → ClientContext) → Io ClientWorld (Unit {0})
set_ctx f = modify (λ w. record w { ctx = f w.ctx })

module _ (lib : Library) where
  -- The work request of `client_write_remote`; `len` is a `uint32_t`.
  unfoldable pub write_wr : ℕ → ClientContext → ℕ → SendWr
  write_wr id ctx len = record {
    wr_id = id;
    opcode = rdma_write_with_imm;
    signaled = true;
    imm_data = lib.htonl len;
    remote_addr = ctx.peer_addr;
    rkey = ctx.peer_rkey;
    sge =
        if len == 0
        then none
        else some (record { addr = ctx.buffer_addr; length = len; lkey = ctx.buffer_mr.lkey });
  }

  unfoldable pub client_write_remote : ℕ → ℕ → Io ClientWorld (Unit {0})
  client_write_remote id len w = test_nz lib (ibv_post_send id (write_wr id w.ctx len)) w

  unfoldable pub receive_wr : ℕ → ClientContext → RecvWr
  receive_wr id ctx = record {
    wr_id = id;
    sge = some (record { addr = ctx.msg_addr; length = message_size; lkey = ctx.msg_mr.lkey });
  }

  unfoldable pub client_post_receive : ℕ → Io ClientWorld (Unit {0})
  client_post_receive id w = test_nz lib (ibv_post_recv id (receive_wr id w.ctx)) w

  -- `buf_len` is a `size_t`, the argument of `client_write_remote` has 32 bits.
  unfoldable pub client_send_next_chunk : ℕ → Io ClientWorld (Unit {0})
  client_send_next_chunk id = do
    w ← get
    client_write_remote id (w.ctx.buf_len % 2 ^ 32)
    set_ctx (λ ctx. record ctx { buf_prepared = false })

  -- What `posix_memalign` returns is not looked at; it gives the address of the new memory, and the
  -- memory holds anything.
  unfoldable pub client_on_pre_conn : ℕ → ℕ → Io ClientWorld (Unit {0})
  unfolding client_post_receive
  client_on_pre_conn id pd = do
    call (posix_memalign buffer_size)
    w ← get
    let mem = lib.memory w.calls
    set_ctx (λ ctx. record ctx { buffer_addr = mem.addr; buffer = mem.words })
    buffer_mr ← test_mr lib (ibv_reg_mr pd mem.addr buffer_size local_write)
    set_ctx (λ ctx. record ctx { buffer_mr = buffer_mr })
    call (posix_memalign message_size)
    v ← get
    let msg_addr = lib.pointer v.calls
    set_ctx (λ ctx. record ctx { msg_addr = msg_addr; msg = lib.message v.calls })
    msg_mr ← test_mr lib (ibv_reg_mr pd msg_addr message_size local_remote_write)
    set_ctx (λ ctx. record ctx { msg_mr = msg_mr; buf_registered = true })
    client_post_receive id

  -- The loop on `can_send` and what follows it, the same in both branches: where the thread is while
  -- it waits, it goes on with this.
  unfoldable pub client_send_when_ready : ℕ → Io ClientWorld (Unit {0})
  client_send_when_ready id = do
    w ← get
    wait_for w.ctx.can_send
    client_send_next_chunk id
    set_ctx (λ ctx. record ctx { can_send = false; buf_write_counter = ctx.buf_write_counter + 1 })
    client_post_receive id

  -- The branches on `ctx->msg->id` of a completed receive.
  unfoldable pub client_on_message : ℕ → MessageId → Io ClientWorld (Unit {0})
  client_on_message id MessageId.msg_mr = do
    set_ctx (λ ctx. record ctx { peer_addr = ctx.msg.addr; peer_rkey = ctx.msg.rkey })
    client_send_when_ready id
  client_on_message id MessageId.msg_ready = client_send_when_ready id
  client_on_message id MessageId.msg_done = call (rdma_disconnect id)
  client_on_message id MessageId.msg_invalid = client_post_receive id

  unfoldable pub client_on_completion : Wc → Io ClientWorld (Unit {0})
  client_on_completion wc w =
      if lib.has_recv_bit wc.opcode then client_on_message wc.wr_id w.ctx.msg.id w else pure tt w

  -- The completions that `ibv_poll_cq` hands out, one at a time, until it has none.
  unfoldable pub client_take : List Wc → Io ClientWorld (Unit {0})
  client_take [] = pure tt
  client_take (wc ∷ wcs) = do if wc.ok then client_on_completion wc else pure tt; client_take wcs

  -- A round of the poll thread's loop; `pointer` after `ibv_get_cq_event` is the queue.
  unfoldable pub client_poll_cq : ℕ → List Wc → Io ClientWorld (Unit {0})
  unfolding client_take
  client_poll_cq channel wcs = do
    test_nz lib (ibv_get_cq_event channel)
    w ← get
    let cq = lib.pointer w.calls
    call (ibv_ack_cq_events cq 1)
    test_nz lib (ibv_req_notify_cq cq)
    client_take wcs
