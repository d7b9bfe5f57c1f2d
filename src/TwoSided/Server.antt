-- ===== src/TwoSided/Server.antt =====
-- The handlers of rdma_two_sided_server_op.cpp: what the receiving end does on a connection and on a
-- completion, for the connection of the `rdma_cm_id` at address `id`, whose context `ctx` is.
use stellar_bench.Base.{
  ℕ, Bool, true, false, List, [], ◌∷◌, Option, none, some, ◌==◌, if◌then◌else◌, ◌+◌,
}
use stellar_bench.Context.{ConnContext, Message, MessageId, Mr, buffer_size}
use stellar_bench.Io.{Io, Outcome, ◌>>=◌, ◌>>◌, pure, get, modify, wait_for, rc_die}
use stellar_bench.Verbs.{
  Library, World, Wc, SendOpcode, send, SendWr, RecvWr, Sge, Access, local_remote_write,
  ibv_post_send, ibv_post_recv, ibv_reg_mr, ibv_dereg_mr, posix_memalign, free, ibv_get_cq_event,
  ibv_ack_cq_events, ibv_req_notify_cq, call, test_nz, test_mr,
}
use stellar_bench.TwoSided.Client.{message_size}
pub mod Events

abbrev pub ServerWorld : Type 0
ServerWorld = World ConnContext

abbrev pub set_ctx : (ConnContext → ConnContext) → Io ServerWorld (Unit {0})
set_ctx f = modify (λ w. record w { ctx = f w.ctx })

abbrev pub set_id : MessageId → ConnContext → ConnContext
set_id i ctx = record ctx { msg = record ctx.msg { id = i } }

module _ (lib : Library) where
  unfoldable pub message_wr : ℕ → ConnContext → SendWr
  message_wr id ctx = record {
    wr_id = id;
    opcode = send;
    signaled = true;
    imm_data = 0;
    remote_addr = 0;
    rkey = 0;
    sge = some (record { addr = ctx.msg_addr; length = message_size; lkey = ctx.msg_mr.lkey });
  }

  unfoldable pub server_send_message : ℕ → Io ServerWorld (Unit {0})
  server_send_message id w = test_nz lib (ibv_post_send id (message_wr id w.ctx)) w

  unfoldable pub server_post_receive : ℕ → Io ServerWorld (Unit {0})
  server_post_receive id = test_nz lib (ibv_post_recv id (record { wr_id = id; sge = none }))

  -- What `posix_memalign` returns is not looked at; it gives the address of the new memory, and the
  -- memory holds anything.
  unfoldable pub server_on_pre_conn : ℕ → ℕ → Io ServerWorld (Unit {0})
  server_on_pre_conn id pd = do
    call (posix_memalign buffer_size)
    w ← get
    let mem = lib.memory w.calls
    set_ctx (λ ctx. record ctx { buffer_addr = mem.addr; buffer = mem.words })
    buffer_mr ← test_mr lib (ibv_reg_mr pd mem.addr buffer_size local_remote_write)
    set_ctx (λ ctx. record ctx { buffer_mr = buffer_mr })
    call (posix_memalign message_size)
    v ← get
    let msg_addr = lib.pointer v.calls
    set_ctx (λ ctx. record ctx { msg_addr = msg_addr; msg = lib.message v.calls })
    msg_mr ← test_mr lib (ibv_reg_mr pd msg_addr message_size local_remote_write)
    set_ctx (λ ctx. record ctx { msg_mr = msg_mr; buf_registered = true })
    server_post_receive id

  unfoldable pub server_on_connection : ℕ → Io ServerWorld (Unit {0})
  server_on_connection id = do
    set_ctx (λ ctx. record ctx {
      msg = record { id = MessageId.msg_mr; addr = ctx.buffer_mr.addr; rkey = ctx.buffer_mr.rkey };
    })
    server_send_message id

  -- The branch of a message without data sets the answer before it waits, the other one after.
  unfoldable pub server_on_size : ℕ → ℕ → Io ServerWorld (Unit {0})
  server_on_size id size =
      if size == 0
      then (do
        set_ctx (set_id MessageId.msg_ready)
        server_post_receive id
        set_ctx (λ ctx. record ctx { buf_len = size; buf_recv_counter = ctx.buf_recv_counter + 1 })
        w ← get
        wait_for w.ctx.can_recv
        server_send_message id)
      else (do
        server_post_receive id
        set_ctx (λ ctx. record ctx { buf_len = size; buf_recv_counter = ctx.buf_recv_counter + 1 })
        w ← get
        wait_for w.ctx.can_recv
        set_ctx (set_id MessageId.msg_ready)
        server_send_message id)

  unfoldable pub server_on_completion : Wc → Io ServerWorld (Unit {0})
  server_on_completion wc =
      if lib.is_recv_rdma_with_imm wc.opcode
      then server_on_size wc.wr_id (lib.ntohl wc.imm_data)
      else pure tt

  unfoldable pub server_on_disconnect : ℕ → Io ServerWorld (Unit {0})
  server_on_disconnect id = do
    w ← get
    call (ibv_dereg_mr w.ctx.buffer_mr)
    call (ibv_dereg_mr w.ctx.msg_mr)
    call (free w.ctx.buffer_addr)
    call (free w.ctx.msg_addr)

  -- The completions that `ibv_poll_cq` hands out, one at a time, until it has none.
  unfoldable pub server_take : List Wc → Io ServerWorld (Unit {0})
  server_take [] = pure tt
  server_take (wc ∷ wcs) = do if wc.ok then server_on_completion wc else rc_die; server_take wcs

  -- A round of the poll thread's loop; `pointer` after `ibv_get_cq_event` is the queue.
  unfoldable pub server_poll_cq : ℕ → List Wc → Io ServerWorld (Unit {0})
  unfolding server_take
  server_poll_cq channel wcs = do
    test_nz lib (ibv_get_cq_event channel)
    w ← get
    let cq = lib.pointer w.calls
    call (ibv_ack_cq_events cq 1)
    test_nz lib (ibv_req_notify_cq cq)
    server_take wcs
