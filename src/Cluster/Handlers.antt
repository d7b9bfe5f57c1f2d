-- ===== src/Cluster/Handlers.antt =====
-- The moves on a connection (Cluster.antt) and the handlers `client_on_completion` and
-- `server_on_completion` (TwoSided), which stop where their loops on `can_send` and `can_recv` wait.
use stellar_bench.Base.{
  ◌%◌, ◌^◌, ◌≡◌, refl, true, none, ◌∷◌, ◌⊎◌, inl, inr, Bool-cases, if◌then◌else◌, ◌==◌,
}
use stellar_bench.Context.{Message, MessageId}
use stellar_bench.Io.{returned, waiting}
use stellar_bench.Verbs.{Library, Wc, ibv_post_send, ibv_post_recv}
use stellar_bench.TwoSided.Client.{
  ClientWorld, client_on_completion, client_on_message, client_send_when_ready, write_wr,
  receive_wr,
}
use stellar_bench.TwoSided.Server.{ServerWorld, server_on_completion, server_on_size, message_wr}
use stellar_bench.TwoSided.Handlers.{
  Succeeds, server_on_completion-answered, server_post_receive-posts, client_on_completion-written,
}
use stellar_bench.Cluster.{received, cleared, counted, answering}

module _ (lib : Library) (ok : Succeeds lib) where
  -- With a message from the peer in its memory, the sender's handler waits with the context of the move
  -- `receive` while `can_send` is down; when it is up, it goes on to that of `clear`, and the write
  -- between them has the length of the move `post`.
  pub client_on_completion-moves :
      (wc : Wc) (m : Message) (c : ClientWorld)
      → lib.has_recv_bit wc.opcode ≡ true
      → (m.id ≡ MessageId.msg_mr) ⊎ (m.id ≡ MessageId.msg_ready)
      → let ctx = received m c.ctx in
        client_on_completion lib wc (record c { ctx = record (c.ctx) { msg = m } }) ≡ (
          if c.ctx.can_send
          then returned tt (record c {
            ctx = cleared ctx;
            calls =
                ibv_post_recv wc.wr_id (receive_wr lib wc.wr_id (cleared ctx))
                ∷ ibv_post_send wc.wr_id (write_wr lib wc.wr_id ctx (ctx.buf_len % 2 ^ 32))
                ∷ c.calls;
          })
          else waiting (record c { ctx = ctx }))
  unfolding client_on_completion client_on_message client_send_when_ready
  client_on_completion-moves wc m c op which =
      let polled : ClientWorld = record c { ctx = record (c.ctx) { msg = m } } in
      elim (Bool-cases c.ctx.can_send) [
        | inl up ↦ elim which [
          | inl mr ↦ rw (client_on_completion-written lib ok wc polled op (inl mr) up, mr, up) refl
          | inr ready ↦
              rw (client_on_completion-written lib ok wc polled op (inr ready) up, ready, up) refl
        ]
        | inr down ↦ elim which [
          | inl mr ↦ rw (op, mr, down) refl
          | inr ready ↦ rw (op, ready, down) refl
        ]
      ]

  -- On a message the receiver's handler waits with the context of the move `arrive` while `can_recv` is
  -- down; when it is up, it goes on to that of `answer`, and the message it sends is the one in it.
  pub server_on_completion-moves :
      (wc : Wc) (s : ServerWorld)
      → lib.is_recv_rdma_with_imm wc.opcode ≡ true
      → let ctx = counted (lib.ntohl wc.imm_data) s.ctx in
        let calls = ibv_post_recv wc.wr_id (record { wr_id = wc.wr_id; sge = none }) ∷ s.calls in
        server_on_completion lib wc s ≡ (
          if s.ctx.can_recv
          then returned tt (record s {
            ctx = answering ctx;
            calls = ibv_post_send wc.wr_id (message_wr lib wc.wr_id (answering ctx)) ∷ calls;
          })
          else waiting (record s { ctx = ctx; calls = calls }))
  unfolding server_on_completion server_on_size
  server_on_completion-moves wc s op = elim (Bool-cases s.ctx.can_recv) [
    | inl up ↦ elim (Bool-cases (lib.ntohl wc.imm_data == 0)) [
      | inl e ↦ rw (server_on_completion-answered lib ok wc s op up, e, up) refl
      | inr e ↦ rw (server_on_completion-answered lib ok wc s op up, e, up) refl
    ]
    | inr down ↦ elim (Bool-cases (lib.ntohl wc.imm_data == 0)) [
      | inl e ↦ rw (op, e, server_post_receive-posts lib ok, down) refl
      | inr e ↦ rw (op, e, server_post_receive-posts lib ok, down) refl
    ]
  ]
