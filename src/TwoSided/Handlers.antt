-- ===== src/TwoSided/Handlers.antt =====
-- What the handlers of the two ends do when each call of the libraries succeeds.
use stellar_bench.Base.{
  ℕ, ◌+◌, ◌%◌, ◌^◌, ◌≡◌, refl, true, false, none, List, ◌∷◌, ◌⊎◌, inl, inr, pos, Bool-cases, ◌==◌,
}
use stellar_bench.Context.{ClientContext, MessageId}
use stellar_bench.Io.{returned}
use stellar_bench.Verbs.{Library, Wc, Call, ibv_post_send, ibv_post_recv}
use stellar_bench.TwoSided.Client.{
  ClientWorld, client_on_completion, client_on_message, client_send_when_ready,
  client_send_next_chunk, client_write_remote, client_post_receive, write_wr, receive_wr,
}
use stellar_bench.TwoSided.Server.{
  ServerWorld, server_on_completion, server_on_size, server_on_connection, server_send_message,
  server_post_receive, message_wr,
}

-- Each call that returns an `int` returns 0.
abbrev pub Succeeds : Library → Type 0
Succeeds lib = (calls : List Call) → lib.status calls ≡ pos 0

-- The server's world after it took a message of `size` bytes and answered.
abbrev pub answered : Library → ℕ → ℕ → ServerWorld → ServerWorld
answered lib id size s =
    let ctx = record s.ctx {
      buf_len = size;
      buf_recv_counter = s.ctx.buf_recv_counter + 1;
      msg = record s.ctx.msg { id = MessageId.msg_ready };
    } in
    record s {
      ctx = ctx;
      calls =
          ibv_post_send id (message_wr lib id ctx)
          ∷ ibv_post_recv id (record { wr_id = id; sge = none })
          ∷ s.calls;
    }

abbrev pub announced : MessageId → ℕ → ℕ → ℕ
announced MessageId.msg_mr new old = new
announced _ new old = old

-- The client's context once it has read a message of that kind.
abbrev pub learned : MessageId → ClientContext → ClientContext
learned i ctx = record ctx {
  peer_addr = announced i ctx.msg.addr ctx.peer_addr;
  peer_rkey = announced i ctx.msg.rkey ctx.peer_rkey;
}

-- The client's world after it wrote its buffer.
abbrev pub written : Library → ℕ → ClientWorld → ClientWorld
written lib id c =
    let ctx = record c.ctx {
      buf_prepared = false;
      can_send = false;
      buf_write_counter = c.ctx.buf_write_counter + 1;
    } in
    record c {
      ctx = ctx;
      calls =
          ibv_post_recv id (receive_wr lib id ctx)
          ∷ ibv_post_send id (write_wr lib id c.ctx (c.ctx.buf_len % 2 ^ 32))
          ∷ c.calls;
    }

module _ (lib : Library) (ok : Succeeds lib) where
  server_send_message-posts :
      (id : ℕ) (s : ServerWorld)
      → server_send_message lib id s
        ≡ returned tt (record s { calls = ibv_post_send id (message_wr lib id s.ctx) ∷ s.calls })
  unfolding server_send_message
  server_send_message-posts id s = rw ok refl

  pub server_post_receive-posts :
      (id : ℕ) (s : ServerWorld)
      → server_post_receive lib id s
        ≡ returned tt
            (record s { calls = ibv_post_recv id (record { wr_id = id; sge = none }) ∷ s.calls })
  unfolding server_post_receive
  server_post_receive-posts id s = rw ok refl

  pub server_on_connection-announces :
      (id : ℕ) (s : ServerWorld)
      → let ctx = record s.ctx {
        msg = record {
          id = MessageId.msg_mr;
          addr = s.ctx.buffer_mr.addr;
          rkey = s.ctx.buffer_mr.rkey;
        };
      } in
        server_on_connection lib id s
        ≡ returned tt
            (record s { ctx = ctx; calls = ibv_post_send id (message_wr lib id ctx) ∷ s.calls })
  unfolding server_on_connection
  server_on_connection-announces id s = server_send_message-posts id _

  -- When the calls succeed and can_recv is up, server_on_completion does the same on a message with
  -- data and on one without: it posts a receive, stores the length that the immediate data carries,
  -- counts the message and then sends MSG_READY.
  pub server_on_completion-answered :
      (wc : Wc) (s : ServerWorld)
      → lib.is_recv_rdma_with_imm wc.opcode ≡ true
      → s.ctx.can_recv ≡ true
      → server_on_completion lib wc s
        ≡ returned tt (answered lib wc.wr_id (lib.ntohl wc.imm_data) s)
  unfolding server_on_completion server_on_size
  server_on_completion-answered wc s op up = elim (Bool-cases (lib.ntohl wc.imm_data == 0)) [
    | inl e ↦ rw (op, e, server_post_receive-posts, up, server_send_message-posts) refl
    | inr e ↦ rw (op, e, server_post_receive-posts, up, server_send_message-posts) refl
  ]

  pub client_post_receive-posts :
      (id : ℕ) (c : ClientWorld)
      → client_post_receive lib id c
        ≡ returned tt (record c { calls = ibv_post_recv id (receive_wr lib id c.ctx) ∷ c.calls })
  unfolding client_post_receive
  client_post_receive-posts id c = rw ok refl

  client_write_remote-posts :
      (id len : ℕ) (c : ClientWorld)
      → client_write_remote lib id len c
        ≡ returned tt (record c { calls = ibv_post_send id (write_wr lib id c.ctx len) ∷ c.calls })
  unfolding client_write_remote
  client_write_remote-posts id len c = rw ok refl

  client_send_when_ready-written :
      (id : ℕ) (c : ClientWorld)
      → c.ctx.can_send ≡ true
      → client_send_when_ready lib id c ≡ returned tt (written lib id c)
  unfolding client_send_when_ready client_send_next_chunk
  client_send_when_ready-written id c up =
      rw (up, client_write_remote-posts, client_post_receive-posts) refl

  -- When the calls succeed and can_send is up, client_on_completion takes the peer's address and key
  -- from an MSG_MR, and on both MSG_MR and MSG_READY it writes its buffer to the peer, lowers
  -- can_send, counts the message and posts a receive.
  pub client_on_completion-written :
      (wc : Wc) (c : ClientWorld)
      → lib.has_recv_bit wc.opcode ≡ true
      → (c.ctx.msg.id ≡ MessageId.msg_mr) ⊎ (c.ctx.msg.id ≡ MessageId.msg_ready)
      → c.ctx.can_send ≡ true
      → client_on_completion lib wc c
        ≡ returned tt (written lib wc.wr_id (record c { ctx = learned c.ctx.msg.id c.ctx }))
  unfolding client_on_completion client_on_message
  client_on_completion-written wc c op (inl mr) up =
      rw (op, mr) (client_send_when_ready-written wc.wr_id _ up)
  client_on_completion-written wc c op (inr ready) up =
      rw (op, ready) (client_send_when_ready-written wc.wr_id _ up)
