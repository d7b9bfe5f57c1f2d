-- ===== src/TwoSided/Session.antt =====
-- Sessions of a client and a server over one connection.
use stellar_bench.Base.{
  ℕ, ◌+◌, ◌%◌, ◌^◌, ◌<◌, ◌≡◌, refl, true, some, List, [], ◌∷◌, ◌⊎◌, inl, inr, length, arith,
}
use native.Mathlib.Nat.{mod-eq_of_lt}
use stellar_bench.Context.{ClientContext, Message, MessageId}
use stellar_bench.Io.{returned}
use stellar_bench.Verbs.{Library, Wc, SendWr}
use stellar_bench.TwoSided.Client.{ClientWorld, write_wr}
use stellar_bench.TwoSided.Server.{ServerWorld, server_on_connection}
use stellar_bench.TwoSided.Exchange.{recv_wc, sends, deliver, round_trip, exchange}
use stellar_bench.TwoSided.Handlers.{
  Succeeds, answered, written, announced, learned, server_on_completion-answered,
  client_on_completion-written, server_on_connection-announces,
}

-- Every message of the list has a length that 32 bits hold.
abbrev pub AllSmall : List ℕ → Type 0
AllSmall [] = Unit {0}
AllSmall (len ∷ lens) = (len < 2 ^ 32) × AllSmall lens

abbrev pub last_or : ℕ → List ℕ → ℕ
last_or d [] = d
last_or d (len ∷ lens) = last_or len lens

-- Every write goes to that address with that key.
abbrev pub AllTo : ℕ → ℕ → List SendWr → Type 0
AllTo a r [] = Unit {0}
AllTo a r (wr ∷ wrs) = (wr.remote_addr ≡ a) × (wr.rkey ≡ r) × AllTo a r wrs

-- The server's message announces the region, or the client has read that before.
abbrev Knows : ℕ → ℕ → Message → ClientContext → Type 0
Knows a r m ctx =
    ((m.id ≡ MessageId.msg_mr) × (m.addr ≡ a) × (m.rkey ≡ r))
    ⊎ ((m.id ≡ MessageId.msg_ready) × (ctx.peer_addr ≡ a) × (ctx.peer_rkey ≡ r))

module _ (lib : Library) (ok : Succeeds lib)
    (order : (x : ℕ) → x < 2 ^ 32 → lib.ntohl (lib.htonl x) ≡ x)
    (recv recv_imm client_id server_id : ℕ) (recv-bit : lib.has_recv_bit recv ≡ true)
    (recv_imm-op : lib.is_recv_rdma_with_imm recv_imm ≡ true) where
  -- What holds of the two ends after some round trips.
  abbrev Ends : ℕ → ℕ → ServerWorld → ClientWorld → Type 0
  Ends a r s c = (s.ctx.can_recv ≡ true) × Knows a r s.ctx.msg c.ctx × AllTo a r (sends c.calls)

  learned-Knows :
      (a r : ℕ) (m : Message) (ctx : ClientContext)
      → Knows a r m ctx
      → (announced m.id m.addr ctx.peer_addr ≡ a) × (announced m.id m.rkey ctx.peer_rkey ≡ r)
  learned-Knows a r m ctx (inl (mr, ha, hr)) = rw mr (ha, hr)
  learned-Knows a r m ctx (inr (ready, ha, hr)) = rw ready (ha, hr)

  Knows-cases :
      (a r : ℕ) (m : Message) (ctx : ClientContext)
      → Knows a r m ctx
      → (m.id ≡ MessageId.msg_mr) ⊎ (m.id ≡ MessageId.msg_ready)
  Knows-cases a r m ctx (inl (mr, _, _)) = inl mr
  Knows-cases a r m ctx (inr (ready, _, _)) = inr ready

  -- The world of the client after its part of a round trip.
  abbrev client_after : ℕ → ServerWorld → ClientWorld → ClientWorld
  client_after len s c =
      let d = deliver s.ctx.msg len c in
      written lib client_id (record d { ctx = learned s.ctx.msg.id d.ctx })

  round_trip-answered :
      (a r len : ℕ) (s : ServerWorld) (c : ClientWorld)
      → len < 2 ^ 32
      → Ends a r s c
      → round_trip lib recv recv_imm client_id server_id len (s, c)
        ≡ some (answered lib server_id len s, client_after len s c)
  unfolding round_trip write_wr
  round_trip-answered a r len s c small (up, knows, to) =
      let wc : Wc = record {
        ok = true;
        opcode = recv_imm;
        wr_id = server_id;
        imm_data = lib.htonl (len % 2 ^ 32);
      } in
      rw
        (
          client_on_completion-written lib ok (recv_wc lib recv recv_imm client_id server_id)
              (deliver s.ctx.msg len c) recv-bit (Knows-cases a r s.ctx.msg c.ctx knows) refl,
          server_on_completion-answered lib ok wc s recv_imm-op up,
          mod-eq_of_lt small,
          order len small,
        )
        refl

  client_after-Ends :
      (a r len : ℕ) (s : ServerWorld) (c : ClientWorld)
      → Ends a r s c
      → Ends a r (answered lib server_id len s) (client_after len s c)
  unfolding write_wr
  client_after-Ends a r len s c (up, knows, to) =
      let (ha, hr) = learned-Knows a r s.ctx.msg c.ctx knows in
      (up, inr (refl, ha, hr), (ha, hr, to))

  -- What a session comes to.
  abbrev Done : ℕ → ℕ → List ℕ → ServerWorld → ClientWorld → Type 0
  Done a r lens s c =
      (s₂ : ServerWorld) × (c₂ : ClientWorld) × (exchange lib recv recv_imm client_id server_id lens
          (s, c)
        ≡ some (s₂, c₂))
      × (s₂.ctx.buf_recv_counter ≡ s.ctx.buf_recv_counter + length lens)
      × (c₂.ctx.buf_write_counter ≡ c.ctx.buf_write_counter + length lens)
      × (s₂.ctx.buf_len ≡ last_or s.ctx.buf_len lens)
      × AllTo a r (sends c₂.calls)

  exchange-Done :
      (a r : ℕ) (lens : List ℕ) (s : ServerWorld) (c : ClientWorld)
      → AllSmall lens
      → Ends a r s c
      → Done a r lens s c
  unfolding exchange
  exchange-Done a r [] s c small (up, knows, to) = (s, c, refl, omega arith, omega arith, refl, to)
  exchange-Done a r (len ∷ lens) s c (small, smalls) ends =
      let next =
        exchange-Done a r lens (answered lib server_id len s) (client_after len s c) smalls
          (client_after-Ends a r len s c ends) in
      let (s₂, c₂, run, received, wrote, last, to) = next in
      (
        s₂,
        c₂,
        rw (round_trip-answered a r len s c small ends) run,
        rw received (omega arith),
        rw wrote (omega arith),
        last,
        to,
      )

  -- When the calls succeed, ntohl undoes htonl, can_recv is up and each message is shorter than 2^32
  -- bytes, the handlers of a connection carry any number of messages: after server_on_connection a
  -- client that has written nothing completes a round trip for each, both ends have counted all
  -- of them, the server has the length of the last one, and every write goes to the buffer that the
  -- server registered, with its key.
  pub session :
      (lens : List ℕ) (s : ServerWorld) (c : ClientWorld)
      → AllSmall lens
      → s.ctx.can_recv ≡ true
      → sends c.calls ≡ []
      → (s₁ : ServerWorld) × (server_on_connection lib server_id s ≡ returned tt s₁)
        × (s₂ : ServerWorld) × (c₂ : ClientWorld) × (exchange lib recv recv_imm client_id server_id
              lens
              (s₁, c)
            ≡ some (s₂, c₂))
        × (s₂.ctx.buf_recv_counter ≡ s.ctx.buf_recv_counter + length lens)
        × (c₂.ctx.buf_write_counter ≡ c.ctx.buf_write_counter + length lens)
        × (s₂.ctx.buf_len ≡ last_or s.ctx.buf_len lens)
        × AllTo s.ctx.buffer_mr.addr s.ctx.buffer_mr.rkey (sends c₂.calls)
  session lens s c small up none_yet =
      let (s₂, c₂, run, received, wrote, last, to) =
        exchange-Done s.ctx.buffer_mr.addr s.ctx.buffer_mr.rkey lens _ c small
          (up, inl (refl, refl, refl), rw none_yet tt) in
      (_, server_on_connection-announces lib ok server_id s, s₂, c₂, run, received, wrote, last, to)
