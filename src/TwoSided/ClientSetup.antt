-- ===== src/TwoSided/ClientSetup.antt =====
-- The set-up of a connection by the event loop of the client.
use stellar_bench.Base.{ℕ, List}
use stellar_bench.Verbs.{Library, Call, local_write}
use stellar_bench.TwoSided.Client.{ClientWorld, receive_wr, message_size}
use stellar_bench.TwoSided.Client.Events as ClientEvents
use stellar_bench.TwoSided.SetupCalls.{AreReady}

-- The client's buffers are ready on the domain `pd`.
abbrev pub IsClientReady : Library → ℕ → ℕ → List Call → ClientWorld → List Call → Type 0
IsClientReady lib id pd older s calls =
    AreReady lib id pd s.ctx.buffer_addr s.ctx.msg_addr message_size local_write s.ctx.buffer_mr
      s.ctx.msg_mr (receive_wr lib id s.ctx) older calls
