-- ===== src/TwoSided/ServerSetup.antt =====
-- The set-up of a connection by the event loop of the server.
use stellar_bench.Base.{ℕ, none, List}
use stellar_bench.Verbs.{Library, Call, RecvWr, local_remote_write}
use stellar_bench.TwoSided.Server.{ServerWorld}
use stellar_bench.TwoSided.Client.{message_size}
use stellar_bench.TwoSided.Server.Events as ServerEvents
use stellar_bench.TwoSided.SetupCalls.{AreReady}

-- The receive that the server posts has no buffer.
abbrev pub bare_receive : ℕ → RecvWr
bare_receive id = record { wr_id = id; sge = none }

-- The server's buffers are ready on the domain `pd`.
abbrev pub IsServerReady : Library → ℕ → ℕ → List Call → ServerWorld → List Call → Type 0
IsServerReady lib id pd older s calls =
    AreReady lib id pd s.ctx.buffer_addr s.ctx.msg_addr message_size local_remote_write
      s.ctx.buffer_mr s.ctx.msg_mr (bare_receive id) older calls
