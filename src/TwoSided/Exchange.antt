-- ===== src/TwoSided/Exchange.antt =====
-- The two ends of a connection together: what one end posts arrives at the other one.
use stellar_bench.Base.{ℕ, true, Option, none, some, List, [], ◌∷◌}
use stellar_bench.Base.{◌>>=◌}
use stellar_bench.Context.{Message}
use stellar_bench.Io.{Outcome, returned, exited, waiting}
use stellar_bench.Verbs.{Library, Wc, Call, SendWr, ibv_post_send}
use stellar_bench.TwoSided.Client.{ClientWorld, client_on_completion}
use stellar_bench.TwoSided.Server.{ServerWorld, server_on_completion}

abbrev pub result : {S : Type 0} → Outcome S (Unit {0}) → Option S
result (returned a s) = some s
result (exited s) = none
result (waiting s) = none

-- The work requests posted on a send queue, the last one first.
abbrev pub sends : List Call → List SendWr
sends [] = []
sends (ibv_post_send id wr ∷ calls) = wr ∷ sends calls
sends (c ∷ calls) = sends calls

abbrev pub head? {ℓ} : {A : Type ℓ} → List A → Option A
head? [] = none
head? (a ∷ rest) = some a

-- A message arrives in `msg`, and `rdma_sendTd` has put `len` bytes into the buffer.
abbrev pub deliver : Message → ℕ → ClientWorld → ClientWorld
deliver m len c = record c { ctx = record c.ctx { msg = m; buf_len = len; can_send = true } }

-- The completions that the two poll threads see: `recv` and `recv_imm` are their opcodes.
module _ (lib : Library) (recv recv_imm client_id server_id : ℕ) where
  abbrev pub recv_wc : Wc
  recv_wc = record { ok = true; opcode = recv; wr_id = client_id; imm_data = 0 }

  abbrev pub imm_wc : SendWr → Wc
  imm_wc wr = record { ok = true; opcode = recv_imm; wr_id = server_id; imm_data = wr.imm_data }

  -- The client takes the server's message and writes; the server takes the write and answers.
  unfoldable pub round_trip : ℕ → ServerWorld × ClientWorld → Option (ServerWorld × ClientWorld)
  round_trip len (s, c) = do
    c₂ ← result (client_on_completion lib recv_wc (deliver s.ctx.msg len c))
    wr ← head? (sends c₂.calls)
    s₂ ← result (server_on_completion lib (imm_wc wr) s)
    some (s₂, c₂)

  -- A round trip for each message, of the lengths given.
  unfoldable pub exchange : List ℕ → ServerWorld × ClientWorld → Option (ServerWorld × ClientWorld)
  unfolding round_trip
  exchange [] ends = some ends
  exchange (len ∷ lens) ends = do ends₂ ← round_trip len ends; exchange lens ends₂
