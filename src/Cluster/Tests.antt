-- ===== src/Cluster/Tests.antt =====
-- The theorems of Cluster on the run of Cluster/Inputs.
use stellar_bench.Base.{◌≡◌, refl, true, none, inl, [], ◌∷◌, pos, minus_one, ◌+ℤ◌, ◌≤ℤ◌, arith}
use stellar_bench.Context.{ClientContext, ConnContext}
use stellar_bench.Ps
use stellar_bench.Ps.{Ps}
use stellar_bench.Round.{System, Reach}
use stellar_bench.Cluster.Safety.{InOrder, in_step, IsQuiet, refill-IsQuiet}
use stellar_bench.Cluster.Links.{IsAlone, land-taken}
use stellar_bench.Cluster.Logs.{down_channel}
use stellar_bench.Cluster.Delivered.{IsDelivered, delivered}
use stellar_bench.Delivery.Inputs.{rdma_write}
use stellar_bench.Cluster.{received, counted, answering, down_ends, up_ends}
use stellar_bench.Io.{returned, waiting}
use stellar_bench.Verbs.{Wc, ibv_post_recv, ibv_post_send}
use stellar_bench.TwoSided.Client.{client_on_completion}
use stellar_bench.TwoSided.Server.{server_on_completion, message_wr}
use stellar_bench.TwoSided.Inputs
use stellar_bench.TwoSided.Inputs.{library, imm_wc}
use stellar_bench.Cluster.Handlers.{client_on_completion-moves, server_on_completion-moves}
use stellar_bench.Cluster.Abstraction.{Refines}
use stellar_bench.Cluster.Refinement.{refinement}
use stellar_bench.Cluster.Inputs.{mr_message, first_message, opened, posted, taken}

refinement_example : (a : System) × Reach 1 a × Refines 1 taken.state a
refinement_example = refinement rdma_write 1 taken.state taken.run

in_step_example : InOrder taken.state 0 × (minus_one ≤ℤ (minus_one +ℤ pos 1))
in_step_example = in_step rdma_write 1 taken.state taken.run 0 0 (omega arith) (omega arith)

refill-IsQuiet_example :
    IsQuiet (down_ends opened.state 0) (pos 0) minus_one
    × IsQuiet (up_ends opened.state 0) (pos 0) minus_one
unfolding Ps.can_send
refill-IsQuiet_example = refill-IsQuiet rdma_write 1 opened.state opened.run 0 (omega arith) refl

land-taken_example : IsAlone (down_channel posted.state 0) []
land-taken_example =
    land-taken rdma_write 1 posted.state posted.run 0 (omega arith) (down_channel posted.state 0)
      (inl refl) 88 [] refl

delivered_example :
    IsDelivered (pos 1) (pos 0) (first_message ∷ []) (first_message ∷ [])
    × IsDelivered (pos 0) minus_one [] []
unfolding Ps.can_send
delivered_example =
    delivered rdma_write (λ src len dst. refl) 1 taken.state taken.run 0 (omega arith) (omega arith)
      (omega arith)

-- A completed receive of a message.
abbrev recv_wc : Wc
recv_wc = record { ok = true; opcode = 128; wr_id = 2; imm_data = 0 }

abbrev polled : ClientContext
polled = received mr_message Inputs.client.ctx

client_on_completion-moves_example :
    client_on_completion library recv_wc
      (record (Inputs.client) { ctx = record (Inputs.client.ctx) { msg = mr_message } })
    ≡ waiting (record (Inputs.client) { ctx = polled })
client_on_completion-moves_example =
    client_on_completion-moves library (λ calls. refl) recv_wc mr_message Inputs.client refl
      (inl refl)

abbrev answered : ConnContext
answered = answering (counted 1056 Inputs.server.ctx)

server_on_completion-moves_example :
    server_on_completion library imm_wc Inputs.server
    ≡ returned tt (record (Inputs.server) {
      ctx = answered;
      calls =
          ibv_post_send 2 (message_wr library 2 answered)
          ∷ ibv_post_recv 2 (record { wr_id = 2; sge = none })
          ∷ [];
    })
server_on_completion-moves_example =
    server_on_completion-moves library (λ calls. refl) imm_wc Inputs.server refl
