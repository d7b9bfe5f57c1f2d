-- ===== src/OneSided/Disconnect.antt =====
-- How the one-sided client connects and disconnects.
use stellar_bench.Base.{
  ne_zero→eqb_ℤ, ℕ, zero, suc, ◌<◌, ◌≡◌, ◌≢◌, refl, false, List, [], ◌∷◌, ◌++◌, Option, none, some,
  pos, arith,
}
use stellar_bench.Verbs.{EventType}
use stellar_bench.Fallible.{next}
use stellar_bench.OneSided.Calls.{
  Answers, Program, MemoryRegion, RdmaCall, rdma_disconnect, rdma_get_cm_event, rdma_ack_cm_event,
  rdma_connect, rdma_destroy_event_channel, rdma_destroy_qp, rdma_destroy_id, ibv_destroy_cq,
  ibv_destroy_comp_channel, ibv_dealloc_pd, ibv_dereg_mr, free,
}
use stellar_bench.OneSided.Common.{process_rdma_cm_event, rdma_buffer_deregister, same_event}
use stellar_bench.OneSided.Client.{ClientOp, client_disconnect_and_clean, connect_until}

module _ (lib : Answers) (p : Program ClientOp) where
  abbrev pub waiting_calls : List RdmaCall
  waiting_calls =
      rdma_get_cm_event p.own.cm_event_channel ∷ rdma_disconnect p.own.cm_client_id ∷ p.calls

  -- The calls after `rdma_buffer_deregister`.
  abbrev freed : Option MemoryRegion → List RdmaCall → List RdmaCall
  freed none calls = calls
  freed (some mr) calls = ibv_dereg_mr mr ∷ calls

  deregister-freed :
      (mr : Option MemoryRegion) (q : Program ClientOp)
      → rdma_buffer_deregister lib mr q ≡ next tt (record q { calls = freed mr q.calls })
  unfolding rdma_buffer_deregister
  deregister-freed none q = refl
  deregister-freed (some mr) q = refl

  -- A list of calls that came after those of `base`.
  abbrev pub Extends : List RdmaCall → List RdmaCall → Type 0
  Extends base calls = (later : List RdmaCall) × (calls ≡ later ++ base)

  Extends-cons :
      (c : RdmaCall) (base calls : List RdmaCall) → Extends base calls → Extends base (c ∷ calls)
  Extends-cons c base calls (later, e) = (c ∷ later, rw e refl)

  Extends-freed :
      (mr : Option MemoryRegion) (base calls : List RdmaCall)
      → Extends base calls
      → Extends base (freed mr calls)
  Extends-freed none base calls h = h
  Extends-freed (some mr) base calls h = Extends-cons (ibv_dereg_mr mr) base calls h

  -- When an event arrives that is not the expected one, client_disconnect_and_clean acknowledges it a
  -- second time, after process_rdma_cm_event has, then frees everything and returns 0.
  pub client_disconnect_and_clean-twice :
      lib.status waiting_calls ≡ pos 0
      → (lib.event waiting_calls).status ≡ pos 0
      → same_event (lib.event waiting_calls).event EventType.disconnected ≡ false
      → (after : Program ClientOp) × (client_disconnect_and_clean lib p ≡ next (pos 0) after)
        × Extends
            (rdma_ack_cm_event (lib.event waiting_calls)
              ∷ rdma_ack_cm_event (lib.event waiting_calls)
              ∷ waiting_calls)
            after.calls
  unfolding client_disconnect_and_clean process_rdma_cm_event
  client_disconnect_and_clean-twice got fine other =
      let s = p.own in
      let acked =
        rdma_ack_cm_event (lib.event waiting_calls)
        ∷ rdma_ack_cm_event (lib.event waiting_calls)
        ∷ waiting_calls in
      let destroyed =
        ibv_destroy_comp_channel s.io_completion_channel
        ∷ ibv_destroy_cq s.client_cq
        ∷ rdma_destroy_id s.cm_client_id
        ∷ rdma_destroy_qp s.cm_client_id
        ∷ acked in
      let regions = freed s.client_dst_mr (
        freed s.client_src_mr
          (freed s.client_metadata_mr (freed s.server_metadata_mr destroyed))) in
      let (later, e) = Extends-freed s.client_dst_mr acked _ (
        Extends-freed s.client_src_mr acked _ (
          Extends-freed s.client_metadata_mr acked _
            (Extends-freed s.server_metadata_mr acked destroyed (_ ∷ _ ∷ _ ∷ _ ∷ [], refl)))) in
      (
        record p {
          calls =
              rdma_destroy_event_channel s.cm_event_channel
              ∷ ibv_dealloc_pd s.pd
              ∷ free s.dst
              ∷ free s.src
              ∷ regions;
        },
        rw
            (
              got, fine, other, deregister-freed, deregister-freed, deregister-freed,
              deregister-freed,
            )
            refl,
        Extends-cons _ acked _
            (Extends-cons _ acked _ (Extends-cons _ acked _ (Extends-cons _ acked _ (later, e)))),
      )

-- The calls after `n` attempts to connect.
abbrev pub attempts : ℕ → ℕ → List RdmaCall → List RdmaCall
attempts zero id calls = calls
attempts (suc n) id calls = attempts n id (rdma_connect id 3 3 3 ∷ calls)

module _ (lib : Answers) where
  -- When rdma_connect succeeds after n failures, the loop of client_connect_to_server ends after n + 1
  -- attempts, for any fuel above n.
  pub connect_until-attempts :
      (n fuel id : ℕ) (p : Program ClientOp)
      → ((m : ℕ) → m < n → lib.status (attempts (suc m) id p.calls) ≢ pos 0)
      → lib.status (attempts (suc n) id p.calls) ≡ pos 0
      → n < fuel
      → connect_until lib fuel id p ≡ next tt (record p { calls = attempts (suc n) id p.calls })
  unfolding connect_until
  connect_until-attempts n zero id p failing ok enough = absurd (omega arith)
  connect_until-attempts zero (suc fuel) id p failing ok enough = rw ok refl
  connect_until-attempts (suc n) (suc fuel) id p failing ok enough =
      rw (ne_zero→eqb_ℤ _ (failing 0 (omega arith))) (
        connect_until-attempts n fuel id (record p { calls = rdma_connect id 3 3 3 ∷ p.calls })
          (λ m h. failing (suc m) (omega arith)) ok (omega arith))
