-- ===== src/OneSided/Events.antt =====
-- What `process_rdma_cm_event` and `process_work_completion_events` return, on every branch.
use stellar_bench.Base.{
  ℕ, ◌≡◌, refl, ◌≢◌, ◌⊎◌, inl, inr, true, false, ◌∷◌, ℤ, pos, minus_one, eqb_ℤ, Bool-cases, arith,
}
use stellar_bench.Verbs.{EventType}
use stellar_bench.Fallible.{next, stop, negate}
use stellar_bench.OneSided.Calls.{Answers, Program, rdma_get_cm_event, rdma_ack_cm_event}
use stellar_bench.OneSided.Common.{minus, same_event, process_rdma_cm_event}

same_event-eq : (a b : EventType) → same_event a b ≡ true → a ≡ b
same_event-eq a b e = ground arith

eqb_ℤ-eq : (a : ℤ) → eqb_ℤ a (pos 0) ≡ true → a ≡ pos 0
eqb_ℤ-eq a e = ground arith

minus-ne : (a : ℤ) → eqb_ℤ a (pos 0) ≡ false → minus a ≢ pos 0
minus-ne a e = ground arith

eqb_ℤ-ne : (a : ℤ) → eqb_ℤ a (pos 0) ≡ false → a ≢ pos 0
eqb_ℤ-ne a e = ground arith

module _ {C : Type 0} (lib : Answers) where
  -- What `process_rdma_cm_event` comes to: no event, an event that is acknowledged and refused, or
  -- the expected event, which is left to the caller.
  abbrev pub Outcomes : ℕ → EventType → Program C → Type 0
  Outcomes echannel expected p =
      let got = rdma_get_cm_event echannel ∷ p.calls in
      let e = lib.event got in
      let run = process_rdma_cm_event lib echannel expected p in
      ((lib.status got ≢ pos 0) × (run ≡ stop (negate (lib.errno got)) (record p { calls = got })))
      ⊎ (((ret : ℤ) × (ret ≢ pos 0)
            × (lib.status got ≡ pos 0)
            × ((e.status ≢ pos 0) ⊎ (same_event e.event expected ≡ false))
            × (run ≡ stop ret (record p { calls = rdma_ack_cm_event e ∷ got })))
          ⊎ ((lib.status got ≡ pos 0)
              × (e.status ≡ pos 0)
              × (e.event ≡ expected)
              × (run ≡ next e (record p { calls = got }))))

  -- Whatever the libraries answer, process_rdma_cm_event returns -errno when rdma_get_cm_event fails;
  -- it acknowledges an event that has a status or is not of the expected type and returns a
  -- number other than 0; and else it returns 0 with an event of the expected type and status 0
  -- that it has not acknowledged.
  pub process_rdma_cm_event-Outcomes :
      (echannel : ℕ) (expected : EventType) (p : Program C) → Outcomes echannel expected p
  unfolding process_rdma_cm_event
  process_rdma_cm_event-Outcomes echannel expected p =
      let got = rdma_get_cm_event echannel ∷ p.calls in
      let e = lib.event got in
      elim (Bool-cases (eqb_ℤ (lib.status got) (pos 0))) [
        | inr bad ↦ inl (eqb_ℤ-ne (lib.status got) bad, rw bad refl)
        | inl ok ↦ inr (elim (Bool-cases (eqb_ℤ e.status (pos 0))) [
          | inr bad ↦ inl (
            minus e.status,
            minus-ne e.status bad,
            eqb_ℤ-eq (lib.status got) ok,
            inl (eqb_ℤ-ne e.status bad),
            rw (ok, bad) refl,
          )
          | inl fine ↦ elim (Bool-cases (same_event e.event expected)) [
            | inr other ↦ inl (
              minus_one,
              (λ h. ground arith),
              eqb_ℤ-eq (lib.status got) ok,
              inr other,
              rw (ok, fine, other) refl,
            )
            | inl same ↦ inr (
              eqb_ℤ-eq (lib.status got) ok,
              eqb_ℤ-eq e.status fine,
              same_event-eq e.event expected same,
              rw (ok, fine, same) refl,
            )
          ]
        ])
      ]
