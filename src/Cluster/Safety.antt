-- ===== src/Cluster/Safety.antt =====
-- The counters of ps.cpp and worker.cpp in a run of the program, and the buffers that `rdma_sendTd` of
-- both overwrites.
use stellar_bench.Base.{
  ℕ, ◌<◌, ◌≡◌, refl, sym, ◌∙◌, true, false, List, [], ◌∷◌, ◌⊎◌, ℤ, pos, ◌+ℤ◌, ◌≤ℤ◌, length, arith,
}
use stellar_bench.Ps
use stellar_bench.Round.{Link, System, minus_1, posted}
use stellar_bench.Round.Invariant.{LinkInv, raised, Reach-Inv}
use stellar_bench.Worker
use stellar_bench.Cluster.Pairs.{next-minus_1, pos-minus_1}
use stellar_bench.Round.Safety.{
  lockstep as counters_lockstep, InRound, IsDrained, send-IsDrained, reply_iff,
}
use stellar_bench.Cluster.{Ends, Cluster, down_ends, up_ends}
use stellar_bench.Cluster.Abstraction.{LinkOf, Refines}
use stellar_bench.Cluster.Refinement.{Runs, refinement}

-- The counters of one worker's round, from the server and back, as the program keeps them.
pub record InOrder (s : Cluster) (i : ℕ) : Type 0 where
  pub took_reply : (s.ps.recved_iter i +ℤ pos 1) ≤ℤ (s.worker i).to_send_age
  pub computed_first : (s.worker i).to_send_age ≤ℤ ((s.worker i).completed_iter +ℤ pos 1)
  pub took_first : (s.worker i).completed_iter ≤ℤ (s.worker i).recved_age
  pub sent_first : ((s.worker i).recved_age +ℤ pos 1) ≤ℤ s.ps.to_send_iter i
  pub completed_first : s.ps.to_send_iter i ≤ℤ (s.ps.completed_iter +ℤ pos 1)
  pub one_ahead : s.ps.completed_iter ≤ℤ (s.ps.recved_iter i +ℤ pos 1)

InRound-InOrder :
    (n : ℕ) (s : Cluster) (a : System) (i : ℕ)
    → Refines n s a
    → i < n
    → InRound a.completed (a.pair i)
    → InOrder s i
InRound-InOrder n s a i v lt r =
    let w = v.pairs i lt in
    record {
      took_reply = rw (w.taken_up, w.sent_up) (ground arith);
      computed_first = rw (w.sent_up, w.computed) (ground arith);
      took_first = rw (w.computed, w.taken_down) (ground arith);
      sent_first = rw (w.taken_down, w.sent_down) (ground arith);
      completed_first = rw (w.sent_down, v.merged) (ground arith);
      one_ahead = rw (v.merged, w.taken_up) (ground arith);
    }

-- Whatever the threads do when, the counters of a worker's round stay in order, and two workers'
-- numbers of the last computed iteration differ by at most one.
pub in_step :
    (rdma_write : List ℕ → ℕ → List ℕ → List ℕ) (n : ℕ) (s : Cluster)
    → Runs rdma_write n s
    → (i j : ℕ) → i < n
    → j < n
    → InOrder s i × ((s.worker i).completed_iter ≤ℤ ((s.worker j).completed_iter +ℤ pos 1))
in_step rdma_write n s r i j i_lt j_lt =
    let (a, reached, v) = refinement rdma_write n s r in
    let (order, close) = counters_lockstep n a reached i j i_lt j_lt in
    (
      InRound-InOrder n s a i v i_lt order,
      rw ((v.pairs i i_lt).computed, (v.pairs j j_lt).computed) (ground arith),
    )

-- No write of the sender's buffer is under way: what was put into it has arrived and was taken, and
-- `can_send` is down, but for the poll thread that is about to lower it. `sent` is the number of the
-- message that the sender comes to next, `taken` that of the receiver's last.
pub record IsQuiet (e : Ends) (sent taken : ℤ) : Type 0 where
  pub none_unwritten : e.traffic.unwritten ≡ []
  pub none_landed : e.traffic.landed ≡ []
  pub arrived_all : pos e.conn.buf_recv_counter ≡ sent
  pub taken_all : (taken +ℤ pos 1) ≡ sent
  pub lowered : (e.client.can_send ≡ false) ⊎ (e.traffic.client ≡ posted)

pub empty : {A : Type 0} (xs : List A) → length xs ≡ 0 → xs ≡ []
empty [] h = refl
empty (x ∷ xs) h = absurd (omega arith)

raised-lowered : (l : Link) → raised l ≡ 0 → (l.can_send ≡ false) ⊎ (l.client ≡ posted)
raised-lowered l h = ground arith

IsDrained-IsQuiet :
    (e : Ends) (l : Link) (sent taken : ℤ)
    → LinkOf e l
    → sent ≡ pos l.to_send
    → taken ≡ minus_1 l.taken
    → LinkInv l
    → IsDrained l
    → IsQuiet e sent taken
IsDrained-IsQuiet e l sent taken v sent_eq taken_eq inv d =
    let none : l.in_flight ≡ 0 = omega (arith, inv.arrived, d.posted_all, d.arrived_all) in
    record {
      none_unwritten = empty e.traffic.unwritten (omega (arith, none, v.in_flight));
      none_landed = empty e.traffic.landed (omega (arith, none, v.in_flight));
      arrived_all = rw (sent_eq, ← d.arrived_all, v.recv_counter) refl;
      taken_all =
          rw (sent_eq, taken_eq, ← d.taken_all) (next-minus_1 l.taken ∙ sym (pos-minus_1 l.taken));
      lowered = rw (← v.can_send, ← v.client) (raised-lowered l d.lowered);
    }

module _ (rdma_write : List ℕ → ℕ → List ℕ → List ℕ) (n : ℕ) (s : Cluster) (r : Runs rdma_write n s)
    (i : ℕ) (lt : i < n) where
  -- When the server's test lets it overwrite the buffer for a worker, both connections with that worker
  -- are quiet.
  pub refill-IsQuiet :
      Ps.can_send (s.ps.to_send_iter i) s.ps.completed_iter ≡ true
      → IsQuiet (down_ends s i) (s.ps.to_send_iter i) (s.worker i).recved_age
        × IsQuiet (up_ends s i) (s.worker i).to_send_age (s.ps.recved_iter i)
  refill-IsQuiet g =
      let (a, reached, v) = refinement rdma_write n s r in
      let w = v.pairs i lt in
      let inv = Reach-Inv reached i lt in
      let g' = rw (w.sent_down, v.merged) at g in
      let (down, up) = send-IsDrained n a reached i lt g' in
      (
        IsDrained-IsQuiet _ _ _ _ w.down w.sent_down w.taken_down inv.down down,
        IsDrained-IsQuiet _ _ _ _ w.up w.sent_up w.taken_up inv.up up,
      )

  -- When a worker's test lets it overwrite its buffer, its connection to the server is quiet.
  pub reply-IsQuiet :
      Worker.can_send (s.worker i).to_send_age (s.worker i).completed_iter ≡ true
      → IsQuiet (up_ends s i) (s.worker i).to_send_age (s.ps.recved_iter i)
  reply-IsQuiet g =
      let (a, reached, v) = refinement rdma_write n s r in
      let w = v.pairs i lt in
      let g' = rw (w.sent_up, w.computed) at g in
      IsDrained-IsQuiet _ _ _ _ w.up w.sent_up w.taken_up (Reach-Inv reached i lt).up
        ((reply_iff n a reached i lt).0 g').1
