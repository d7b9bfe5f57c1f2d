-- ===== src/Cluster/Stuck.antt =====
-- The race between `rdma_sendTd` of ps.cpp, which raises `can_send`, and the poll thread for the same
-- worker, which lowers it after its post, in runs of the program.
pub mod Inputs
mod Tests
use stellar_bench.Base.{
  ℕ, ◌+◌, ◌<◌, ◌≡◌, refl, sym, ap, ◌∙◌, Bool, true, false, some, List, ◌⊎◌, inl, inr, pos, pos_part,
  ◌+ℤ◌, arith,
}
use stellar_bench.Context.{ClientContext, update, update_self}
use stellar_bench.Ps
use stellar_bench.Ps.{Ps}
use stellar_bench.Round.{Link, System, polling, posted, minus_1}
use stellar_bench.Round.Invariant.{LinkInv, Inv, Step-Inv, Reach-Inv}
use stellar_bench.Round.LostWakeup.{IsLost, Step-IsLost}
use stellar_bench.Cluster.{
  Cluster, Ends, Net, Traffic, Turn, ps_send, net_down, cleared, down_ends, set_down,
}
use stellar_bench.Cluster.Abstraction.{Refines}
use stellar_bench.Cluster.Rounds.{send_round-cases, filled}
use stellar_bench.Cluster.Refinement.{Runs, follow, Turn-Follows, refinement}

-- Any number of turns.
pub data Turns (rdma_write : List ℕ → ℕ → List ℕ → List ℕ) (n : ℕ) (s : Cluster)
    : Cluster → Type 0 where
  here : Turns rdma_write n s s
  more : {t u : Cluster} → Turns rdma_write n s t → Turn rdma_write n t u → Turns rdma_write n s u

-- The connection to worker `i` after the poll thread has lowered `can_send`.
abbrev pub lowered : Ends → Ends
lowered e = record e {
  client = cleared e.client;
  traffic = record (e.traffic) { client = polling };
}

-- The server has put a message for worker `i` into the buffer, and then the poll thread lowers `can_send`
-- for the message before.
abbrev pub raced : Cluster → ℕ → Ps → Cluster
raced s i p = let t = record s { ps = p } in set_down t i (lowered (down_ends t i))

link-IsLost :
    (l l₀ : Link)
    → LinkInv l₀
    → l₀.client ≡ posted
    → l.client ≡ polling
    → l.can_send ≡ false
    → l.write_counter ≡ l₀.write_counter + 1
    → l.to_send ≡ l₀.to_send + 1
    → IsLost l
link-IsLost l l₀ v posted_before polls down writes sent = ground arith

next_inj : (a b : ℕ) → pos a ≡ (pos b +ℤ pos 1) → a ≡ b + 1
next_inj a b h = ground arith

module _ (rdma_write : List ℕ → ℕ → List ℕ → List ℕ) (n : ℕ) where
  -- A state whose message to worker `i` is lost, after `c` completed iterations.
  record IsStuck (i c : ℕ) (s : Cluster) : Type 0 where
    protocol : System
    inv : Inv n protocol
    stands_for : Refines n s protocol
    lost : IsLost (protocol.pair i).down
    completed : protocol.completed ≡ c

  Turn-IsStuck :
      {s s' : Cluster} (i c : ℕ) → i < n → Turn rdma_write n s s' → IsStuck i c s → IsStuck i c s'
  Turn-IsStuck i c lt m v = elim (Turn-Follows rdma_write n v.protocol v.stands_for m) [
    | inl stays ↦ record {
      protocol = v.protocol;
      inv = v.inv;
      stands_for = stays;
      lost = v.lost;
      completed = v.completed;
    }
    | inr (a, step, after) ↦
        let (lost, same) = Step-IsLost i lt step v.inv v.lost in
        record {
          protocol = a;
          inv = Step-Inv step v.inv;
          stands_for = after;
          lost = lost;
          completed = same ∙ v.completed;
        }
  ]

  Turns-IsStuck :
      {s s' : Cluster} (i c : ℕ) → i < n → Turns rdma_write n s s' → IsStuck i c s → IsStuck i c s'
  Turns-IsStuck i c lt here v = v
  Turns-IsStuck i c lt (more ms m) v = Turn-IsStuck i c lt m (Turns-IsStuck i c lt ms v)

  -- From the counters of the server after its round, and of the connection.
  raced-IsLost :
      (s : Cluster) (i : ℕ) {p : Ps}
      → Runs rdma_write n s
      → i < n
      → (s.down i).client ≡ posted
      → Ps.can_send (s.ps.to_send_iter i) s.ps.completed_iter ≡ true
      → Ps.send_round i s.ps ≡ some p
      → (a : System) → Refines n (raced s i p) a
      → IsLost (a.pair i).down
  raced-IsLost s i {p} r lt pc g h a v =
      let (a₀, reached, v₀) = refinement rdma_write n s r in
      let w₀ = v₀.pairs i lt in
      let w = v.pairs i lt in
      let l = (a.pair i).down in
      let l₀ = (a₀.pair i).down in
      elim (send_round-cases i s.ps h) [
        | inl (waits, same) ↦ cc
        | inr (sends, ps, qs, buf, len, room, size, e) ↦
            let ctx : (p.c_ctx i) ≡ filled (s.ps.c_ctx i) true buf len =
              ap (λ (t : Ps). t.c_ctx i) e ∙ update_self s.ps.c_ctx i _ in
            let sender = update_self p.c_ctx i (cleared (p.c_ctx i)) in
            let counter : p.to_send_iter i ≡ s.ps.to_send_iter i +ℤ pos 1 =
              ap (λ (t : Ps). t.to_send_iter i) e ∙ update_self s.ps.to_send_iter i _ in
            link-IsLost l l₀ (Reach-Inv reached i lt).down (w₀.down.client ∙ pc)
              (w.down.client ∙ ap (λ (t : Traffic). t.client) (update_self s.down i _))
              (w.down.can_send ∙ ap (λ (t : ClientContext). t.can_send) sender)
              (w.down.write_counter
                ∙ ap (λ (t : ClientContext). t.buf_write_counter) sender
                ∙ ap (λ (t : ClientContext). t.buf_write_counter + 1) ctx
                ∙ ap (λ (k : ℕ). k + 1) (sym w₀.down.write_counter))
              (next_inj l.to_send l₀.to_send
                (sym w.sent_down ∙ counter ∙ ap (λ z. z +ℤ pos 1) w₀.sent_down))
      ]

  -- A run comes to a state in which the poll thread for worker `i` has posted and not yet lowered
  -- `can_send`, while the server may already send the next message and its round puts it into the
  -- buffer. Then the poll thread can lower `can_send` after that round; from there on, whatever turns
  -- follow, the server completes no further iteration.
  pub stuck :
      (s : Cluster) (i : ℕ) (p : Ps)
      → Runs rdma_write n s
      → i < n
      → (s.down i).client ≡ posted
      → Ps.can_send (s.ps.to_send_iter i) s.ps.completed_iter ≡ true
      → Ps.send_round i s.ps ≡ some p
      → Runs rdma_write n (raced s i p)
        × (p.completed_iter ≡ s.ps.completed_iter)
        × ((u : Cluster)
            → Turns rdma_write n (raced s i p) u
            → u.ps.completed_iter ≡ p.completed_iter)
  stuck s i p r lt pc g h =
      let after : Runs rdma_write n (raced s i p) =
        follow (follow r (ps_send i lt h)) (net_down i lt (Net.clear pc)) in
      let (a, reached, v) = refinement rdma_write n (raced s i p) after in
      let at_race : IsStuck i a.completed (raced s i p) = record {
        protocol = a;
        inv = Reach-Inv reached;
        stands_for = v;
        lost = raced-IsLost s i r lt pc g h a v;
        completed = refl;
      } in
      (
        after,
        elim (send_round-cases i s.ps h) [
          | inl (waits, same) ↦ rw same refl
          | inr (sends, ps, qs, buf, len, room, size, e) ↦ rw e refl
        ],
        λ u turns.
            let end = Turns-IsStuck i a.completed lt turns at_race in
            end.stands_for.merged ∙ ap minus_1 end.completed ∙ sym v.merged,
      )
