-- ===== src/Cluster/Links.antt =====
-- The links of the round protocol that the connections stand for, at every state of a run, and the
-- adapter's writes to a receiver's buffer.
use stellar_bench.Base.{
  ℕ, ◌+◌, ◌≤◌, ◌<◌, ◌≡◌, sym, ap, ◌∙◌, List, [], ◌∷◌, ◌⊎◌, inl, inr, pos, ◌+ℤ◌, length, arith,
}
use mathlib.Core.Path.{subst}
use stellar_bench.Round.{Pair}
use stellar_bench.Round.Invariant.{PairInv, Reach-Inv}
use stellar_bench.Cluster.{Cluster}
use stellar_bench.Cluster.Pairs.{next-minus_1, pos-minus_1}
use stellar_bench.Cluster.Channel.{Channel, Sound}
use stellar_bench.Cluster.Safety.{empty}
use stellar_bench.Cluster.Refinement.{Runs, refinement}
use stellar_bench.Cluster.Logs.{down_channel, up_channel}

close_down : (c : ℕ) (p : Pair) → PairInv c p → p.down.to_send ≤ p.down.taken + 1
close_down c p v =
    omega (arith, v.issued, v.merged, v.up.in_order, v.up.arrived, v.up.sent, v.replied, v.followed)

close_up : (c : ℕ) (p : Pair) → PairInv c p → p.up.to_send ≤ p.up.taken + 1
close_up c p v =
    omega (
      arith, v.replied, v.followed, v.down.in_order, v.down.arrived, v.down.sent, v.issued,
      v.merged,
    )

-- No other write is under way, and the message before it was taken.
abbrev pub IsAlone : Channel → List ℕ → Type 0
IsAlone c rest =
    (rest ≡ [])
    × (c.ends.traffic.landed ≡ [])
    × (pos c.ends.conn.buf_recv_counter ≡ c.taken +ℤ pos 1)

alone :
    (c : Channel) (len : ℕ) (rest : List ℕ)
    → Sound c
    → c.ends.traffic.unwritten ≡ len ∷ rest
    → IsAlone c rest
alone c len rest x u =
    let l = x.link in
    let inv = x.inv in
    let v = x.stands_for in
    let close = x.close in
    let one = inv.one in
    let sizes : length rest + 1 + length c.ends.traffic.landed ≡ l.in_flight =
      omega (arith, v.in_flight, ap (length {A = ℕ}) u) in
    let same : l.recv_counter ≡ l.taken = omega (arith, inv.arrived, inv.sent, inv.in_order) in
    (
      empty rest (omega arith),
      empty c.ends.traffic.landed (omega arith),
      rw (← v.recv_counter, x.takes, same) (pos-minus_1 l.taken ∙ sym (next-minus_1 l.taken)),
    )

module _ (rdma_write : List ℕ → ℕ → List ℕ → List ℕ) (n : ℕ) where
  pub down_Sound : {s : Cluster} → Runs rdma_write n s → (j : ℕ) → j < n → Sound (down_channel s j)
  down_Sound {s} r j lt =
      let (a, reached, v) = refinement rdma_write n s r in
      let w = v.pairs j lt in
      let inv = Reach-Inv reached j lt in
      record {
        link = (a.pair j).down;
        stands_for = w.down;
        inv = inv.down;
        sends = w.sent_down;
        takes = w.taken_down;
        close = close_down a.completed (a.pair j) inv;
      }

  pub up_Sound : {s : Cluster} → Runs rdma_write n s → (j : ℕ) → j < n → Sound (up_channel s j)
  up_Sound {s} r j lt =
      let (a, reached, v) = refinement rdma_write n s r in
      let w = v.pairs j lt in
      let inv = Reach-Inv reached j lt in
      record {
        link = (a.pair j).up;
        stands_for = w.up;
        inv = inv.up;
        sends = w.sent_up;
        takes = w.taken_up;
        close = close_up a.completed (a.pair j) inv;
      }

  -- While the adapter has a message to write to a receiver's buffer, on a connection to a worker or on
  -- one back, it is the only one, and the receiver has taken the message before it.
  pub land-taken :
      (s : Cluster)
      → Runs rdma_write n s
      → (i : ℕ) → i < n
      → (c : Channel) → (c ≡ down_channel s i) ⊎ (c ≡ up_channel s i)
      → (len : ℕ) (rest : List ℕ) → c.ends.traffic.unwritten ≡ len ∷ rest
      → IsAlone c rest
  land-taken s r i lt c which len rest u = elim which [
    | inl down ↦ alone c len rest (subst Sound (sym down) (down_Sound r i lt)) u
    | inr up ↦ alone c len rest (subst Sound (sym up) (up_Sound r i lt)) u
  ]
