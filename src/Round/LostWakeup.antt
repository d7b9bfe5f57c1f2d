-- ===== src/Round/LostWakeup.antt =====
-- The race between `rdma_sendTd`, which raises `can_send`, and the poll thread, which lowers it after
-- its post: a message can be lost, and then the server never completes another iteration.
use mathlib.Core.Path.{subst, sym}
use stellar_bench.Base.{
  ℕ, ◌+◌, ◌≤◌, ◌<◌, ◌≡◌, true, pos, arith, false, refl, ap, ◌∙◌, Bool-cases, inl, inr, ◌==◌,
}
use stellar_bench.Ps
use stellar_bench.Context.{update, update_self}
use stellar_bench.Ps.Guards.{can_merge-taken, can_send_iff}
use stellar_bench.Round.{
  ClientPc, Link, Move, receive, post, clear, arrive, answer, take, posted, Pair, System, Step,
  merge, send, move_down, compute, reply, move_up, Reach, next, minus_1, fill,
}
use stellar_bench.Round.Invariant.{Inv, Step-Inv, Reach-Inv, PairInv, LinkInv, writes, raised}

-- A message was put in the buffer, and will not be posted: `can_send` does not stand for it.
abbrev pub IsLost : Link → Type 0
IsLost l = writes l + raised l < l.to_send

-- Any number of steps.
pub data Steps (n : ℕ) (s : System) : System → Type 0 where
  here : Steps n s s
  more : {t u : System} → Steps n s t → Step n t u → Steps n s u

-- The lost message is the one of the last iteration, so no reply to it will come.
lost-latest :
    (c : ℕ) (p : Pair)
    → PairInv c p
    → IsLost p.down
    → (p.down.to_send ≡ c) × (p.up.taken < c) × (writes p.down + 1 ≡ c) × (raised p.down ≡ 0)
lost-latest c p v h = (omega arith, omega arith, omega arith, omega arith)

Move-IsLost : {l l' : Link} → Move l l' → l.to_send ≤ writes l + 1 → IsLost l → IsLost l'
Move-IsLost (receive e h) a v = ground arith
Move-IsLost (post e h) a v = ground arith
Move-IsLost (clear e) a v = ground arith
Move-IsLost (arrive e h) a v = ground arith
Move-IsLost (answer e h) a v = ground arith
Move-IsLost (take h) a v = ground arith

-- A pair that keeps its lost message while pair `j` is replaced.
keep :
    (f : ℕ → Pair) (j i : ℕ) (p : Pair)
    → (i ≡ j → IsLost p.down)
    → IsLost (f i).down
    → IsLost (update f j p i).down
keep f j i p new old = elim (Bool-cases (j == i)) [
  | inl same ↦ rw same (new (ground arith))
  | inr other ↦ rw other old
]

at_index : (s : System) (i j : ℕ) → i ≡ j → IsLost (s.pair i).down → IsLost (s.pair j).down
at_index s i j e h = subst (λ k. IsLost (s.pair k).down) e h

-- No step finds the lost message or completes the iteration.
pub Step-IsLost :
    {n : ℕ} {s t : System} (i : ℕ)
    → i < n
    → Step n s t
    → Inv n s
    → IsLost (s.pair i).down
    → IsLost (t.pair i).down × (t.completed ≡ s.completed)
Step-IsLost {n} {s} i lt (merge g) v h =
    let arrived = (can_merge-taken s.completed (λ k. (s.pair k).up.taken) n).0 g i lt in
    let stuck = (lost-latest s.completed (s.pair i) (v i lt) h).1 in absurd (omega arith)
Step-IsLost {n} {s} i lt (send j j_lt g) v h =
    let below = (can_send_iff (s.pair j).down.to_send s.completed).0 g in
    (
      keep s.pair j i _
          (λ e.
            let full = (lost-latest s.completed (s.pair j) (v j j_lt) (at_index s i j e h)).0 in
            absurd (omega arith))
          h,
      refl,
    )
Step-IsLost {n} {s} i lt (move_down j j_lt m) v h = (
  keep s.pair j i _
      (λ e.
        let h' = at_index s i j e h in
        let last = lost-latest s.completed (s.pair j) (v j j_lt) h' in
        Move-IsLost m (omega arith) h')
      h,
  refl,
)
Step-IsLost {n} {s} i lt (compute j j_lt g) v h =
    (keep s.pair j i _ (λ e. at_index s i j e h) h, refl)
Step-IsLost {n} {s} i lt (reply j j_lt g) v h =
    (keep s.pair j i _ (λ e. at_index s i j e h) h, refl)
Step-IsLost {n} {s} i lt (move_up j j_lt m) v h =
    (keep s.pair j i _ (λ e. at_index s i j e h) h, refl)

Steps-IsLost :
    {n : ℕ} {s t : System} (i : ℕ)
    → i < n
    → Steps n s t
    → Inv n s
    → IsLost (s.pair i).down
    → Inv n t × IsLost (t.pair i).down × (t.completed ≡ s.completed)
Steps-IsLost i lt here v h = (v, h, refl)
Steps-IsLost i lt (more r st) v h =
    let (w, k, e) = Steps-IsLost i lt r v h in
    let (k', e') = Step-IsLost i lt st w k in (Step-Inv st w, k', e' ∙ e)

-- `can_send = false; buf_write_counter++` of the poll thread.
abbrev cleared : Link → Link
cleared l = record l {
  client = ClientPc.polling;
  can_send = false;
  write_counter = l.write_counter + 1;
}

-- The server raises `can_send` for its next message, and then the poll thread lowers it.
abbrev filled : System → ℕ → System
filled s i = record s { pair = update s.pair i (record (s.pair i) { down = fill (s.pair i).down }) }

abbrev raced : System → ℕ → System
raced s i = record s {
  pair =
      update (filled s i).pair i
        (record ((filled s i).pair i) { down = cleared ((filled s i).pair i).down });
}

raced-Reach :
    (n : ℕ) (s : System) (i : ℕ)
    → Reach n s
    → i < n
    → (s.pair i).down.client ≡ posted
    → Ps.can_send (pos (s.pair i).down.to_send) (minus_1 s.completed) ≡ true
    → Reach n (raced s i)
raced-Reach n s i r lt e g =
    next (next r (send i lt g))
      (move_down i lt (clear (ap (λ p. p.down.client) (update_self s.pair i _) ∙ e)))

raced-down : (s : System) (i : ℕ) → ((raced s i).pair i).down ≡ cleared (fill (s.pair i).down)
raced-down s i =
    ap (λ p. p.down) (update_self (filled s i).pair i _)
    ∙ ap (λ p. cleared p.down) (update_self s.pair i _)

cleared-IsLost : (l : Link) → LinkInv l → l.client ≡ posted → IsLost (cleared (fill l))
cleared-IsLost l v e = ground arith

-- From every reachable state in which a poll thread has posted the last message and not yet lowered
-- `can_send`, while the server may already send the next: a state is reachable from which, whatever
-- steps follow, the server completes no further iteration.
pub lost_wakeup :
    (n : ℕ) (s : System) (i : ℕ)
    → Reach n s
    → i < n
    → (s.pair i).down.client ≡ posted
    → Ps.can_send (pos (s.pair i).down.to_send) (minus_1 s.completed) ≡ true
    → (t : System) × Reach n t
      × (t.completed ≡ s.completed)
      × ((u : System) → Steps n t u → u.completed ≡ t.completed)
lost_wakeup n s i r lt e g =
    let reach = raced-Reach n s i r lt e g in
    let lost : IsLost ((raced s i).pair i).down =
      subst IsLost (sym (raced-down s i))
        (cleared-IsLost (s.pair i).down (Reach-Inv r i lt).down e) in
    (raced s i, reach, refl, λ u steps. (Steps-IsLost i lt steps (Reach-Inv reach) lost).2)
