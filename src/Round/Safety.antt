-- ===== src/Round/Safety.antt =====
-- What holds in every reachable state: the workers run in lockstep, and no buffer is filled or
-- overwritten before its last message has been taken.
use mathlib.Core.Path.{subst, sym}
use stellar_bench.Base.{ℕ, ◌+◌, ◌≤◌, ◌<◌, ◌≡◌, ◌↔◌, true, pos, arith, ◌⊎◌, inl, inr}
use stellar_bench.Ps
use stellar_bench.Worker
use stellar_bench.Ps.Guards.{can_send_iff}
use stellar_bench.Worker.Guards.{can_send_iff as worker_can_send_iff}
use stellar_bench.Round.{Link, spinning, Pair, System, Reach, minus_1}
use stellar_bench.Round.Invariant.{Reach-Inv, PairInv, LinkInv, writes, raised}

-- The counters of one worker's round, from the server and back.
pub record InRound (completed : ℕ) (p : Pair) : Type 0 where
  pub took_reply : p.up.taken ≤ p.up.to_send
  pub computed_first : p.up.to_send ≤ p.computed
  pub took_first : p.computed ≤ p.down.taken
  pub sent_first : p.down.taken ≤ p.down.to_send
  pub completed_first : p.down.to_send ≤ completed
  pub one_ahead : completed ≤ p.up.taken + 1

PairInv-InRound : (c : ℕ) (p : Pair) → PairInv c p → InRound c p
PairInv-InRound c p v = ground arith

-- In every reachable state a worker's counters lie in order, all within one iteration, and the
-- numbers of iterations that two workers have computed differ by at most one.
pub lockstep :
    (n : ℕ) (s : System)
    → Reach n s
    → (i j : ℕ) → i < n
    → j < n
    → InRound s.completed (s.pair i) × ((s.pair i).computed ≤ (s.pair j).computed + 1)
lockstep n s r i j i_lt j_lt =
    let a = PairInv-InRound s.completed (s.pair i) (Reach-Inv r i i_lt) in
    let b = PairInv-InRound s.completed (s.pair j) (Reach-Inv r j j_lt) in (a, omega arith)

-- All that was sent has been posted, has arrived and was taken.
pub record IsDrained (l : Link) : Type 0 where
  pub posted_all : writes l ≡ l.to_send
  pub arrived_all : l.recv_counter ≡ l.to_send
  pub taken_all : l.taken ≡ l.to_send
  pub lowered : raised l ≡ 0

drained : (l : Link) → LinkInv l → l.to_send ≤ l.taken → IsDrained l
drained l v h = omega arith

-- When the server's test lets it fill the buffer for a worker, both links of that worker are drained:
-- its last message was taken, and so was the reply to it.
pub send-IsDrained :
    (n : ℕ) (s : System)
    → Reach n s
    → (i : ℕ) → i < n
    → Ps.can_send (pos (s.pair i).down.to_send) (minus_1 s.completed) ≡ true
    → IsDrained (s.pair i).down × IsDrained (s.pair i).up
send-IsDrained n s r i lt g =
    let v = Reach-Inv r i lt in
    let below = (can_send_iff (s.pair i).down.to_send s.completed).0 g in
    (drained (s.pair i).down v.down (omega arith), drained (s.pair i).up v.up (omega arith))

-- The worker's test `to_send_iter == completed_age` never skips an iteration: it holds exactly if the
-- worker has computed an iteration that it has not sent, and then its link to the server is drained.
pub reply_iff :
    (n : ℕ) (s : System)
    → Reach n s
    → (i : ℕ) → i < n
    → (Worker.can_send (pos (s.pair i).up.to_send) (minus_1 (s.pair i).computed) ≡ true)
      ↔ (((s.pair i).up.to_send < (s.pair i).computed) × IsDrained (s.pair i).up)
reply_iff n s r i lt =
    let v = Reach-Inv r i lt in
    let test = worker_can_send_iff (s.pair i).up.to_send (s.pair i).computed in
    (
      λ g. let e = test.0 g in (omega arith, drained (s.pair i).up v.up (omega arith)),
      λ h. test.1 (omega arith),
    )

spinning-taken :
    (l : Link)
    → LinkInv l
    → l.to_send ≤ l.taken + 1
    → l.client ≡ spinning
    → l.can_send ≡ true
    → l.taken ≡ writes l
spinning-taken l v h e g = ground arith

-- When a poll thread posts its write, the message before it in the receiver's buffer was taken, though
-- nothing lowers `can_recv` again: on the links to the workers and on those back.
pub post-taken :
    (n : ℕ) (s : System)
    → Reach n s
    → (i : ℕ) → i < n
    → (l : Link) → (l ≡ (s.pair i).down) ⊎ (l ≡ (s.pair i).up)
    → l.client ≡ spinning
    → l.can_send ≡ true
    → l.taken ≡ writes l
post-taken n s r i lt l which e g =
    let v = Reach-Inv r i lt in
    elim which [
      | inl down ↦
          spinning-taken l (subst LinkInv (sym down) v.down)
            (subst (λ x. x.to_send ≤ x.taken + 1) (sym down) (omega arith)) e g
      | inr up ↦
          spinning-taken l (subst LinkInv (sym up) v.up)
            (subst (λ x. x.to_send ≤ x.taken + 1) (sym up) (omega arith)) e g
    ]
