-- ===== src/Round/Tests.antt =====
-- A run of one worker up to the race, and the theorems of Round at states of that run.
use mathlib.Core.Path.{refl}
use stellar_bench.Base.{ℕ, ◌≤◌, ◌<◌, arith, zero, suc}
use stellar_bench.Ps.Guards.{can_merge-taken, can_send_iff}
use stellar_bench.Worker.Guards.{can_compute_iff, can_send_iff as worker_can_send_iff}
use stellar_bench.Round.{
  Link, Move, System, Step, merge, send, move_down, compute, reply, move_up, receive, post, arrive,
  take, Reach, start, next,
}
use stellar_bench.Round.LostWakeup.{IsLost}
use stellar_bench.Round.Progress.{no_deadlock}

-- A state with the proof that it is reached.
record Run : Type 0 where
  state : System
  reach : Reach 1 state

abbrev after : (r : Run) {t : System} → Step 1 r.state t → Run
after r {t} st = record { state = t; reach = next r.reach st }

abbrev down_of : (r : Run) {l : Link} → Move (r.state.pair 0).down l → Run
down_of r m = after r (move_down 0 (omega arith) m)

abbrev up_of : (r : Run) {l : Link} → Move (r.state.pair 0).up l → Run
up_of r m = after r (move_up 0 (omega arith) m)

-- The server completes iteration 0, for which it waits for nobody, and may send.
abbrev opened : Run
opened =
    after (record { state = _; reach = start })
      (merge ((can_merge-taken 0 (λ i. 0) 1).1 (λ i lt. omega arith)))

abbrev sent : Run
sent = after opened (send 0 (omega arith) ((can_send_iff 0 1).1 (omega arith)))

-- The poll thread is about to post.
abbrev spun : Run
spun = down_of sent (receive refl (omega arith))

-- The worker has the message; the poll thread has not lowered `can_send`.
abbrev received : Run
received =
    down_of (down_of (down_of spun (post refl refl)) (arrive refl (omega arith)))
      (take (omega arith))

abbrev trained : Run
trained = after received (compute 0 (omega arith) ((can_compute_iff 0 1).1 (omega arith)))

abbrev replied : Run
replied = after trained (reply 0 (omega arith) ((worker_can_send_iff 0 1).1 refl))

-- The reply is taken and iteration 1 is completed.
abbrev returned : Run
returned =
    up_of
      (up_of (up_of (up_of replied (receive refl (omega arith))) (post refl refl))
        (arrive refl (omega arith)))
      (take (omega arith))

returned_all : (i : ℕ) → i < 1 → 1 ≤ (returned.state.pair i).up.taken
returned_all zero lt = omega arith
returned_all (suc i) lt = absurd (omega arith)

abbrev merged : Run
merged =
    after returned
      (merge ((can_merge-taken 1 (λ i. (returned.state.pair i).up.taken) 1).1 returned_all))

nothing-IsLost :
    (i : ℕ) → i < 1 → (¬ IsLost (sent.state.pair i).down) × (¬ IsLost (sent.state.pair i).up)
nothing-IsLost zero lt = (λ h. omega arith, λ h. omega arith)
nothing-IsLost (suc i) lt = absurd (omega arith)

no_deadlock_example : (t : System) × Step 1 sent.state t
no_deadlock_example = no_deadlock 1 sent.state sent.reach nothing-IsLost
