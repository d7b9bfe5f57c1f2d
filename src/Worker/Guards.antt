-- ===== src/Worker/Guards.antt =====
-- What the tests of a worker's loops say of the counters, kept with 1 added.
use stellar_bench.Base.{ℕ, ◌+◌, ◌<◌, ◌≡◌, ◌↔◌, true, pos, minus_one, ◌+ℤ◌, arith}
use stellar_bench.Worker.{can_compute, can_send}

pub can_compute_iff :
    (computed taken : ℕ)
    → (can_compute (pos computed) (pos taken +ℤ minus_one) ≡ true) ↔ (computed < taken)
unfolding can_compute
can_compute_iff computed taken = ground arith

pub can_send_iff :
    (to_send computed : ℕ)
    → (can_send (pos to_send) (pos computed +ℤ minus_one) ≡ true) ↔ (to_send + 1 ≡ computed)
unfolding can_send
can_send_iff to_send computed = ground arith
