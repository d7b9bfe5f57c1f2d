-- ===== src/Ps/Tests.antt =====
-- The merge test of two workers.
use stellar_bench.Base.{◌≡◌, true, pos, minus_one, refl, false}
use stellar_bench.Ps.{can_merge}

-- The server starts iteration 0 before any reply, and waits with iteration 1.
first_iterations :
    (can_merge (pos 0) (λ i. minus_one) 2 ≡ true) × (can_merge (pos 1) (λ i. minus_one) 2 ≡ false)
unfolding can_merge
first_iterations = (refl, refl)
