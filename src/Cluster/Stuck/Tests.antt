-- ===== src/Cluster/Stuck/Tests.antt =====
-- The theorem of Cluster/Stuck on the run of Cluster/Stuck/Inputs.
use stellar_bench.Base.{◌≡◌, refl, arith}
use stellar_bench.Ps
use stellar_bench.Delivery.Inputs.{rdma_write}
use stellar_bench.Cluster.{Cluster}
use stellar_bench.Cluster.Refinement.{Runs}
use stellar_bench.Cluster.Stuck.{Turns, raced, stuck}
use stellar_bench.Cluster.Stuck.Inputs.{completed, lost_ps, sends_next}

stuck_example :
    Runs rdma_write 1 (raced completed.state 0 lost_ps)
    × (lost_ps.completed_iter ≡ completed.state.ps.completed_iter)
    × ((u : Cluster)
        → Turns rdma_write 1 (raced completed.state 0 lost_ps) u
        → u.ps.completed_iter ≡ lost_ps.completed_iter)
unfolding Ps.can_send
stuck_example =
    stuck rdma_write 1 completed.state 0 lost_ps completed.run (omega arith) refl refl sends_next
