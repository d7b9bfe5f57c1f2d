-- ===== src/Cluster/Laid/Run.antt =====
-- The places of the blocks in a whole run, and the blocks that are delivered in it.
use stellar_bench.Base.{
  ℕ, ◌<◌, ◌≡◌, ap, ◌∙◌, List, ◌++◌, map, take, drop, get_elem?, some, pos, ◌≤ℤ◌,
}
use stellar_bench.Cluster.{Cluster}
use stellar_bench.Cluster.Refinement.{Runs}
use stellar_bench.Cluster.Blocks.{blocks_down, read_down, blocks_up, read_up}
use stellar_bench.Cluster.BlocksDelivered.{AreDelivered, blocks_delivered}
use stellar_bench.Cluster.Laid.{place, IsLaid, IsSane, origin, AllSit-AreRepresentable}
use stellar_bench.Cluster.Laid.Along.{along}

module _ (rdma_write : List ℕ → ℕ → List ℕ → List ℕ)
    (writes_start : (src : List ℕ) (len : ℕ) (dst : List ℕ)
      → rdma_write src len dst ≡ take len src ++ drop len dst)
    (n : ℕ) where
  -- In every run that begins with blocks at their places (`IsLaid`), in which the arithmetic gives
  -- 64-bit patterns and `malloc` objects of the size asked for (`IsSane`), whatever the threads do when:
  -- the server's blocks keep their ids, first rows, heights and numbers of elements, also when a
  -- worker's answer is stored in them.
  pub server_places :
      (s : Cluster) (r : Runs rdma_write n s)
      → IsLaid n (origin r)
      → IsSane r
      → (map place s.ps.p_blocks ≡ map place (origin r).ps.p_blocks)
        × (map place s.ps.q_blocks ≡ map place (origin r).ps.q_blocks)
  server_places s r laid sane =
      let v = (along rdma_write writes_start n r laid sane).laid in (v.p_stay.same, v.q_stay.same)

  -- In such a run, a worker that has taken a message has the places of the server's blocks at that
  -- worker's indices.
  pub worker_places :
      (s : Cluster) (r : Runs rdma_write n s) (j : ℕ)
      → IsLaid n (origin r)
      → IsSane r
      → j < n
      → pos 0 ≤ℤ (s.worker j).recved_age
      → (get_elem? (map place s.ps.p_blocks) (s.ps.worker_pidx j)
          ≡ some (place (s.worker j).p_block))
        × (get_elem? (map place s.ps.q_blocks) (s.ps.worker_qidx j)
            ≡ some (place (s.worker j).q_block))
  worker_places s r j laid sane lt got =
      let v = (along rdma_write writes_start n r laid sane).laid in
      let (here_p, here_q) = (v.workers j lt).sits got in
      (
        ap (λ t. get_elem? t (s.ps.worker_pidx j)) v.p_stay.same
            ∙ ap (λ f. get_elem? (map place (origin r).ps.p_blocks) (f j)) v.p_index
            ∙ here_p,
        ap (λ t. get_elem? t (s.ps.worker_qidx j)) v.q_stay.same
            ∙ ap (λ f. get_elem? (map place (origin r).ps.q_blocks) (f j)) v.q_index
            ∙ here_q,
      )

  -- In such a run, what a worker's two blocks hold right after each message that it takes is what the
  -- server's blocks at that worker's indices held when it sent them, aged by the iteration: block after
  -- block and in order, but for at most one message that is on its way. So it is back: what the server's
  -- blocks hold at the ids of each message that it takes from a worker is what that worker's two blocks
  -- held when it sent them.
  pub blocks_arrive :
      (s : Cluster) (r : Runs rdma_write n s) (j : ℕ)
      → IsLaid n (origin r)
      → IsSane r
      → j < n
      → AreDelivered (blocks_down r j) (read_down r j) × AreDelivered (blocks_up r j) (read_up r j)
  blocks_arrive s r j laid sane lt =
      let v = along rdma_write writes_start n r laid sane in
      blocks_delivered rdma_write writes_start n s r j lt (v.small_down j lt) (v.small_up j lt)
        (AllSit-AreRepresentable _ _ _ _ (blocks_down r j) (v.down j))
        (AllSit-AreRepresentable _ _ _ _ (blocks_up r j) (v.up j))
