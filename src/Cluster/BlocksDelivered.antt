-- ===== src/Cluster/BlocksDelivered.antt =====
-- The blocks of a whole run, on each connection.
use stellar_bench.Base.{ℕ, ◌^◌, ◌≤◌, ◌<◌, ◌≡◌, sym, ◌∙◌, List, ◌++◌, map, length, take, drop, arith}
use stellar_bench.Cluster.{Cluster}
use stellar_bench.Cluster.Refinement.{Runs}
use stellar_bench.Cluster.Delivered.{delivered}
use stellar_bench.Cluster.Payloads.{BlockPair, PayloadPair, payloads, AreRepresentable, Reads-sent}
use stellar_bench.Cluster.Blocks.{blocks_down, read_down, blocks_up, read_up}
use stellar_bench.Cluster.BlocksSent.{sent_down-image, sent_up-image}
use stellar_bench.Cluster.BlocksRead.{taken_down-Reads, taken_up-Reads}

-- The receiver has what the messages carry of the blocks `sent`, in order, but for at most one at the end.
abbrev pub AreDelivered : List BlockPair → List PayloadPair → Type 0
AreDelivered sent read =
    (rest : List PayloadPair) × (map payloads sent ≡ read ++ rest) × (length rest ≤ 1)

-- Whatever the threads do when, what a worker's two blocks hold right after each message that it takes
-- is what the server's blocks at that worker's indices held when it sent them, aged by the iteration:
-- block after block and in order, but for at most one message that is on its way. So it is back: what
-- the server's blocks hold at the ids of each message that it takes is what the worker's two blocks held
-- when it sent them. The blocks that are sent are representable, and the buffers for sending are smaller
-- than 2^32 bytes.
pub blocks_delivered :
    (rdma_write : List ℕ → ℕ → List ℕ → List ℕ)
    → ((src : List ℕ) (len : ℕ) (dst : List ℕ)
        → rdma_write src len dst ≡ take len src ++ drop len dst)
    → (n : ℕ) (s : Cluster) (r : Runs rdma_write n s) (j : ℕ) → j < n
    → length (s.ps.c_ctx j).buffer < 2 ^ 32
    → length (s.worker j).c_ctx.buffer < 2 ^ 32
    → AreRepresentable (blocks_down r j)
    → AreRepresentable (blocks_up r j)
    → AreDelivered (blocks_down r j) (read_down r j) × AreDelivered (blocks_up r j) (read_up r j)
blocks_delivered rdma_write writes_start n s r j lt small_down small_up rep_down rep_up =
    let (down, up) = delivered rdma_write writes_start n s r j lt small_down small_up in
    let (back_d, same_d, size_d) =
      Reads-sent (blocks_down r j) down.0 (taken_down-Reads r j) rep_down
        (sym (sent_down-image r j rep_down) ∙ down.1) in
    let (back_u, same_u, size_u) =
      Reads-sent (blocks_up r j) up.0 (taken_up-Reads r j) rep_up
        (sym (sent_up-image r j rep_up) ∙ up.1) in
    ((back_d, same_d, omega (arith, size_d, down.2)), (back_u, same_u, omega (arith, size_u, up.2)))
