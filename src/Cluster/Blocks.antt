-- ===== src/Cluster/Blocks.antt =====
-- The blocks of a run, on each connection: those that its sender puts into a message, round by round of
-- `rdma_sendTd`, and what its receiver's blocks hold of a message right after `rdma_recvTd` took it.
use stellar_bench.Base.{
  ℕ, ◌&&◌, not, Bool, true, List, [], ◌∷◌, ◌++◌, Option, some, ◌==◌, pos, minus_one, ◌+ℤ◌, ltb_ℤ,
  leb_ℤ, get_elem?, ◌>>=◌,
}
use stellar_bench.Wire.{receive}
use stellar_bench.Ps
use stellar_bench.Ps.{Ps}
use stellar_bench.Worker
use stellar_bench.Worker.{Worker}
use stellar_bench.Delivery.Down.{aged}
use stellar_bench.Cluster.{Cluster, Turn, ps_send, ps_recv, worker_send, worker_recv}
use stellar_bench.Cluster.Refinement.{Runs, started, follow}
use stellar_bench.Cluster.Payloads.{BlockPair, PayloadPair, payload}

abbrev pub chosen {ℓ} : {A : Type ℓ} → Bool → Option A → List A
chosen true (some a) = a ∷ []
chosen _ _ = []

-- The server's blocks at worker `j`'s indices, with the age that the message gives them.
abbrev pub blocks_for : Ps → ℕ → Option BlockPair
blocks_for s j = do
  pb ← get_elem? s.p_blocks (s.worker_pidx j)
  qb ← get_elem? s.q_blocks (s.worker_qidx j)
  some (aged (s.to_send_iter j) pb, aged (s.to_send_iter j) qb)

-- What the server's blocks hold at the ids of the message in the buffer `buf`.
abbrev pub stored_from : Ps → List ℕ → Option PayloadPair
stored_from s buf = do
  (p, q) ← receive buf
  pb ← get_elem? s.p_blocks p.block_id
  qb ← get_elem? s.q_blocks q.block_id
  some (payload pb, payload qb)

module _ {rdma_write : List ℕ → ℕ → List ℕ → List ℕ} {n : ℕ} where
  -- The blocks that a turn sends to worker `j`, and what worker `j` holds of a message that it takes.
  abbrev pub put_blocks_down : {s s' : Cluster} → Turn rdma_write n s s' → ℕ → List BlockPair
  put_blocks_down {s} (ps_send i lt h) j =
      chosen ((i == j) && Ps.can_send (s.ps.to_send_iter i) s.ps.completed_iter) (blocks_for s.ps j)
  put_blocks_down m j = []

  abbrev pub read_blocks_down : {s s' : Cluster} → Turn rdma_write n s s' → ℕ → List PayloadPair
  read_blocks_down {s} (worker_recv {w = w} i alloc lt h) j =
      chosen
        ((i == j)
          && not
              (leb_ℤ (pos (s.worker i).s_ctx.buf_recv_counter) ((s.worker i).recved_age +ℤ pos 1)))
        (some (payload w.p_block, payload w.q_block))
  read_blocks_down m j = []

  -- The blocks that a turn sends from worker `j`, and what the server holds of a message that it takes
  -- from it.
  abbrev pub put_blocks_up : {s s' : Cluster} → Turn rdma_write n s s' → ℕ → List BlockPair
  put_blocks_up {s} (worker_send i lt h) j =
      chosen ((i == j) && Worker.can_send (s.worker i).to_send_age (s.worker i).completed_iter)
        (some ((s.worker j).p_block, (s.worker j).q_block))
  put_blocks_up m j = []

  abbrev pub read_blocks_up : {s s' : Cluster} → Turn rdma_write n s s' → ℕ → List PayloadPair
  read_blocks_up {s} (ps_recv {p = p} i lt h) j =
      chosen
        ((i == j)
          && not (
              ltb_ℤ (pos (s.ps.s_ctx i).buf_recv_counter +ℤ minus_one)
                (s.ps.recved_iter i +ℤ pos 1)))
        (stored_from p (s.ps.s_ctx j).buffer)
  read_blocks_up m j = []

  abbrev pub blocks_down : {s : Cluster} → Runs rdma_write n s → ℕ → List BlockPair
  blocks_down (started h) j = []
  blocks_down (follow r m) j = blocks_down r j ++ put_blocks_down m j

  abbrev pub read_down : {s : Cluster} → Runs rdma_write n s → ℕ → List PayloadPair
  read_down (started h) j = []
  read_down (follow r m) j = read_down r j ++ read_blocks_down m j

  abbrev pub blocks_up : {s : Cluster} → Runs rdma_write n s → ℕ → List BlockPair
  blocks_up (started h) j = []
  blocks_up (follow r m) j = blocks_up r j ++ put_blocks_up m j

  abbrev pub read_up : {s : Cluster} → Runs rdma_write n s → ℕ → List PayloadPair
  read_up (started h) j = []
  read_up (follow r m) j = read_up r j ++ read_blocks_up m j
