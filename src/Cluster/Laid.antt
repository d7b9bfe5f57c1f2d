-- ===== src/Cluster/Laid.antt =====
-- The places of the blocks in a run: a block's place in the matrix, the states from which a run begins
-- with blocks at their places, and what the arithmetic and `malloc` are asked for.
pub mod Store
pub mod Taken
pub mod Sends
pub mod Turns
pub mod Along
pub mod Run
mod Tests
use stellar_bench.Base.{
  ℕ, ◌^◌, ◌<◌, ◌≡◌, ◌≤ℤ◌, pos, some, List, [], ◌∷◌, ◌++◌, map, length, get_elem?,
}
use stellar_bench.Block.{Block}
use stellar_bench.Wire.RoundTrip.{IsRepresentable}
use stellar_bench.Ps.{Ps}
use stellar_bench.Worker.{Worker}
use stellar_bench.Worker.Keeps.{AreDoubles}
use stellar_bench.Cluster.{Cluster, Turn, worker_main, worker_recv}
use stellar_bench.Cluster.Refinement.{Runs, started, follow}
use stellar_bench.Cluster.Payloads.{BlockPair, AreRepresentable}

-- The rows of the matrix that a block stands for, and how many elements it has for them.
pub record Place : Type 0 where
  pub block_id : ℕ
  pub sta_idx : ℕ
  pub height : ℕ
  pub ele_num : ℕ

abbrev pub place : Block → Place
place b = record {
  block_id = b.block_id;
  sta_idx = b.sta_idx;
  height = b.height;
  ele_num = b.ele_num;
}

-- Blocks of an array of the server: those at the first `n` workers' indices have these for their ids,
-- and each block is representable.
abbrev pub AreIndexed : ℕ → (ℕ → ℕ) → List Place → Type 0
AreIndexed n index places =
    (j : ℕ) (c : Place) → j < n → get_elem? places (index j) ≡ some c → c.block_id ≡ index j

abbrev pub AllRepresentable : List Block → Type 0
AllRepresentable blocks = (i : ℕ) (b : Block) → get_elem? blocks i ≡ some b → IsRepresentable b

-- A run's first state: the server's blocks at the workers' indices have these for their ids, all
-- blocks are representable, and the buffers for sending are smaller than 2^32 bytes.
pub record IsLaid (n : ℕ) (s : Cluster) : Type 0 where
  pub p_indexed : AreIndexed n s.ps.worker_pidx (map place s.ps.p_blocks)
  pub q_indexed : AreIndexed n s.ps.worker_qidx (map place s.ps.q_blocks)
  pub p_representable : AllRepresentable s.ps.p_blocks
  pub q_representable : AllRepresentable s.ps.q_blocks
  pub at_workers :
      (j : ℕ) → j < n → IsRepresentable (s.worker j).p_block × IsRepresentable (s.worker j).q_block
  pub small_down : (j : ℕ) → j < n → length (s.ps.c_ctx j).buffer < 2 ^ 32
  pub small_up : (j : ℕ) → j < n → length (s.worker j).c_ctx.buffer < 2 ^ 32

module _ {rdma_write : List ℕ → ℕ → List ℕ → List ℕ} {n : ℕ} where
  -- The arithmetic of `double` gives 64-bit patterns, and `malloc` objects of the size asked for.
  abbrev pub IsSaneTurn : {s s' : Cluster} → Turn rdma_write n s s' → Type 0
  IsSaneTurn (worker_main i d random lt h) = AreDoubles d
  IsSaneTurn (worker_recv i alloc lt h) = (k : ℕ) → length (alloc k).words ≡ k
  IsSaneTurn m = Unit {0}

  abbrev pub IsSane : {s : Cluster} → Runs rdma_write n s → Type 0
  IsSane (started h) = Unit {0}
  IsSane (follow r m) = IsSane r × IsSaneTurn m

  -- The state from which a run begins.
  abbrev pub origin : {s : Cluster} → Runs rdma_write n s → Cluster
  origin {s} (started h) = s
  origin (follow r m) = origin r

-- The server's blocks have the places `places` still.
pub record Stay (places : List Place) (blocks : List Block) : Type 0 where
  pub same : map place blocks ≡ places
  pub all : AllRepresentable blocks

-- A block with the place that stands at index `i`.
pub record Sits (places : List Place) (i : ℕ) (b : Block) : Type 0 where
  pub here : get_elem? places i ≡ some (place b)
  pub fits : IsRepresentable b

-- The two blocks of a worker: at the places of its indices once it has taken a message.
pub record IsWorkerLaid (ps qs : List Place) (pi qi : ℕ) (w : Worker) : Type 0 where
  pub p_fits : IsRepresentable w.p_block
  pub q_fits : IsRepresentable w.q_block
  pub sits :
      pos 0 ≤ℤ w.recved_age
      → (get_elem? ps pi ≡ some (place w.p_block)) × (get_elem? qs qi ≡ some (place w.q_block))

-- Pairs of blocks that were sent.
abbrev pub AllSit : List Place → List Place → ℕ → ℕ → List BlockPair → Type 0
AllSit ps qs pi qi [] = Unit {0}
AllSit ps qs pi qi ((p, q) ∷ rest) = Sits ps pi p × Sits qs qi q × AllSit ps qs pi qi rest

pub AllSit-append :
    (ps qs : List Place) (pi qi : ℕ) (xs ys : List BlockPair)
    → AllSit ps qs pi qi xs
    → AllSit ps qs pi qi ys
    → AllSit ps qs pi qi (xs ++ ys)
AllSit-append ps qs pi qi [] ys hx hy = hy
AllSit-append ps qs pi qi ((p, q) ∷ xs) ys hx hy =
    (hx.0, hx.1, AllSit-append ps qs pi qi xs ys hx.2 hy)

pub AllSit-AreRepresentable :
    (ps qs : List Place) (pi qi : ℕ) (xs : List BlockPair)
    → AllSit ps qs pi qi xs
    → AreRepresentable xs
AllSit-AreRepresentable ps qs pi qi [] h = tt
AllSit-AreRepresentable ps qs pi qi ((p, q) ∷ xs) h =
    (h.0.fits, h.1.fits, AllSit-AreRepresentable ps qs pi qi xs h.2)
