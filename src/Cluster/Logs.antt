-- ===== src/Cluster/Logs.antt =====
-- The messages of a run, on each connection: what its sender put into its buffer, round by round of
-- `rdma_sendTd`, and what its receiver found in its own when `rdma_recvTd` took a message.
use stellar_bench.Base.{
  ℕ, ◌≡◌, refl, ◌&&◌, not, Bool, true, false, List, [], ◌∷◌, ◌++◌, ◌==◌, pos, minus_one, ◌+ℤ◌,
  ltb_ℤ, leb_ℤ, inl, inr, Bool-cases,
}
use mathlib.Core.Path.{subst}
use stellar_bench.Ps
use stellar_bench.Ps.{Ps}
use stellar_bench.Worker
use stellar_bench.Worker.{Worker}
use stellar_bench.Cluster.{
  Cluster, Turn, ps_send, ps_recv, worker_send, worker_recv, down_ends, up_ends,
}
use stellar_bench.Cluster.Channel.{Channel, sent_bytes, got_bytes}
use stellar_bench.Cluster.Pairs.{==-eq}
use stellar_bench.Cluster.Refinement.{Runs, started, follow}

abbrev pub logged : Bool → List ℕ → List (List ℕ)
logged true m = m ∷ []
logged false m = []

module _ {rdma_write : List ℕ → ℕ → List ℕ → List ℕ} {n : ℕ} where
  -- What a turn sends to worker `j`, and what worker `j` takes.
  abbrev pub put_down : {s s' : Cluster} → Turn rdma_write n s s' → ℕ → List (List ℕ)
  put_down {s} (ps_send {p = p} i lt h) j =
      logged ((i == j) && Ps.can_send (s.ps.to_send_iter i) s.ps.completed_iter)
        (sent_bytes (p.c_ctx j))
  put_down m j = []

  abbrev pub took_down : {s s' : Cluster} → Turn rdma_write n s s' → ℕ → List (List ℕ)
  took_down {s} (worker_recv i alloc lt h) j =
      logged
        ((i == j)
          && not
              (leb_ℤ (pos (s.worker i).s_ctx.buf_recv_counter) ((s.worker i).recved_age +ℤ pos 1)))
        (got_bytes (s.worker j).s_ctx)
  took_down m j = []

  -- What a turn sends from worker `j`, and what the server takes from it.
  abbrev pub put_up : {s s' : Cluster} → Turn rdma_write n s s' → ℕ → List (List ℕ)
  put_up {s} (worker_send {w = w} i lt h) j =
      logged ((i == j) && Worker.can_send (s.worker i).to_send_age (s.worker i).completed_iter)
        (sent_bytes w.c_ctx)
  put_up m j = []

  abbrev pub took_up : {s s' : Cluster} → Turn rdma_write n s s' → ℕ → List (List ℕ)
  took_up {s} (ps_recv i lt h) j =
      logged
        ((i == j)
          && not (
              ltb_ℤ (pos (s.ps.s_ctx i).buf_recv_counter +ℤ minus_one)
                (s.ps.recved_iter i +ℤ pos 1)))
        (got_bytes (s.ps.s_ctx j))
  took_up m j = []

  abbrev pub sent_down : {s : Cluster} → Runs rdma_write n s → ℕ → List (List ℕ)
  sent_down (started h) j = []
  sent_down (follow r m) j = sent_down r j ++ put_down m j

  abbrev pub taken_down : {s : Cluster} → Runs rdma_write n s → ℕ → List (List ℕ)
  taken_down (started h) j = []
  taken_down (follow r m) j = taken_down r j ++ took_down m j

  abbrev pub sent_up : {s : Cluster} → Runs rdma_write n s → ℕ → List (List ℕ)
  sent_up (started h) j = []
  sent_up (follow r m) j = sent_up r j ++ put_up m j

  abbrev pub taken_up : {s : Cluster} → Runs rdma_write n s → ℕ → List (List ℕ)
  taken_up (started h) j = []
  taken_up (follow r m) j = taken_up r j ++ took_up m j

-- The connections as channels.
abbrev pub down_channel : Cluster → ℕ → Channel
down_channel s j = record {
  ends = down_ends s j;
  sent = s.ps.to_send_iter j;
  taken = (s.worker j).recved_age;
}

abbrev pub up_channel : Cluster → ℕ → Channel
up_channel s j = record {
  ends = up_ends s j;
  sent = (s.worker j).to_send_age;
  taken = s.ps.recved_iter j;
}

pub and_false : (b : Bool) → (b && false) ≡ false
and_false true = refl
and_false false = refl

-- What holds at `i`, and at any other index.
pub at_index : (P : Bool → ℕ → Type 0) (i j : ℕ) → P true i → ((k : ℕ) → P false k) → P (i == j) j
at_index P i j here others = elim (Bool-cases (i == j)) [
  | inl same ↦ rw same (subst (P true) (==-eq i j same) here)
  | inr other ↦ rw other (others j)
]
