-- ===== src/Cluster/Laid/Turns.antt =====
-- The places of the blocks through each turn.
use mathlib.Core.Path.{subst}
use stellar_bench.Base.{
  ℕ, ◌<◌, ◌≡◌, refl, ◌∙◌, ◌&&◌, true, some, List, pos, ◌≤ℤ◌, inl, inr, if◌then◌else◌,
}
use stellar_bench.Ps
use stellar_bench.Ps.{Ps}
use stellar_bench.Worker
use stellar_bench.Worker.{Worker}
use stellar_bench.Cluster.{
  Cluster, Turn, ps_main, ps_send, ps_recv, worker_main, worker_send, worker_recv, net_down, net_up,
  set_worker,
}
use stellar_bench.Cluster.Pairs.{self}
use stellar_bench.Cluster.Rounds.{main_round-cases, send_round-cases, recv_round-cases}
use stellar_bench.Cluster.Logs.{took_down, took_up, at_index}
use stellar_bench.Cluster.Blocks.{chosen, blocks_for, put_blocks_down, put_blocks_up}
use stellar_bench.Cluster.Laid.{Place, AreIndexed, Stay, IsWorkerLaid, AllSit, IsSaneTurn}
use stellar_bench.Cluster.Laid.Sends.{Ps-send-Stay, Ps-put-AllSit}
use stellar_bench.Cluster.Laid.Taken.{
  AllImages, Worker-recv-Laid, Ps-recv-Stay, Worker-main-Laid, Worker-send-Laid, Worker-put-AllSit,
}

-- All blocks of the program are at their places.
pub record Laid (ps qs : List Place) (pi qi : ℕ → ℕ) (n : ℕ) (s : Cluster) : Type 0 where
  pub p_stay : Stay ps s.ps.p_blocks
  pub q_stay : Stay qs s.ps.q_blocks
  pub p_index : s.ps.worker_pidx ≡ pi
  pub q_index : s.ps.worker_qidx ≡ qi
  pub workers : (j : ℕ) → j < n → IsWorkerLaid ps qs (pi j) (qi j) (s.worker j)

module _ (ps qs : List Place) (pi qi : ℕ → ℕ) (n : ℕ) where
  -- Worker `i` changes.
  worker_Laid :
      (s : Cluster) (i : ℕ) (w : Worker)
      → Laid ps qs pi qi n s
      → IsWorkerLaid ps qs (pi i) (qi i) w
      → Laid ps qs pi qi n (set_worker s i w)
  worker_Laid s i w v here = record {
    p_stay = v.p_stay;
    q_stay = v.q_stay;
    p_index = v.p_index;
    q_index = v.q_index;
    workers = λ j.
        at_index (λ b k. k < n → IsWorkerLaid ps qs (pi k) (qi k) (if b then w else s.worker k)) i j
          (λ lt. here) v.workers;
  }

  -- The server changes, but not its indices.
  server_Laid :
      (s : Cluster) (p : Ps)
      → Laid ps qs pi qi n s
      → Stay ps p.p_blocks × Stay qs p.q_blocks
      → (p.worker_pidx ≡ s.ps.worker_pidx) × (p.worker_qidx ≡ s.ps.worker_qidx)
      → Laid ps qs pi qi n (record s { ps = p })
  server_Laid s p v stay same = record {
    p_stay = stay.0;
    q_stay = stay.1;
    p_index = same.0 ∙ v.p_index;
    q_index = same.1 ∙ v.q_index;
    workers = v.workers;
  }

  -- A connection changes a worker's context.
  context_Laid :
      {s : Cluster} (i : ℕ) (w : Worker)
      → Laid ps qs pi qi n s
      → i < n
      → w.p_block ≡ (s.worker i).p_block
      → w.q_block ≡ (s.worker i).q_block
      → w.recved_age ≡ (s.worker i).recved_age
      → Laid ps qs pi qi n (set_worker s i w)
  context_Laid {s} i w v lt ep eq er =
      let old = v.workers i lt in
      worker_Laid s i w v (record {
        p_fits = rw ep old.p_fits;
        q_fits = rw eq old.q_fits;
        sits = rw (ep, eq, er) old.sits;
      })

  module _ {rdma_write : List ℕ → ℕ → List ℕ → List ℕ} where
    pub Turn-Laid :
        {s s' : Cluster} (m : Turn rdma_write n s s')
        → AreIndexed n pi ps
        → AreIndexed n qi qs
        → IsSaneTurn m
        → Laid ps qs pi qi n s
        → ((j : ℕ) → j < n → AllImages ps qs (pi j) (qi j) (took_down m j))
        → ((j : ℕ) → j < n → AllImages ps qs (pi j) (qi j) (took_up m j))
        → Laid ps qs pi qi n s'
    Turn-Laid {s} (ps_main {p} h) ip iq sane v down up = elim (main_round-cases s.ps h) [
      | inl same ↦ server_Laid s p v (rw same (v.p_stay, v.q_stay)) (rw same (refl, refl))
      | inr (g, e) ↦ server_Laid s p v (rw e (v.p_stay, v.q_stay)) (rw e (refl, refl))
    ]
    Turn-Laid {s} (ps_send {p} i lt h) ip iq sane v down up =
        server_Laid s p v (Ps-send-Stay ps qs i s.ps h v.p_stay v.q_stay)
          (elim (send_round-cases i s.ps h) [
            | inl (waits, same) ↦ rw same (refl, refl)
            | inr (g, pbs, qbs, buf, len, room, size, e) ↦ rw e (refl, refl)
          ])
    Turn-Laid {s} (ps_recv {p} i lt h) ip iq sane v down up =
        server_Laid s p v
          (Ps-recv-Stay ps qs (pi i) (qi i) i s.ps (λ c. ip i c lt) (λ c. iq i c lt) v.p_stay
            v.q_stay h (rw (self i) at (up i lt)))
          (elim (recv_round-cases i s.ps h) [
            | inl (waits, same) ↦ rw same (refl, refl)
            | inr (g, pbs, qbs, e) ↦ rw e (refl, refl)
          ])
    Turn-Laid {s} (worker_main {w} i d random lt h) ip iq sane v down up =
        worker_Laid s i w v
          (Worker-main-Laid ps qs (pi i) (qi i) d random (s.worker i) sane (v.workers i lt) h)
    Turn-Laid {s} (worker_send {w} i lt h) ip iq sane v down up =
        worker_Laid s i w v (Worker-send-Laid ps qs (pi i) (qi i) (s.worker i) (v.workers i lt) h)
    Turn-Laid {s} (worker_recv {w} i alloc lt h) ip iq sane v down up = worker_Laid s i w v (
        Worker-recv-Laid ps qs (pi i) (qi i) alloc (s.worker i) sane (v.workers i lt) h
          (rw (self i) at (down i lt)))
    Turn-Laid {s} (net_down {e} i lt m) ip iq sane v down up =
        let c = context_Laid i (record (s.worker i) { s_ctx = e.conn }) v lt refl refl refl in
        record {
          p_stay = v.p_stay;
          q_stay = v.q_stay;
          p_index = v.p_index;
          q_index = v.q_index;
          workers = c.workers;
        }
    Turn-Laid {s} (net_up {e} i lt m) ip iq sane v down up =
        let c = context_Laid i (record (s.worker i) { c_ctx = e.client }) v lt refl refl refl in
        record {
          p_stay = v.p_stay;
          q_stay = v.q_stay;
          p_index = v.p_index;
          q_index = v.q_index;
          workers = c.workers;
        }

    -- The blocks that a turn sends.
    pub put_down-AllSit :
        {s s' : Cluster} (m : Turn rdma_write n s s')
        → Laid ps qs pi qi n s
        → (j : ℕ) → AllSit ps qs (pi j) (qi j) (put_blocks_down m j)
    put_down-AllSit {s} (ps_send i lt h) v j =
        at_index
          (λ b k. AllSit ps qs (pi k) (qi k) (
            chosen (b && Ps.can_send (s.ps.to_send_iter i) s.ps.completed_iter)
              (blocks_for s.ps k)))
          i j
          (subst
            (λ f.
              AllSit ps qs (f i) (qi i) (
                chosen (Ps.can_send (s.ps.to_send_iter i) s.ps.completed_iter) (blocks_for s.ps i)))
            v.p_index
            (subst
              (λ f. AllSit ps qs (s.ps.worker_pidx i) (f i) (
                chosen (Ps.can_send (s.ps.to_send_iter i) s.ps.completed_iter) (blocks_for s.ps i)))
              v.q_index (Ps-put-AllSit ps qs i s.ps h v.p_stay v.q_stay)))
          (λ k. tt)
    put_down-AllSit (ps_main h) v j = tt
    put_down-AllSit (ps_recv i lt h) v j = tt
    put_down-AllSit (worker_main i d random lt h) v j = tt
    put_down-AllSit (worker_send i lt h) v j = tt
    put_down-AllSit (worker_recv i alloc lt h) v j = tt
    put_down-AllSit (net_down i lt m) v j = tt
    put_down-AllSit (net_up i lt m) v j = tt

    pub put_up-AllSit :
        {s s' : Cluster} (m : Turn rdma_write n s s')
        → Laid ps qs pi qi n s
        → ((j : ℕ)
            → j < n
            → Worker.can_send (s.worker j).to_send_age (s.worker j).completed_iter ≡ true
            → pos 0 ≤ℤ (s.worker j).recved_age)
        → (j : ℕ) → AllSit ps qs (pi j) (qi j) (put_blocks_up m j)
    put_up-AllSit {s} (worker_send i lt h) v taken j =
        at_index
          (λ b k. AllSit ps qs (pi k) (qi k) (
            chosen (b && Worker.can_send (s.worker i).to_send_age (s.worker i).completed_iter)
              (some ((s.worker k).p_block, (s.worker k).q_block))))
          i j (Worker-put-AllSit ps qs (pi i) (qi i) _ (s.worker i) (v.workers i lt) (taken i lt))
          (λ k. tt)
    put_up-AllSit (ps_main h) v taken j = tt
    put_up-AllSit (ps_send i lt h) v taken j = tt
    put_up-AllSit (ps_recv i lt h) v taken j = tt
    put_up-AllSit (worker_main i d random lt h) v taken j = tt
    put_up-AllSit (worker_recv i alloc lt h) v taken j = tt
    put_up-AllSit (net_down i lt m) v taken j = tt
    put_up-AllSit (net_up i lt m) v taken j = tt
