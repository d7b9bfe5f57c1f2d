-- ===== src/Cluster/Laid/Along.antt =====
-- What holds of the blocks along a run, turn by turn.
use mathlib.Core.Path.{subst}
use stellar_bench.Base.{
  ℕ, ◌^◌, ◌<◌, ◌≡◌, refl, sym, ◌∙◌, true, List, ◌++◌, map, length, take, drop, ℤ, pos, ◌≤ℤ◌, arith,
  eqb_ℤ,
}
use stellar_bench.Round.{minus_1}
use stellar_bench.Worker
use stellar_bench.Worker.{Worker}
use stellar_bench.Cluster.{Cluster, Turn}
use stellar_bench.Cluster.Refinement.{Runs, started, follow}
use stellar_bench.Cluster.Safety.{in_step}
use stellar_bench.Cluster.Links.{up_Sound}
use stellar_bench.Cluster.Logs.{
  put_down, put_up, sent_down, taken_down, took_down, sent_up, taken_up, took_up,
}
use stellar_bench.Cluster.DownEvents.{Turn-down}
use stellar_bench.Cluster.UpEvents.{Turn-up}
use stellar_bench.Cluster.Delivered.{Event-size, IsDelivered, delivered}
use stellar_bench.Cluster.Blocks.{blocks_down, blocks_up, put_blocks_down, put_blocks_up}
use stellar_bench.Cluster.BlocksSent.{sent_down-image, sent_up-image}
use stellar_bench.Cluster.Laid.{
  Place, place, AreIndexed, IsLaid, IsSaneTurn, IsSane, origin, AllSit, AllSit-append,
  AllSit-AreRepresentable,
}
use stellar_bench.Cluster.Laid.Taken.{took-AllImages}
use stellar_bench.Cluster.Laid.Turns.{Laid, Turn-Laid, put_down-AllSit, put_up-AllSit}

-- A worker that may send has computed an iteration that it has taken.
taken_of :
    (send done got : ℤ) (k : ℕ) → send ≡ pos k → done ≤ℤ got → eqb_ℤ send done ≡ true → pos 0 ≤ℤ got
taken_of send done got k e le h = ground arith

not_started : (got : ℤ) → got ≡ minus_1 0 → ¬ (pos 0 ≤ℤ got)
not_started got e h = ground arith

module _ (rdma_write : List ℕ → ℕ → List ℕ → List ℕ)
    (writes_start : (src : List ℕ) (len : ℕ) (dst : List ℕ)
      → rdma_write src len dst ≡ take len src ++ drop len dst)
    (n : ℕ) where
  may_send-taken :
      {s : Cluster} (r : Runs rdma_write n s) (j : ℕ)
      → j < n
      → Worker.can_send (s.worker j).to_send_age (s.worker j).completed_iter ≡ true
      → pos 0 ≤ℤ (s.worker j).recved_age
  unfolding Worker.can_send
  may_send-taken {s} r j lt h =
      let (order, close) = in_step rdma_write n s r j j lt lt in
      let sound = up_Sound rdma_write n r j lt in
      taken_of _ _ _ sound.link.to_send sound.sends order.took_first (ground arith)

  -- All that holds of the blocks along a run.
  pub record Along {s : Cluster} (r : Runs rdma_write n s) : Type 0 where
    pub laid :
        Laid
          (map place (origin r).ps.p_blocks)
          (map place (origin r).ps.q_blocks)
          (origin r).ps.worker_pidx
          (origin r).ps.worker_qidx
          n
          s
    pub down :
        (j : ℕ)
        → AllSit
            (map place (origin r).ps.p_blocks)
            (map place (origin r).ps.q_blocks)
            ((origin r).ps.worker_pidx j)
            ((origin r).ps.worker_qidx j)
            (blocks_down r j)
    pub up :
        (j : ℕ)
        → AllSit
            (map place (origin r).ps.p_blocks)
            (map place (origin r).ps.q_blocks)
            ((origin r).ps.worker_pidx j)
            ((origin r).ps.worker_qidx j)
            (blocks_up r j)
    pub small_down : (j : ℕ) → j < n → length (s.ps.c_ctx j).buffer < 2 ^ 32
    pub small_up : (j : ℕ) → j < n → length (s.worker j).c_ctx.buffer < 2 ^ 32

  -- One more turn.
  module _ {s₀ s : Cluster} (r : Runs rdma_write n s₀) (m : Turn rdma_write n s₀ s)
      (v : Along r) where
    abbrev ps : List Place
    ps = map place (origin r).ps.p_blocks

    abbrev qs : List Place
    qs = map place (origin r).ps.q_blocks

    abbrev pi : ℕ → ℕ
    pi = (origin r).ps.worker_pidx

    abbrev qi : ℕ → ℕ
    qi = (origin r).ps.worker_qidx

    next_small_down : (j : ℕ) → j < n → length (s.ps.c_ctx j).buffer < 2 ^ 32
    next_small_down j lt =
        subst (λ k. k < 2 ^ 32) (sym (Event-size (Turn-down rdma_write n s₀ j r m)))
          (v.small_down j lt)

    next_small_up : (j : ℕ) → j < n → length (s.worker j).c_ctx.buffer < 2 ^ 32
    next_small_up j lt =
        subst (λ k. k < 2 ^ 32) (sym (Event-size (Turn-up rdma_write n s₀ j r m))) (v.small_up j lt)

    next_down : (j : ℕ) → AllSit ps qs (pi j) (qi j) (blocks_down r j ++ put_blocks_down m j)
    next_down j =
        AllSit-append ps qs (pi j) (qi j) (blocks_down r j) (put_blocks_down m j) (v.down j)
          (put_down-AllSit ps qs pi qi n m v.laid j)

    next_up : (j : ℕ) → AllSit ps qs (pi j) (qi j) (blocks_up r j ++ put_blocks_up m j)
    next_up j =
        AllSit-append ps qs (pi j) (qi j) (blocks_up r j) (put_blocks_up m j) (v.up j)
          (put_up-AllSit ps qs pi qi n m v.laid (may_send-taken r) j)

    follow-Laid : AreIndexed n pi ps → AreIndexed n qi qs → IsSaneTurn m → Laid ps qs pi qi n s
    follow-Laid p_indexed q_indexed sane =
        Turn-Laid ps qs pi qi n m p_indexed q_indexed sane v.laid
          (λ j lt.
            let rep =
              AllSit-AreRepresentable ps qs (pi j) (qi j) (blocks_down r j ++ put_blocks_down m j)
                (next_down j) in
            took-AllImages ps qs (pi j) (qi j) (blocks_down r j ++ put_blocks_down m j)
              (taken_down r j) (took_down m j) (messages j lt).0.0 (next_down j)
              (sym (sent_down-image (follow r m) j rep) ∙ (messages j lt).0.1))
          (λ j lt.
            let rep =
              AllSit-AreRepresentable ps qs (pi j) (qi j) (blocks_up r j ++ put_blocks_up m j)
                (next_up j) in
            took-AllImages ps qs (pi j) (qi j) (blocks_up r j ++ put_blocks_up m j) (taken_up r j)
              (took_up m j) (messages j lt).1.0 (next_up j)
              (sym (sent_up-image (follow r m) j rep) ∙ (messages j lt).1.1))
      where
        messages :
            (j : ℕ)
            → j < n
            → IsDelivered
                (s.ps.to_send_iter j)
                (s.worker j).recved_age
                (sent_down r j ++ put_down m j)
                (taken_down r j ++ took_down m j)
              × IsDelivered
                  (s.worker j).to_send_age
                  (s.ps.recved_iter j)
                  (sent_up r j ++ put_up m j)
                  (taken_up r j ++ took_up m j)
        messages j lt =
            delivered rdma_write writes_start n s (follow r m) j lt (next_small_down j lt)
              (next_small_up j lt)

  pub along : {s : Cluster} (r : Runs rdma_write n s) → IsLaid n (origin r) → IsSane r → Along r
  along {s} (started h) laid sane = record {
    laid = record {
      p_stay = record { same = refl; all = laid.p_representable };
      q_stay = record { same = refl; all = laid.q_representable };
      p_index = refl;
      q_index = refl;
      workers = λ j lt. record {
        p_fits = (laid.at_workers j lt).0;
        q_fits = (laid.at_workers j lt).1;
        sits = λ got. absurd (not_started (s.worker j).recved_age (h.recved_age j lt) got);
      };
    };
    down = λ j. tt;
    up = λ j. tt;
    small_down = laid.small_down;
    small_up = laid.small_up;
  }
  along (follow r m) laid (sane, sane_m) =
      let v = along r laid sane in
      record {
        laid = follow-Laid r m v laid.p_indexed laid.q_indexed sane_m;
        down = next_down r m v;
        up = next_up r m v;
        small_down = next_small_down r m v;
        small_up = next_small_up r m v;
      }
