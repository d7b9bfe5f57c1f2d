-- ===== src/Cluster/DownEvents.antt =====
-- What each turn does on the connections from the server to the workers.
use stellar_bench.Base.{
  ℕ, ◌≡◌, refl, ◌&&◌, true, false, List, [], ◌==◌, if◌then◌else◌, ℤ, pos, ◌+ℤ◌, ◌≤ℤ◌, leb_ℤ, inl,
  inr, arith,
}
use stellar_bench.Worker.{Worker}
use stellar_bench.Cluster.{
  Cluster, Turn, ps_main, ps_send, ps_recv, worker_main, worker_send, worker_recv, net_down, net_up,
  down_ends, set_worker,
}
use stellar_bench.Cluster.Rounds.{
  main_round-cases, send_round-cases, recv_round-cases, worker_main_round-cases,
  worker_send_round-cases, worker_recv_round-cases, filled,
}
use stellar_bench.Cluster.Safety.{refill-IsQuiet}
use stellar_bench.Cluster.Channel.{Event, stays, moves, fills, takes, sent_bytes, got_bytes}
use stellar_bench.Cluster.Refinement.{Runs}
use stellar_bench.Cluster.Logs.{logged, put_down, took_down, down_channel, at_index, and_false}

-- The guard of a receive thread, as the channel has it.
got-behind : (t : ℤ) (c : ℕ) → leb_ℤ (pos c) (t +ℤ pos 1) ≡ false → (t +ℤ pos 2) ≤ℤ pos c
got-behind t c h = ground arith

module _ (rdma_write : List ℕ → ℕ → List ℕ → List ℕ) (n : ℕ) (s : Cluster) (j : ℕ) where
  -- Worker `i` changes, but neither its receiving context nor its number of messages.
  worker_stays :
      (i : ℕ) (w : Worker)
      → w.s_ctx ≡ (s.worker i).s_ctx
      → w.recved_age ≡ (s.worker i).recved_age
      → Event rdma_write (down_channel s j) [] [] (down_channel (set_worker s i w) j)
  worker_stays i w same_ctx same_age =
      at_index
        (λ b k. Event rdma_write (down_channel s k) [] [] (record (down_channel s k) {
          ends = record (down_ends s k) { conn = (if b then w else s.worker k).s_ctx };
          taken = (if b then w else s.worker k).recved_age;
        }))
        i j (rw (same_ctx, same_age) stays) (λ k. stays)

  pub Turn-down :
      {s' : Cluster}
      → Runs rdma_write n s
      → (m : Turn rdma_write n s s')
      → Event rdma_write (down_channel s j) (put_down m j) (took_down m j) (down_channel s' j)
  Turn-down r (ps_main h) = elim (main_round-cases s.ps h) [
    | inl same ↦ rw same stays
    | inr (g, e) ↦ rw e stays
  ]
  Turn-down r (ps_send i lt h) = elim (send_round-cases i s.ps h) [
    | inl (waits, same) ↦ rw (waits, and_false (i == j), same) stays
    | inr (g, ps, qs, buf, len, room, size, e) ↦
        rw (g, e)
          (at_index
            (λ b k.
              Event rdma_write (down_channel s k)
                (logged (b && true)
                  (sent_bytes (if b then filled (s.ps.c_ctx i) true buf len else s.ps.c_ctx k)))
                []
                (record (down_channel s k) {
                  ends = record (down_ends s k) {
                    client = if b then filled (s.ps.c_ctx i) true buf len else s.ps.c_ctx k;
                  };
                  sent = if b then s.ps.to_send_iter i +ℤ pos 1 else s.ps.to_send_iter k;
                }))
            i j (fills true buf len (rw size room) size (refill-IsQuiet rdma_write n s r i lt g).0)
            (λ k. stays))
  ]
  Turn-down r (ps_recv i lt h) = elim (recv_round-cases i s.ps h) [
    | inl (waits, same) ↦ rw same stays
    | inr (g, ps, qs, e) ↦ rw e stays
  ]
  Turn-down r (worker_main i d random lt h) =
      elim (worker_main_round-cases d random (s.worker i) h) [
        | inl same ↦ worker_stays i _ (rw same refl) (rw same refl)
        | inr (g, p, q, e) ↦ worker_stays i _ (rw e refl) (rw e refl)
      ]
  Turn-down r (worker_send i lt h) = elim (worker_send_round-cases (s.worker i) h) [
    | inl (waits, same) ↦ worker_stays i _ (rw same refl) (rw same refl)
    | inr (g, buf, len, room, size, e) ↦ worker_stays i _ (rw e refl) (rw e refl)
  ]
  Turn-down r (worker_recv i alloc lt h) = elim (worker_recv_round-cases alloc (s.worker i) h) [
    | inl (waits, same) ↦
        rw (waits, and_false (i == j)) (worker_stays i _ (rw same refl) (rw same refl))
    | inr (g, p, q, e) ↦
        let ctx = record ((s.worker i).s_ctx) { can_recv = true } in
        let worker = record (s.worker i) {
          p_block = p;
          q_block = q;
          recved_age = (s.worker i).recved_age +ℤ pos 1;
          s_ctx = ctx;
        } in
        rw (g, e)
          (at_index
            (λ b k.
              Event rdma_write (down_channel s k) []
                (logged (b && true) (got_bytes (s.worker k).s_ctx))
                (record (down_channel s k) {
                  ends = record (down_ends s k) { conn = (if b then worker else s.worker k).s_ctx };
                  taken = (if b then worker else s.worker k).recved_age;
                }))
            i j
            (takes ctx (got-behind (s.worker i).recved_age (s.worker i).s_ctx.buf_recv_counter g))
            (λ k. stays))
  ]
  Turn-down r (net_down {e} i lt m) =
      at_index
        (λ b k. Event rdma_write (down_channel s k) [] [] (record (down_channel s k) {
          ends = record {
            client = if b then e.client else s.ps.c_ctx k;
            conn = (if b then record (s.worker i) { s_ctx = e.conn } else s.worker k).s_ctx;
            traffic = if b then e.traffic else s.down k;
          };
          taken = (if b then record (s.worker i) { s_ctx = e.conn } else s.worker k).recved_age;
        }))
        i j (moves m) (λ k. stays)
  Turn-down r (net_up {e} i lt m) =
      worker_stays i (record (s.worker i) { c_ctx = e.client }) refl refl
