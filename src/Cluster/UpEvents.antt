-- ===== src/Cluster/UpEvents.antt =====
-- What each turn does on the connections from the workers to the server.
use stellar_bench.Base.{
  ℕ, ◌≡◌, refl, ◌&&◌, true, false, List, [], ◌==◌, if◌then◌else◌, ℤ, pos, minus_one, ◌+ℤ◌, ◌≤ℤ◌,
  ltb_ℤ, inl, inr, arith,
}
use stellar_bench.Worker.{Worker}
use stellar_bench.Cluster.{
  Cluster, Turn, ps_main, ps_send, ps_recv, worker_main, worker_send, worker_recv, net_down, net_up,
  up_ends, set_worker,
}
use stellar_bench.Cluster.Rounds.{
  main_round-cases, send_round-cases, recv_round-cases, worker_main_round-cases,
  worker_send_round-cases, worker_recv_round-cases, filled,
}
use stellar_bench.Cluster.Safety.{reply-IsQuiet}
use stellar_bench.Cluster.Channel.{Event, stays, moves, fills, takes, sent_bytes, got_bytes}
use stellar_bench.Cluster.Refinement.{Runs}
use stellar_bench.Cluster.Logs.{logged, put_up, took_up, up_channel, at_index, and_false}

-- The guard of a receive thread, as the channel has it.
took-behind :
    (t : ℤ) (c : ℕ) → ltb_ℤ (pos c +ℤ minus_one) (t +ℤ pos 1) ≡ false → (t +ℤ pos 2) ≤ℤ pos c
took-behind t c h = ground arith

module _ (rdma_write : List ℕ → ℕ → List ℕ → List ℕ) (n : ℕ) (s : Cluster) (j : ℕ) where
  -- Worker `i` changes, but neither its sending context nor its number of messages.
  worker_stays :
      (i : ℕ) (w : Worker)
      → w.c_ctx ≡ (s.worker i).c_ctx
      → w.to_send_age ≡ (s.worker i).to_send_age
      → Event rdma_write (up_channel s j) [] [] (up_channel (set_worker s i w) j)
  worker_stays i w same_ctx same_age =
      at_index
        (λ b k. Event rdma_write (up_channel s k) [] [] (record (up_channel s k) {
          ends = record (up_ends s k) { client = (if b then w else s.worker k).c_ctx };
          sent = (if b then w else s.worker k).to_send_age;
        }))
        i j (rw (same_ctx, same_age) stays) (λ k. stays)

  pub Turn-up :
      {s' : Cluster}
      → Runs rdma_write n s
      → (m : Turn rdma_write n s s')
      → Event rdma_write (up_channel s j) (put_up m j) (took_up m j) (up_channel s' j)
  Turn-up r (ps_main h) = elim (main_round-cases s.ps h) [
    | inl same ↦ rw same stays
    | inr (g, e) ↦ rw e stays
  ]
  Turn-up r (ps_send i lt h) = elim (send_round-cases i s.ps h) [
    | inl (waits, same) ↦ rw same stays
    | inr (g, ps, qs, buf, len, room, size, e) ↦ rw e stays
  ]
  Turn-up r (ps_recv i lt h) = elim (recv_round-cases i s.ps h) [
    | inl (waits, same) ↦ rw (waits, and_false (i == j), same) stays
    | inr (g, ps, qs, e) ↦
        let ctx = record (s.ps.s_ctx i) { buf_prepared = false; can_recv = true } in
        rw (g, e)
          (at_index
            (λ b k.
              Event rdma_write (up_channel s k) [] (logged (b && true) (got_bytes (s.ps.s_ctx k)))
                (record (up_channel s k) {
                  ends = record (up_ends s k) { conn = if b then ctx else s.ps.s_ctx k };
                  taken = if b then s.ps.recved_iter i +ℤ pos 1 else s.ps.recved_iter k;
                }))
            i j (takes ctx (took-behind (s.ps.recved_iter i) (s.ps.s_ctx i).buf_recv_counter g))
            (λ k. stays))
  ]
  Turn-up r (worker_main i d random lt h) = elim (worker_main_round-cases d random (s.worker i) h) [
    | inl same ↦ worker_stays i _ (rw same refl) (rw same refl)
    | inr (g, p, q, e) ↦ worker_stays i _ (rw e refl) (rw e refl)
  ]
  Turn-up r (worker_send i lt h) = elim (worker_send_round-cases (s.worker i) h) [
    | inl (waits, same) ↦
        rw (waits, and_false (i == j)) (worker_stays i _ (rw same refl) (rw same refl))
    | inr (g, buf, len, room, size, e) ↦
        let ctx = filled (s.worker i).c_ctx (s.worker i).c_ctx.buf_prepared buf len in
        let worker = record (s.worker i) {
          c_ctx = ctx;
          to_send_age = (s.worker i).to_send_age +ℤ pos 1;
        } in
        rw (g, e)
          (at_index
            (λ b k.
              Event rdma_write (up_channel s k) (logged (b && true) (sent_bytes ctx)) []
                (record (up_channel s k) {
                  ends = record (up_ends s k) { client = (if b then worker else s.worker k).c_ctx };
                  sent = (if b then worker else s.worker k).to_send_age;
                }))
            i j
            (fills (s.worker i).c_ctx.buf_prepared buf len (rw size room) size
              (reply-IsQuiet rdma_write n s r i lt g))
            (λ k. stays))
  ]
  Turn-up r (worker_recv i alloc lt h) = elim (worker_recv_round-cases alloc (s.worker i) h) [
    | inl (waits, same) ↦ worker_stays i _ (rw same refl) (rw same refl)
    | inr (g, p, q, e) ↦ worker_stays i _ (rw e refl) (rw e refl)
  ]
  Turn-up r (net_down {e} i lt m) =
      worker_stays i (record (s.worker i) { s_ctx = e.conn }) refl refl
  Turn-up r (net_up {e} i lt m) =
      at_index
        (λ b k. Event rdma_write (up_channel s k) [] [] (record (up_channel s k) {
          ends = record {
            client = (if b then record (s.worker i) { c_ctx = e.client } else s.worker k).c_ctx;
            conn = if b then e.conn else s.ps.s_ctx k;
            traffic = if b then e.traffic else s.up k;
          };
          sent = (if b then record (s.worker i) { c_ctx = e.client } else s.worker k).to_send_age;
        }))
        i j (moves m) (λ k. stays)
