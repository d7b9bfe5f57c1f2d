-- ===== src/Cluster/WorkerTurns.antt =====
-- The rounds of the threads of worker.cpp, as the round protocol has them.
use stellar_bench.Base.{
  ℕ, ◌+◌, ◌<◌, ◌≡◌, refl, ◌∙◌, true, inl, inr, pos, ◌+ℤ◌, ◌==◌, Bool-cases, some,
}
use stellar_bench.Context.{update}
use stellar_bench.Worker
use stellar_bench.Worker.{Worker}
use stellar_bench.Worker.Descent.{Doubles}
use stellar_bench.Block.{Region}
use stellar_bench.Round.{fill, System, move_down, compute, reply, take}
use stellar_bench.Cluster.{Cluster, down_ends, up_ends, set_worker}
use stellar_bench.Cluster.Rounds.{
  worker_main_round-cases, worker_send_round-cases, worker_recv_round-cases, filled,
}
use stellar_bench.Cluster.Abstraction.{view, Refines}
use stellar_bench.Cluster.Pairs.{
  self, next-minus_1, next-pos, pos-minus_1, fill-LinkOf, take-LinkOf, got-lt, Follows, one_pair,
  ==-eq,
}

module _ (n : ℕ) (s : Cluster) (a : System) (v : Refines n s a) where
  -- A round that only sleeps.
  unchanged : (i : ℕ) → Refines n (set_worker s i (s.worker i)) a
  unchanged i = record {
    merging = v.merging;
    merged = v.merged;
    workers = v.workers;
    pairs = λ j lt. elim (Bool-cases (i == j)) [
      | inl same ↦ rw (same, ==-eq i j same) (v.pairs j lt)
      | inr other ↦ rw other (v.pairs j lt)
    ];
  }

  pub worker_main-Follows :
      {w' : Worker} (i : ℕ) (d : Doubles) (random : ℕ → ℕ)
      → i < n
      → Worker.main_round d random (s.worker i) ≡ some w'
      → Follows n a (set_worker s i w')
  worker_main-Follows {w'} i d random lt h =
      elim (worker_main_round-cases d random (s.worker i) h) [
        | inl same ↦ inl (rw same (unchanged i))
        | inr (g, p, q, e) ↦
            let w = v.pairs i lt in
            let worker = record (s.worker i) {
              p_block = p;
              q_block = q;
              completed_iter = (s.worker i).iter_t;
              iter_t = (s.worker i).iter_t +ℤ pos 1;
            } in
            let p' = record (a.pair i) { computed = (a.pair i).computed + 1 } in
            inr (
              record a { pair = update a.pair i p' },
              compute i lt (rw (← w.computing, ← w.taken_down) g),
              rw e (
                  one_pair n s a v (set_worker s i worker) i p'
                    (record (view s i) { worker = worker }) refl refl refl
                    (λ j other. rw other refl) (rw (self i) refl)
                    (record {
                      sent_down = w.sent_down;
                      taken_up = w.taken_up;
                      computing = rw w.computing (next-pos (a.pair i).computed);
                      computed = w.computing ∙ pos-minus_1 (a.pair i).computed;
                      taken_down = w.taken_down;
                      sent_up = w.sent_up;
                      down = w.down;
                      up = w.up;
                    })),
            )
      ]

  pub worker_send-Follows :
      {w' : Worker} (i : ℕ)
      → i < n
      → Worker.send_round (s.worker i) ≡ some w'
      → Follows n a (set_worker s i w')
  worker_send-Follows {w'} i lt h = elim (worker_send_round-cases (s.worker i) h) [
    | inl (waits, same) ↦ inl (rw same (unchanged i))
    | inr (g, buf, len, room, size, e) ↦
        let w = v.pairs i lt in
        let prepared = (s.worker i).c_ctx.buf_prepared in
        let ctx = filled (s.worker i).c_ctx prepared buf len in
        let worker = record (s.worker i) {
          c_ctx = ctx;
          to_send_age = (s.worker i).to_send_age +ℤ pos 1;
        } in
        let p' = record (a.pair i) { up = fill (a.pair i).up } in
        inr (
          record a { pair = update a.pair i p' },
          reply i lt (rw (← w.sent_up, ← w.computed) g),
          rw e (
              one_pair n s a v (set_worker s i worker) i p'
                (record (view s i) { worker = worker; up = record (up_ends s i) { client = ctx } })
                refl refl refl (λ j other. rw other refl) (rw (self i) refl)
                (record {
                  sent_down = w.sent_down;
                  taken_up = w.taken_up;
                  computing = w.computing;
                  computed = w.computed;
                  taken_down = w.taken_down;
                  sent_up = rw w.sent_up (next-pos (a.pair i).up.to_send);
                  down = w.down;
                  up = fill-LinkOf (up_ends s i) (a.pair i).up prepared buf len w.up;
                })),
        )
  ]

  pub worker_recv-Follows :
      {w' : Worker} (i : ℕ) (alloc : ℕ → Region)
      → i < n
      → Worker.recv_round alloc (s.worker i) ≡ some w'
      → Follows n a (set_worker s i w')
  worker_recv-Follows {w'} i alloc lt h = elim (worker_recv_round-cases alloc (s.worker i) h) [
    | inl (waits, same) ↦ inl (rw same (unchanged i))
    | inr (g, p, q, e) ↦
        let w = v.pairs i lt in
        let l = (a.pair i).down in
        let ctx = record ((s.worker i).s_ctx) { can_recv = true } in
        let worker = record (s.worker i) {
          p_block = p;
          q_block = q;
          recved_age = (s.worker i).recved_age +ℤ pos 1;
          s_ctx = ctx;
        } in
        let p' = record (a.pair i) { down = record l { taken = l.taken + 1; can_recv = true } } in
        inr (
          record a { pair = update a.pair i p' },
          move_down i lt (
              take (
                rw w.down.recv_counter
                  (got-lt (s.worker i).s_ctx.buf_recv_counter l.taken (rw (← w.taken_down) g)))),
          rw e (
              one_pair n s a v (set_worker s i worker) i p'
                (record (view s i) {
                  worker = worker;
                  down = record (down_ends s i) { conn = ctx };
                })
                refl refl refl (λ j other. rw other refl) (rw (self i) refl)
                (record {
                  sent_down = w.sent_down;
                  taken_up = w.taken_up;
                  computing = w.computing;
                  computed = w.computed;
                  taken_down = rw w.taken_down (next-minus_1 l.taken);
                  sent_up = w.sent_up;
                  down = take-LinkOf (down_ends s i) l ctx refl refl w.down;
                  up = w.up;
                })),
        )
  ]
