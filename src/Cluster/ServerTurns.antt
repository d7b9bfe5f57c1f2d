-- ===== src/Cluster/ServerTurns.antt =====
-- The rounds of the threads of ps.cpp, as the round protocol has them.
use mathlib.Core.Path.{subst}
use stellar_bench.Base.{ℕ, ◌+◌, ◌<◌, ◌≡◌, refl, ◌∙◌, true, false, inl, inr, pos, ◌+ℤ◌, ◌≤ℤ◌, some}
use stellar_bench.Context.{update}
use stellar_bench.Ps
use stellar_bench.Ps.{Ps}
use stellar_bench.Ps.Guards.{can_merge_iff, can_merge-taken, arrived-le}
use stellar_bench.Round.{fill, System, minus_1, merge, send, move_up, take}
use stellar_bench.Cluster.{Cluster, down_ends, up_ends}
use stellar_bench.Cluster.Rounds.{main_round-cases, send_round-cases, recv_round-cases, filled}
use stellar_bench.Cluster.Abstraction.{view, Refines}
use stellar_bench.Cluster.Pairs.{
  self, next-minus_1, next-pos, pos-minus_1, fill-LinkOf, take-LinkOf, took-lt, Follows, one_pair,
}

module _ (n : ℕ) (s : Cluster) (a : System) (v : Refines n s a) where
  merges :
      Ps.can_merge s.ps.iter_t s.ps.recved_iter s.ps.worker_num ≡ true
      → Ps.can_merge (pos a.completed) (λ i. minus_1 (a.pair i).up.taken) n ≡ true
  merges g = (can_merge-taken a.completed (λ i. (a.pair i).up.taken) n).1 λ i lt.
      (arrived-le a.completed (a.pair i).up.taken).0 (
        subst (λ x. x ≤ℤ (minus_1 (a.pair i).up.taken +ℤ pos 1)) v.merging
          (subst (λ y. s.ps.iter_t ≤ℤ (y +ℤ pos 1)) (v.pairs i lt).taken_up
            ((can_merge_iff s.ps.iter_t s.ps.recved_iter s.ps.worker_num).0 g i (rw v.workers lt))))

  pub ps_main-Follows : {p : Ps} → Ps.main_round s.ps ≡ some p → Follows n a (record s { ps = p })
  ps_main-Follows {p} h = elim (main_round-cases s.ps h) [
    | inl same ↦ inl (rw same v)
    | inr (g, e) ↦ inr (
      record a { completed = a.completed + 1 },
      merge (merges g),
      rw e (record {
        merging = rw v.merging (next-pos a.completed);
        merged = v.merging ∙ pos-minus_1 a.completed;
        workers = v.workers;
        pairs = v.pairs;
      }),
    )
  ]

  pub ps_send-Follows :
      {p : Ps} (i : ℕ) → i < n → Ps.send_round i s.ps ≡ some p → Follows n a (record s { ps = p })
  ps_send-Follows {p} i lt h = elim (send_round-cases i s.ps h) [
    | inl (waits, same) ↦ inl (rw same v)
    | inr (g, ps, qs, buf, len, room, size, e) ↦
        let w = v.pairs i lt in
        let p' = record (a.pair i) { down = fill (a.pair i).down } in
        let ctx = filled (s.ps.c_ctx i) true buf len in
        let s' : Cluster = record s {
          ps = record (s.ps) {
            p_blocks = ps;
            q_blocks = qs;
            c_ctx = update s.ps.c_ctx i ctx;
            to_send_iter = update s.ps.to_send_iter i (s.ps.to_send_iter i +ℤ pos 1);
          };
        } in
        inr (
          record a { pair = update a.pair i p' },
          send i lt (rw (← w.sent_down, ← v.merged) g),
          rw e (
              one_pair n s a v s' i p'
                (record (view s i) {
                  to_send_iter = s.ps.to_send_iter i +ℤ pos 1;
                  down = record (down_ends s i) { client = ctx };
                })
                refl refl refl (λ j other. rw other refl) (rw (self i) refl)
                (record {
                  sent_down = rw w.sent_down (next-pos (a.pair i).down.to_send);
                  taken_up = w.taken_up;
                  computing = w.computing;
                  computed = w.computed;
                  taken_down = w.taken_down;
                  sent_up = w.sent_up;
                  down = fill-LinkOf (down_ends s i) (a.pair i).down true buf len w.down;
                  up = w.up;
                })),
        )
  ]

  pub ps_recv-Follows :
      {p : Ps} (i : ℕ) → i < n → Ps.recv_round i s.ps ≡ some p → Follows n a (record s { ps = p })
  ps_recv-Follows {p} i lt h = elim (recv_round-cases i s.ps h) [
    | inl (waits, same) ↦ inl (rw same v)
    | inr (g, ps, qs, e) ↦
        let w = v.pairs i lt in
        let l = (a.pair i).up in
        let l' = record l { taken = l.taken + 1; can_recv = true } in
        let p' = record (a.pair i) { up = l' } in
        let ctx = record (s.ps.s_ctx i) { buf_prepared = false; can_recv = true } in
        let s' : Cluster = record s {
          ps = record (s.ps) {
            p_blocks = ps;
            q_blocks = qs;
            recved_iter = update s.ps.recved_iter i (s.ps.recved_iter i +ℤ pos 1);
            s_ctx = update s.ps.s_ctx i ctx;
          };
        } in
        inr (
          record a { pair = update a.pair i p' },
          move_up i lt (
              take (
                rw w.up.recv_counter
                  (took-lt (s.ps.s_ctx i).buf_recv_counter l.taken (rw (← w.taken_up) g)))),
          rw e (
              one_pair n s a v s' i p'
                (record (view s i) {
                  recved_iter = s.ps.recved_iter i +ℤ pos 1;
                  up = record (up_ends s i) { conn = ctx };
                })
                refl refl refl (λ j other. rw other refl) (rw (self i) refl)
                (record {
                  sent_down = w.sent_down;
                  taken_up = rw w.taken_up (next-minus_1 l.taken);
                  computing = w.computing;
                  computed = w.computed;
                  taken_down = w.taken_down;
                  sent_up = w.sent_up;
                  down = w.down;
                  up = take-LinkOf (up_ends s i) l ctx refl refl w.up;
                })),
        )
  ]
