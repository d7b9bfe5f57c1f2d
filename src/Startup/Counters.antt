-- ===== src/Startup/Counters.antt =====
-- The counters and the flags after the start of the two programs.
use stellar_bench.Base.{
  ℕ, zero, suc, ◌+◌, ◌≡◌, ◌≤◌, ◌<◌, ◌⊎◌, inl, inr, refl, ap, ◌∙◌, true, false, some, [], ◌∷◌, ltb,
  pos, minus_one, arith,
}
use stellar_bench.Block.{capacity}
use stellar_bench.Context.{
  ClientContext, ConnContext, Message, update, init_client, init_conn, init_context,
}
use stellar_bench.Ps.{Ps}
use stellar_bench.Worker.{Worker}
use stellar_bench.Round.{polling, idle}
use stellar_bench.Cluster.{Traffic}
use stellar_bench.Cluster.Refinement.{IsStart}
use stellar_bench.Startup.{reset_workers, ps_start, worker_start}
use stellar_bench.Startup.Wiring.{update_at, update_other, first_or_later}

init_context-below :
    (left i : ℕ) (c : ℕ → ClientContext) (k : ℕ → ConnContext) (j : ℕ)
    → j < i
    → ((init_context left i c k).0 j ≡ c j) × ((init_context left i c k).1 j ≡ k j)
unfolding init_context
init_context-below zero i c k j h = (refl, refl)
init_context-below (suc left) i c k j h =
    let (c_kept, k_kept) =
      init_context-below left (i + 1) (update c i (init_client (c i)))
        (update k i (init_conn (k i))) j (omega arith) in
    (
      c_kept ∙ update_other c i j (init_client (c i)) (λ e. omega arith),
      k_kept ∙ update_other k i j (init_conn (k i)) (λ e. omega arith),
    )

-- The loop of `InitContext` initialises each of its entries.
pub init_context-at :
    (left i : ℕ) (c : ℕ → ClientContext) (k : ℕ → ConnContext) (j : ℕ)
    → i ≤ j
    → j < i + left
    → ((init_context left i c k).0 j ≡ init_client (c j))
      × ((init_context left i c k).1 j ≡ init_conn (k j))
unfolding init_context
init_context-at zero i c k j low high = absurd (omega arith)
init_context-at (suc left) i c k j low high =
    let c' = update c i (init_client (c i)) in
    let k' = update k i (init_conn (k i)) in
    elim (first_or_later i j low) [
      | inl first ↦
          let (c_kept, k_kept) = init_context-below left (i + 1) c' k' j (omega arith) in
          (
            c_kept ∙ update_at c i j (init_client (c i)) first ∙ ap (λ x. init_client (c x)) first,
            k_kept ∙ update_at k i j (init_conn (k i)) first ∙ ap (λ x. init_conn (k x)) first,
          )
      | inr later ↦
          let (c_set, k_set) = init_context-at left (i + 1) c' k' j later (omega arith) in
          (
            c_set ∙ ap init_client (update_other c i j (init_client (c i)) (λ e. omega arith)),
            k_set ∙ ap init_conn (update_other k i j (init_conn (k i)) (λ e. omega arith)),
          )
    ]

-- The counters of one worker at the server.
record IsReset (s : Ps) (j : ℕ) : Type 0 where
  recved : s.recved_iter j ≡ minus_one
  to_send : s.to_send_iter j ≡ pos 0
  p_index : s.worker_pidx j ≡ j
  q_index : s.worker_qidx j ≡ j

-- What the loop leaves as it is.
record IsKept (s t : Ps) : Type 0 where
  c_ctx : t.c_ctx ≡ s.c_ctx
  s_ctx : t.s_ctx ≡ s.s_ctx
  worker_num : t.worker_num ≡ s.worker_num
  iter_t : t.iter_t ≡ s.iter_t
  completed_iter : t.completed_iter ≡ s.completed_iter

abbrev reset_one : ℕ → Ps → Ps
reset_one i s = record s {
  recved_iter = update s.recved_iter i minus_one;
  to_send_iter = update s.to_send_iter i (pos 0);
  worker_pidx = update s.worker_pidx i i;
  worker_qidx = update s.worker_qidx i i;
}

pub before_or_at : (i j : ℕ) → j < i + 1 → (j < i) ⊎ (i ≡ j)
before_or_at i j h = ground arith

within : (i : ℕ) → i < capacity → ltb i capacity ≡ true
within i h = ground arith

-- Below `i` nothing changes, from `i` on each entry is reset.
reset_workers-total :
    (left i : ℕ) (s : Ps)
    → i + left ≤ capacity
    → ((j : ℕ) → j < i → IsReset s j)
    → (t : Ps) × (reset_workers left i s ≡ some t)
      × ((j : ℕ) → j < i + left → IsReset t j)
      × IsKept s t
unfolding reset_workers
reset_workers-total zero i s room before = (
  s,
  refl,
  λ j lt. before j (omega arith),
  record { c_ctx = refl; s_ctx = refl; worker_num = refl; iter_t = refl; completed_iter = refl },
)
reset_workers-total (suc left) i s room before =
    let (t, e, all, kept) =
      reset_workers-total left (i + 1) (reset_one i s) (omega arith) (reset_up_to i s before) in
    (
      t,
      rw (within i (omega arith)) e,
      λ j lt. all j (omega arith),
      record {
        c_ctx = kept.c_ctx;
        s_ctx = kept.s_ctx;
        worker_num = kept.worker_num;
        iter_t = kept.iter_t;
        completed_iter = kept.completed_iter;
      },
    )
  where
    reset_up_to :
        (i : ℕ) (s : Ps)
        → ((j : ℕ) → j < i → IsReset s j)
        → (j : ℕ) → j < i + 1
        → IsReset (reset_one i s) j
    reset_up_to i s before j lt = elim (before_or_at i j lt) [
      | inl lower ↦
          let v = before j lower in
          record {
            recved = update_other s.recved_iter i j minus_one (λ e. omega arith) ∙ v.recved;
            to_send = update_other s.to_send_iter i j (pos 0) (λ e. omega arith) ∙ v.to_send;
            p_index = update_other s.worker_pidx i j i (λ e. omega arith) ∙ v.p_index;
            q_index = update_other s.worker_qidx i j i (λ e. omega arith) ∙ v.q_index;
          }
      | inr here ↦ record {
        recved = update_at s.recved_iter i j minus_one here;
        to_send = update_at s.to_send_iter i j (pos 0) here;
        p_index = update_at s.worker_pidx i j i here ∙ here;
        q_index = update_at s.worker_qidx i j i here ∙ here;
      }
    ]

-- What the declarations give the globals: the static ones that they do not name are zero. The buffers
-- may hold anything.
pub record IsDeclared (g : Ps) (w : ℕ → Worker) : Type 0 where
  pub iter_t : g.iter_t ≡ pos 0
  pub completed_iter : g.completed_iter ≡ minus_one
  pub can_send : (i : ℕ) → (g.c_ctx i).can_send ≡ false
  pub can_recv : (i : ℕ) → (g.s_ctx i).can_recv ≡ false
  pub recved_age : (i : ℕ) → (w i).recved_age ≡ minus_one
  pub to_send_age : (i : ℕ) → (w i).to_send_age ≡ pos 0
  pub computed : (i : ℕ) → (w i).completed_iter ≡ minus_one
  pub worker_can_send : (i : ℕ) → (w i).c_ctx.can_send ≡ false
  pub worker_can_recv : (i : ℕ) → (w i).s_ctx.can_recv ≡ false

-- Connections that are up, on which a message is on its way back.
abbrev pub announcing : Message → Traffic
announcing m = record {
  client = polling;
  unwritten = [];
  landed = [];
  server = idle;
  ready = m ∷ [];
}

-- With an argument of at most CAP workers the server's `main` comes to its loop, and with it and that
-- many workers that have come to theirs, a run of the whole program begins.
pub ps_start-IsStart :
    (n : ℕ) (g : Ps) (w : ℕ → Worker) (m : ℕ → Message)
    → n ≤ capacity
    → IsDeclared g w
    → (p : Ps) × (ps_start (some n) g ≡ some p)
      × IsStart n (record {
        ps = p;
        worker = λ i. worker_start (w i);
        down = λ i. announcing (m i);
        up = λ i. announcing (m i);
      })
      × ((i : ℕ) → i < n → (p.worker_pidx i ≡ i) × (p.worker_qidx i ≡ i))
unfolding ps_start worker_start init_client init_conn
ps_start-IsStart n g w m room d =
    let ctx = init_context capacity 0 g.c_ctx g.s_ctx in
    let (p, e, all, kept) =
      reset_workers-total n 0 (record g { c_ctx = ctx.0; s_ctx = ctx.1; worker_num = n })
        (omega arith) (λ j lt. absurd (omega arith)) in
    let c_at : (i : ℕ) → i < n → p.c_ctx i ≡ init_client (g.c_ctx i) = λ i lt.
      ap (λ f. f i) kept.c_ctx
      ∙ (init_context-at capacity 0 g.c_ctx g.s_ctx i (omega arith) (omega arith)).0 in
    let s_at : (i : ℕ) → i < n → p.s_ctx i ≡ init_conn (g.s_ctx i) = λ i lt.
      ap (λ f. f i) kept.s_ctx
      ∙ (init_context-at capacity 0 g.c_ctx g.s_ctx i (omega arith) (omega arith)).1 in
    (
      p,
      e,
      record {
        iter_t = kept.iter_t ∙ d.iter_t;
        completed_iter = kept.completed_iter ∙ d.completed_iter;
        worker_num = kept.worker_num;
        to_send_iter = λ i lt. (all i (omega arith)).to_send;
        recved_iter = λ i lt. (all i (omega arith)).recved;
        computing = λ i lt. refl;
        computed = λ i lt. d.computed i;
        recved_age = λ i lt. d.recved_age i;
        to_send_age = λ i lt. d.to_send_age i;
        down = λ i lt. record {
          nothing_to_send = ap (λ (c : ClientContext). c.can_send) (c_at i lt) ∙ d.can_send i;
          none_written = ap (λ (c : ClientContext). c.buf_write_counter) (c_at i lt);
          none_received = refl;
          not_allowed = d.worker_can_recv i;
          polls = refl;
          none_posted = refl;
          none_landed = refl;
          idles = refl;
          announced = (m i, refl);
        };
        up = λ i lt. record {
          nothing_to_send = d.worker_can_send i;
          none_written = refl;
          none_received = ap (λ (c : ConnContext). c.buf_recv_counter) (s_at i lt);
          not_allowed = ap (λ (c : ConnContext). c.can_recv) (s_at i lt) ∙ d.can_recv i;
          polls = refl;
          none_posted = refl;
          none_landed = refl;
          idles = refl;
          announced = (m i, refl);
        };
      },
      λ i lt. ((all i (omega arith)).p_index, (all i (omega arith)).q_index),
    )
