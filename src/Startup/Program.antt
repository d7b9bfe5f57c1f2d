-- ===== src/Startup/Program.antt =====
-- Both parts of the start together: the server's `main` up to its loop, with the blocks that it creates,
-- and the workers' up to theirs, give a state from which the program's runs begin, with blocks at their
-- places.
use stellar_bench.Base.{
  ℕ, zero, suc, ◌^◌, ◌≡◌, ◌≤◌, ◌<◌, inl, inr, refl, sym, ap, ◌∙◌, some, Bool-cases, List, length,
  get_elem?, map, ltb, some_inj, arith, ◌+◌,
}
use mathlib.Core.Path.{subst}
use stellar_bench.Block.{Block, Region, capacity}
use stellar_bench.Context.{ClientContext, Message, init_client}
use stellar_bench.Wire.RoundTrip.{IsRepresentable}
use stellar_bench.Ps.{Ps}
use stellar_bench.Worker.{Worker}
use stellar_bench.Cluster.{Cluster}
use stellar_bench.Cluster.Refinement.{IsStart}
use stellar_bench.Cluster.Laid.{IsLaid, AllRepresentable, AreIndexed, place}
use stellar_bench.Startup.{reset_workers, ps_start, worker_start}
use stellar_bench.Startup.Counters.{IsDeclared, announcing, init_context-at, ps_start-IsStart}
use stellar_bench.Startup.Blocks.{Values, create_blocks}
use stellar_bench.Startup.Places.{
  AreValues, IsMalloc, FitsInt, AreCreated, create_blocks-AreCreated,
}

-- The loop over the workers changes neither the blocks nor the contexts.
record IsBeside (s t : Ps) : Type 0 where
  p_blocks : t.p_blocks ≡ s.p_blocks
  q_blocks : t.q_blocks ≡ s.q_blocks
  c_ctx : t.c_ctx ≡ s.c_ctx

reset_workers-IsBeside :
    (left i : ℕ) (s : Ps) {t : Ps} → reset_workers left i s ≡ some t → IsBeside s t
unfolding reset_workers
reset_workers-IsBeside zero i s h =
    subst (IsBeside s) (some_inj h) (record { p_blocks = refl; q_blocks = refl; c_ctx = refl })
reset_workers-IsBeside (suc left) i s h = elim (Bool-cases (ltb i capacity)) [
  | inl inside ↦
      let v = reset_workers-IsBeside left (i + 1) _ (rw inside at h) in
      record { p_blocks = v.p_blocks; q_blocks = v.q_blocks; c_ctx = v.c_ctx }
  | inr outside ↦ let faults = rw outside at h in cc
]

-- The buffers of the server's contexts keep their sizes.
ps_start-buffer :
    (n : ℕ) (g p : Ps) (j : ℕ)
    → j < capacity
    → ps_start (some n) g ≡ some p
    → (p.c_ctx j).buffer ≡ (g.c_ctx j).buffer
unfolding ps_start init_client
ps_start-buffer n g p j lt h =
    ap (λ f. (f j).buffer) (reset_workers-IsBeside n 0 _ h).c_ctx
    ∙ ap (λ (c : ClientContext). c.buffer)
        (init_context-at capacity 0 g.c_ctx g.s_ctx j (omega arith) (omega arith)).0

-- The arrays of blocks have a slot for each of `n` workers, all blocks are representable, and the
-- buffers for sending are smaller than 2^32 bytes.
pub record AreRoomy (n : ℕ) (g : Ps) (w : ℕ → Worker) : Type 0 where
  pub p_room : n ≤ length g.p_blocks
  pub q_room : n ≤ length g.q_blocks
  pub p_patterns : AllRepresentable g.p_blocks
  pub q_patterns : AllRepresentable g.q_blocks
  pub at_workers : (j : ℕ) → IsRepresentable (w j).p_block × IsRepresentable (w j).q_block
  pub small_down : (j : ℕ) → length (g.c_ctx j).buffer < 2 ^ 32
  pub small_up : (j : ℕ) → length (w j).c_ctx.buffer < 2 ^ 32

-- With the blocks that the server's `main` creates.
abbrev pub with_blocks : Ps → List Block → List Block → Ps
with_blocks p ps qs = record p { p_blocks = ps; q_blocks = qs }

abbrev pub started_state : Ps → (ℕ → Worker) → (ℕ → Message) → Cluster
started_state p w m = record {
  ps = p;
  worker = λ i. worker_start (w i);
  down = λ i. announcing (m i);
  up = λ i. announcing (m i);
}

with_blocks-IsStart :
    (n : ℕ) (p : Ps) (w : ℕ → Worker) (m : ℕ → Message) (ps qs : List Block)
    → IsStart n (started_state p w m)
    → IsStart n (started_state (with_blocks p ps qs) w m)
with_blocks-IsStart n p w m ps qs s = record {
  iter_t = s.iter_t;
  completed_iter = s.completed_iter;
  worker_num = s.worker_num;
  to_send_iter = s.to_send_iter;
  recved_iter = s.recved_iter;
  computing = s.computing;
  computed = s.computed;
  recved_age = s.recved_age;
  to_send_age = s.to_send_age;
  down = s.down;
  up = s.up;
}

-- Blocks at the ids 0, 1, ... are so at indices that are these.
AreIndexed-at :
    (n : ℕ) (index : ℕ → ℕ) (bs : List Block)
    → ((j : ℕ) → j < n → index j ≡ j)
    → AreCreated n bs
    → AreIndexed n index (map place bs)
AreIndexed-at n index bs same v j c lt e =
    v.indexed j c lt (ap (get_elem? (map place bs)) (sym (same j lt)) ∙ e) ∙ sym (same j lt)

-- From globals as their declarations leave them (`IsDeclared`, `AreRoomy`), an argument of one up to CAP
-- workers, and matrices with `int`s for their rows and elements, when `malloc` gives objects of the size
-- asked for and the arithmetic 64-bit patterns: the start of the server comes to an end without a fault,
-- the creation of the blocks too, and with them and that many started workers, on connections that are
-- up, the whole program is in a state from which its runs begin (`IsStart`), with blocks at their places
-- (`IsLaid`).
pub program_starts :
    (v : Values) (alloc : ℕ → Region) (rows cols dim n : ℕ) (g : Ps) (w : ℕ → Worker)
    (m : ℕ → Message)
    → AreValues v
    → IsMalloc alloc
    → FitsInt rows dim n
    → FitsInt cols dim n
    → 0 < n
    → n ≤ capacity
    → IsDeclared g w
    → AreRoomy n g w
    → (p : Ps) × (ps' qs' : List Block) × (ps_start (some n) g ≡ some p)
      × (create_blocks v alloc rows cols dim n p.p_blocks p.q_blocks ≡ some (ps', qs'))
      × IsStart n (started_state (with_blocks p ps' qs') w m)
      × IsLaid n (started_state (with_blocks p ps' qs') w m)
unfolding ps_start worker_start
program_starts v alloc rows cols dim n g w m vals memory p_fits q_fits one room declared roomy =
    let (p, run, starts, index) = ps_start-IsStart n g w m room declared in
    let beside = reset_workers-IsBeside n 0 _ run in
    let (ps', qs', created, sp, sq) =
      create_blocks-AreCreated v alloc rows cols dim n p.p_blocks p.q_blocks vals memory p_fits
        q_fits one (rw beside.p_blocks roomy.p_room) (rw beside.q_blocks roomy.q_room)
        (rw beside.p_blocks roomy.p_patterns) (rw beside.q_blocks roomy.q_patterns) in
    (
      p,
      ps',
      qs',
      run,
      created,
      with_blocks-IsStart n p w m ps' qs' starts,
      record {
        p_indexed = AreIndexed-at n p.worker_pidx ps' (λ j lt. (index j lt).0) sp;
        q_indexed = AreIndexed-at n p.worker_qidx qs' (λ j lt. (index j lt).1) sq;
        p_representable = sp.representable;
        q_representable = sq.representable;
        at_workers = λ j lt. roomy.at_workers j;
        small_down = λ j lt.
            subst (λ b. length b < 2 ^ 32) (sym (ps_start-buffer n g p j (omega arith) run))
              (roomy.small_down j);
        small_up = λ j lt. roomy.small_up j;
      },
    )
