-- ===== src/Cluster/Refinement.antt =====
-- Runs of the program of Cluster.antt: the moves on a connection, all turns, the states from which a run
-- begins, and the round protocol (Round.antt) that a run stands for.
use mathlib.Core.Path.{subst, fun_ext}
use stellar_bench.Base.{
  ℕ, ◌<◌, ◌≡◌, refl, sym, false, List, [], ◌∷◌, inl, inr, pos, minus_one, ◌==◌, Bool-cases,
}
use stellar_bench.Context.{Message, update}
use stellar_bench.Round
use stellar_bench.Round.{
  polling, idle, Link, Pair, System, Reach, start, next, Step, move_down, move_up, init,
}
use stellar_bench.Cluster.{
  Ends, Net, Cluster, Turn, ps_main, ps_send, ps_recv, worker_main, worker_send, worker_recv,
  net_down, net_up, down_ends, up_ends, set_down, set_up,
}
use stellar_bench.Cluster.Abstraction.{LinkOf, view, Refines, Net-LinkFollows}
use stellar_bench.Cluster.Pairs.{self, Follows, one_pair, ==-eq}
use stellar_bench.Cluster.ServerTurns.{ps_main-Follows, ps_send-Follows, ps_recv-Follows}
use stellar_bench.Cluster.WorkerTurns.{
  worker_main-Follows, worker_send-Follows, worker_recv-Follows,
}

update_id : {A : Type 0} (f : ℕ → A) (i : ℕ) → update f i (f i) ≡ f
update_id f i =
    fun_ext λ j. elim (Bool-cases (i == j)) [
      | inl same ↦ rw (same, ==-eq i j same)
      | inr other ↦ rw other
    ]

module _ (rdma_write : List ℕ → ℕ → List ℕ → List ℕ) (n : ℕ) where
  same_system :
      (s : Cluster) (a : System) (i : ℕ) (p : Pair)
      → p ≡ a.pair i
      → Refines n s (record a { pair = update a.pair i p })
      → Refines n s a
  same_system s a i p e r =
      subst (λ f. Refines n s (record a { pair = f })) (rw e (update_id a.pair i)) r

  net_down-Follows :
      {e : Ends} (s : Cluster) (a : System) (i : ℕ)
      → Refines n s a
      → i < n
      → Net rdma_write (down_ends s i) e
      → Follows n a (set_down s i e)
  net_down-Follows {e} s a i v lt m =
      let w = v.pairs i lt in
      let (l', linked, sent, taken, how) = Net-LinkFollows (a.pair i).down m w.down in
      let p' : Pair = record (a.pair i) { down = l' } in
      let after =
        one_pair n s a v (set_down s i e) i p'
          (record (view s i) { worker = record (s.worker i) { s_ctx = e.conn }; down = e }) refl
          refl refl (λ j other. rw other refl) (rw (self i) refl)
          (record {
            sent_down = rw sent w.sent_down;
            taken_up = w.taken_up;
            computing = w.computing;
            computed = w.computed;
            taken_down = rw taken w.taken_down;
            sent_up = w.sent_up;
            down = linked;
            up = w.up;
          }) in
      elim how [
        | inl same ↦ inl (same_system (set_down s i e) a i p' (rw same refl) after)
        | inr move ↦ inr (record a { pair = update a.pair i p' }, move_down i lt move, after)
      ]

  net_up-Follows :
      {e : Ends} (s : Cluster) (a : System) (i : ℕ)
      → Refines n s a
      → i < n
      → Net rdma_write (up_ends s i) e
      → Follows n a (set_up s i e)
  net_up-Follows {e} s a i v lt m =
      let w = v.pairs i lt in
      let (l', linked, sent, taken, how) = Net-LinkFollows (a.pair i).up m w.up in
      let p' : Pair = record (a.pair i) { up = l' } in
      let after =
        one_pair n s a v (set_up s i e) i p'
          (record (view s i) { worker = record (s.worker i) { c_ctx = e.client }; up = e }) refl
          refl refl (λ j other. rw other refl) (rw (self i) refl)
          (record {
            sent_down = w.sent_down;
            taken_up = rw taken w.taken_up;
            computing = w.computing;
            computed = w.computed;
            taken_down = w.taken_down;
            sent_up = rw sent w.sent_up;
            down = w.down;
            up = linked;
          }) in
      elim how [
        | inl same ↦ inl (same_system (set_up s i e) a i p' (rw same refl) after)
        | inr move ↦ inr (record a { pair = update a.pair i p' }, move_up i lt move, after)
      ]

  pub Turn-Follows :
      {s s' : Cluster} (a : System) → Refines n s a → Turn rdma_write n s s' → Follows n a s'
  Turn-Follows {s} a v (ps_main h) = ps_main-Follows n s a v h
  Turn-Follows {s} a v (ps_send i lt h) = ps_send-Follows n s a v i lt h
  Turn-Follows {s} a v (ps_recv i lt h) = ps_recv-Follows n s a v i lt h
  Turn-Follows {s} a v (worker_main i d random lt h) = worker_main-Follows n s a v i d random lt h
  Turn-Follows {s} a v (worker_send i lt h) = worker_send-Follows n s a v i lt h
  Turn-Follows {s} a v (worker_recv i alloc lt h) = worker_recv-Follows n s a v i alloc lt h
  Turn-Follows {s} a v (net_down i lt m) = net_down-Follows s a i v lt m
  Turn-Follows {s} a v (net_up i lt m) = net_up-Follows s a i v lt m

-- A connection that is up, with the announcement of the receiver's buffer on its way.
pub record IsFresh (e : Ends) : Type 0 where
  pub nothing_to_send : e.client.can_send ≡ false
  pub none_written : e.client.buf_write_counter ≡ 0
  pub none_received : e.conn.buf_recv_counter ≡ 0
  pub not_allowed : e.conn.can_recv ≡ false
  pub polls : e.traffic.client ≡ polling
  pub none_posted : e.traffic.unwritten ≡ []
  pub none_landed : e.traffic.landed ≡ []
  pub idles : e.traffic.server ≡ idle
  pub announced : (m : Message) × (e.traffic.ready ≡ m ∷ [])

-- The counters as the declarations and the two `main`s leave them.
pub record IsStart (n : ℕ) (s : Cluster) : Type 0 where
  pub iter_t : s.ps.iter_t ≡ pos 0
  pub completed_iter : s.ps.completed_iter ≡ minus_one
  pub worker_num : s.ps.worker_num ≡ n
  pub to_send_iter : (i : ℕ) → i < n → s.ps.to_send_iter i ≡ pos 0
  pub recved_iter : (i : ℕ) → i < n → s.ps.recved_iter i ≡ minus_one
  pub computing : (i : ℕ) → i < n → (s.worker i).iter_t ≡ pos 0
  pub computed : (i : ℕ) → i < n → (s.worker i).completed_iter ≡ minus_one
  pub recved_age : (i : ℕ) → i < n → (s.worker i).recved_age ≡ minus_one
  pub to_send_age : (i : ℕ) → i < n → (s.worker i).to_send_age ≡ pos 0
  pub down : (i : ℕ) → i < n → IsFresh (down_ends s i)
  pub up : (i : ℕ) → i < n → IsFresh (up_ends s i)

IsFresh-LinkOf : (e : Ends) → IsFresh e → LinkOf e Round.fresh
IsFresh-LinkOf e f = record {
  can_send = sym f.nothing_to_send;
  client = sym f.polls;
  write_counter = sym f.none_written;
  in_flight = rw (f.none_posted, f.none_landed) refl;
  server = sym f.idles;
  recv_counter = sym f.none_received;
  can_recv = sym f.not_allowed;
  ready = rw f.announced.1 refl;
}

IsStart-Refines : (n : ℕ) (s : Cluster) → IsStart n s → Refines n s init
IsStart-Refines n s h = record {
  merging = h.iter_t;
  merged = h.completed_iter;
  workers = h.worker_num;
  pairs = λ i lt. record {
    sent_down = h.to_send_iter i lt;
    taken_up = h.recved_iter i lt;
    computing = h.computing i lt;
    computed = h.computed i lt;
    taken_down = h.recved_age i lt;
    sent_up = h.to_send_age i lt;
    down = IsFresh-LinkOf (down_ends s i) (h.down i lt);
    up = IsFresh-LinkOf (up_ends s i) (h.up i lt);
  };
}

-- The states that the program reaches, whatever its threads do when.
pub data Runs (rdma_write : List ℕ → ℕ → List ℕ → List ℕ) (n : ℕ) : Cluster → Type 0 where
  started : {s : Cluster} → IsStart n s → Runs rdma_write n s
  follow : {s s' : Cluster} → Runs rdma_write n s → Turn rdma_write n s s' → Runs rdma_write n s'

-- Every state that the program reaches stands for a reachable state of the round protocol.
pub refinement :
    (rdma_write : List ℕ → ℕ → List ℕ → List ℕ) (n : ℕ) (s : Cluster)
    → Runs rdma_write n s
    → (a : System) × Reach n a × Refines n s a
refinement rdma_write n s (started h) = (init, start, IsStart-Refines n s h)
refinement rdma_write n s (follow {s = t} r m) =
    let (a, reached, v) = refinement rdma_write n t r in
    elim (Turn-Follows rdma_write n a v m) [
      | inl stays ↦ (a, reached, stays)
      | inr (a', st, v') ↦ (a', next reached st, v')
    ]
