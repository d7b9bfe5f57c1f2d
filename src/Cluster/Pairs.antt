-- ===== src/Cluster/Pairs.antt =====
-- What the turns share: one worker's part of the state changes, the others stay.
use mathlib.Core.Path.{subst}
use stellar_bench.Base.{
  ℕ, ◌+◌, ◌<◌, ◌≡◌, refl, sym, ◌∙◌, Bool, true, false, List, ◌⊎◌, inl, inr, pos, minus_one, ◌+ℤ◌,
  ltb_ℤ, leb_ℤ, ◌==◌, Bool-cases, arith,
}
use stellar_bench.Context.{ConnContext, update}
use stellar_bench.Round.{Link, fill, Pair, System, Step, minus_1}
use stellar_bench.Cluster.{Ends, Cluster}
use stellar_bench.Cluster.Rounds.{filled}
use stellar_bench.Cluster.Abstraction.{LinkOf, View, view, PairOf, Refines}

pub ==-eq : (i j : ℕ) → (i == j) ≡ true → i ≡ j
==-eq i j h = ground arith

pub self : (i : ℕ) → (i == i) ≡ true
self i = ground arith

pub next-minus_1 : (k : ℕ) → (minus_1 k +ℤ pos 1) ≡ minus_1 (k + 1)
next-minus_1 k = ground arith

pub next-pos : (k : ℕ) → (pos k +ℤ pos 1) ≡ pos (k + 1)
next-pos k = ground arith

pub pos-minus_1 : (k : ℕ) → pos k ≡ minus_1 (k + 1)
pos-minus_1 k = ground arith

-- The protocol follows: it stays, or takes a step.
abbrev pub Follows : ℕ → System → Cluster → Type 0
Follows n a s' = Refines n s' a ⊎ ((a' : System) × Step n a a' × Refines n s' a')

-- One worker's part changes, the others stay.
pairs_updated :
    (n : ℕ) (s s' : Cluster) (a : System) (i : ℕ) (p : Pair) (v : View)
    → ((j : ℕ) → (i == j) ≡ false → view s' j ≡ view s j)
    → view s' i ≡ v
    → PairOf v p
    → ((j : ℕ) → j < n → PairOf (view s j) (a.pair j))
    → (j : ℕ) → j < n
    → PairOf (view s' j) (update a.pair i p j)
pairs_updated n s s' a i p v others here new old j lt = elim (Bool-cases (i == j)) [
  | inl same ↦
      rw same (
        subst (λ k. PairOf (view s' k) p) (==-eq i j same) (subst (λ x. PairOf x p) (sym here) new))
  | inr other ↦ rw other (subst (λ x. PairOf x (a.pair j)) (sym (others j other)) (old j lt))
]

-- The fields of `LinkOf` when only `can_send` rises, and when only `can_recv` does.
pub fill-LinkOf :
    (e : Ends) (l : Link) (prepared : Bool) (buf : List ℕ) (len : ℕ)
    → LinkOf e l
    → LinkOf (record e { client = filled e.client prepared buf len }) (fill l)
fill-LinkOf e l prepared buf len v = record {
  can_send = refl;
  client = v.client;
  write_counter = v.write_counter;
  in_flight = v.in_flight;
  server = v.server;
  recv_counter = v.recv_counter;
  can_recv = v.can_recv;
  ready = v.ready;
}

pub take-LinkOf :
    (e : Ends) (l : Link) (conn : ConnContext)
    → conn.buf_recv_counter ≡ e.conn.buf_recv_counter
    → conn.can_recv ≡ true
    → LinkOf e l
    → LinkOf (record e { conn = conn }) (record l { taken = l.taken + 1; can_recv = true })
take-LinkOf e l conn same up v = record {
  can_send = v.can_send;
  client = v.client;
  write_counter = v.write_counter;
  in_flight = v.in_flight;
  server = v.server;
  recv_counter = v.recv_counter ∙ sym same;
  can_recv = sym up;
  ready = v.ready;
}

-- The guards of the receive threads.
pub took-lt : (c t : ℕ) → ltb_ℤ (pos c +ℤ minus_one) (minus_1 t +ℤ pos 1) ≡ false → t < c
took-lt c t h = ground arith

pub got-lt : (c t : ℕ) → leb_ℤ (pos c) (minus_1 t +ℤ pos 1) ≡ false → t < c
got-lt c t h = ground arith

module _ (n : ℕ) (s : Cluster) (a : System) (v : Refines n s a) where
  -- Only what concerns worker `i` changes.
  pub one_pair :
      (s' : Cluster) (i : ℕ) (p : Pair) (x : View)
      → s'.ps.iter_t ≡ s.ps.iter_t
      → s'.ps.completed_iter ≡ s.ps.completed_iter
      → s'.ps.worker_num ≡ s.ps.worker_num
      → ((j : ℕ) → (i == j) ≡ false → view s' j ≡ view s j)
      → view s' i ≡ x
      → PairOf x p
      → Refines n s' (record a { pair = update a.pair i p })
  one_pair s' i p x same_iter same_completed same_num others here new = record {
    merging = same_iter ∙ v.merging;
    merged = same_completed ∙ v.merged;
    workers = same_num ∙ v.workers;
    pairs = pairs_updated n s s' a i p x others here new v.pairs;
  }
