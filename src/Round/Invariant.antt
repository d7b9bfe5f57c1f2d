-- ===== src/Round/Invariant.antt =====
-- What every interleaving keeps: one message is under way on each link, and the counters of a worker's
-- round are in order.
use stellar_bench.Base.{ℕ, ◌+◌, ◌≤◌, ◌<◌, ◌≡◌, refl, true, false, arith, ◌==◌, Bool-cases, inl, inr}
use stellar_bench.Context.{update}
use stellar_bench.Ps.Guards.{can_merge-taken, can_send_iff}
use stellar_bench.Worker.Guards.{can_compute_iff, can_send_iff as worker_can_send_iff}
use stellar_bench.Round.{
  ClientPc, spinning, posted, ServerPc, idle, waiting, Link, fill, Move, receive, post, clear,
  arrive, answer, take, Pair, System, Step, merge, send, move_down, compute, reply, move_up, fresh,
  init, Reach, start, next,
}

-- 1 while the poll thread holds the right to write.
abbrev pub holds : ClientPc → ℕ
holds spinning = 1
holds _ = 0

abbrev pub answers : ServerPc → ℕ
answers waiting = 1
answers idle = 0

-- Writes that have been posted.
abbrev pub writes : Link → ℕ
writes l = elim l.client [ posted ↦ l.write_counter + 1 | _ ↦ l.write_counter ]

-- 1 while `can_send` stands for a message that has not been posted.
abbrev pub raised : Link → ℕ
raised l = elim l.can_send [ true ↦ elim l.client [ posted ↦ 0 | _ ↦ 1 ] | false ↦ 0 ]

pub record LinkInv (l : Link) : Type 0 where
  pub one : l.ready + holds l.client + l.in_flight + answers l.server ≡ 1
  pub arrived : l.recv_counter + l.in_flight ≡ writes l
  pub sent : writes l + raised l ≤ l.to_send
  pub in_order : l.taken ≤ l.recv_counter
  pub allowed : 0 < l.taken → l.can_recv ≡ true
  pub counted : answers l.server ≤ l.recv_counter

pub Move-LinkInv : {l l' : Link} → Move l l' → LinkInv l → LinkInv l'
Move-LinkInv (receive e h) v = ground arith
Move-LinkInv (post e h) v = ground arith
Move-LinkInv (clear e) v = ground arith
Move-LinkInv (arrive e h) v = ground arith
Move-LinkInv (answer e h) v = ground arith
Move-LinkInv (take h) v = ground arith

-- A filled buffer keeps the link in order.
pub fill-LinkInv : {l : Link} → LinkInv l → LinkInv (fill l)
fill-LinkInv v = ground arith

-- A worker's counters are in order: it computes what it has received, and replies what it has
-- computed, and the server is at most one iteration ahead of the replies that it took.
pub record PairInv (completed : ℕ) (p : Pair) : Type 0 where
  pub down : LinkInv p.down
  pub up : LinkInv p.up
  pub merged : completed ≤ p.up.taken + 1
  pub issued : p.down.to_send ≤ completed
  pub followed : p.computed ≤ p.down.taken
  pub replied : p.up.to_send ≤ p.computed

abbrev pub Inv : ℕ → System → Type 0
Inv n s = (i : ℕ) → i < n → PairInv s.completed (s.pair i)

fresh-LinkInv : LinkInv fresh
fresh-LinkInv = record {
  one = refl;
  arrived = refl;
  sent = omega arith;
  in_order = omega arith;
  allowed = λ h. absurd (omega arith);
  counted = omega arith;
}

init-Inv : (n : ℕ) → Inv n init
init-Inv n i lt = record {
  down = fresh-LinkInv;
  up = fresh-LinkInv;
  merged = omega arith;
  issued = omega arith;
  followed = omega arith;
  replied = omega arith;
}

-- One pair changes, the others stay.
update-PairInv :
    (c : ℕ) (f : ℕ → Pair) (i j : ℕ) (p : Pair)
    → PairInv c p
    → PairInv c (f j)
    → PairInv c (update f i p j)
update-PairInv c f i j p new old = elim (Bool-cases (i == j)) [
  | inl same ↦ rw same new
  | inr other ↦ rw other old
]

-- A link's own moves leave `to_send` alone and never lower `taken`.
pub Move-counters : {l l' : Link} → Move l l' → (l'.to_send ≡ l.to_send) × (l.taken ≤ l'.taken)
Move-counters (receive e h) = ground arith
Move-counters (post e h) = ground arith
Move-counters (clear e) = ground arith
Move-counters (arrive e h) = ground arith
Move-counters (answer e h) = ground arith
Move-counters (take h) = ground arith

pub Step-Inv : {n : ℕ} {s t : System} → Step n s t → Inv n s → Inv n t
Step-Inv {n} {s} (merge g) v j lt =
    let w = v j lt in
    let arrived = (can_merge-taken s.completed (λ i. (s.pair i).up.taken) n).0 g j lt in
    record {
      down = w.down;
      up = w.up;
      merged = omega arith;
      issued = omega (arith, w.issued);
      followed = w.followed;
      replied = w.replied;
    }
Step-Inv {n} {s} (send i i_lt g) v j lt =
    let w = v i i_lt in
    let below = (can_send_iff (s.pair i).down.to_send s.completed).0 g in
    update-PairInv s.completed s.pair i j _
      (record {
        down = fill-LinkInv w.down;
        up = w.up;
        merged = w.merged;
        issued = omega arith;
        followed = w.followed;
        replied = w.replied;
      })
      (v j lt)
Step-Inv {n} {s} (move_down i i_lt m) v j lt =
    let w = v i i_lt in
    update-PairInv s.completed s.pair i j _
      (record {
        down = Move-LinkInv m w.down;
        up = w.up;
        merged = w.merged;
        issued = omega (arith, w.issued, Move-counters m);
        followed = omega (arith, w.followed, Move-counters m);
        replied = w.replied;
      })
      (v j lt)
Step-Inv {n} {s} (compute i i_lt g) v j lt =
    let w = v i i_lt in
    let below = (can_compute_iff (s.pair i).computed (s.pair i).down.taken).0 g in
    update-PairInv s.completed s.pair i j _
      (record {
        down = w.down;
        up = w.up;
        merged = w.merged;
        issued = w.issued;
        followed = omega arith;
        replied = omega (arith, w.replied);
      })
      (v j lt)
Step-Inv {n} {s} (reply i i_lt g) v j lt =
    let w = v i i_lt in
    let behind = (worker_can_send_iff (s.pair i).up.to_send (s.pair i).computed).0 g in
    update-PairInv s.completed s.pair i j _
      (record {
        down = w.down;
        up = fill-LinkInv w.up;
        merged = w.merged;
        issued = w.issued;
        followed = w.followed;
        replied = omega arith;
      })
      (v j lt)
Step-Inv {n} {s} (move_up i i_lt m) v j lt =
    let w = v i i_lt in
    update-PairInv s.completed s.pair i j _
      (record {
        down = w.down;
        up = Move-LinkInv m w.up;
        merged = omega (arith, w.merged, Move-counters m);
        issued = w.issued;
        followed = w.followed;
        replied = omega (arith, w.replied, Move-counters m);
      })
      (v j lt)

pub Reach-Inv : {n : ℕ} {s : System} → Reach n s → Inv n s
Reach-Inv {n} start = init-Inv n
Reach-Inv (next r st) = Step-Inv st (Reach-Inv r)
