-- ===== src/Cluster/Abstraction.antt =====
-- Which state of the round protocol (Round.antt) a state of the program stands for.
use stellar_bench.Base.{
  ℕ, ◌+◌, ◌-◌, ◌<◌, ◌≡◌, refl, ap, ◌∙◌, false, List, ◌⊎◌, inl, inr, ℤ, pos, length, length-append,
  arith,
}
use stellar_bench.Context.{Message}
use stellar_bench.Worker.{Worker}
use stellar_bench.Round.{
  polling, spinning, posted, idle, waiting, Link, Move, receive, post, clear, arrive, answer, Pair,
  System, minus_1,
}
use stellar_bench.Cluster.{Ends, Net, Cluster, down_ends, up_ends}

-- A connection stands for a link: all but the two counters that the threads' loops keep.
pub record LinkOf (e : Ends) (l : Link) : Type 0 where
  pub can_send : l.can_send ≡ e.client.can_send
  pub client : l.client ≡ e.traffic.client
  pub write_counter : l.write_counter ≡ e.client.buf_write_counter
  pub in_flight : l.in_flight ≡ length e.traffic.unwritten + length e.traffic.landed
  pub server : l.server ≡ e.traffic.server
  pub recv_counter : l.recv_counter ≡ e.conn.buf_recv_counter
  pub can_recv : l.can_recv ≡ e.conn.can_recv
  pub ready : l.ready ≡ length e.traffic.ready

-- What the program keeps for one worker.
pub record View : Type 0 where
  pub to_send_iter : ℤ
  pub recved_iter : ℤ
  pub worker : Worker
  pub down : Ends
  pub up : Ends

abbrev pub view : Cluster → ℕ → View
view s i = record {
  to_send_iter = s.ps.to_send_iter i;
  recved_iter = s.ps.recved_iter i;
  worker = s.worker i;
  down = down_ends s i;
  up = up_ends s i;
}

pub record PairOf (v : View) (p : Pair) : Type 0 where
  pub sent_down : v.to_send_iter ≡ pos p.down.to_send
  pub taken_up : v.recved_iter ≡ minus_1 p.up.taken
  pub computing : v.worker.iter_t ≡ pos p.computed
  pub computed : v.worker.completed_iter ≡ minus_1 p.computed
  pub taken_down : v.worker.recved_age ≡ minus_1 p.down.taken
  pub sent_up : v.worker.to_send_age ≡ pos p.up.to_send
  pub down : LinkOf v.down p.down
  pub up : LinkOf v.up p.up

-- The program's state stands for the protocol's.
pub record Refines (n : ℕ) (s : Cluster) (a : System) : Type 0 where
  pub merging : s.ps.iter_t ≡ pos a.completed
  pub merged : s.ps.completed_iter ≡ minus_1 a.completed
  pub workers : s.ps.worker_num ≡ n
  pub pairs : (i : ℕ) → i < n → PairOf (view s i) (a.pair i)

-- A move on a connection is a move on its link, or changes none of what the link shows.
abbrev pub LinkFollows : Ends → Link → Type 0
LinkFollows e l =
    (l' : Link) × LinkOf e l'
    × (l'.to_send ≡ l.to_send)
    × (l'.taken ≡ l.taken)
    × ((l' ≡ l) ⊎ Move l l')

pub Net-LinkFollows :
    {rdma_write : List ℕ → ℕ → List ℕ → List ℕ} {e e' : Ends} (l : Link)
    → Net rdma_write e e'
    → LinkOf e l
    → LinkFollows e' l
Net-LinkFollows l (Net.receive m rest pc r) v = (
  record l { client = spinning; ready = l.ready - 1 },
  record {
    can_send = v.can_send;
    client = refl;
    write_counter = v.write_counter;
    in_flight = v.in_flight;
    server = v.server;
    recv_counter = v.recv_counter;
    can_recv = v.can_recv;
    ready = omega (arith, v.ready, ap (length {A = Message}) r);
  },
  refl,
  refl,
  inr (receive (v.client ∙ pc) (omega (arith, v.ready, ap (length {A = Message}) r))),
)
Net-LinkFollows l (Net.post pc up) v = (
  record l { client = posted; in_flight = l.in_flight + 1 },
  record {
    can_send = v.can_send;
    client = refl;
    write_counter = v.write_counter;
    in_flight = rw length-append (omega (arith, v.in_flight));
    server = v.server;
    recv_counter = v.recv_counter;
    can_recv = v.can_recv;
    ready = v.ready;
  },
  refl,
  refl,
  inr (post (v.client ∙ pc) (v.can_send ∙ up)),
)
Net-LinkFollows l (Net.clear pc) v = (
  record l { client = polling; can_send = false; write_counter = l.write_counter + 1 },
  record {
    can_send = refl;
    client = refl;
    write_counter = ap (λ (x : ℕ). x + 1) v.write_counter;
    in_flight = v.in_flight;
    server = v.server;
    recv_counter = v.recv_counter;
    can_recv = v.can_recv;
    ready = v.ready;
  },
  refl,
  refl,
  inr (clear (v.client ∙ pc)),
)
Net-LinkFollows l (Net.land len rest u) v = (
  l,
  record {
    can_send = v.can_send;
    client = v.client;
    write_counter = v.write_counter;
    in_flight = rw length-append (omega (arith, v.in_flight, ap (length {A = ℕ}) u));
    server = v.server;
    recv_counter = v.recv_counter;
    can_recv = v.can_recv;
    ready = v.ready;
  },
  refl,
  refl,
  inl refl,
)
Net-LinkFollows l (Net.arrive len rest pc u) v = (
  record l { server = waiting; in_flight = l.in_flight - 1; recv_counter = l.recv_counter + 1 },
  record {
    can_send = v.can_send;
    client = v.client;
    write_counter = v.write_counter;
    in_flight = omega (arith, v.in_flight, ap (length {A = ℕ}) u);
    server = refl;
    recv_counter = ap (λ (x : ℕ). x + 1) v.recv_counter;
    can_recv = v.can_recv;
    ready = v.ready;
  },
  refl,
  refl,
  inr (arrive (v.server ∙ pc) (omega (arith, v.in_flight, ap (length {A = ℕ}) u))),
)
Net-LinkFollows l (Net.answer pc up) v = (
  record l { server = idle; ready = l.ready + 1 },
  record {
    can_send = v.can_send;
    client = v.client;
    write_counter = v.write_counter;
    in_flight = v.in_flight;
    server = refl;
    recv_counter = v.recv_counter;
    can_recv = v.can_recv;
    ready = rw length-append (omega (arith, v.ready));
  },
  refl,
  refl,
  inr (answer (v.server ∙ pc) (v.can_recv ∙ up)),
)
