-- ===== src/Round.antt =====
-- The protocol of the server and its workers as a step relation: any interleaving of their threads.
-- For each worker there is a link to it and one back. On a link the sending side has `rdma_sendTd` and
-- the poll thread that runs `client_on_completion`; the receiving side has the poll thread that runs
-- `server_on_completion`, and `rdma_recvTd`. The connections are up: `MSG_MR` is on its way.
-- Counters that the source starts at -1 are kept with 1 added: `taken` is `recved_iter + 1`,
-- `completed` and `computed` are `completed_iter + 1`, which is `iter_t`.
pub mod Invariant
pub mod Safety
pub mod LostWakeup
pub mod Progress
mod Tests
use stellar_bench.Base.{ℕ, ◌+◌, ◌-◌, ◌<◌, ◌≡◌, Bool, true, false, ℤ, pos, minus_one, ◌+ℤ◌}
use stellar_bench.Context.{update}
use stellar_bench.Ps
use stellar_bench.Worker

-- Where the poll thread of the sending side stands: in `ibv_poll_cq`, in the loop on `can_send`, or
-- between the post of the write and `can_send = false`.
pub data ClientPc : Type 0 where
  polling spinning posted : ClientPc

-- Where the poll thread of the receiving side stands: in `ibv_poll_cq` or in the loop on `can_recv`.
pub data ServerPc : Type 0 where
  idle waiting : ServerPc

pub record Link : Type 0 where
  pub to_send : ℕ
  pub can_send : Bool
  pub client : ClientPc
  pub write_counter : ℕ
  pub in_flight : ℕ  -- writes with immediate data that the receiving side has not polled
  pub server : ServerPc
  pub recv_counter : ℕ
  pub can_recv : Bool
  pub taken : ℕ
  pub ready : ℕ  -- `MSG_MR` or `MSG_READY` that the sending side has not polled

-- `rdma_sendTd` fills the buffer and raises `can_send`.
abbrev pub fill : Link → Link
fill l = record l { can_send = true; to_send = l.to_send + 1 }

-- The moves of the other three threads of a link, one access to shared state at a time.
pub data Move (l : Link) : Link → Type 0 where
  receive :
      l.client ≡ ClientPc.polling
      → 0 < l.ready
      → Move l (record l { client = ClientPc.spinning; ready = l.ready - 1 })
  post :
      l.client ≡ ClientPc.spinning
      → l.can_send ≡ true
      → Move l (record l { client = ClientPc.posted; in_flight = l.in_flight + 1 })
  clear :
      l.client ≡ ClientPc.posted
      → Move l (record l {
        client = ClientPc.polling;
        can_send = false;
        write_counter = l.write_counter + 1;
      })
  arrive :
      l.server ≡ ServerPc.idle
      → 0 < l.in_flight
      → Move l (record l {
        server = ServerPc.waiting;
        in_flight = l.in_flight - 1;
        recv_counter = l.recv_counter + 1;
      })
  answer :
      l.server ≡ ServerPc.waiting
      → l.can_recv ≡ true
      → Move l (record l { server = ServerPc.idle; ready = l.ready + 1 })
  take : l.taken < l.recv_counter → Move l (record l { taken = l.taken + 1; can_recv = true })

pub record Pair : Type 0 where
  pub down : Link
  pub computed : ℕ
  pub up : Link

pub record System : Type 0 where
  pub completed : ℕ
  pub pair : ℕ → Pair

-- A counter as the source keeps it.
abbrev pub minus_1 : ℕ → ℤ
minus_1 n = pos n +ℤ minus_one

pub data Step (n : ℕ) (s : System) : System → Type 0 where
  merge :
      Ps.can_merge (pos s.completed) (λ i. minus_1 (s.pair i).up.taken) n ≡ true
      → Step n s (record s { completed = s.completed + 1 })
  send :
      (i : ℕ)
      → i < n
      → Ps.can_send (pos (s.pair i).down.to_send) (minus_1 s.completed) ≡ true
      → Step n s
          (record s { pair = update s.pair i (record (s.pair i) { down = fill (s.pair i).down }) })
  move_down :
      (i : ℕ) {l : Link}
      → i < n
      → Move (s.pair i).down l
      → Step n s (record s { pair = update s.pair i (record (s.pair i) { down = l }) })
  compute :
      (i : ℕ)
      → i < n
      → Worker.can_compute (pos (s.pair i).computed) (minus_1 (s.pair i).down.taken) ≡ true
      → Step n s (record s {
        pair = update s.pair i (record (s.pair i) { computed = (s.pair i).computed + 1 });
      })
  reply :
      (i : ℕ)
      → i < n
      → Worker.can_send (pos (s.pair i).up.to_send) (minus_1 (s.pair i).computed) ≡ true
      → Step n s
          (record s { pair = update s.pair i (record (s.pair i) { up = fill (s.pair i).up }) })
  move_up :
      (i : ℕ) {l : Link}
      → i < n
      → Move (s.pair i).up l
      → Step n s (record s { pair = update s.pair i (record (s.pair i) { up = l }) })

abbrev pub fresh : Link
fresh = record {
  to_send = 0;
  can_send = false;
  client = ClientPc.polling;
  write_counter = 0;
  in_flight = 0;
  server = ServerPc.idle;
  recv_counter = 0;
  can_recv = false;
  taken = 0;
  ready = 1;
}

abbrev pub init : System
init = record { completed = 0; pair = λ i. record { down = fresh; computed = 0; up = fresh } }

pub data Reach (n : ℕ) : System → Type 0 where
  start : Reach n init
  next : {s t : System} → Reach n s → Step n s t → Reach n t
