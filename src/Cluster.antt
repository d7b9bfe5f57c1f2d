-- ===== src/Cluster.antt =====
-- The whole program as it runs: the server of ps.cpp and its workers (worker.cpp), whose threads take
-- turns in any order, a round of their loop at a time, and on each connection the poll threads of
-- rdma_two_sided_client_op.cpp and rdma_two_sided_server_op.cpp, one access to shared state at a time.
-- The connections are up. `rdma_write src len dst` is the receiver's buffer after the adapter has
-- written the first `len` bytes of `src` to it.
pub mod Rounds
pub mod Abstraction
pub mod Pairs
pub mod ServerTurns
pub mod WorkerTurns
pub mod Refinement
pub mod Safety
pub mod Handlers
pub mod Channel
pub mod Underway
pub mod Fifo
pub mod Logs
pub mod Links
pub mod DownEvents
pub mod UpEvents
pub mod Delivered
pub mod Payloads
pub mod Blocks
pub mod BlocksSent
pub mod Stored
pub mod BlocksRead
pub mod BlocksDelivered
pub mod Laid
pub mod Stuck
pub mod Inputs
mod Tests
use stellar_bench.Base.{
  ℕ, ◌+◌, ◌%◌, ◌^◌, ◌<◌, ◌≡◌, Bool, true, false, List, [], ◌∷◌, ◌++◌, Option, some, ◌==◌,
  if◌then◌else◌,
}
use stellar_bench.Block.{Region}
use stellar_bench.Context.{ClientContext, ConnContext, Message, MessageId, update}
use stellar_bench.Ps
use stellar_bench.Ps.{Ps}
use stellar_bench.Worker
use stellar_bench.Worker.{Worker}
use stellar_bench.Worker.Descent.{Doubles}
use stellar_bench.Round.{ClientPc, polling, spinning, posted, ServerPc, idle, waiting}

-- What is under way on a connection: where its two poll threads stand, the lengths of the writes that
-- have been posted and those that are in the receiver's buffer but not polled, and the messages back.
pub record Traffic : Type 0 where
  pub client : ClientPc
  pub unwritten : List ℕ
  pub landed : List ℕ
  pub server : ServerPc
  pub ready : List Message

-- A connection: the sender's context, the receiver's context and what is under way.
pub record Ends : Type 0 where
  pub client : ClientContext
  pub conn : ConnContext
  pub traffic : Traffic

abbrev pub announced : MessageId → ℕ → ℕ → ℕ
announced MessageId.msg_mr new old = new
announced _ new old = old

-- The sender's context after a message back has arrived: `client_on_completion` reads the peer's
-- address and key from an `MSG_MR`.
abbrev pub received : Message → ClientContext → ClientContext
received m ctx = record ctx {
  msg = m;
  peer_addr = announced m.id m.addr ctx.peer_addr;
  peer_rkey = announced m.id m.rkey ctx.peer_rkey;
}

-- The sender's context after the poll thread has posted: the end of `client_send_next_chunk`,
-- `can_send = false` and `buf_write_counter++`.
abbrev pub cleared : ClientContext → ClientContext
cleared ctx = record ctx {
  buf_prepared = false;
  can_send = false;
  buf_write_counter = ctx.buf_write_counter + 1;
}

-- The receiver's context once the answer is set.
abbrev pub answering : ConnContext → ConnContext
answering ctx = record ctx { msg = record ctx.msg { id = MessageId.msg_ready } }

-- The receiver's context after `server_on_completion` has counted a message, up to its loop on
-- `can_recv`.
abbrev pub counted : ℕ → ConnContext → ConnContext
counted size ctx = record ctx {
  buf_len = size;
  buf_recv_counter = ctx.buf_recv_counter + 1;
  msg = if size == 0 then (answering ctx).msg else ctx.msg;
}

module _ (rdma_write : List ℕ → ℕ → List ℕ → List ℕ) where
  -- The moves of the poll threads and of the adapter on one connection. `client_write_remote` takes 32
  -- bits of `buf_len`. The adapter reads the sender's buffer at any time after the post.
  pub data Net (e : Ends) : Ends → Type 0 where
    receive :
        (m : Message) (rest : List Message)
        → e.traffic.client ≡ polling
        → e.traffic.ready ≡ m ∷ rest
        → Net e (record e {
          client = received m e.client;
          traffic = record e.traffic { client = spinning; ready = rest };
        })
    post :
        e.traffic.client ≡ spinning
        → e.client.can_send ≡ true
        → Net e (record e {
          traffic = record e.traffic {
            client = posted;
            unwritten = e.traffic.unwritten ++ ((e.client.buf_len % 2 ^ 32) ∷ []);
          };
        })
    clear :
        e.traffic.client ≡ posted
        → Net e (record e {
          client = cleared e.client;
          traffic = record e.traffic { client = polling };
        })
    land :
        (len : ℕ) (rest : List ℕ)
        → e.traffic.unwritten ≡ len ∷ rest
        → Net e (record e {
          conn = record e.conn { buffer = rdma_write e.client.buffer len e.conn.buffer };
          traffic = record e.traffic { unwritten = rest; landed = e.traffic.landed ++ (len ∷ []) };
        })
    arrive :
        (len : ℕ) (rest : List ℕ)
        → e.traffic.server ≡ idle
        → e.traffic.landed ≡ len ∷ rest
        → Net e (record e {
          conn = counted len e.conn;
          traffic = record e.traffic { server = waiting; landed = rest };
        })
    answer :
        e.traffic.server ≡ waiting
        → e.conn.can_recv ≡ true
        → Net e (record e {
          conn = answering e.conn;
          traffic = record e.traffic {
            server = idle;
            ready = e.traffic.ready ++ ((answering e.conn).msg ∷ []);
          };
        })

pub record Cluster : Type 0 where
  pub ps : Ps
  pub worker : ℕ → Worker
  pub down : ℕ → Traffic
  pub up : ℕ → Traffic

-- The connection from the server to worker `i`.
abbrev pub down_ends : Cluster → ℕ → Ends
down_ends s i = record { client = s.ps.c_ctx i; conn = (s.worker i).s_ctx; traffic = s.down i }

abbrev pub set_down : Cluster → ℕ → Ends → Cluster
set_down s i e = record s {
  ps = record (s.ps) { c_ctx = update s.ps.c_ctx i e.client };
  worker = update s.worker i (record (s.worker i) { s_ctx = e.conn });
  down = update s.down i e.traffic;
}

-- The connection from worker `i` to the server.
abbrev pub up_ends : Cluster → ℕ → Ends
up_ends s i = record { client = (s.worker i).c_ctx; conn = s.ps.s_ctx i; traffic = s.up i }

abbrev pub set_up : Cluster → ℕ → Ends → Cluster
set_up s i e = record s {
  ps = record (s.ps) { s_ctx = update s.ps.s_ctx i e.conn };
  worker = update s.worker i (record (s.worker i) { c_ctx = e.client });
  up = update s.up i e.traffic;
}

abbrev pub set_worker : Cluster → ℕ → Worker → Cluster
set_worker s i w = record s { worker = update s.worker i w }

module _ (rdma_write : List ℕ → ℕ → List ℕ → List ℕ) (n : ℕ) where
  -- A round of one thread, or a move on one connection.
  pub data Turn (s : Cluster) : Cluster → Type 0 where
    ps_main : {p : Ps} → Ps.main_round s.ps ≡ some p → Turn s (record s { ps = p })
    ps_send :
        {p : Ps} (i : ℕ) → i < n → Ps.send_round i s.ps ≡ some p → Turn s (record s { ps = p })
    ps_recv :
        {p : Ps} (i : ℕ) → i < n → Ps.recv_round i s.ps ≡ some p → Turn s (record s { ps = p })
    worker_main :
        {w : Worker} (i : ℕ) (d : Doubles) (random : ℕ → ℕ)
        → i < n
        → Worker.main_round d random (s.worker i) ≡ some w
        → Turn s (set_worker s i w)
    worker_send :
        {w : Worker} (i : ℕ)
        → i < n
        → Worker.send_round (s.worker i) ≡ some w
        → Turn s (set_worker s i w)
    worker_recv :
        {w : Worker} (i : ℕ) (alloc : ℕ → Region)
        → i < n
        → Worker.recv_round alloc (s.worker i) ≡ some w
        → Turn s (set_worker s i w)
    net_down :
        {e : Ends} (i : ℕ) → i < n → Net rdma_write (down_ends s i) e → Turn s (set_down s i e)
    net_up : {e : Ends} (i : ℕ) → i < n → Net rdma_write (up_ends s i) e → Turn s (set_up s i e)
