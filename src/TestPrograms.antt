-- ===== src/TestPrograms.antt =====
-- test_send.cpp and test_recv.cpp: one sends the letters, a buffer full of each in turn, and the other
-- prints what it has received. The two run the poll threads of rdma_two_sided_client_op.cpp and
-- rdma_two_sided_server_op.cpp, as Cluster.antt has them.
pub mod Rounds
pub mod Invariant
pub mod Progress
pub mod Overwrite
pub mod Threads
mod Tests
use stellar_bench.Base.{
  ℕ, zero, suc, ◌+◌, ◌%◌, ◌≡◌, ◌≤◌, refl, Bool, true, false, Option, some, none, List, [], ◌∷◌,
  ◌++◌, leb, ltb, if◌then◌else◌, ◌>>=◌, length,
}
use stellar_bench.Context.{Message}
use stellar_bench.Memory.{read}
use stellar_bench.Fill.{fill_from}
use stellar_bench.Round.{polling, idle}
use stellar_bench.Cluster.{Ends, Net, Traffic}

-- The globals of both programs with their local counters, and the lines that test_recv has printed, the
-- last one first.
pub record Pair : Type 0 where
  pub ends : Ends
  pub to_send_counter : ℕ
  pub read_counter : ℕ
  pub printed : List (List ℕ)

-- `'a' + to_send_counter` in a `char`
abbrev pub letter : ℕ → ℕ
letter k = (97 + k) % 256

-- A round of test_send's loop, once the buffer is registered: without `getchar`.
unfoldable pub send_round : Pair → Option Pair
unfolding fill_from
send_round s =
    let ctx = s.ends.client in
    if ltb ctx.buf_write_counter s.to_send_counter then some s else do
      buffer ← fill_from ctx.buf_len 0 (letter s.to_send_counter) ctx.buffer
      some (record s {
        ends = record (s.ends) { client = record ctx { buffer = buffer; can_send = true } };
        to_send_counter = s.to_send_counter + 1;
      })

-- A round of test_recv's loop, once the buffer is registered.
unfoldable pub recv_round : Pair → Option Pair
recv_round s =
    let ctx = s.ends.conn in
    if leb ctx.buf_recv_counter s.read_counter then some s else do
      line ← read ctx.buffer 0 ctx.buf_len
      some (record s {
        ends = record (s.ends) { conn = record ctx { can_recv = true } };
        read_counter = s.read_counter + 1;
        printed = line ∷ s.printed;
      })

-- What the two `main`s set, on a connection that is up: the message with the address of the buffer is on
-- its way.
pub record IsStart (s : Pair) : Type 0 where
  pub nothing_to_send : s.ends.client.can_send ≡ false
  pub length_set : s.ends.client.buf_len ≡ 100
  pub registered : 100 ≤ length s.ends.client.buffer
  pub none_written : s.ends.client.buf_write_counter ≡ 0
  pub none_received : s.ends.conn.buf_recv_counter ≡ 0
  pub allowed : s.ends.conn.can_recv ≡ true
  pub none_sent : s.to_send_counter ≡ 0
  pub none_read : s.read_counter ≡ 0
  pub polls : s.ends.traffic.client ≡ polling
  pub none_posted : s.ends.traffic.unwritten ≡ []
  pub none_landed : s.ends.traffic.landed ≡ []
  pub idles : s.ends.traffic.server ≡ idle
  pub announced : (m : Message) × (s.ends.traffic.ready ≡ m ∷ [])

module _ (rdma_write : List ℕ → ℕ → List ℕ → List ℕ) where
  -- A round of one of the programs, or a move on the connection.
  pub data Turn (s : Pair) : Pair → Type 0 where
    sends : {t : Pair} → send_round s ≡ some t → Turn s t
    receives : {t : Pair} → recv_round s ≡ some t → Turn s t
    moves : {e : Ends} → Net rdma_write s.ends e → Turn s (record s { ends = e })

  pub data Turns (s : Pair) : Pair → Type 0 where
    done : Turns s s
    more : {t u : Pair} → Turns s t → Turn t u → Turns s u

  pub data Reach : Pair → Type 0 where
    started : {s : Pair} → IsStart s → Reach s
    next : {s t : Pair} → Reach s → Turn s t → Reach t
