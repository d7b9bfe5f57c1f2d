-- ===== src/TestPrograms/Tests.antt =====
-- The theorems of TestPrograms where the first message has been posted.
use stellar_bench.Base.{
  ℕ, ◌≡◌, ◌⊎◌, refl, true, some, [], ◌∷◌, replicate, length-replicate, arith, take,
}
use stellar_bench.Context.{Message, MessageId}
use stellar_bench.Round.{polling, idle}
use stellar_bench.Delivery.Inputs.{client, conn, rdma_write}
use stellar_bench.Cluster.{Net, Ends}
use stellar_bench.TestPrograms.{
  Pair, send_round, IsStart, sends, moves, Turns, Reach, started, next,
}
use stellar_bench.TestPrograms.Rounds.{put_in, send_round-fills}
use stellar_bench.TestPrograms.Progress.{IsBalanced, balanced, goes_on}
use stellar_bench.TestPrograms.Overwrite.{overwritten}

abbrev mr_message : Message
mr_message = record { id = MessageId.msg_mr; addr = 4096; rkey = 9 }

abbrev first : Pair
first = record {
  ends = record {
    client = record client { buffer = replicate 128 0; buf_len = 100 };
    conn = record conn {
      buffer = replicate 128 0;
      buf_len = 0;
      buf_recv_counter = 0;
      can_recv = true;
    };
    traffic = record {
      client = polling;
      unwritten = [];
      landed = [];
      server = idle;
      ready = mr_message ∷ [];
    };
  };
  to_send_counter = 0;
  read_counter = 0;
  printed = [];
}

first-IsStart : IsStart first
first-IsStart = record {
  nothing_to_send = refl;
  length_set = refl;
  registered = omega (arith, length-replicate {A = ℕ} 128 0);
  none_written = refl;
  none_received = refl;
  allowed = refl;
  none_sent = refl;
  none_read = refl;
  polls = refl;
  none_posted = refl;
  none_landed = refl;
  idles = refl;
  announced = (mr_message, refl);
}

-- A state with the turns that reach it.
record Run : Type 0 where
  state : Pair
  run : Reach rdma_write state

abbrev on_link : (r : Run) {e : Ends} → Net rdma_write r.state.ends e → Run
on_link r {e} m = record { state = record (r.state) { ends = e }; run = next r.run (moves m) }

first-fills : send_round first ≡ some (put_in first)
first-fills = send_round-fills first (omega arith) (omega (arith, length-replicate {A = ℕ} 128 0))

abbrev first_in : Run
first_in = record { state = put_in first; run = next (started first-IsStart) (sends first-fills) }

abbrev posted : Run
posted =
    on_link (on_link (on_link first_in (Net.receive mr_message [] refl refl)) (Net.post refl refl))
      (Net.clear refl)

balanced_example : IsBalanced posted.state
balanced_example = balanced rdma_write posted.state posted.run

goes_on_example :
    (send_round posted.state ≡ some (put_in posted.state))
    ⊎ ((e : Ends) × Net rdma_write posted.state.ends e)
goes_on_example = goes_on rdma_write posted.state posted.run

overwritten_example :
    (t : Pair) × Turns rdma_write posted.state t
    × (t.ends.conn.buf_recv_counter ≡ 1)
    × (t.ends.conn.buf_len ≡ 100)
    × (take 100 t.ends.conn.buffer ≡ replicate 100 98)
overwritten_example =
    overwritten rdma_write (λ src len dst. refl) posted.state 100 [] posted.run refl refl refl
      (omega arith)
