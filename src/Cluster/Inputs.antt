-- ===== src/Cluster/Inputs.antt =====
-- A server with one worker: the run in which the first message reaches the worker, turn by turn.
use stellar_bench.Base.{ℕ, ◌≡◌, refl, true, some, List, [], ◌∷◌, pos, minus_one, arith, ◌++◌}
use stellar_bench.Context.{ConnContext, Message, MessageId, update}
use stellar_bench.Ps
use stellar_bench.Ps.{Ps}
use stellar_bench.Worker.{Worker}
use stellar_bench.Round.{polling, idle}
use stellar_bench.Memory.{memcpy, le_bytes, le_value, read, words_bytes, words_of}
use stellar_bench.Wire.{copy_in, header, data_size, total_len, receive_block, load, overwrite}
use stellar_bench.Worker
use stellar_bench.Cluster.Rounds.{filled}
use stellar_bench.Delivery.Inputs.{p_part, q_part, conn, server, trainer, alloc, rdma_write}
use stellar_bench.Cluster.{
  Traffic, Ends, Cluster, Net, Turn, ps_main, ps_send, worker_recv, net_down, down_ends,
}
use stellar_bench.Cluster.Refinement.{IsStart, Runs, started, follow}

abbrev pub fresh_conn : ConnContext
fresh_conn = record conn { buf_len = 0; buf_recv_counter = 0 }

abbrev pub mr_message : Message
mr_message = record { id = MessageId.msg_mr; addr = 4096; rkey = 9 }

abbrev pub fresh_traffic : Traffic
fresh_traffic = record {
  client = polling;
  unwritten = [];
  landed = [];
  server = idle;
  ready = mr_message ∷ [];
}

abbrev pub first : Cluster
first = record {
  ps = record server { s_ctx = λ i. fresh_conn; iter_t = pos 0; completed_iter = minus_one };
  worker = λ i. record trainer { s_ctx = fresh_conn; iter_t = pos 0; completed_iter = minus_one };
  down = λ i. fresh_traffic;
  up = λ i. fresh_traffic;
}

pub first-IsStart : IsStart 1 first
first-IsStart = record {
  iter_t = refl;
  completed_iter = refl;
  worker_num = refl;
  to_send_iter = λ i lt. refl;
  recved_iter = λ i lt. refl;
  computing = λ i lt. refl;
  computed = λ i lt. refl;
  recved_age = λ i lt. refl;
  to_send_age = λ i lt. refl;
  down = λ i lt. record {
    nothing_to_send = refl;
    none_written = refl;
    none_received = refl;
    not_allowed = refl;
    polls = refl;
    none_posted = refl;
    none_landed = refl;
    idles = refl;
    announced = (mr_message, refl);
  };
  up = λ i lt. record {
    nothing_to_send = refl;
    none_written = refl;
    none_received = refl;
    not_allowed = refl;
    polls = refl;
    none_posted = refl;
    none_landed = refl;
    idles = refl;
    announced = (mr_message, refl);
  };
}

-- A state with the run that reaches it.
pub record Run : Type 0 where
  pub state : Cluster
  pub run : Runs rdma_write 1 state

abbrev pub after : (r : Run) {s' : Cluster} → Turn rdma_write 1 r.state s' → Run
after r {s'} m = record { state = s'; run = follow r.run m }

abbrev pub opened_ps : Ps
opened_ps = record (first.ps) { completed_iter = pos 0; iter_t = pos 1 }

pub opens : Ps.main_round first.ps ≡ some opened_ps
unfolding Ps.main_round Ps.can_merge Ps.can_merge_from
opens = refl

abbrev pub opened : Run
opened = after (record { state = first; run = started first-IsStart }) (ps_main opens)

-- Small numbers of four and of eight bytes, the low ones first.
abbrev pub four : ℕ → List ℕ
four x = x ∷ 0 ∷ 0 ∷ 0 ∷ []

abbrev pub eight : ℕ → ℕ → List ℕ
eight x y = x ∷ y ∷ 0 ∷ 0 ∷ four 0

-- A header with the number of elements and the low byte of their address, as `Delivery.Inputs` has it.
abbrev pub head_bytes : ℕ → ℕ → List ℕ
head_bytes ele_num low =
    four 0 ++ (four 0 ++ (four 0 ++ (four 1 ++ (four ele_num ++ (four 0 ++ eight low 127)))))

abbrev pub first_message : List ℕ
first_message = head_bytes 2 0 ++ (eight 6 0 ++ (eight 5 0 ++ (head_bytes 1 128 ++ eight 9 0)))

abbrev pub sent_ps : Ps
sent_ps = record opened_ps {
  p_blocks = p_part ∷ [];
  q_blocks = q_part ∷ [];
  c_ctx = update opened_ps.c_ctx 0 (filled (opened_ps.c_ctx 0) true first_message 88);
  to_send_iter = update opened_ps.to_send_iter 0 (pos 1);
}

pub sends : Ps.send_round 0 opened_ps ≡ some sent_ps
unfolding Ps.send_round Ps.can_send copy_in memcpy header le_bytes read data_size words_bytes
    total_len
sends = refl

abbrev pub sent : Run
sent = after opened (ps_send 0 (omega arith) sends)

abbrev pub on_link : (r : Run) {e : Ends} → Net rdma_write (down_ends r.state 0) e → Run
on_link r m = after r (net_down 0 (omega arith) m)

abbrev pub ready : Run
ready = on_link sent (Net.receive mr_message [] refl refl)

abbrev pub landed : Run
landed = on_link (on_link ready (Net.post refl refl)) (Net.land 88 [] refl)

abbrev pub arrived : Run
arrived = on_link landed (Net.arrive 88 [] refl refl)

abbrev pub blocks_taken : Worker
blocks_taken = record (arrived.state.worker 0) {
  p_block = record p_part { eles = record { addr = 4096; words = 6 ∷ 5 ∷ [] } };
  q_block = record q_part { eles = record { addr = 4096; words = 9 ∷ [] } };
  recved_age = pos 0;
  s_ctx = record ((arrived.state.worker 0).s_ctx) { can_recv = true };
}

pub takes : Worker.recv_round alloc (arrived.state.worker 0) ≡ some blocks_taken
unfolding Worker.recv_round Worker.store_block receive_block load read le_value data_size words_of
    overwrite
takes = refl

abbrev pub taken : Run
taken = after arrived (worker_recv 0 alloc (omega arith) takes)

abbrev pub posted : Run
posted = on_link ready (Net.post refl refl)
