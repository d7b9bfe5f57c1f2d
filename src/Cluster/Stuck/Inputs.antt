-- ===== src/Cluster/Stuck/Inputs.antt =====
-- A server with one worker and blocks of a hundred zeros: the run in which the reply to the first message
-- is taken while the poll thread has yet to lower `can_send` for that message.
use stellar_bench.Base.{
  ℕ, zero, suc, ◌+◌, ◌≡◌, refl, true, false, some, List, [], ◌∷◌, ◌++◌, pos, minus_one, replicate,
  arith,
}
use stellar_bench.Block.{Block}
use stellar_bench.Context.{ClientContext, ConnContext, update}
use stellar_bench.Ps
use stellar_bench.Ps.{Ps}
use stellar_bench.Worker
use stellar_bench.Worker.{Worker}
use stellar_bench.Worker.Descent.{
  Doubles, put, predict, step, descend, sample, samples, fake_sub_mf, sample_num,
}
use stellar_bench.Memory.{memcpy, le_bytes, le_value, read, words_bytes, words_of}
use stellar_bench.Wire.{copy_in, header, data_size, total_len, receive_block, load, overwrite}
use stellar_bench.Delivery.Inputs.{p_part, client, conn, server, trainer, alloc, rdma_write}
use stellar_bench.Cluster.{
  Ends, Cluster, Net, ps_main, ps_send, ps_recv, worker_main, worker_send, worker_recv, net_up,
  up_ends,
}
use stellar_bench.Cluster.Rounds.{filled}
use stellar_bench.Cluster.Refinement.{IsStart, started}
use stellar_bench.Cluster.Inputs.{four, Run, after, on_link, mr_message, fresh_traffic, head_bytes}

abbrev pub zeros : List ℕ
zeros = replicate 100 0

abbrev pub zero_p : Block
zero_p = record p_part { ele_num = 100; eles = record { addr = 0x7f00; words = zeros } }

abbrev pub zero_q : Block
zero_q = record p_part { ele_num = 100; eles = record { addr = 0x7f80; words = zeros } }

abbrev pub sender : ClientContext
sender = record client { buffer = replicate 1664 0 }

abbrev pub receiver : ConnContext
receiver = record conn { buffer = replicate 1664 0; buf_len = 0; buf_recv_counter = 0 }

abbrev pub first : Cluster
first = record {
  ps = record server {
    p_blocks = zero_p ∷ [];
    q_blocks = zero_q ∷ [];
    c_ctx = λ i. sender;
    s_ctx = λ i. receiver;
    iter_t = pos 0;
    completed_iter = minus_one;
  };
  worker = λ i. record trainer {
    c_ctx = sender;
    s_ctx = receiver;
    p_block = zero_p;
    q_block = zero_q;
    iter_t = pos 0;
    completed_iter = minus_one;
  };
  down = λ i. fresh_traffic;
  up = λ i. fresh_traffic;
}

pub first-IsStart : IsStart 1 first
first-IsStart = record {
  iter_t = refl;
  completed_iter = refl;
  worker_num = refl;
  to_send_iter = λ i lt. refl;
  recved_iter = λ i lt. refl;
  computing = λ i lt. refl;
  computed = λ i lt. refl;
  recved_age = λ i lt. refl;
  to_send_age = λ i lt. refl;
  down = λ i lt. record {
    nothing_to_send = refl;
    none_written = refl;
    none_received = refl;
    not_allowed = refl;
    polls = refl;
    none_posted = refl;
    none_landed = refl;
    idles = refl;
    announced = (mr_message, refl);
  };
  up = λ i lt. record {
    nothing_to_send = refl;
    none_written = refl;
    none_received = refl;
    not_allowed = refl;
    polls = refl;
    none_posted = refl;
    none_landed = refl;
    idles = refl;
    announced = (mr_message, refl);
  };
}

abbrev pub opened_ps : Ps
opened_ps = record (first.ps) { completed_iter = pos 0; iter_t = pos 1 }

pub opens : Ps.main_round first.ps ≡ some opened_ps
unfolding Ps.main_round Ps.can_merge Ps.can_merge_from
opens = refl

abbrev pub opened : Run
opened = after (record { state = first; run = started first-IsStart }) (ps_main opens)

-- A message of two blocks of zeros, with the low byte of the address of each.
abbrev pub zero_message : List ℕ → List ℕ → List ℕ
zero_message p_head q_head = p_head ++ (replicate 800 0 ++ (q_head ++ replicate 800 0))

abbrev pub sent_ps : Ps
sent_ps = record opened_ps {
  p_blocks = zero_p ∷ [];
  q_blocks = zero_q ∷ [];
  c_ctx =
      update opened_ps.c_ctx 0 (
        filled (opened_ps.c_ctx 0) true (zero_message (head_bytes 100 0) (head_bytes 100 128))
          1664);
  to_send_iter = update opened_ps.to_send_iter 0 (pos 1);
}

pub sends : Ps.send_round 0 opened_ps ≡ some sent_ps
unfolding Ps.send_round Ps.can_send copy_in memcpy header le_bytes read data_size words_bytes
    total_len
sends = refl

abbrev pub posted : Run
posted =
    on_link
      (on_link (after opened (ps_send 0 (omega arith) sends)) (Net.receive mr_message [] refl refl))
      (Net.post refl refl)

abbrev pub arrived : Run
arrived = on_link (on_link posted (Net.land 1664 [] refl)) (Net.arrive 1664 [] refl refl)

abbrev pub got_p : Block
got_p = record zero_p { eles = record { addr = 4096; words = zeros } }

abbrev pub taken_worker : Worker
taken_worker = record (arrived.state.worker 0) {
  p_block = got_p;
  q_block = got_p;
  recved_age = pos 0;
  s_ctx = record ((arrived.state.worker 0).s_ctx) { can_recv = true };
}

pub takes : Worker.recv_round alloc (arrived.state.worker 0) ≡ some taken_worker
unfolding Worker.recv_round Worker.store_block receive_block load read le_value data_size words_of
    overwrite
takes = refl

abbrev pub taken : Run
taken = after arrived (worker_recv 0 alloc (omega arith) takes)

-- The arithmetic of which every result is zero.
abbrev pub nil_doubles : Doubles
nil_doubles = record {
  nought = 0;
  yita = 0;
  theta = 0;
  add = λ a b. 0;
  sub = λ a b. 0;
  mul = λ a b. 0;
}

sample-zeros : sample nil_doubles 0 0 zeros zeros ≡ some (zeros, zeros)
unfolding sample predict descend step put
sample-zeros = refl

samples-zeros :
    (left sn : ℕ) → samples nil_doubles (λ k. 0) 1 1 left sn zeros zeros ≡ some (zeros, zeros)
unfolding samples
samples-zeros zero sn = refl
samples-zeros (suc left) sn = rw sample-zeros (samples-zeros left (sn + 1))

fake_sub_mf-zeros : fake_sub_mf nil_doubles (λ k. 0) got_p got_p ≡ some (got_p, got_p)
unfolding fake_sub_mf
fake_sub_mf-zeros = rw (samples-zeros sample_num 0) refl

abbrev pub trained_worker : Worker
trained_worker = record taken_worker { completed_iter = pos 0; iter_t = pos 1 }

pub trains : Worker.main_round nil_doubles (λ k. 0) taken_worker ≡ some trained_worker
unfolding Worker.main_round Worker.can_compute
trains = rw fake_sub_mf-zeros refl

abbrev pub trained : Run
trained = after taken (worker_main 0 nil_doubles (λ k. 0) (omega arith) trains)

-- The header of `got_p`: its address is 4096.
abbrev pub got_head : List ℕ
got_head =
    four 0
    ++ (four 0 ++ (four 0 ++ (four 1 ++ (four 100 ++ (four 0 ++ (0 ∷ 16 ∷ 0 ∷ 0 ∷ four 0))))))

abbrev pub replied_worker : Worker
replied_worker = record trained_worker {
  c_ctx =
      filled trained_worker.c_ctx trained_worker.c_ctx.buf_prepared (zero_message got_head got_head)
        1664;
  to_send_age = pos 1;
}

pub replies : Worker.send_round trained_worker ≡ some replied_worker
unfolding Worker.send_round Worker.can_send copy_in memcpy header le_bytes read data_size
    words_bytes total_len
replies = refl

abbrev pub on_link_up : (r : Run) {e : Ends} → Net rdma_write (up_ends r.state 0) e → Run
on_link_up r m = after r (net_up 0 (omega arith) m)

abbrev pub returning : Run
returning =
    on_link_up
      (on_link_up (after trained (worker_send 0 (omega arith) replies))
        (Net.receive mr_message [] refl refl))
      (Net.post refl refl)

abbrev pub returned : Run
returned = on_link_up (on_link_up returning (Net.land 1664 [] refl)) (Net.arrive 1664 [] refl refl)

abbrev pub merged_ps : Ps
merged_ps = record (returned.state.ps) {
  recved_iter = update returned.state.ps.recved_iter 0 (pos 0);
  s_ctx =
      update returned.state.ps.s_ctx 0
        (record (returned.state.ps.s_ctx 0) { buf_prepared = false; can_recv = true });
}

pub merges : Ps.recv_round 0 returned.state.ps ≡ some merged_ps
unfolding Ps.recv_round Ps.store_block receive_block load read le_value data_size words_of overwrite
merges = refl

abbrev pub merged : Run
merged = after returned (ps_recv 0 (omega arith) merges)

abbrev pub next_ps : Ps
next_ps = record merged_ps { completed_iter = pos 1; iter_t = pos 2 }

pub completes : Ps.main_round merged_ps ≡ some next_ps
unfolding Ps.main_round Ps.can_merge Ps.can_merge_from
completes = refl

abbrev pub completed : Run
completed = after merged (ps_main completes)

-- The message of iteration 1, which will be lost: the blocks have its age.
abbrev pub aged_head : ℕ → List ℕ
aged_head low =
    four 0
    ++ (four 1 ++ (four 0 ++ (four 1 ++ (four 100 ++ (four 0 ++ (low ∷ 127 ∷ 0 ∷ 0 ∷ four 0))))))

abbrev pub lost_ps : Ps
lost_ps = record next_ps {
  p_blocks = record zero_p { data_age = 1 } ∷ [];
  q_blocks = record zero_q { data_age = 1 } ∷ [];
  c_ctx =
      update next_ps.c_ctx 0
        (filled (next_ps.c_ctx 0) true (zero_message (aged_head 0) (aged_head 128)) 1664);
  to_send_iter = update next_ps.to_send_iter 0 (pos 2);
}

pub sends_next : Ps.send_round 0 next_ps ≡ some lost_ps
unfolding Ps.send_round Ps.can_send copy_in memcpy header le_bytes read data_size words_bytes
    total_len
sends_next = refl
