-- ===== src/Delivery/Inputs.antt =====
-- A server with one worker, and blocks of two and one elements.
use stellar_bench.Base.{
  ℕ, refl, true, false, pos, minus_one, List, [], ◌∷◌, ◌++◌, take, drop, arith, replicate,
}
use stellar_bench.Block.{Block, Region}
use stellar_bench.Context.{ClientContext, ConnContext, Mr, Message, MessageId}
use stellar_bench.Wire.RoundTrip.{IsRepresentable}
use stellar_bench.Ps.{Ps}
use stellar_bench.Worker.{Worker}

abbrev pub p_part : Block
p_part = record {
  block_id = 0;
  data_age = 0;
  sta_idx = 0;
  height = 1;
  ele_num = 2;
  is_p = 0;
  padding = 0;
  eles = record { addr = 0x7f00; words = 6 ∷ 5 ∷ [] };
}

abbrev pub q_part : Block
q_part = record p_part { ele_num = 1; eles = record { addr = 0x7f80; words = 9 ∷ [] } }

pub p_part-IsRepresentable : IsRepresentable p_part
p_part-IsRepresentable = record {
  well_formed = record { counted = refl; small = omega arith };
  id_fits = omega arith;
  age_fits = omega arith;
  sta_fits = omega arith;
  height_fits = omega arith;
  is_p_fits = omega arith;
  words_fit = omega arith;
}

pub q_part-IsRepresentable : IsRepresentable q_part
q_part-IsRepresentable = record {
  well_formed = record { counted = refl; small = omega arith };
  id_fits = omega arith;
  age_fits = omega arith;
  sta_fits = omega arith;
  height_fits = omega arith;
  is_p_fits = omega arith;
  words_fit = omega arith;
}

abbrev pub no_mr : Mr
no_mr = record { addr = 0; lkey = 0; rkey = 0 }

abbrev pub no_message : Message
no_message = record { id = MessageId.msg_invalid; addr = 0; rkey = 0 }

abbrev pub client : ClientContext
client = record {
  buffer = replicate 88 0;
  buf_len = 0;
  can_send = false;
  buf_prepared = false;
  buf_registered = true;
  buf_write_counter = 0;
  buffer_addr = 0;
  msg_addr = 0;
  buffer_mr = no_mr;
  msg = no_message;
  msg_mr = no_mr;
  peer_addr = 0;
  peer_rkey = 0;
}

-- A receiving context in which one message has arrived.
abbrev pub conn : ConnContext
conn = record {
  buffer = replicate 88 0;
  buf_len = 88;
  can_recv = false;
  buf_recv_counter = 1;
  buf_prepared = false;
  buf_registered = true;
  buffer_addr = 0;
  msg_addr = 0;
  buffer_mr = no_mr;
  msg = no_message;
  msg_mr = no_mr;
}

-- Iteration 0 is completed, and its message is to be sent.
abbrev pub server : Ps
server = record {
  c_ctx = λ i. client;
  s_ctx = λ i. conn;
  p_blocks = p_part ∷ [];
  q_blocks = q_part ∷ [];
  worker_num = 1;
  recved_iter = λ i. minus_one;
  to_send_iter = λ i. pos 0;
  worker_pidx = λ i. i;
  worker_qidx = λ i. i;
  iter_t = pos 1;
  completed_iter = pos 0;
}

-- A worker that has computed iteration 0 and waits for a message.
abbrev pub trainer : Worker
trainer = record {
  c_ctx = client;
  s_ctx = conn;
  p_block = p_part;
  q_block = q_part;
  iter_t = pos 1;
  recved_age = minus_one;
  to_send_age = pos 0;
  completed_iter = pos 0;
}

abbrev pub alloc : ℕ → Region
alloc n = record { addr = 4096; words = replicate n 0 }

abbrev pub rdma_write : List ℕ → ℕ → List ℕ → List ℕ
rdma_write src len dst = take len src ++ drop len dst
