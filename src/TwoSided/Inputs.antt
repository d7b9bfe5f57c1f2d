-- ===== src/TwoSided/Inputs.antt =====
-- A host with the byte order of the network, where every call succeeds.
use stellar_bench.Base.{true, false, none, some, [], pos, leb, ◌==◌}
use stellar_bench.Context.{Message, MessageId, Mr}
use stellar_bench.Verbs.{Library, Wc}
use stellar_bench.TwoSided.Client.{ClientWorld}
use stellar_bench.TwoSided.Server.{ServerWorld}

abbrev pub region : Mr
region = record { addr = 4096; lkey = 7; rkey = 9 }

abbrev pub message : Message
message = record { id = MessageId.msg_invalid; addr = 0; rkey = 0 }

-- In libibverbs a completed receive has opcode 128 or above, and 129 with immediate data.
abbrev pub library : Library
library = record {
  status = λ calls. pos 0;
  pointer = λ calls. 8192;
  region = λ calls. some region;
  memory = λ calls. record { addr = 4096; words = [] };
  message = λ calls. message;
  htonl = λ x. x;
  ntohl = λ x. x;
  has_recv_bit = λ op. leb 128 op;
  is_recv_rdma_with_imm = λ op. op == 129;
}

abbrev pub client : ClientWorld
client = record {
  ctx = record {
    buffer_addr = 4096;
    buffer = [];
    buf_len = 0;
    can_send = false;
    buf_prepared = false;
    buf_registered = true;
    buf_write_counter = 0;
    buffer_mr = region;
    msg_addr = 8192;
    msg = message;
    msg_mr = region;
    peer_addr = 0;
    peer_rkey = 0;
  };
  s_ctx = none;
  calls = [];
}

abbrev pub server : ServerWorld
server = record {
  ctx = record {
    buffer_addr = 4096;
    buffer = [];
    buf_len = 0;
    can_recv = true;
    buf_recv_counter = 0;
    buf_prepared = false;
    buf_registered = true;
    buffer_mr = region;
    msg_addr = 8192;
    msg = message;
    msg_mr = region;
  };
  s_ctx = none;
  calls = [];
}

abbrev pub imm_wc : Wc
imm_wc = record { ok = true; opcode = 129; wr_id = 2; imm_data = 1056 }
