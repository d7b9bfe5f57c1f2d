-- ===== src/OneSided/Tests.antt =====
-- The theorems of OneSided with libraries that answer as named.
use stellar_bench.Base.{
  ℤ, ℕ, Bool, true, false, if◌then◌else◌, ◌≢◌, ◌<◌, zero, suc, ◌≡◌, refl, List, [], ◌∷◌, none, some,
  pos, negsuc, arith,
}
use stellar_bench.Verbs.{EventType}
use stellar_bench.Fallible.{next}
use stellar_bench.OneSided.Calls.{
  Answers, Program, MemoryRegion, Event, Poll, reaped, failed, RdmaCall, ibv_poll_cq,
  rdma_ack_cm_event,
}
use stellar_bench.OneSided.Server.{ServerOp}
use stellar_bench.OneSided.Client.{ClientOp, client_disconnect_and_clean, connect_until}
use stellar_bench.OneSided.Disconnect.{
  waiting_calls, Extends, client_disconnect_and_clean-twice, attempts, connect_until-attempts,
}
use stellar_bench.OneSided.Events.{Outcomes, process_rdma_cm_event-Outcomes}

abbrev region : MemoryRegion
region = record { addr = 64; length = 16; lkey = 5 }

abbrev rejection : Event
rejection = record { event = EventType.other; status = pos 8; id = 3 }

abbrev is_poll : List RdmaCall → Bool
is_poll (ibv_poll_cq cq k ∷ calls) = true
is_poll _ = false

-- One completion for each poll, but none for the first.
abbrev one_each : List RdmaCall → Poll
one_each (ibv_poll_cq cq zero ∷ calls) = failed 0
one_each (ibv_poll_cq cq (suc k) ∷ calls) = if is_poll calls then reaped (0 ∷ []) else reaped []
one_each _ = failed 0

abbrev library : Answers
library = record {
  status = λ calls. pos 0;
  errno = λ calls. 0;
  pointer = λ calls. 4096;
  region = λ calls. some region;
  event = λ calls. rejection;
  poll = one_each;
  einval = 22;
  enomem = 12;
}

abbrev program : Program ServerOp
program = record {
  own = record {
    cm_event_channel = 1;
    cm_server_id = 2;
    cm_client_id = 3;
    pd = 4;
    io_completion_channel = 5;
    cq = 6;
    client_qp = 7;
    client_metadata_mr = none;
    server_buffer_mr = none;
    server_metadata_mr = none;
    client_metadata_addr = 64;
    server_metadata_addr = 128;
    server_metadata_attr = record { address = 0; length = 0; stag = 0 };
  };
  calls = [];
}

process_rdma_cm_event-Outcomes_example : Outcomes library 1 EventType.established program
process_rdma_cm_event-Outcomes_example =
    process_rdma_cm_event-Outcomes library 1 EventType.established program

abbrev client : Program ClientOp
client = record {
  own = record {
    cm_event_channel = 1;
    cm_client_id = 3;
    pd = 4;
    io_completion_channel = 5;
    client_cq = 6;
    client_qp = 7;
    client_metadata_mr = some region;
    client_src_mr = none;
    client_dst_mr = none;
    server_metadata_mr = some region;
    client_metadata_addr = 64;
    server_metadata_addr = 128;
    client_metadata_attr = record { address = 0; length = 0; stag = 0 };
    server_metadata_attr = record { address = 0; length = 0; stag = 0 };
    src = 256;
    dst = 512;
  };
  calls = [];
}

abbrev established : Event
established = record { event = EventType.established; status = pos 0; id = 3 }

-- Three attempts to connect fail with -1.
abbrev busy : List RdmaCall → ℤ
busy (c ∷ d ∷ e ∷ f ∷ calls) = pos 0
busy _ = negsuc 0

abbrev late : Answers
late = record library { event = λ calls. established }

client_disconnect_and_clean-twice_example :
    (after : Program ClientOp) × (client_disconnect_and_clean late client ≡ next (pos 0) after)
    × Extends late client
        (rdma_ack_cm_event established ∷ rdma_ack_cm_event established ∷ waiting_calls late client)
        after.calls
client_disconnect_and_clean-twice_example =
    client_disconnect_and_clean-twice late client refl refl refl

abbrev slow : Answers
slow = record library { status = busy }

slow-fails : (m : ℕ) → m < 3 → slow.status (attempts (suc m) 3 client.calls) ≢ pos 0
slow-fails zero h e = ground arith
slow-fails (suc zero) h e = ground arith
slow-fails (suc (suc zero)) h e = ground arith
slow-fails (suc (suc (suc m))) h e = absurd (omega arith)

connect_until-attempts_example :
    connect_until slow 10 3 client ≡ next tt (record client { calls = attempts 4 3 client.calls })
connect_until-attempts_example =
    connect_until-attempts slow 3 10 3 client slow-fails refl (omega arith)
