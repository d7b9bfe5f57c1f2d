-- ===== src/OneSided/Client.antt =====
-- client_rdma_op.cpp: the set-up of a connection to the server, the exchange of metadata, a write to
-- the server's buffer, and the end of the connection.
use stellar_bench.Base.{
  ℕ, zero, suc, ◌+◌, ◌%◌, ◌^◌, List, ◌∷◌, Option, none, some, ℤ, pos, minus_one, eqb_ℤ, ◌==◌,
  if◌then◌else◌,
}
use stellar_bench.Verbs.{EventType}
use stellar_bench.Fallible.{
  Fallible, out_of_fuel, ◌>>=◌, ◌>>◌, pure, return, deref, negate, attempt, propagate,
}
use stellar_bench.OneSided.Calls.{
  Answers, Program, MemoryRegion, BufferAttr, QpCapacity, Event, local_write,
  remote_read_local_remote_write, RdmaCall, put, get, call, check, check_pointer, status_of,
  rdma_create_event_channel, rdma_destroy_event_channel, rdma_create_id, rdma_destroy_id,
  rdma_resolve_addr, rdma_resolve_route, rdma_connect, rdma_disconnect, rdma_ack_cm_event,
  rdma_create_qp, rdma_destroy_qp, ibv_alloc_pd, ibv_dealloc_pd, ibv_create_comp_channel,
  ibv_destroy_comp_channel, ibv_create_cq, ibv_destroy_cq, ibv_req_notify_cq, ibv_post_recv,
  ibv_post_send, ibv_post_write, sleep, free,
}
use stellar_bench.OneSided.Common.{
  minus, rdma_buffer_register, rdma_buffer_deregister, process_rdma_cm_event,
  process_work_completion_events,
}

-- The members of `client_rdma_op`. The two attributes stand at fixed addresses of the object.
pub record ClientOp : Type 0 where
  pub cm_event_channel : ℕ
  pub cm_client_id : ℕ
  pub pd : ℕ
  pub io_completion_channel : ℕ
  pub client_cq : ℕ
  pub client_qp : ℕ
  pub client_metadata_mr : Option MemoryRegion
  pub client_src_mr : Option MemoryRegion
  pub client_dst_mr : Option MemoryRegion
  pub server_metadata_mr : Option MemoryRegion
  pub client_metadata_addr : ℕ
  pub server_metadata_addr : ℕ
  pub client_metadata_attr : BufferAttr
  pub server_metadata_attr : BufferAttr
  pub src : ℕ
  pub dst : ℕ

-- `sizeof(struct rdma_buffer_attr)`, which is packed, and `BLOCK_SZ`.
abbrev attr_bytes : ℕ
attr_bytes = 16

abbrev block_bytes : ℕ
block_bytes = 25000000

abbrev capacity : QpCapacity
capacity = record { max_recv_sge = 2; max_recv_wr = 1; max_send_sge = 2; max_send_wr = 15000 }

module _ (lib : Answers) where
  -- An event of that type, acknowledged.
  abbrev await_event : ℕ → EventType → Fallible (Program ClientOp) (Unit {0})
  await_event channel expected = do
    ret ← attempt (process_rdma_cm_event lib channel expected)
    e ← propagate ret
    check lib (rdma_ack_cm_event e)

  -- `address` stands for the socket address of the server.
  unfoldable pub client_prepare_connection : ℕ → Fallible (Program ClientOp) ℤ
  unfolding process_rdma_cm_event
  client_prepare_connection address = do
    channel ← check_pointer lib rdma_create_event_channel
    put (λ s. record s { cm_event_channel = channel })
    check lib (rdma_create_id channel)
    p ← get
    let id = lib.pointer p.calls
    put (λ s. record s { cm_client_id = id })
    check lib (rdma_resolve_addr id address 2000)
    await_event channel EventType.addr_resolved
    check lib (rdma_resolve_route id 2000)
    await_event channel EventType.route_resolved
    pd ← check_pointer lib (ibv_alloc_pd id)
    put (λ s. record s { pd = pd })
    io_channel ← check_pointer lib (ibv_create_comp_channel id)
    put (λ s. record s { io_completion_channel = io_channel })
    cq ← check_pointer lib (ibv_create_cq id 20000 io_channel)
    put (λ s. record s { client_cq = cq })
    check lib (ibv_req_notify_cq cq)
    check lib (rdma_create_qp id pd cq capacity)
    q ← get
    put (λ s. record s { client_qp = lib.pointer q.calls })
    pure (pos 0)

  -- `return code` when there is no region.
  abbrev region_or : ℤ → Option MemoryRegion → Fallible (Program ClientOp) MemoryRegion
  region_or code none = return code
  region_or code (some mr) = pure mr

  abbrev or_return : ℤ → Fallible (Program ClientOp) (Unit {0})
  or_return ret = if eqb_ℤ ret (pos 0) then pure tt else return ret

  unfoldable pub client_pre_post_recv_buffer : Fallible (Program ClientOp) ℤ
  unfolding rdma_buffer_register
  client_pre_post_recv_buffer = do
    p ← get
    found ← rdma_buffer_register lib p.own.pd p.own.server_metadata_addr attr_bytes local_write
    put (λ s. record s { server_metadata_mr = found })
    mr ← region_or (negate lib.enomem) found
    ret ← status_of lib (ibv_post_recv p.own.client_qp mr)
    or_return ret
    pure (pos 0)

  -- The loop that repeats `rdma_connect` until it succeeds; `fuel` bounds the attempts. The three
  -- numbers are `initiator_depth`, `responder_resources` and `retry_count`.
  unfoldable pub connect_until : ℕ → ℕ → Fallible (Program ClientOp) (Unit {0})
  connect_until zero id = out_of_fuel
  connect_until (suc fuel) id = do
    ret ← status_of lib (rdma_connect id 3 3 3)
    if eqb_ℤ ret (pos 0) then pure tt else connect_until fuel id

  unfoldable pub client_connect_to_server : ℕ → Fallible (Program ClientOp) ℤ
  unfolding connect_until process_rdma_cm_event
  client_connect_to_server fuel = do
    p ← get
    connect_until fuel p.own.cm_client_id
    await_event p.own.cm_event_channel EventType.established
    pure (pos 0)

  -- `if (ret != 2) return ret;`
  abbrev two_completions : ℤ × Option ℕ → Fallible (Program ClientOp) (Unit {0})
  two_completions (ret, none) = return ret
  two_completions (ret, some n) = if n == 2 then pure tt else return (pos n)

  -- What both functions that send the metadata do with their buffer; a size has 32 bits.
  unfoldable pub send_metadata : ℕ → ℕ → ℕ → Fallible (Program ClientOp) ℤ
  unfolding rdma_buffer_register process_work_completion_events
  send_metadata fuel buf size = do
    p ← get
    src ← rdma_buffer_register lib p.own.pd buf (size % 2 ^ 32) remote_read_local_remote_write
    put (λ s. record s { client_src_mr = src })
    src_mr ← region_or minus_one src
    put (λ s. record s {
      client_metadata_attr = record {
        address = src_mr.addr;
        length = src_mr.length;
        stag = src_mr.lkey;
      };
    })
    found ← rdma_buffer_register lib p.own.pd p.own.client_metadata_addr attr_bytes local_write
    put (λ s. record s { client_metadata_mr = found })
    mr ← region_or minus_one found
    check lib (ibv_post_send p.own.client_qp mr)
    ret ← attempt (process_work_completion_events lib fuel p.own.io_completion_channel 2)
    two_completions ret
    pure (pos 0)

  unfoldable pub client_send_metadata_to_server : ℕ → Fallible (Program ClientOp) ℤ
  unfolding send_metadata
  client_send_metadata_to_server fuel = do p ← get; send_metadata fuel p.own.src block_bytes

  unfoldable pub client_send_metadata_to_server1 : ℕ → ℕ → ℕ → Fallible (Program ClientOp) ℤ
  unfolding send_metadata
  client_send_metadata_to_server1 fuel send_buf send_sz = send_metadata fuel send_buf send_sz

  -- The region and the attribute of the server are read without a test. 12 is a full send queue.
  unfoldable pub start_remote_write : ℕ → ℕ → Fallible (Program ClientOp) ℤ
  start_remote_write len offset = do
    p ← get
    mr ← deref p.own.client_src_mr
    let attr = p.own.server_metadata_attr
    let sge : MemoryRegion = record { addr = mr.addr; length = len % 2 ^ 32; lkey = mr.lkey }
    ret ←
        status_of lib
          (ibv_post_write p.own.client_qp sge ((attr.address + offset) % 2 ^ 64) attr.stag)
    if eqb_ℤ ret (pos 12) then call (sleep 1) else pure tt
    or_return (minus ret)
    pure (pos 0)

  -- The event that `process_rdma_cm_event` has stored when it failed: one that it acknowledged.
  abbrev stored_event : List RdmaCall → Option Event
  stored_event (rdma_ack_cm_event e ∷ calls) = some e
  stored_event _ = none

  abbrev event_in_hand : ℤ × Option Event → List RdmaCall → Option Event
  event_in_hand (ret, some e) calls = some e
  event_in_hand (ret, none) calls = stored_event calls

  -- All failures are printed and passed over. The event is acknowledged even if
  -- `process_rdma_cm_event` has failed; without any event the code hands `NULL` to
  -- `rdma_ack_cm_event`, which is a fault here.
  unfoldable pub client_disconnect_and_clean : Fallible (Program ClientOp) ℤ
  unfolding process_rdma_cm_event rdma_buffer_deregister
  client_disconnect_and_clean = do
    p ← get
    let s = p.own
    call (rdma_disconnect s.cm_client_id)
    ret ← attempt (process_rdma_cm_event lib s.cm_event_channel EventType.disconnected)
    q ← get
    e ← deref (event_in_hand ret q.calls)
    call (rdma_ack_cm_event e)
    call (rdma_destroy_qp s.cm_client_id)
    call (rdma_destroy_id s.cm_client_id)
    call (ibv_destroy_cq s.client_cq)
    call (ibv_destroy_comp_channel s.io_completion_channel)
    rdma_buffer_deregister lib s.server_metadata_mr
    rdma_buffer_deregister lib s.client_metadata_mr
    rdma_buffer_deregister lib s.client_src_mr
    rdma_buffer_deregister lib s.client_dst_mr
    call (free s.src)
    call (free s.dst)
    call (ibv_dealloc_pd s.pd)
    call (rdma_destroy_event_channel s.cm_event_channel)
    pure (pos 0)
