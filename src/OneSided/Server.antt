-- ===== src/OneSided/Server.antt =====
-- server_rdma_op.cpp: the set-up of a connection to one client, the metadata that lets it write to
-- the server's buffer, and the end of the connection.
use stellar_bench.Base.{ℕ, ◌%◌, ◌^◌, Option, none, some, ℤ, pos, eqb_ℤ, ◌==◌, ◌||◌, if◌then◌else◌}
use stellar_bench.Verbs.{EventType}
use stellar_bench.Fallible.{
  Fallible, ◌>>=◌, ◌>>◌, pure, return, deref, negate, attempt, propagate, result_of,
}
use stellar_bench.OneSided.Calls.{
  Answers, Program, MemoryRegion, BufferAttr, QpCapacity, Event, local_write,
  remote_read_local_remote_write, put, get, call, check, check_pointer, status_of, minus_errno,
  rdma_create_event_channel, rdma_destroy_event_channel, rdma_create_id, rdma_destroy_id,
  rdma_bind_addr, rdma_listen, rdma_accept, rdma_ack_cm_event, rdma_create_qp, rdma_destroy_qp,
  ibv_alloc_pd, ibv_dealloc_pd, ibv_create_comp_channel, ibv_destroy_comp_channel, ibv_create_cq,
  ibv_destroy_cq, ibv_req_notify_cq, ibv_post_recv, ibv_post_send,
}
use stellar_bench.OneSided.Common.{
  minus, rdma_buffer_register, rdma_buffer_alloc1, rdma_buffer_deregister, rdma_buffer_free,
  process_rdma_cm_event, process_work_completion_events,
}

-- The members of `server_rdma_op`. The two attributes stand at fixed addresses of the object.
pub record ServerOp : Type 0 where
  pub cm_event_channel : ℕ
  pub cm_server_id : ℕ
  pub cm_client_id : ℕ
  pub pd : ℕ
  pub io_completion_channel : ℕ
  pub cq : ℕ
  pub client_qp : ℕ
  pub client_metadata_mr : Option MemoryRegion
  pub server_buffer_mr : Option MemoryRegion
  pub server_metadata_mr : Option MemoryRegion
  pub client_metadata_addr : ℕ
  pub server_metadata_addr : ℕ
  pub server_metadata_attr : BufferAttr

-- `sizeof(struct rdma_buffer_attr)`, which is packed.
abbrev pub attr_size : ℕ
attr_size = 16

module _ (lib : Answers) where
  abbrev capacity : QpCapacity
  capacity = record { max_recv_sge = 2; max_recv_wr = 8; max_send_sge = 2; max_send_wr = 8 }

  -- `ibv_*` calls on the client's device name its `rdma_cm_id`. `CQ_CAPACITY` is 16, `MAX_WR` 8 and
  -- `MAX_SGE` 2. The queue pair is what the call stored in the `rdma_cm_id`.
  unfoldable pub setup_client_resources : Fallible (Program ServerOp) ℤ
  setup_client_resources = do
    p ← get
    if p.own.cm_client_id == 0 then return (negate lib.einval) else (do
      let id = p.own.cm_client_id
      pd ← check_pointer lib (ibv_alloc_pd id)
      put (λ s. record s { pd = pd })
      channel ← check_pointer lib (ibv_create_comp_channel id)
      put (λ s. record s { io_completion_channel = channel })
      cq ← check_pointer lib (ibv_create_cq id 16 channel)
      put (λ s. record s { cq = cq })
      check lib (ibv_req_notify_cq cq)
      check lib (rdma_create_qp id pd cq capacity)
      q ← get
      put (λ s. record s { client_qp = lib.pointer q.calls })
      pure (pos 0))

  -- `address` stands for the socket address that the caller fills in.
  unfoldable pub start_rdma_server : ℕ → Fallible (Program ServerOp) ℤ
  unfolding process_rdma_cm_event
  start_rdma_server address = do
    channel ← check_pointer lib rdma_create_event_channel
    put (λ s. record s { cm_event_channel = channel })
    check lib (rdma_create_id channel)
    p ← get
    let server_id = lib.pointer p.calls
    put (λ s. record s { cm_server_id = server_id })
    check lib (rdma_bind_addr server_id address)
    check lib (rdma_listen server_id 8)
    ret ← attempt (process_rdma_cm_event lib channel EventType.connect_request)
    e ← propagate ret
    put (λ s. record s { cm_client_id = e.id })
    check lib (rdma_ack_cm_event e)
    pure (pos 0)

  -- After a failure of `process_rdma_cm_event` this returns `-errno`, not what that returned. With
  -- the result 0 and no event, which takes a failed call that leaves `errno` at 0, the code hands
  -- `NULL` to `rdma_ack_cm_event`: that is a fault here.
  abbrev established_or_errno : ℤ × Option Event → Fallible (Program ServerOp) Event
  established_or_errno (ret, e) = if eqb_ℤ ret (pos 0) then deref e else minus_errno lib

  abbrev or_enomem : Option MemoryRegion → Fallible (Program ServerOp) MemoryRegion
  or_enomem none = return (negate lib.enomem)
  or_enomem (some mr) = pure mr

  -- `if (ret) return ret;` on the result of `ibv_post_recv`.
  abbrev or_return : ℤ → Fallible (Program ServerOp) (Unit {0})
  or_return ret = if eqb_ℤ ret (pos 0) then pure tt else return ret

  -- `rdma_accept` has 3 for `initiator_depth` and for `responder_resources`.
  unfoldable pub accept_client_connection : Fallible (Program ServerOp) ℤ
  unfolding process_rdma_cm_event rdma_buffer_register
  accept_client_connection = do
    p ← get
    if (p.own.cm_client_id == 0) || (p.own.client_qp == 0) then return (negate lib.einval) else (do
      found ← rdma_buffer_register lib p.own.pd p.own.client_metadata_addr attr_size local_write
      put (λ s. record s { client_metadata_mr = found })
      mr ← or_enomem found
      ret ← status_of lib (ibv_post_recv p.own.client_qp mr)
      or_return ret
      check lib (rdma_accept p.own.cm_client_id 3 3)
      got ← attempt (process_rdma_cm_event lib p.own.cm_event_channel EventType.established)
      e ← established_or_errno got
      check lib (rdma_ack_cm_event e)
      pure (pos 0))

  -- `if (ret != 1) return ret;`
  abbrev one_completion : ℤ × Option ℕ → Fallible (Program ServerOp) (Unit {0})
  one_completion (ret, none) = return ret
  one_completion (ret, some n) = if n == 1 then pure tt else return (pos n)

  abbrev or_errno : Option MemoryRegion → Fallible (Program ServerOp) MemoryRegion
  or_errno none = minus_errno lib
  or_errno (some mr) = pure mr

  -- The region of the buffer is read without a test. `rdma_buffer_alloc1` takes 32 bits of the size.
  unfoldable pub send_server_metadata_to_client1 : ℕ → ℕ → ℕ → Fallible (Program ServerOp) ℤ
  unfolding process_work_completion_events rdma_buffer_alloc1 rdma_buffer_register
  send_server_metadata_to_client1 fuel buf_to_rwrite buf_sz = do
    p ← get
    ret ← attempt (process_work_completion_events lib fuel p.own.io_completion_channel 1)
    one_completion ret
    buffer ←
        rdma_buffer_alloc1 lib p.own.pd buf_to_rwrite (buf_sz % 2 ^ 32)
          remote_read_local_remote_write
    put (λ s. record s { server_buffer_mr = buffer })
    buffer_mr ← deref buffer
    put (λ s. record s {
      server_metadata_attr = record {
        address = buffer_mr.addr;
        length = buffer_mr.length;
        stag = buffer_mr.lkey;
      };
    })
    found ← rdma_buffer_register lib p.own.pd p.own.server_metadata_addr attr_size local_write
    put (λ s. record s { server_metadata_mr = found })
    mr ← or_errno found
    sent ← status_of lib (ibv_post_send p.own.client_qp mr)
    or_return (minus sent)
    pure (pos 0)

  -- The results of the calls that destroy and free are only printed.
  unfoldable pub disconnect_and_cleanup : Fallible (Program ServerOp) ℤ
  unfolding process_rdma_cm_event rdma_buffer_free rdma_buffer_deregister
  disconnect_and_cleanup = do
    p ← get
    let s = p.own
    got ← attempt (process_rdma_cm_event lib s.cm_event_channel EventType.disconnected)
    e ← propagate got
    check lib (rdma_ack_cm_event e)
    call (rdma_destroy_qp s.cm_client_id)
    call (rdma_destroy_id s.cm_client_id)
    call (ibv_destroy_cq s.cq)
    call (ibv_destroy_comp_channel s.io_completion_channel)
    rdma_buffer_free lib s.server_buffer_mr
    rdma_buffer_deregister lib s.server_metadata_mr
    rdma_buffer_deregister lib s.client_metadata_mr
    call (ibv_dealloc_pd s.pd)
    call (rdma_destroy_id s.cm_server_id)
    call (rdma_destroy_event_channel s.cm_event_channel)
    pure (pos 0)

  -- The four parts in turn, each with `if (ret) return ret;`. `address` stands for `INADDR_ANY` with
  -- the port; `local_ip` is not used.
  unfoldable pub rdma_server_init : ℕ → ℕ → ℕ → ℕ → Fallible (Program ServerOp) ℤ
  unfolding start_rdma_server setup_client_resources accept_client_connection
      send_server_metadata_to_client1
  rdma_server_init fuel address register_buf register_sz = do
    started ← result_of (start_rdma_server address)
    or_return started
    set ← result_of setup_client_resources
    or_return set
    accepted ← result_of accept_client_connection
    or_return accepted
    sent ← result_of (send_server_metadata_to_client1 fuel register_buf register_sz)
    or_return sent
    pure (pos 0)
