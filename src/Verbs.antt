-- ===== src/Verbs.antt =====
-- The calls that the RDMA code makes of librdmacm, libibverbs and the C library, and the part of
-- their data that it reads. `Library` is what those libraries answer, as a function of all calls
-- made so far, the last one first: nothing else is known of them.
use stellar_bench.Base.{ℕ, Bool, List, ◌∷◌, Option, none, some, ℤ, pos, eqb_ℤ, if◌then◌else◌}
use stellar_bench.Block.{Region}
use stellar_bench.Context.{Message, Mr}
use stellar_bench.Io.{Io, Outcome, returned, exited}

-- The opcodes of `ibv_send_wr` that the code uses.
pub data SendOpcode : Type 0 where
  send rdma_write rdma_read rdma_write_with_imm : SendOpcode

pub record Sge : Type 0 where
  pub addr : ℕ
  pub length : ℕ
  pub lkey : ℕ

-- `sge` is `none` where `sg_list` is `NULL` and `num_sge` is 0.
pub record SendWr : Type 0 where
  pub wr_id : ℕ
  pub opcode : SendOpcode
  pub signaled : Bool
  pub imm_data : ℕ
  pub remote_addr : ℕ
  pub rkey : ℕ
  pub sge : Option Sge

pub record RecvWr : Type 0 where
  pub wr_id : ℕ
  pub sge : Option Sge

pub data Access : Type 0 where
  local_write local_remote_write local_remote_read_write : Access

pub record ConnParam : Type 0 where
  pub initiator_depth : ℕ
  pub responder_resources : ℕ
  pub rnr_retry_count : ℕ
  pub retry_count : ℕ

-- A reliable connection; both queues complete on the same completion queue.
pub record QpInitAttr : Type 0 where
  pub send_cq : ℕ
  pub recv_cq : ℕ
  pub max_send_wr : ℕ
  pub max_recv_wr : ℕ
  pub max_send_sge : ℕ
  pub max_recv_sge : ℕ

-- Work on a queue pair is posted on that of the `rdma_cm_id` that stands first.
pub data Call : Type 0 where
  ibv_post_send : ℕ → SendWr → Call
  ibv_post_recv : ℕ → RecvWr → Call
  posix_memalign : ℕ → Call
  malloc_context : Call
  free : ℕ → Call
  ibv_reg_mr : ℕ → ℕ → ℕ → Access → Call
  ibv_dereg_mr : Mr → Call
  ibv_alloc_pd : ℕ → Call
  ibv_create_comp_channel : ℕ → Call
  ibv_create_cq : ℕ → ℕ → ℕ → Call
  ibv_req_notify_cq : ℕ → Call
  ibv_get_cq_event : ℕ → Call
  ibv_ack_cq_events : ℕ → ℕ → Call
  pthread_create : ℕ → Call
  getaddrinfo : ℕ → ℕ → Call
  freeaddrinfo : ℕ → Call
  rdma_create_event_channel : Call
  rdma_destroy_event_channel : ℕ → Call
  rdma_create_id : ℕ → Call
  rdma_bind_addr : ℕ → ℕ → Call
  rdma_listen : ℕ → ℕ → Call
  rdma_resolve_addr : ℕ → ℕ → ℕ → Call
  rdma_ack_cm_event : Call
  rdma_resolve_route : ℕ → ℕ → Call
  rdma_connect : ℕ → ConnParam → Call
  rdma_accept : ℕ → ConnParam → Call
  rdma_disconnect : ℕ → Call
  rdma_create_qp : ℕ → ℕ → QpInitAttr → Call
  rdma_destroy_qp : ℕ → Call
  rdma_destroy_id : ℕ → Call

-- What the last call of a list of calls returned: an `int`, a pointer (0 is `NULL`), a memory
-- region, new memory with whatever it holds, and a message in new memory. Then the byte order of
-- the network, and the two tests on the opcode of a completion.
pub record Library : Type 0 where
  pub status : List Call → ℤ
  pub pointer : List Call → ℕ
  pub region : List Call → Option Mr
  pub memory : List Call → Region
  pub message : List Call → Message
  pub htonl : ℕ → ℕ
  pub ntohl : ℕ → ℕ
  -- `opcode & IBV_WC_RECV`
  pub has_recv_bit : ℕ → Bool
  -- `opcode == IBV_WC_RECV_RDMA_WITH_IMM`
  pub is_recv_rdma_with_imm : ℕ → Bool

-- `struct ibv_wc`
pub record Wc : Type 0 where
  pub ok : Bool
  pub opcode : ℕ
  pub wr_id : ℕ
  pub imm_data : ℕ

-- `struct context` of common.h: what one end shares among its connections.
pub record SharedContext : Type 0 where
  pub ctx : ℕ
  pub pd : ℕ
  pub comp_channel : ℕ
  pub cq : ℕ

-- What a thread of one end changes: the context of its connection, `s_ctx` (`none` is `NULL`) and
-- the calls it has made.
pub record World (C : Type 0) : Type 0 where
  pub ctx : C
  pub s_ctx : Option SharedContext
  pub calls : List Call

abbrev pub call : {C : Type 0} → Call → Io (World C) (Unit {0})
call c w = returned tt (record w { calls = c ∷ w.calls })

module _ (lib : Library) where
  -- `TEST_NZ` on a call that returns an `int`.
  abbrev pub test_nz : {C : Type 0} → Call → Io (World C) (Unit {0})
  test_nz c w =
      let calls = c ∷ w.calls in
      if eqb_ℤ (lib.status calls) (pos 0)
      then returned tt (record w { calls = calls })
      else exited (record w { calls = calls })

  -- `TEST_Z` on a call that returns a pointer.
  abbrev pub test_z : {C : Type 0} → Call → Io (World C) ℕ
  test_z c w =
      let calls = c ∷ w.calls in
      let p = lib.pointer calls in
      if eqb_ℤ (pos p) (pos 0)
      then exited (record w { calls = calls })
      else returned p (record w { calls = calls })

  abbrev pub or_die : {C : Type 0} → World C → Option Mr → Outcome (World C) Mr
  or_die w none = exited w
  or_die w (some mr) = returned mr w

  -- `TEST_Z` on `ibv_reg_mr`.
  abbrev pub test_mr : {C : Type 0} → Call → Io (World C) Mr
  test_mr c w = let calls = c ∷ w.calls in or_die (record w { calls = calls }) (lib.region calls)

-- `enum rdma_cm_event_type`, with one constructor for the types that the code has no branch for.
pub data EventType : Type 0 where
  addr_resolved route_resolved connect_request established disconnected other : EventType

-- `struct rdma_cm_event`: its type, the address of its `rdma_cm_id` and that `id`'s `verbs`.
pub record CmEvent : Type 0 where
  pub event : EventType
  pub id : ℕ
  pub verbs : ℕ

-- `TIMEOUT_IN_MS` of common.h
abbrev pub timeout_in_ms : ℕ
timeout_in_ms = 500
