-- ===== src/OneSided/Calls.antt =====
-- The calls that rdma_common.cpp, server_rdma_op.cpp and client_rdma_op.cpp make of librdmacm,
-- libibverbs and the C library, and `Answers`, what those answer as a function of all calls so far, the last one first.
use stellar_bench.Base.{ℕ, List, ◌∷◌, Option, ℤ, pos, eqb_ℤ, if◌then◌else◌}
use stellar_bench.Verbs.{EventType}
use stellar_bench.Fallible.{Fallible, next, stop, negate}

-- `struct ibv_mr`
pub record MemoryRegion : Type 0 where
  pub addr : ℕ
  pub length : ℕ
  pub lkey : ℕ

-- `struct rdma_buffer_attr`
pub record BufferAttr : Type 0 where
  pub address : ℕ
  pub length : ℕ
  pub stag : ℕ

-- `struct rdma_cm_event`
pub record Event : Type 0 where
  pub event : EventType
  pub status : ℤ
  pub id : ℕ

-- A permission is what `IBV_ACCESS_*` flags are joined.
pub data Permission : Type 0 where
  local_write remote_read_local_remote_write : Permission

pub data Poll : Type 0 where
  failed : ℕ → Poll
  reaped : List ℕ → Poll

-- `ibv_qp_cap`, without the field that the code leaves at zero.
pub record QpCapacity : Type 0 where
  pub max_recv_sge : ℕ
  pub max_recv_wr : ℕ
  pub max_send_sge : ℕ
  pub max_send_wr : ℕ

pub data RdmaCall : Type 0 where
  rdma_create_event_channel : RdmaCall
  rdma_destroy_event_channel : ℕ → RdmaCall
  rdma_create_id : ℕ → RdmaCall
  rdma_destroy_id : ℕ → RdmaCall
  rdma_bind_addr : ℕ → ℕ → RdmaCall
  rdma_listen : ℕ → ℕ → RdmaCall
  rdma_accept : ℕ → ℕ → ℕ → RdmaCall
  rdma_resolve_addr : ℕ → ℕ → ℕ → RdmaCall
  rdma_resolve_route : ℕ → ℕ → RdmaCall
  rdma_connect : ℕ → ℕ → ℕ → ℕ → RdmaCall
  rdma_disconnect : ℕ → RdmaCall
  rdma_get_cm_event : ℕ → RdmaCall
  rdma_ack_cm_event : Event → RdmaCall
  rdma_create_qp : ℕ → ℕ → ℕ → QpCapacity → RdmaCall
  rdma_destroy_qp : ℕ → RdmaCall
  ibv_alloc_pd : ℕ → RdmaCall
  ibv_dealloc_pd : ℕ → RdmaCall
  ibv_create_comp_channel : ℕ → RdmaCall
  ibv_destroy_comp_channel : ℕ → RdmaCall
  ibv_create_cq : ℕ → ℕ → ℕ → RdmaCall
  ibv_destroy_cq : ℕ → RdmaCall
  ibv_req_notify_cq : ℕ → RdmaCall
  ibv_get_cq_event : ℕ → RdmaCall
  ibv_ack_cq_events : ℕ → ℕ → RdmaCall
  ibv_poll_cq : ℕ → ℕ → RdmaCall
  ibv_reg_mr : ℕ → ℕ → ℕ → Permission → RdmaCall
  ibv_dereg_mr : MemoryRegion → RdmaCall
  ibv_post_recv : ℕ → MemoryRegion → RdmaCall
  ibv_post_send : ℕ → MemoryRegion → RdmaCall
  ibv_post_write : ℕ → MemoryRegion → ℕ → ℕ → RdmaCall
  getaddrinfo : ℕ → RdmaCall
  freeaddrinfo : ℕ → RdmaCall
  sleep : ℕ → RdmaCall
  malloc : ℕ → RdmaCall
  calloc : ℕ → RdmaCall
  free : ℕ → RdmaCall

-- What the last call of a list of calls returned, or stored through a pointer that it was given. A
-- poll has failed with a negative number, `failed n` with `negsuc n`, or has reaped work completions,
-- of which the code reads the status, 0 for success.
pub record Answers : Type 0 where
  pub status : List RdmaCall → ℤ
  pub errno : List RdmaCall → ℕ
  pub pointer : List RdmaCall → ℕ
  pub region : List RdmaCall → Option MemoryRegion
  pub event : List RdmaCall → Event
  pub poll : List RdmaCall → Poll
  -- `EINVAL` and `ENOMEM`
  pub einval : ℕ
  pub enomem : ℕ

-- A program's own state, and the calls it has made.
pub record Program (C : Type 0) : Type 0 where
  pub own : C
  pub calls : List RdmaCall

abbrev pub put : {C : Type 0} → (C → C) → Fallible (Program C) (Unit {0})
put f p = next tt (record p { own = f p.own })

abbrev pub get : {C : Type 0} → Fallible (Program C) (Program C)
get p = next p p

-- A call whose result the code does not look at, or only prints.
abbrev pub call : {C : Type 0} → RdmaCall → Fallible (Program C) (Unit {0})
call c p = next tt (record p { calls = c ∷ p.calls })

module _ (lib : Answers) where
  -- A call that returns an `int`.
  abbrev pub status_of : {C : Type 0} → RdmaCall → Fallible (Program C) ℤ
  status_of c p = let calls = c ∷ p.calls in next (lib.status calls) (record p { calls = calls })

  -- `-errno`
  abbrev pub minus_errno : {C : Type 0} {A : Type 0} → Fallible (Program C) A
  minus_errno p = stop (negate (lib.errno p.calls)) p

  -- A call of an `int` function, and `return -errno` unless it returns 0.
  abbrev pub check : {C : Type 0} → RdmaCall → Fallible (Program C) (Unit {0})
  check c p =
      let q = record p { calls = c ∷ p.calls } in
      if eqb_ℤ (lib.status q.calls) (pos 0) then next tt q else minus_errno q

  -- A call of a function that returns a pointer, and `return -errno` if that is `NULL`.
  abbrev pub check_pointer : {C : Type 0} → RdmaCall → Fallible (Program C) ℕ
  check_pointer c p =
      let q = record p { calls = c ∷ p.calls } in
      let ptr = lib.pointer q.calls in if eqb_ℤ (pos ptr) (pos 0) then minus_errno q else next ptr q
