-- ===== src/TwoSided/Server/Events.antt =====
-- Connection set-up of rdma_two_sided_server_op.cpp: `server_build_*`, and the event loop over the events
-- that `rdma_get_cm_event` delivers before it fails.
use stellar_bench.Base.{ℕ, Bool, false, Option, none, some, List, [], ◌∷◌, ◌==◌, if◌then◌else◌}
use stellar_bench.Io.{Io, ◌>>=◌, ◌>>◌, pure, get, modify, rc_die}
use stellar_bench.Verbs.{
  Library, SharedContext, ConnParam, QpInitAttr, EventType, CmEvent, timeout_in_ms, malloc_context,
  ibv_alloc_pd, ibv_create_comp_channel, ibv_create_cq, ibv_req_notify_cq, pthread_create,
  rdma_ack_cm_event, rdma_resolve_route, rdma_connect, rdma_accept, rdma_create_qp, rdma_destroy_qp,
  rdma_destroy_id, rdma_create_event_channel, rdma_destroy_event_channel, rdma_create_id,
  rdma_bind_addr, rdma_listen, call, test_nz, test_z,
}
use stellar_bench.TwoSided.Server.{
  ServerWorld, server_on_pre_conn, server_on_connection, server_on_disconnect,
}

-- The code leaves the fields that it does not name at zero.
unfoldable pub server_build_params : ConnParam
server_build_params = record {
  initiator_depth = 1;
  responder_resources = 1;
  rnr_retry_count = 7;
  retry_count = 7;
}

unfoldable pub server_build_qp_attr : SharedContext → QpInitAttr
server_build_qp_attr s_ctx = record {
  send_cq = s_ctx.cq;
  recv_cq = s_ctx.cq;
  max_send_wr = 10;
  max_recv_wr = 10;
  max_send_sge = 1;
  max_recv_sge = 1;
}

module _ (lib : Library) where
  -- The first connection makes the shared context and starts the poll thread on its channel. What
  -- `malloc` returns is not looked at.
  unfoldable pub new_context : ℕ → Io ServerWorld SharedContext
  new_context verbs = do
    call malloc_context
    pd ← test_z lib (ibv_alloc_pd verbs)
    comp_channel ← test_z lib (ibv_create_comp_channel verbs)
    cq ← test_z lib (ibv_create_cq verbs 10 comp_channel)
    test_nz lib (ibv_req_notify_cq cq)
    test_nz lib (pthread_create comp_channel)
    pure (record { ctx = verbs; pd = pd; comp_channel = comp_channel; cq = cq })

  unfoldable pub shared_context : ℕ → Option SharedContext → Io ServerWorld SharedContext
  unfolding new_context
  shared_context verbs none = new_context verbs
  shared_context verbs (some s_ctx) = if s_ctx.ctx == verbs then pure s_ctx else rc_die

  unfoldable pub server_build_context : ℕ → Io ServerWorld SharedContext
  unfolding shared_context
  server_build_context verbs = do
    w ← get
    s_ctx ← shared_context verbs w.s_ctx
    modify (λ v. record v { s_ctx = some s_ctx })
    pure s_ctx

  -- With the shared context that the caller uses next.
  unfoldable pub server_build_connection : ℕ → ℕ → Io ServerWorld SharedContext
  unfolding server_build_context
  server_build_connection id verbs = do
    s_ctx ← server_build_context verbs
    test_nz lib (rdma_create_qp id s_ctx.pd (server_build_qp_attr s_ctx))
    pure s_ctx

  -- The branches of the loop, with whether it is left.
  unfoldable pub server_on_event : Bool → ℕ → ℕ → EventType → Io ServerWorld Bool
  unfolding server_build_connection
  server_on_event exit_on_disconnect id verbs EventType.addr_resolved = do
    s_ctx ← server_build_connection id verbs
    server_on_pre_conn lib id s_ctx.pd
    test_nz lib (rdma_resolve_route id timeout_in_ms)
    pure false
  server_on_event exit_on_disconnect id verbs EventType.route_resolved = do
    test_nz lib (rdma_connect id server_build_params)
    pure false
  server_on_event exit_on_disconnect id verbs EventType.connect_request = do
    s_ctx ← server_build_connection id verbs
    server_on_pre_conn lib id s_ctx.pd
    test_nz lib (rdma_accept id server_build_params)
    pure false
  server_on_event exit_on_disconnect id verbs EventType.established = do
    server_on_connection lib id
    pure false
  server_on_event exit_on_disconnect id verbs EventType.disconnected = do
    call (rdma_destroy_qp id)
    server_on_disconnect lib id
    call (rdma_destroy_id id)
    pure exit_on_disconnect
  server_on_event exit_on_disconnect id verbs EventType.other = rc_die

  -- An event is copied and acknowledged before it is looked at.
  unfoldable pub server_event_loop : Bool → List CmEvent → Io ServerWorld (Unit {0})
  unfolding server_on_event
  server_event_loop exit_on_disconnect [] = pure tt
  server_event_loop exit_on_disconnect (e ∷ es) = do
    call rdma_ack_cm_event
    left ← server_on_event exit_on_disconnect e.id e.verbs e.event
    if left then pure tt else server_event_loop exit_on_disconnect es

  -- `address` is any address with the port that the caller names. `rdma_create_id` stores the
  -- listener through a pointer. The loop goes on after a disconnect.
  unfoldable pub rc_server_loop : ℕ → List CmEvent → Io ServerWorld (Unit {0})
  unfolding server_event_loop
  rc_server_loop address events = do
    ec ← test_z lib rdma_create_event_channel
    test_nz lib (rdma_create_id ec)
    w ← get
    let listener = lib.pointer w.calls
    test_nz lib (rdma_bind_addr listener address)
    test_nz lib (rdma_listen listener 10)
    server_event_loop false events
    call (rdma_destroy_id listener)
    call (rdma_destroy_event_channel ec)
