-- ===== src/TwoSided/Client/Events.antt =====
-- Connection set-up of rdma_two_sided_client_op.cpp: `client_build_*`, and the event loop over the events
-- that `rdma_get_cm_event` delivers before it fails.
use stellar_bench.Base.{
  ℕ, Bool, true, false, Option, none, some, List, [], ◌∷◌, ◌==◌, if◌then◌else◌,
}
use stellar_bench.Io.{Io, ◌>>=◌, ◌>>◌, pure, get, modify, rc_die}
use stellar_bench.Verbs.{
  Library, SharedContext, ConnParam, QpInitAttr, EventType, CmEvent, timeout_in_ms, malloc_context,
  ibv_alloc_pd, ibv_create_comp_channel, ibv_create_cq, ibv_req_notify_cq, pthread_create,
  rdma_ack_cm_event, rdma_resolve_route, rdma_connect, rdma_accept, rdma_create_qp, rdma_destroy_qp,
  rdma_destroy_id, getaddrinfo, freeaddrinfo, rdma_create_event_channel, rdma_destroy_event_channel,
  rdma_create_id, rdma_resolve_addr, call, test_nz, test_z,
}
use stellar_bench.TwoSided.Client.{ClientWorld, client_on_pre_conn}

-- The code leaves the fields that it does not name at zero.
unfoldable pub client_build_params : ConnParam
client_build_params = record {
  initiator_depth = 1;
  responder_resources = 1;
  rnr_retry_count = 7;
  retry_count = 7;
}

unfoldable pub client_build_qp_attr : SharedContext → QpInitAttr
client_build_qp_attr s_ctx = record {
  send_cq = s_ctx.cq;
  recv_cq = s_ctx.cq;
  max_send_wr = 10;
  max_recv_wr = 10;
  max_send_sge = 1;
  max_recv_sge = 1;
}

module _ (lib : Library) where
  -- The first connection makes the shared context and starts the poll thread on its channel. What
  -- `malloc` returns is not looked at.
  unfoldable pub new_context : ℕ → Io ClientWorld SharedContext
  new_context verbs = do
    call malloc_context
    pd ← test_z lib (ibv_alloc_pd verbs)
    comp_channel ← test_z lib (ibv_create_comp_channel verbs)
    cq ← test_z lib (ibv_create_cq verbs 10 comp_channel)
    test_nz lib (ibv_req_notify_cq cq)
    test_nz lib (pthread_create comp_channel)
    pure (record { ctx = verbs; pd = pd; comp_channel = comp_channel; cq = cq })

  unfoldable pub shared_context : ℕ → Option SharedContext → Io ClientWorld SharedContext
  unfolding new_context
  shared_context verbs none = new_context verbs
  shared_context verbs (some s_ctx) = if s_ctx.ctx == verbs then pure s_ctx else rc_die

  unfoldable pub client_build_context : ℕ → Io ClientWorld SharedContext
  unfolding shared_context
  client_build_context verbs = do
    w ← get
    s_ctx ← shared_context verbs w.s_ctx
    modify (λ v. record v { s_ctx = some s_ctx })
    pure s_ctx

  -- With the shared context that the caller uses next.
  unfoldable pub client_build_connection : ℕ → ℕ → Io ClientWorld SharedContext
  unfolding client_build_context
  client_build_connection id verbs = do
    s_ctx ← client_build_context verbs
    test_nz lib (rdma_create_qp id s_ctx.pd (client_build_qp_attr s_ctx))
    pure s_ctx

  -- The branches of the loop, with whether it is left.
  unfoldable pub client_on_event : Bool → ℕ → ℕ → EventType → Io ClientWorld Bool
  unfolding client_build_connection
  client_on_event exit_on_disconnect id verbs EventType.addr_resolved = do
    s_ctx ← client_build_connection id verbs
    client_on_pre_conn lib id s_ctx.pd
    test_nz lib (rdma_resolve_route id timeout_in_ms)
    pure false
  client_on_event exit_on_disconnect id verbs EventType.route_resolved = do
    test_nz lib (rdma_connect id client_build_params)
    pure false
  client_on_event exit_on_disconnect id verbs EventType.connect_request = do
    s_ctx ← client_build_connection id verbs
    client_on_pre_conn lib id s_ctx.pd
    test_nz lib (rdma_accept id client_build_params)
    pure false
  client_on_event exit_on_disconnect id verbs EventType.established = pure false
  client_on_event exit_on_disconnect id verbs EventType.disconnected = do
    call (rdma_destroy_qp id)
    call (rdma_destroy_id id)
    pure exit_on_disconnect
  client_on_event exit_on_disconnect id verbs EventType.other = rc_die

  -- An event is copied and acknowledged before it is looked at.
  unfoldable pub client_event_loop : Bool → List CmEvent → Io ClientWorld (Unit {0})
  unfolding client_on_event
  client_event_loop exit_on_disconnect [] = pure tt
  client_event_loop exit_on_disconnect (e ∷ es) = do
    call rdma_ack_cm_event
    left ← client_on_event exit_on_disconnect e.id e.verbs e.event
    if left then pure tt else client_event_loop exit_on_disconnect es

  -- `host` and `port` are pointers. `getaddrinfo` and `rdma_create_id` store the address and the
  -- connection that they make through a pointer. The loop ends on a disconnect.
  unfoldable pub rc_client_loop : ℕ → ℕ → List CmEvent → Io ClientWorld (Unit {0})
  unfolding client_event_loop
  rc_client_loop host port events = do
    test_nz lib (getaddrinfo host port)
    w ← get
    let addr = lib.pointer w.calls
    ec ← test_z lib rdma_create_event_channel
    test_nz lib (rdma_create_id ec)
    v ← get
    let conn = lib.pointer v.calls
    test_nz lib (rdma_resolve_addr conn addr timeout_in_ms)
    call (freeaddrinfo addr)
    client_event_loop true events
    call (rdma_destroy_event_channel ec)
