-- ===== src/OneSided/Common.antt =====
-- rdma_common.cpp: buffers and their registration, connection events, and work completions. A
-- pointer is a number, 0 is `NULL`; a pointer to a memory region is an option.
use stellar_bench.Base.{
  ℕ, zero, suc, ◌-◌, Bool, true, false, List, [], ◌∷◌, ◌++◌, length, Option, none, some, ℤ, pos,
  negsuc, minus_one, eqb_ℤ, leb, ◌==◌, if◌then◌else◌,
}
use stellar_bench.Verbs.{EventType}
use stellar_bench.Fallible.{Fallible, out_of_fuel, ◌>>=◌, ◌>>◌, pure, return, negate}
use stellar_bench.OneSided.Calls.{
  Answers, Program, MemoryRegion, Event, Permission, Poll, failed, reaped, get, call, check,
  rdma_get_cm_event, rdma_ack_cm_event, ibv_get_cq_event, ibv_req_notify_cq, ibv_poll_cq,
  ibv_ack_cq_events, ibv_reg_mr, ibv_dereg_mr, calloc, free, status_of, getaddrinfo, freeaddrinfo,
}

abbrev pub minus : ℤ → ℤ
minus (pos n) = negate n
minus (negsuc n) = pos (suc n)

abbrev pub same_event : EventType → EventType → Bool
same_event EventType.addr_resolved EventType.addr_resolved = true
same_event EventType.route_resolved EventType.route_resolved = true
same_event EventType.connect_request EventType.connect_request = true
same_event EventType.established EventType.established = true
same_event EventType.disconnected EventType.disconnected = true
same_event EventType.other EventType.other = true
same_event _ _ = false

module _ {C : Type 0} (lib : Answers) where
  unfoldable pub rdma_buffer_register :
      ℕ → ℕ → ℕ → Permission → Fallible (Program C) (Option MemoryRegion)
  rdma_buffer_register pd addr len permission =
      if pd == 0
      then pure none
      else (do call (ibv_reg_mr pd addr len permission); p ← get; pure (lib.region p.calls))

  -- `free` of the buffer when no region came of it.
  abbrev or_free : ℕ → Option MemoryRegion → Fallible (Program C) (Option MemoryRegion)
  or_free buf none = do call (free buf); pure none
  or_free buf (some mr) = pure (some mr)

  unfoldable pub rdma_buffer_alloc1 :
      ℕ → ℕ → ℕ → Permission → Fallible (Program C) (Option MemoryRegion)
  unfolding rdma_buffer_register
  rdma_buffer_alloc1 pd buf size permission =
      if pd == 0
      then pure none
      else if buf == 0
      then pure none
      else (do mr ← rdma_buffer_register pd buf size permission; or_free buf mr)

  unfoldable pub rdma_buffer_alloc : ℕ → ℕ → Permission → Fallible (Program C) (Option MemoryRegion)
  unfolding rdma_buffer_register
  rdma_buffer_alloc pd size permission = if pd == 0 then pure none else (do
    call (calloc size)
    p ← get
    let buf = lib.pointer p.calls
    if buf == 0
        then pure none
        else (do mr ← rdma_buffer_register pd buf size permission; or_free buf mr))

  unfoldable pub rdma_buffer_deregister : Option MemoryRegion → Fallible (Program C) (Unit {0})
  rdma_buffer_deregister none = pure tt
  rdma_buffer_deregister (some mr) = call (ibv_dereg_mr mr)

  unfoldable pub rdma_buffer_free : Option MemoryRegion → Fallible (Program C) (Unit {0})
  unfolding rdma_buffer_deregister
  rdma_buffer_free none = pure tt
  rdma_buffer_free (some mr) = do rdma_buffer_deregister (some mr); call (free mr.addr)

  -- The event is the result; the function returns 0 with it.
  unfoldable pub process_rdma_cm_event : ℕ → EventType → Fallible (Program C) Event
  process_rdma_cm_event echannel expected = do
    check lib (rdma_get_cm_event echannel)
    p ← get
    let e = lib.event p.calls
    if eqb_ℤ e.status (pos 0)
        then (if same_event e.event expected
            then pure e
            else (do call (rdma_ack_cm_event e); return minus_one))
        else (do call (rdma_ack_cm_event e); return (minus e.status))

  abbrev go_on :
      ℕ → (List ℕ → Fallible (Program C) (List ℕ)) → List ℕ → Poll → Fallible (Program C) (List ℕ)
  go_on max_wc again wc (failed n) = return (negsuc n)
  go_on max_wc again wc (reaped more) =
      if leb max_wc (length (wc ++ more)) then pure (wc ++ more) else again (wc ++ more)

  -- The loop of `process_work_completion_events`, with the completions reaped so far; `fuel` bounds
  -- the number of polls.
  unfoldable pub poll_all : ℕ → ℕ → ℕ → List ℕ → Fallible (Program C) (List ℕ)
  poll_all zero cq max_wc wc = out_of_fuel
  poll_all (suc fuel) cq max_wc wc = do
    call (ibv_poll_cq cq (max_wc - length wc))
    p ← get
    go_on max_wc (poll_all fuel cq max_wc) wc (lib.poll p.calls)

  -- The loop over the statuses.
  unfoldable pub check_all : List ℕ → Fallible (Program C) (Unit {0})
  check_all [] = pure tt
  check_all (status ∷ wc) = if status == 0 then check_all wc else return (negate status)

  -- `pointer` after `ibv_get_cq_event` is the queue; the result is the number of completions.
  unfoldable pub process_work_completion_events : ℕ → ℕ → ℕ → Fallible (Program C) ℕ
  unfolding poll_all check_all
  process_work_completion_events fuel comp_channel max_wc = do
    check lib (ibv_get_cq_event comp_channel)
    p ← get
    let cq = lib.pointer p.calls
    check lib (ibv_req_notify_cq cq)
    wc ← poll_all fuel cq max_wc []
    check_all wc
    call (ibv_ack_cq_events cq 1)
    pure (length wc)

  -- `dst` is a pointer. The result is the list that `getaddrinfo` stores, whose first address is copied
  -- to the caller before the list is freed; the function returns 0 with it.
  unfoldable pub get_addr : ℕ → Fallible (Program C) ℕ
  get_addr dst = do
    ret ← status_of lib (getaddrinfo dst)
    if eqb_ℤ ret (pos 0) then pure tt else return ret
    p ← get
    let res = lib.pointer p.calls
    call (freeaddrinfo res)
    pure res
