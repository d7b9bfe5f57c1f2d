-- ===== src/Startup.antt =====
-- How the server and the workers start: the first part of both `main`s, up to the loops, and the threads
-- that open the connections (`rdma_sendTd_loop` and `rdma_recvTd_loop`). A text of ps.cpp or worker.cpp
-- with an address is a `Host`; a null pointer to one is `none`. The threads that `main` starts on the way
-- find nothing to do until it comes to its loop.
pub mod Wiring
pub mod Counters
pub mod Blocks
pub mod Places
pub mod Program
mod Tests
use stellar_bench.Base.{
  ℕ, zero, suc, ◌+◌, ◌%◌, false, Option, some, none, ltb, if◌then◌else◌, ◌>>=◌, pos, minus_one,
}
use stellar_bench.Block.{capacity, default_worker_num}
use stellar_bench.Context.{ClientContext, ConnContext, update, init_context}
use stellar_bench.Ps.{Ps}
use stellar_bench.Worker.{Worker}

-- The only address in the sources.
pub data Host : Type 0 where
  host_12_12_11_13 : Host

-- `local_ports` and `remote_ports`
pub record Ports : Type 0 where
  pub local_ports : ℕ → ℕ
  pub remote_ports : ℕ → ℕ

-- The loop of `main` that sets the ports, from entry `i` on, with the entries that are left.
unfoldable pub set_ports : ℕ → ℕ → ℕ → ℕ → Ports → Ports
set_ports local_base remote_base zero i p = p
set_ports local_base remote_base (suc left) i p =
    set_ports local_base remote_base left (i + 1) (record {
      local_ports = update p.local_ports i (local_base + i);
      remote_ports = update p.remote_ports i (remote_base + i);
    })

unfoldable pub ps_ports : Ports → Ports
unfolding set_ports
ps_ports p = set_ports 10000 20000 capacity 0 p

unfoldable pub worker_ports : Ports → Ports
unfolding set_ports
worker_ports p = set_ports 20000 10000 capacity 0 p

-- `remote_ips`: the initialiser gives the first four entries.
abbrev pub remote_ips : ℕ → Option Host
remote_ips i = if ltb i 4 then some Host.host_12_12_11_13 else none

-- What a thread hands to `rc_client_loop`, and to `rc_server_loop`: the host, the port, and the index of
-- the context.
pub record ClientLoop : Type 0 where
  pub host : Option Host
  pub port : ℕ
  pub ctx : ℕ

pub record ServerLoop : Type 0 where
  pub port : ℕ
  pub ctx : ℕ

unfoldable pub ps_send_loop : Ports → ℕ → ClientLoop
ps_send_loop p send_thread_id = record {
  host = remote_ips (send_thread_id % default_worker_num);
  port = p.remote_ports send_thread_id;
  ctx = send_thread_id;
}

unfoldable pub worker_send_loop : Ports → ℕ → ClientLoop
worker_send_loop p send_thread_id = record {
  host = remote_ips send_thread_id;
  port = p.remote_ports send_thread_id;
  ctx = send_thread_id;
}

unfoldable pub ps_recv_loop : Ports → ℕ → ServerLoop
ps_recv_loop p recv_thread_id = record { port = p.local_ports recv_thread_id; ctx = recv_thread_id }

unfoldable pub worker_recv_loop : Ports → ℕ → ServerLoop
worker_recv_loop p recv_thread_id = record {
  port = p.local_ports recv_thread_id;
  ctx = recv_thread_id;
}

-- The loop of the server's `main` over the workers: a write past the arrays is a fault.
unfoldable pub reset_workers : ℕ → ℕ → Ps → Option Ps
reset_workers zero i s = some s
reset_workers (suc left) i s =
    let rest = reset_workers left (i + 1) (record s {
      recved_iter = update s.recved_iter i minus_one;
      to_send_iter = update s.to_send_iter i (pos 0);
      worker_pidx = update s.worker_pidx i i;
      worker_qidx = update s.worker_qidx i i;
    }) in
    if ltb i capacity then rest else none

-- `worker_num`, with the program's argument when it has one.
abbrev pub count_workers : Option ℕ → ℕ → ℕ
count_workers none worker_num = worker_num
count_workers (some arg) worker_num = arg

-- The server's `main` up to the start of the threads.
unfoldable pub ps_start : Option ℕ → Ps → Option Ps
unfolding reset_workers
ps_start arg s =
    let ctx = init_context capacity 0 s.c_ctx s.s_ctx in
    let n = count_workers arg s.worker_num in
    reset_workers n 0 (record s { c_ctx = ctx.0; s_ctx = ctx.1; worker_num = n })

-- A worker's `InitContext`, at the index that it uses, and the last statement before its loop.
unfoldable pub worker_start : Worker → Worker
worker_start w = record w {
  c_ctx = record (w.c_ctx) { buf_registered = false; buf_write_counter = 0 };
  s_ctx = record (w.s_ctx) { buf_registered = false; buf_recv_counter = 0 };
  iter_t = pos 0;
}
