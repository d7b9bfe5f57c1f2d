-- ===== src/Startup/Wiring.antt =====
-- The ports and hosts of the connections that the threads of both programs open.
use stellar_bench.Base.{
  ℕ, zero, suc, ◌+◌, ◌%◌, ◌≡◌, ◌≤◌, ◌<◌, ◌↔◌, ◌⊎◌, inl, inr, refl, sym, ap, ◌∙◌, true, false, some,
  none, ◌==◌, arith,
}
use stellar_bench.Block.{capacity}
use stellar_bench.Context.{update}
use stellar_bench.Startup.{
  Host, Ports, set_ports, ps_ports, worker_ports, remote_ips, ps_send_loop, worker_send_loop,
  ps_recv_loop, worker_recv_loop,
}

pub update_at : {A : Type 0} (f : ℕ → A) (i j : ℕ) (a : A) → i ≡ j → update f i a j ≡ a
update_at f i j a e = rw (is_same i j e) refl
  where
    is_same : (i j : ℕ) → i ≡ j → (i == j) ≡ true
    is_same i j e = ground arith

pub update_other : {A : Type 0} (f : ℕ → A) (i j : ℕ) (a : A) → ¬ (i ≡ j) → update f i a j ≡ f j
update_other f i j a e = rw (differs i j e) refl
  where
    differs : (i j : ℕ) → ¬ (i ≡ j) → (i == j) ≡ false
    differs i j e = ground arith

pub first_or_later : (i j : ℕ) → i ≤ j → (i ≡ j) ⊎ (i + 1 ≤ j)
first_or_later i j h = ground arith

module _ (local_base remote_base : ℕ) where
  set_ports-below :
      (left i : ℕ) (p : Ports) (j : ℕ)
      → j < i
      → let q = set_ports local_base remote_base left i p in
        (q.local_ports j ≡ p.local_ports j) × (q.remote_ports j ≡ p.remote_ports j)
  unfolding set_ports
  set_ports-below zero i p j h = (refl, refl)
  set_ports-below (suc left) i p j h =
      let (local_kept, remote_kept) = set_ports-below left (i + 1) _ j (omega arith) in
      (
        local_kept ∙ update_other p.local_ports i j (local_base + i) (λ e. omega arith),
        remote_kept ∙ update_other p.remote_ports i j (remote_base + i) (λ e. omega arith),
      )

  -- The loop sets each of its entries.
  set_ports-at :
      (left i : ℕ) (p : Ports) (j : ℕ)
      → i ≤ j
      → j < i + left
      → let q = set_ports local_base remote_base left i p in
        (q.local_ports j ≡ local_base + j) × (q.remote_ports j ≡ remote_base + j)
  unfolding set_ports
  set_ports-at zero i p j low high = absurd (omega arith)
  set_ports-at (suc left) i p j low high = elim (first_or_later i j low) [
    | inl first ↦
        let (local_kept, remote_kept) = set_ports-below left (i + 1) _ j (omega arith) in
        (
          local_kept
              ∙ update_at p.local_ports i j (local_base + i) first
              ∙ ap (λ (k : ℕ). local_base + k) first,
          remote_kept
              ∙ update_at p.remote_ports i j (remote_base + i) first
              ∙ ap (λ (k : ℕ). remote_base + k) first,
        )
    | inr later ↦ set_ports-at left (i + 1) _ j later (omega arith)
  ]

hosts_first : (i : ℕ) → i < 4 → remote_ips i ≡ some Host.host_12_12_11_13
hosts_first i h = ground arith

hosts_iff : (i : ℕ) → (remote_ips i ≡ none) ↔ (4 ≤ i)
hosts_iff i = ground arith

-- Both ends of a connection, with the entries of worker `i`.
pub record IsWired (ps worker : Ports) (i : ℕ) : Type 0 where
  pub down : (ps_send_loop ps i).port ≡ (worker_recv_loop worker i).port
  pub up : (worker_send_loop worker i).port ≡ (ps_recv_loop ps i).port
  pub same_ctx : (ps_send_loop ps i).ctx ≡ (worker_recv_loop worker i).ctx
  pub has_host : (ps_send_loop ps i).host ≡ some Host.host_12_12_11_13
  pub no_host : ((worker_send_loop worker i).host ≡ none) ↔ (4 ≤ i)

-- The server's thread for worker `i` connects to the port where that worker's thread listens, and the
-- worker's thread to the one where the server's thread for it listens. The server has a host for each
-- worker; the worker has none exactly if its index is 4 or more.
pub wired : (p q : Ports) (i : ℕ) → i < capacity → IsWired (ps_ports p) (worker_ports q) i
unfolding ps_ports worker_ports ps_send_loop worker_send_loop ps_recv_loop worker_recv_loop
wired p q i lt =
    let (ps_local, ps_remote) =
      set_ports-at 10000 20000 capacity 0 p i (omega arith) (omega arith) in
    let (worker_local, worker_remote) =
      set_ports-at 20000 10000 capacity 0 q i (omega arith) (omega arith) in
    record {
      down = ps_remote ∙ sym worker_local;
      up = worker_remote ∙ sym ps_local;
      same_ctx = refl;
      has_host = hosts_first (i % 4) (omega arith);
      no_host = hosts_iff i;
    }
