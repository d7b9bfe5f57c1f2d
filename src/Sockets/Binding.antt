-- ===== src/Sockets/Binding.antt =====
-- How often wait4connection binds, and what comes of it.
use stellar_bench.Base.{
  ℕ, zero, suc, ◌≡◌, ◌<◌, refl, true, false, some, List, ◌∷◌, ℤ, pos, leb_ℤ, if◌then◌else◌, arith,
}
use stellar_bench.Sockets.{
  SocketCall, socket, bind, listen, accept, Sockets, connected, aborted, bind_while,
  wait4connection,
}

-- `n` calls of `bind` after the calls `calls`.
abbrev pub binds : ℕ → ℤ → ℕ → List SocketCall → List SocketCall
binds zero fd port calls = calls
binds (suc n) fd port calls = binds n fd port (bind fd port ∷ calls)

-- The next `n` calls of `bind` succeed and the one after them fails.
abbrev pub FailsAfter : Sockets → ℕ → ℤ → ℕ → List SocketCall → Type 0
FailsAfter lib zero fd port calls = leb_ℤ (pos 0) (lib.answer (bind fd port) calls) ≡ false
FailsAfter lib (suc n) fd port calls =
    (leb_ℤ (pos 0) (lib.answer (bind fd port) calls) ≡ true)
    × FailsAfter lib n fd port (bind fd port ∷ calls)

module _ (lib : Sockets) where
  bind_while-binds :
      (n fuel : ℕ) (fd : ℤ) (port : ℕ) (calls : List SocketCall)
      → n < fuel
      → FailsAfter lib n fd port calls
      → bind_while lib fuel fd port calls ≡ some (binds (suc n) fd port calls)
  unfolding bind_while
  bind_while-binds n zero fd port calls enough fails = absurd (omega arith)
  bind_while-binds zero (suc fuel) fd port calls enough fails = rw fails refl
  bind_while-binds (suc n) (suc fuel) fd port calls enough fails =
      rw (fails.0) (bind_while-binds n fuel fd port (bind fd port ∷ calls) (omega arith) fails.1)

  -- When `bind` fails after `n` calls that succeed, wait4connection binds `n + 1` times, for any fuel
  -- above `n`, listens after the failure, and then accepts a connection if it listens and aborts if it
  -- cannot.
  pub wait4connection-attempts :
      (n fuel port : ℕ) (calls : List SocketCall)
      → n < fuel
      → FailsAfter lib n (lib.answer socket calls) port (socket ∷ calls)
      → let fd = lib.answer socket calls in
        let listening = listen fd 5 ∷ binds (suc n) fd port (socket ∷ calls) in
        wait4connection lib fuel port calls
        ≡ some (
            if leb_ℤ (pos 0) (lib.answer (listen fd 5) (binds (suc n) fd port (socket ∷ calls)))
            then (connected (lib.answer (accept fd) listening), accept fd ∷ listening)
            else (aborted, listening))
  unfolding wait4connection
  wait4connection-attempts n fuel port calls enough fails =
      rw (bind_while-binds n fuel (lib.answer socket calls) port (socket ∷ calls) enough fails) refl
