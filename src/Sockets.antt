-- ===== src/Sockets.antt =====
-- wait4connection, which ps.cpp and worker.cpp share but for what they print, and which no thread calls.
-- The library of sockets is the argument `lib`: what it answers may depend on the calls before. A failed
-- `assert` ends the process.
pub mod Binding
mod Tests
use stellar_bench.Base.{
  ℕ, zero, suc, Option, none, some, List, [], ◌∷◌, ◌>>=◌, ℤ, pos, leb_ℤ, if◌then◌else◌,
}

pub data SocketCall : Type 0 where
  socket : SocketCall
  bind : ℤ → ℕ → SocketCall
  listen : ℤ → ℕ → SocketCall
  accept : ℤ → SocketCall

-- The number that a call returns, by the calls before it, the last one first.
pub record Sockets : Type 0 where
  pub answer : SocketCall → List SocketCall → ℤ

pub data Waited : Type 0 where
  connected : ℤ → Waited
  aborted : Waited

module _ (lib : Sockets) where
  -- `do { check_ret = bind(...) } while (check_ret >= 0)`; `fuel` bounds the rounds. The result is the
  -- calls so far.
  unfoldable pub bind_while : ℕ → ℤ → ℕ → List SocketCall → Option (List SocketCall)
  bind_while zero fd port calls = none
  bind_while (suc fuel) fd port calls =
      let check_ret = lib.answer (bind fd port) calls in
      let again = bind_while fuel fd port (bind fd port ∷ calls) in
      if leb_ℤ (pos 0) check_ret then again else some (bind fd port ∷ calls)

  unfoldable pub wait4connection : ℕ → ℕ → List SocketCall → Option (Waited × List SocketCall)
  unfolding bind_while
  wait4connection fuel local_port calls = do
    let fd = lib.answer socket calls
    bound ← bind_while fuel fd local_port (socket ∷ calls)
    let check_ret = lib.answer (listen fd 5) bound
    let listening = listen fd 5 ∷ bound
    some (
        if leb_ℤ (pos 0) check_ret
        then (connected (lib.answer (accept fd) listening), accept fd ∷ listening)
        else (aborted, listening))
