-- ===== src/Sockets/Tests.antt =====
-- A port that is in use, and one that is free until the socket is bound to it.
use stellar_bench.Base.{◌≡◌, refl, some, List, [], ◌∷◌, ℤ, pos, minus_one, arith}
use stellar_bench.Sockets.{
  SocketCall, socket, bind, listen, accept, Sockets, connected, wait4connection,
}
use stellar_bench.Sockets.Binding.{wait4connection-attempts}

-- A second `bind` of the same socket fails.
abbrev answers : ℤ → SocketCall → List SocketCall → ℤ
answers first socket calls = pos 3
answers first (bind fd port) (bind fd' port' ∷ calls) = minus_one
answers first (bind fd port) calls = first
answers first (listen fd n) calls = pos 0
answers first (accept fd) calls = pos 4

abbrev in_use : Sockets
in_use = record { answer = answers minus_one }

abbrev free : Sockets
free = record { answer = answers (pos 0) }

-- The socket that listens was never bound.
unbound :
    wait4connection in_use 9 10000 []
    ≡ some (connected (pos 4), accept (pos 3) ∷ listen (pos 3) 5 ∷ bind (pos 3) 10000 ∷ socket ∷ [])
unfolding wait4connection
unbound = refl

wait4connection-attempts_example :
    wait4connection free 9 10000 []
    ≡ some (
      connected (pos 4),
      accept (pos 3) ∷ listen (pos 3) 5 ∷ bind (pos 3) 10000 ∷ bind (pos 3) 10000 ∷ socket ∷ [],
    )
wait4connection-attempts_example =
    wait4connection-attempts free 1 9 10000 [] (omega arith) (refl, refl)
