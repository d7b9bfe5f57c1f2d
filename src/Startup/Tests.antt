-- ===== src/Startup/Tests.antt =====
-- The theorems of Startup: a worker with a host and one without, a server with two workers.
use stellar_bench.Base.{
  ℕ, zero, suc, ◌%◌, ◌^◌, some_inj, replicate, ◌+◌, ◌*◌, ◌<◌, ◌≡◌, refl, some, none, pos, minus_one,
  List, [], ◌∷◌, length-replicate, arith,
}
use mathlib.Core.Path.{subst}
use stellar_bench.Block.{Block, default_worker_num, row_count, col_count, dim_count}
use stellar_bench.Memory.Laws.{AreWords}
use stellar_bench.Wire.RoundTrip.{IsRepresentable}
use stellar_bench.Cluster.Laid.{IsLaid, AllRepresentable}
use stellar_bench.Ps.{Ps}
use stellar_bench.Worker.{Worker}
use stellar_bench.Cluster.Refinement.{IsStart}
use stellar_bench.Delivery.Inputs.{
  p_part, q_part, p_part-IsRepresentable, q_part-IsRepresentable, server, trainer, alloc,
  no_message,
}
use stellar_bench.Startup.{Host, Ports, ps_ports, worker_ports, worker_send_loop, ps_start}
use stellar_bench.Startup.Wiring.{IsWired, wired}
use stellar_bench.Startup.Counters.{IsDeclared}
use stellar_bench.Startup.Places.{AreValues, IsMalloc}
use stellar_bench.Startup.Program.{AreRoomy, with_blocks, started_state, program_starts}
use stellar_bench.Startup.Blocks.{
  Values, p_value, q_value, HasValue, create_blocks, create_blocks-HasValue,
}

abbrev zeros : Ports
zeros = record { local_ports = λ i. 0; remote_ports = λ i. 0 }

wired_example : IsWired (ps_ports zeros) (worker_ports zeros) 5
wired_example = wired zeros zeros 5 (omega arith)

-- Worker 3 has a host, worker 4 has none.
hosts :
    ((worker_send_loop zeros 3).host ≡ some Host.host_12_12_11_13)
    × ((worker_send_loop zeros 4).host ≡ none)
unfolding worker_send_loop
hosts = (refl, refl)

abbrev globals : Ps
globals = record server { iter_t = pos 0; completed_iter = minus_one }

abbrev worker_globals : ℕ → Worker
worker_globals i = record trainer { iter_t = pos 0; completed_iter = minus_one }

-- The numbers in place of the bit patterns.
abbrev values : Values
values = record { tenth = 1; one = 10; of_int = λ i. i; mul = λ a b. a * b; add = λ a b. a + b }

create_blocks-HasValue_example :
    (ps' qs' : List Block) × (create_blocks values alloc 5 3 2 2
        (p_part ∷ p_part ∷ [])
        (q_part ∷ q_part ∷ [])
      ≡ some (ps', qs'))
    × ((j : ℕ) → j < 2 → HasValue ps' j (p_value values j) × HasValue qs' j (q_value values j))
create_blocks-HasValue_example =
    create_blocks-HasValue values alloc 5 3 2 2 (p_part ∷ p_part ∷ []) (q_part ∷ q_part ∷ [])
      (λ n. length-replicate n 0) (omega arith) (omega arith) (omega arith)

-- The program's own sizes, with four workers and an array of four slots.
abbrev wide : Ps
wide = record globals {
  p_blocks = replicate default_worker_num p_part;
  q_blocks = replicate default_worker_num q_part;
}

abbrev wrapping : Values
wrapping = record values { mul = λ a b. a * b % 2 ^ 64; add = λ a b. (a + b) % 2 ^ 64 }

wrapping-AreValues : AreValues wrapping
wrapping-AreValues = (λ a b. omega arith, λ a b. omega arith)

AreWords-zeros : (k : ℕ) → AreWords (replicate k 0)
AreWords-zeros zero = tt
AreWords-zeros (suc k) = (omega arith, AreWords-zeros k)

alloc-IsMalloc : IsMalloc alloc
alloc-IsMalloc k = (length-replicate k 0, AreWords-zeros k)

replicate-AllRepresentable :
    (k : ℕ) (b : Block) → IsRepresentable b → AllRepresentable (replicate k b)
replicate-AllRepresentable zero b r i c e = cc
replicate-AllRepresentable (suc k) b r zero c e = subst IsRepresentable (some_inj e) r
replicate-AllRepresentable (suc k) b r (suc i) c e = replicate-AllRepresentable k b r i c e

wide-IsDeclared : IsDeclared wide worker_globals
wide-IsDeclared = record {
  iter_t = refl;
  completed_iter = refl;
  can_send = λ i. refl;
  can_recv = λ i. refl;
  recved_age = λ i. refl;
  to_send_age = λ i. refl;
  computed = λ i. refl;
  worker_can_send = λ i. refl;
  worker_can_recv = λ i. refl;
}

wide-AreRoomy : AreRoomy default_worker_num wide worker_globals
wide-AreRoomy = record {
  p_room = omega arith;
  q_room = omega arith;
  p_patterns = replicate-AllRepresentable default_worker_num p_part p_part-IsRepresentable;
  q_patterns = replicate-AllRepresentable default_worker_num q_part q_part-IsRepresentable;
  at_workers = λ j. (p_part-IsRepresentable, q_part-IsRepresentable);
  small_down = λ j. omega arith;
  small_up = λ j. omega arith;
}

program_starts_example :
    (p : Ps) × (ps' qs' : List Block) × (ps_start (some default_worker_num) wide ≡ some p)
    × (create_blocks wrapping alloc row_count col_count dim_count default_worker_num p.p_blocks
          p.q_blocks
        ≡ some (ps', qs'))
    × IsStart default_worker_num
        (started_state (with_blocks p ps' qs') worker_globals (λ i. no_message))
    × IsLaid default_worker_num
        (started_state (with_blocks p ps' qs') worker_globals (λ i. no_message))
program_starts_example =
    program_starts wrapping alloc row_count col_count dim_count default_worker_num wide
      worker_globals (λ i. no_message) wrapping-AreValues alloc-IsMalloc (omega arith, omega arith)
      (omega arith, omega arith) (omega arith) (omega arith) wide-IsDeclared wide-AreRoomy
