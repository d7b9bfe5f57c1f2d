-- ===== src/Round/Progress.antt =====
-- Only a lost message stops the protocol: in every reachable state without one, some thread can step.
use mathlib.Core.Path.{subst, sym}
use stellar_bench.Base.{
  ℕ, zero, suc, ◌+◌, ◌≤◌, ◌<◌, ◌≡◌, ◌⊎◌, inl, inr, arith, refl, dec_lt, ℕ_discrete,
}
use stellar_bench.Ps.Guards.{can_merge-taken, can_send_iff}
use stellar_bench.Worker.Guards.{can_compute_iff, can_send_iff as worker_can_send_iff}
use stellar_bench.Round.{
  ClientPc, polling, spinning, posted, ServerPc, idle, waiting, Link, Move, receive, post, clear,
  arrive, answer, take, System, Step, merge, send, move_down, compute, reply, move_up, Reach,
}
use stellar_bench.Round.Invariant.{Reach-Inv, PairInv, LinkInv, writes, raised}
use stellar_bench.Round.LostWakeup.{IsLost}

abbrev CanMove : Link → Type 0
CanMove l = (l' : Link) × Move l l'

-- The poll threads of a link with a message under way.
poll-CanMove :
    (l : Link) (c : ClientPc) (v : ServerPc)
    → l.client ≡ c
    → l.server ≡ v
    → LinkInv l
    → l.to_send ≤ writes l + raised l
    → l.taken ≡ l.recv_counter
    → l.recv_counter < l.to_send
    → CanMove l
poll-CanMove l polling idle ec es v sent e lt = elim (dec_lt 0 l.in_flight) [
  | yes h ↦ (_, arrive es h)
  | no h ↦ (_, receive ec (ground arith))
]
poll-CanMove l polling waiting ec es v sent e lt = (_, answer es (v.allowed (ground arith)))
poll-CanMove l spinning idle ec es v sent e lt = (_, post ec (ground arith))
poll-CanMove l spinning waiting ec es v sent e lt = absurd (ground arith)
poll-CanMove l posted idle ec es v sent e lt = (_, clear ec)
poll-CanMove l posted waiting ec es v sent e lt = (_, clear ec)

link-CanMove : (l : Link) → LinkInv l → ¬ IsLost l → l.taken < l.to_send → CanMove l
link-CanMove l v kept lt = elim (dec_lt l.taken l.recv_counter) [
  | yes h ↦ (_, take h)
  | no all ↦
      poll-CanMove l l.client l.server refl refl v (omega arith) (omega (arith, v.in_order))
        (omega (arith, v.in_order))
]

-- The tests of `CanMerge` hold, or some worker holds the merge back.
late_or_all :
    (completed : ℕ) (taken : ℕ → ℕ) (n : ℕ)
    → ((i : ℕ) → i < n → completed ≤ taken i) ⊎ ((i : ℕ) × (i < n) × (taken i < completed))
late_or_all completed taken zero = inl (λ i lt. elim lt [ ])
late_or_all completed taken (suc n) = elim (late_or_all completed taken n) [
  | inr (i, lt, late) ↦ inr (i, omega arith, late)
  | inl all ↦ elim (dec_lt (taken n) completed) [
    | yes late ↦ inr (n, omega arith, late)
    | no fine ↦ inl (λ i lt. elim (ℕ_discrete i n) [
      | yes same ↦ subst (λ k. completed ≤ taken k) (sym same) (omega arith)
      | no other ↦ all i (omega arith)
    ])
  ]
]

-- A worker whose reply is outstanding has a step to make, or the server has one for it.
pair-Step :
    (n : ℕ) (s : System) (i : ℕ)
    → i < n
    → PairInv s.completed (s.pair i)
    → ¬ IsLost (s.pair i).down
    → ¬ IsLost (s.pair i).up
    → (s.pair i).up.taken < s.completed
    → (t : System) × Step n s t
pair-Step n s i lt v down up late = elim (dec_lt (s.pair i).down.to_send s.completed) [
  | yes h ↦ (_, send i lt ((can_send_iff (s.pair i).down.to_send s.completed).1 h))
  | no issued ↦ elim (dec_lt (s.pair i).down.taken (s.pair i).down.to_send) [
    | yes h ↦ let (l, m) = link-CanMove (s.pair i).down v.down down h in (_, move_down i lt m)
    | no taken ↦ elim (dec_lt (s.pair i).computed (s.pair i).down.taken) [
      | yes h ↦ (_, compute i lt ((can_compute_iff (s.pair i).computed (s.pair i).down.taken).1 h))
      | no computed ↦ elim (dec_lt (s.pair i).up.to_send (s.pair i).computed) [
        | yes h ↦ (
          _,
          reply i lt
              ((worker_can_send_iff (s.pair i).up.to_send (s.pair i).computed).1 (omega arith)),
        )
        | no replied ↦
            let (l, m) = link-CanMove (s.pair i).up v.up up (omega arith) in (_, move_up i lt m)
      ]
    ]
  ]
]

-- In a reachable state in which no link has lost a message, some thread can take a step.
pub no_deadlock :
    (n : ℕ) (s : System)
    → Reach n s
    → ((i : ℕ) → i < n → (¬ IsLost (s.pair i).down) × (¬ IsLost (s.pair i).up))
    → (t : System) × Step n s t
no_deadlock n s r kept = elim (late_or_all s.completed (λ i. (s.pair i).up.taken) n) [
  | inl all ↦ (_, merge ((can_merge-taken s.completed (λ i. (s.pair i).up.taken) n).1 all))
  | inr (i, lt, late) ↦ pair-Step n s i lt (Reach-Inv r i lt) (kept i lt).0 (kept i lt).1 late
]
