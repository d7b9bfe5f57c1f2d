-- ===== src/OneSided/Completions.antt =====
-- `process_work_completion_events` comes to an end, with all the completions that it was asked for.
use stellar_bench.Base.{ℕ, zero, suc, ◌≤◌, ◌≡◌, ◌⊎◌, List, [], ◌∷◌, length, ℤ}
use stellar_bench.Fallible.{Step, next, stop, ◌>>◌}
use stellar_bench.OneSided.Calls.{Answers, Program, RdmaCall, reaped, ibv_poll_cq}

-- A poll reaps at most the number of completions that it asks for, none at all included.
abbrev pub Reaps : Answers → Type 0
Reaps lib =
    (cq k : ℕ) (calls : List RdmaCall) (wc : List ℕ)
    → lib.poll (ibv_poll_cq cq k ∷ calls) ≡ reaped wc
    → length wc ≤ k

-- The calls after `n` more polls, one after another.
abbrev pub polls : ℕ → ℕ → ℕ → List RdmaCall → List RdmaCall
polls zero cq k calls = calls
polls (suc n) cq k calls = polls n cq k (ibv_poll_cq cq k ∷ calls)

-- Of the polls from `calls` on, number `n`, counted from 0, fails or reaps a completion.
abbrev pub Comes : Answers → ℕ → ℕ → ℕ → List RdmaCall → Type 0
Comes lib n cq k calls = ¬ (lib.poll (polls (suc n) cq k calls) ≡ reaped [])

-- No more than `idle` polls in a row come back with nothing.
abbrev pub IsPrompt : Answers → ℕ → Type 0
IsPrompt lib idle =
    (cq k : ℕ) (calls : List RdmaCall) → 1 ≤ k → (n : ℕ) × (n ≤ idle) × Comes lib n cq k calls

-- A function that has come to an end: with an error, or with a value that satisfies `P`.
abbrev pub Ends : {S : Type 0} {A : Type 0} → (A → Type 0) → Step S A → Type 0
Ends {S} {A} P run =
    ((ret : ℤ) × (s : S) × (run ≡ stop ret s)) ⊎ ((a : A) × (s : S) × (run ≡ next a s) × P a)

module _ {C : Type 0} (lib : Answers) (idle : ℕ) (reaps : Reaps lib)
    (prompt : IsPrompt lib idle) where
  abbrev Stops : {A : Type 0} → Step (Program C) A → Type 0
  Stops run = (ret : ℤ) × (s : Program C) × (run ≡ stop ret s)
