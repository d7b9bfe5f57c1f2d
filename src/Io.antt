-- ===== src/Io.antt =====
-- Threads that call the libraries: a result, the end of the process (`rc_die` of common.cpp), or a
-- loop that waits for another thread.
use stellar_bench.Base.{Bool, if◌then◌else◌}

-- `S` is what the thread changes.
pub data Outcome {ℓ} (S : Type ℓ) (A : Type ℓ) : Type ℓ where
  returned : A → S → Outcome S A
  exited : S → Outcome S A
  waiting : S → Outcome S A

abbrev pub Io {ℓ} : Type ℓ → Type ℓ → Type ℓ
Io S A = S → Outcome S A

abbrev pub and_then {ℓ} :
    {S : Type ℓ} {A : Type ℓ} {B : Type ℓ} → Outcome S A → (A → Io S B) → Outcome S B
and_then (returned a s) f = f a s
and_then (exited s) f = exited s
and_then (waiting s) f = waiting s

infixl 5 ◌>>=◌ ◌>>◌
abbrev pub ◌>>=◌ {ℓ} : {S : Type ℓ} {A : Type ℓ} {B : Type ℓ} → Io S A → (A → Io S B) → Io S B
(m >>= f) s = and_then (m s) f

abbrev pub ◌>>◌ {ℓ} : {S : Type ℓ} {A : Type ℓ} {B : Type ℓ} → Io S A → Io S B → Io S B
(m >> k) s = and_then (m s) (λ _. k)

abbrev pub pure {ℓ} : {S : Type ℓ} {A : Type ℓ} → A → Io S A
pure a s = returned a s

abbrev pub get {ℓ} : {S : Type ℓ} → Io S S
get s = returned s s

abbrev pub modify : {S : Type 0} → (S → S) → Io S (Unit {0})
modify f s = returned tt (f s)

-- `rc_die`, less the message.
unfoldable pub rc_die : {S : Type 0} {A : Type 0} → Io S A
rc_die s = exited s

-- A loop that sleeps while the flag is down.
abbrev pub wait_for : {S : Type 0} → Bool → Io S (Unit {0})
wait_for flag s = if flag then returned tt s else waiting s
