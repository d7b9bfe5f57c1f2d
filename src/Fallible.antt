-- ===== src/Fallible.antt =====
-- Functions of C that return an `int` early: the next statement, an early `return`, an access through
-- a null pointer, or a loop whose fuel is used up.
use stellar_bench.Base.{ℕ, zero, suc, Option, none, some, ℤ, pos, negsuc, eqb_ℤ, if◌then◌else◌}

pub data Step {ℓ} (S : Type ℓ) (A : Type ℓ) : Type ℓ where
  next : A → S → Step S A
  stop : ℤ → S → Step S A
  fault : S → Step S A
  out_of_fuel : S → Step S A

abbrev pub Fallible {ℓ} : Type ℓ → Type ℓ → Type ℓ
Fallible S A = S → Step S A

abbrev pub and_then {ℓ} :
    {S : Type ℓ} {A : Type ℓ} {B : Type ℓ} → Step S A → (A → Fallible S B) → Step S B
and_then (next a s) f = f a s
and_then (stop ret s) f = stop ret s
and_then (fault s) f = fault s
and_then (out_of_fuel s) f = out_of_fuel s

infixl 5 ◌>>=◌ ◌>>◌
abbrev pub ◌>>=◌ {ℓ} :
    {S : Type ℓ} {A : Type ℓ} {B : Type ℓ} → Fallible S A → (A → Fallible S B) → Fallible S B
(m >>= f) s = and_then (m s) f

abbrev pub ◌>>◌ {ℓ} :
    {S : Type ℓ} {A : Type ℓ} {B : Type ℓ} → Fallible S A → Fallible S B → Fallible S B
(m >> k) s = and_then (m s) (λ _. k)

abbrev pub pure {ℓ} : {S : Type ℓ} {A : Type ℓ} → A → Fallible S A
pure a s = next a s

abbrev pub return {ℓ} : {S : Type ℓ} {A : Type ℓ} → ℤ → Fallible S A
return ret s = stop ret s

abbrev pub null {ℓ} : {S : Type ℓ} {A : Type ℓ} → Fallible S A
null s = fault s

abbrev pub deref {ℓ} : {S : Type ℓ} {A : Type ℓ} → Option A → Fallible S A
deref none = null
deref (some a) = pure a

abbrev pub negate : ℕ → ℤ
negate zero = pos zero
negate (suc n) = negsuc n

abbrev pub caught {ℓ} : {S : Type ℓ} {A : Type ℓ} → Step S A → Step S (ℤ × Option A)
caught (next a s) = next (pos 0, some a) s
caught (stop ret s) = next (ret, none) s
caught (fault s) = fault s
caught (out_of_fuel s) = out_of_fuel s

-- A call of such a function: its result, 0 at the end, and what it stored through its pointer.
abbrev pub attempt {ℓ} : {S : Type ℓ} {A : Type ℓ} → Fallible S A → Fallible S (ℤ × Option A)
attempt m s = caught (m s)

-- `if (ret) return ret;`
abbrev pub propagate {ℓ} : {S : Type ℓ} {A : Type ℓ} → ℤ × Option A → Fallible S A
propagate (ret, a) = if eqb_ℤ ret (pos 0) then deref a else return ret

abbrev pub settled : {S : Type 0} → Step S ℤ → Step S ℤ
settled (stop ret s) = next ret s
settled (next ret s) = next ret s
settled (fault s) = fault s
settled (out_of_fuel s) = out_of_fuel s

-- A call of such a function by another one, which goes on with the `int`.
abbrev pub result_of : {S : Type 0} → Fallible S ℤ → Fallible S ℤ
result_of m s = settled (m s)
