-- ===== src/Base/Results.antt =====
-- What a run of a C function comes to.
use Prim.Native.Nat.{ℕ}
use mathlib.Core.Bool.{Bool, true, false}

-- `fault` is undefined behaviour, such as an access out of bounds; `exits` a call of `exit`;
-- `pending` a run that still waits, or that the given fuel does not finish.
pub data Outcome {ℓ} (A : Type ℓ) : Type ℓ where
  ok : A → Outcome A
  fault : Outcome A
  exits : ℕ → Outcome A
  pending : Outcome A

infixl 5 ◌>>=◌ ◌>>◌
abbrev pub ◌>>=◌ {ℓ κ} : {A : Type ℓ} {B : Type κ} → Outcome A → (A → Outcome B) → Outcome B
ok a >>= f = f a
fault >>= f = fault
exits c >>= f = exits c
pending >>= f = pending

abbrev pub ◌>>◌ {ℓ} : {B : Type ℓ} → Outcome (Unit {0}) → Outcome B → Outcome B
m >> k = m >>= λ _. k

-- What must hold for the run to be defined.
abbrev pub defined : Bool → Outcome (Unit {0})
defined true = ok tt
defined false = fault
