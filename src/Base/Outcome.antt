-- ===== src/Base/Outcome.antt =====
-- How a call of C code ends.
use mathlib.Core.Bool.{Bool, true, false}

-- A returned value; undefined behaviour, such as an access outside an object; a failed `assert`, or
-- `exit`; or the model's fuel running out.
pub data Run {ℓ} (A : Type ℓ) : Type ℓ where
  ok : A → Run A
  fault abort out_of_fuel : Run A

infixl 5 ◌>>=◌ ◌>>◌
abbrev pub ◌>>=◌ {ℓ κ} : {A : Type ℓ} {B : Type κ} → Run A → (A → Run B) → Run B
ok a >>= f = f a
fault >>= f = fault
abort >>= f = abort
out_of_fuel >>= f = out_of_fuel

abbrev pub ◌>>◌ {ℓ} : {B : Type ℓ} → Run (Unit {0}) → Run B → Run B
m >> k = m >>= λ _. k

-- C's `assert`
abbrev pub check : Bool → Run (Unit {0})
check true = ok tt
check false = abort
