-- ===== src/Base/Faults.antt =====
-- Runs of the C code that may stop: a failed `assert`, an access out of bounds, a read through
-- a null pointer, a number that no `int` holds, a member of a union that is
-- not the one stored, a call of `exit` or `abort`.
use mathlib.Core.Path.{◌≡◌}

pub data Fault : Type 0 where
  assertion out_of_bounds null_pointer overflow wrong_member exits : Fault

pub data Run {ℓ} (V : Type ℓ) : Type ℓ where
  fault : Fault → Run V
  ok : V → Run V

-- The run ends without a fault, in a value of which `P` holds.
abbrev pub Returns {ℓ κ} : {V : Type ℓ} (run : Run V) (P : V → Type κ) → Type (ℓ ⊔ κ)
Returns {V} run P = (value : V) × (run ≡ ok value) × P value

infixl 5 ◌>>=◌
abbrev pub ◌>>=◌ {ℓ ℓ'} : {V : Type ℓ} {W : Type ℓ'} (run : Run V) (next : V → Run W) → Run W
fault why >>= next = fault why
ok value >>= next = next value
