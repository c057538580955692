-- ===== src/Prelude/Calls.antt =====
-- What a call of a kernel function comes to: it returns, it stops the kernel by PANIC or a failed
-- ASSERT, or the fuel of a loop of the model runs out.
use mathlib.Core.Path.{◌≡◌, ap}
use mathlib.Core.Bool.{Bool, true, false}

pub data Outcome {ℓ} (A : Type ℓ) : Type ℓ where
  panic out_of_fuel : Outcome A
  ok : A → Outcome A

-- The call on the left, and then, where it returns, the one on the right.
module _ {ℓ κ} {A : Type ℓ} {B : Type κ} where
  infixl 5 ◌>>=◌
  abbrev pub ◌>>=◌ : Outcome A → (A → Outcome B) → Outcome B
  panic >>= rest = panic
  out_of_fuel >>= rest = out_of_fuel
  ok a >>= rest = rest a

module _ {κ} {B : Type κ} where
  infixl 5 ◌>>◌
  abbrev pub ◌>>◌ : Outcome (Unit {0}) → Outcome B → Outcome B
  checked >> rest = checked >>= λ _. rest

-- ASSERT (and the test before a PANIC).
abbrev pub assert : Bool → Outcome (Unit {0})
assert true = ok tt
assert false = panic

or_else {ℓ} : {A : Type ℓ} → A → Outcome A → A
or_else d (ok a) = a
or_else d panic = d
or_else d out_of_fuel = d

-- A call returns one thing.
pub ok-injective {ℓ} : {A : Type ℓ} {a b : A} → ok a ≡ ok b → a ≡ b
unfolding or_else
ok-injective {a} p = ap (or_else a) p
