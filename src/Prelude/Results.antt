-- ===== src/Prelude/Results.antt =====
-- How a C++ function ends: with a value, in undefined behaviour (an access outside an object, an
-- overflow of `int`), or by an exception of the standard library.
use tirpc.Prelude.Int.{ℤ, in_int32, ◌+ℤ◌}
use tirpc.Prelude.Tests.{if◌then◌else◌}

pub data Outcome {ℓ} (A : Type ℓ) : Type ℓ where
  ok : A → Outcome A
  fault : Outcome A
  throws : Outcome A

infixl 5 ◌>>=◌
abbrev pub ◌>>=◌ {ℓ κ} : {A : Type ℓ} {B : Type κ} → Outcome A → (A → Outcome B) → Outcome B
fault >>= next = fault
throws >>= next = throws
ok a >>= next = next a

-- Addition of two `int`s: leaving the range of the type is undefined.
abbrev pub int_add : ℤ → ℤ → Outcome ℤ
int_add a b = if in_int32 (a +ℤ b) then ok (a +ℤ b) else fault
