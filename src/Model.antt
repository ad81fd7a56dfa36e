-- ===== src/Model.antt =====
-- crates/posebridge-core/src/model.rs: the data that the components share. The texts of errors,
-- reports and messages are left out.
pub mod Command
pub mod Observation
pub mod Text
use pose_bridge.Prelude.{Bool, true, false}

pub data Error : Type 0 where
  invalid busy unavailable permission io protocol timeout cancelled internal : Error

-- `crate::Result`.
pub data Result {ℓ} (Value : Type ℓ) : Type ℓ where
  err : Error → Result Value
  ok : Value → Result Value

-- The `?` of a fallible step.
infixl 5 ◌>>=◌
abbrev pub ◌>>=◌ {ℓ κ} :
    {A : Type ℓ} {B : Type κ} (first : Result A) (next : A → Result B) → Result B
err e >>= next = err e
ok value >>= next = next value

infixl 5 ◌>>◌
abbrev pub ◌>>◌ {ℓ} : {B : Type ℓ} (first : Result (Unit {0})) (second : Result B) → Result B
first >> second = first >>= λ u. second

-- An early `return Err(e)` when the test holds.
abbrev pub fail_if : Bool → Error → Result (Unit {0})
fail_if true e = err e
fail_if false e = ok tt

abbrev pub is_ok {ℓ} : {A : Type ℓ} → Result A → Bool
is_ok (ok a) = true
is_ok (err e) = false
