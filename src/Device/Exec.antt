-- ===== src/Device/Exec.antt =====
-- A device session as a computation on its history: every write, read, pause and progress report is
-- recorded, newest first, and the environment answers each from the history so far. The waits, their
-- deadlines and a cancellation are part of the environment's answers.
use pose_bridge.Prelude.{ℕ, Option, List, ◌∷◌, Bool, true, false}
use pose_bridge.Model.{Error, Result, ok, err}
use pose_bridge.Device.Registers.{Arrival, read_registers}

-- `Progress` of crates/posebridge-core/src/device.rs.
pub data Progress : Type 0 where
  -- reference, persistent
  write_attempt : Bool → Bool → Progress
  command_sent register_verified completion_observed : Progress

pub data Event : Type 0 where
  read : ℕ → Option ℕ → Event
  wrote : List ℕ → Event
  waited : ℕ → Event
  progress : Progress → Event

pub record Environment : Type 0 where
  -- the write of a read request, and what the read then meets
  pub request : List Event → Result (Unit {0})
  pub arrivals : List Event → List Arrival
  pub write : List Event → Result (Unit {0})
  pub delay : List Event → Result (Unit {0})
  -- milliseconds since the epoch, clamped to i64
  pub unix_ms : List Event → ℕ
  -- how often the completion of a calibration is polled within its eight seconds
  pub polls : List Event → ℕ

abbrev pub Exec : Type 0 → Type 0
Exec A = List Event → Result A × List Event

abbrev pub and_then : {A B : Type 0} → Result A × List Event → (A → Exec B) → Result B × List Event
and_then (ok a, h) f = f a h
and_then (err e, h) f = (err e, h)

infixl 5 ◌>>=◌ ◌>>◌
unfoldable pub ◌>>=◌ : {A B : Type 0} → Exec A → (A → Exec B) → Exec B
◌>>=◌ m f h = and_then (m h) f

abbrev pub ◌>>◌ : {B : Type 0} → Exec (Unit {0}) → Exec B → Exec B
m >> k = m >>= λ _. k

unfoldable pub return : {A : Type 0} → A → Exec A
return a h = (ok a, h)

unfoldable pub throw : {A : Type 0} → Error → Exec A
throw e h = (err e, h)

unfoldable pub fail_if : Bool → Error → Exec (Unit {0})
unfolding throw return
fail_if true e = throw e
fail_if false e = return tt

unfoldable pub lift : {A : Type 0} → Result A → Exec A
unfolding return throw
lift (ok a) = return a
lift (err e) = throw e

-- `progress(..)`: the caller's closure is told, and cannot fail.
unfoldable pub report : Progress → Exec (Unit {0})
report p h = (ok tt, progress p ∷ h)

-- The environment is asked with the action already on the history.
module _ (env : Environment) where
  abbrev pub answer : ℕ → Option ℕ → List Event → Result (List ℕ)
  answer address expected h =
      let asked = read address expected ∷ h in
      read_registers address expected (env.request asked) (env.arrivals asked)

  unfoldable pub read_register_values : ℕ → Option ℕ → Exec (List ℕ)
  read_register_values address expected h = (answer address expected h, read address expected ∷ h)

  unfoldable pub write_bytes : List ℕ → Exec (Unit {0})
  write_bytes b h = (env.write (wrote b ∷ h), wrote b ∷ h)

  unfoldable pub pause : ℕ → Exec (Unit {0})
  pause ms h = (env.delay (waited ms ∷ h), waited ms ∷ h)
