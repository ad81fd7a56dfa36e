-- ===== src/Device/Execute/Order.antt =====
-- The order of events: no register is written before the write is announced.
use pose_bridge.Prelude.{
  ℕ, zero, suc, ◌≡◌, refl, ◌⊎◌, inl, inr, Bool, true, false, Option, none, List, [], ◌∷◌, ◌==◌,
  if◌then◌else◌,
}
use pose_bridge.Model.{Error, Result, ok, err}
use pose_bridge.Model.Command.{
  DeviceCommand, accel_calibrate, save, zero_yaw, angle_reference, reset_defaults, unlock,
}
use pose_bridge.Device.Exec.{
  Environment, Exec, Event, read, wrote, waited, progress, ◌>>=◌, and_then, return, throw, lift,
  fail_if, report, read_register_values, write_bytes, pause, Progress, write_attempt,
}
use pose_bridge.Device.Inspect.{inspect, word, now_unix_ms}
use pose_bridge.Device.Execute.{
  check, check_guards, unlock_device, write_command, save_reference, verify_reset, await_completion,
  await_in_time, finish_calibration, verify_calibration, verify_register, verify, execute,
}

-- The last event is the announcement of a write.
abbrev pub is_announced : List Event → Bool
is_announced (progress (write_attempt r p) ∷ h) = true
is_announced _ = false

-- Every write but the unlock sequence comes directly behind its announcement.
abbrev pub IsOrdered : List Event → Type 0
IsOrdered [] = Unit {0}
IsOrdered (wrote b ∷ h) = ((b ≡ unlock) ⊎ (is_announced h ≡ true)) × IsOrdered h
IsOrdered (read a v ∷ h) = IsOrdered h
IsOrdered (waited ms ∷ h) = IsOrdered h
IsOrdered (progress p ∷ h) = IsOrdered h

-- A computation that keeps the order, whatever its result.
pub record KeepsOrder {A : Type 0} (m : Exec A) : Type 0 where
  pub at : (h : List Event) → IsOrdered h → IsOrdered (m h).1

module _ {A : Type 0} where
  return-KeepsOrder : (a : A) → KeepsOrder (return a)
  unfolding return
  return-KeepsOrder a = record { at = λ h i. i }

  throw-KeepsOrder : (e : Error) → KeepsOrder (throw {A = A} e)
  unfolding throw
  throw-KeepsOrder e = record { at = λ h i. i }

  lift-KeepsOrder : (r : Result A) → KeepsOrder (lift r)
  unfolding lift
  lift-KeepsOrder (ok a) = record { at = λ h i. i }
  lift-KeepsOrder (err e) = record { at = λ h i. i }

  if-KeepsOrder :
      (b : Bool) {m n : Exec A} → KeepsOrder m → KeepsOrder n → KeepsOrder (if b then m else n)
  if-KeepsOrder true p q = p
  if-KeepsOrder false p q = q

  and_then-IsOrdered :
      {B : Type 0} (r : Result B × List Event) (f : B → Exec A)
      → IsOrdered r.1
      → ((b : B) → KeepsOrder (f b))
      → IsOrdered (and_then r f).1
  and_then-IsOrdered (ok b, h) f i k = (k b).at h i
  and_then-IsOrdered (err e, h) f i k = i

  bind-KeepsOrder :
      {B : Type 0} {m : Exec B} {f : B → Exec A}
      → KeepsOrder m
      → ((b : B) → KeepsOrder (f b))
      → KeepsOrder (m >>= f)
  unfolding ◌>>=◌
  bind-KeepsOrder {m = m} {f = f} p k = record {
    at = λ h i. and_then-IsOrdered (m h) f (p.at h i) k;
  }

fail_if-KeepsOrder : (b : Bool) (e : Error) → KeepsOrder (fail_if b e)
unfolding fail_if
fail_if-KeepsOrder true e = record { at = λ h i. i }
fail_if-KeepsOrder false e = record { at = λ h i. i }

report-KeepsOrder : (p : Progress) → KeepsOrder (report p)
unfolding report
report-KeepsOrder p = record { at = λ h i. i }

module _ (env : Environment) where
  read-KeepsOrder : (a : ℕ) (v : Option ℕ) → KeepsOrder (read_register_values env a v)
  unfolding read_register_values
  read-KeepsOrder a v = record { at = λ h i. i }

  pause-KeepsOrder : (ms : ℕ) → KeepsOrder (pause env ms)
  unfolding pause
  pause-KeepsOrder ms = record { at = λ h i. i }

  unlock-KeepsOrder : KeepsOrder (write_bytes env unlock)
  unfolding write_bytes
  unlock-KeepsOrder = record { at = λ h i. (inl refl, i) }

  -- An announcement and the write behind it.
  announced-KeepsOrder :
      {A : Type 0} (r p : Bool) (b : List ℕ) {f : Unit {0} → Exec A}
      → ((u : Unit {0}) → KeepsOrder (f u))
      → KeepsOrder (report (write_attempt r p) >>= λ _. (write_bytes env b >>= f))
  unfolding ◌>>=◌ report write_bytes
  announced-KeepsOrder r p b {f = f} k = record {
    at = λ h i.
        and_then-IsOrdered (write_bytes env b (progress (write_attempt r p) ∷ h)) f (inr refl, i) k;
  }

ruleset order_rules = (
  return-KeepsOrder, throw-KeepsOrder, lift-KeepsOrder, if-KeepsOrder, fail_if-KeepsOrder,
  report-KeepsOrder, read-KeepsOrder, pause-KeepsOrder, unlock-KeepsOrder, bind-KeepsOrder,
)

module _ (env : Environment) where
  check-KeepsOrder :
      (c : Bool) (a : ℕ) (refused : ℕ → Bool) (e : Error) → KeepsOrder (check env c a refused e)
  unfolding check
  check-KeepsOrder false a refused e = search order_rules
  check-KeepsOrder true a refused e = search order_rules

  check_guards-KeepsOrder : (c : DeviceCommand) → KeepsOrder (check_guards env c)
  unfolding check_guards
  check_guards-KeepsOrder c = search (check-KeepsOrder, order_rules) depth 9

  unlock_device-KeepsOrder : KeepsOrder (unlock_device env)
  unfolding unlock_device
  unlock_device-KeepsOrder = search order_rules

  write_command-KeepsOrder : (c : DeviceCommand) (a v : ℕ) → KeepsOrder (write_command env c a v)
  unfolding write_command
  write_command-KeepsOrder c a v = announced-KeepsOrder env _ _ _ (λ _. search order_rules)

  save_reference-KeepsOrder : KeepsOrder (save_reference env)
  unfolding save_reference
  save_reference-KeepsOrder = search (announced-KeepsOrder, order_rules) depth 7

  now_unix_ms-KeepsOrder : KeepsOrder (now_unix_ms env)
  unfolding now_unix_ms
  now_unix_ms-KeepsOrder = record { at = λ h i. i }

  inspect-KeepsOrder : KeepsOrder (inspect env)
  unfolding inspect
  inspect-KeepsOrder = search (now_unix_ms-KeepsOrder, order_rules) depth 12

  verify_reset-KeepsOrder : KeepsOrder (verify_reset env)
  unfolding verify_reset
  verify_reset-KeepsOrder = search (inspect-KeepsOrder, order_rules) depth 20

  await_completion-KeepsOrder : (n : ℕ) → KeepsOrder (await_completion env n)
  unfolding await_completion
  await_completion-KeepsOrder zero = search order_rules
  await_completion-KeepsOrder (suc n) = bind-KeepsOrder (pause-KeepsOrder env 100) (λ _.
      bind-KeepsOrder (read-KeepsOrder env 1 none) (λ values.
        if-KeepsOrder (word values 0 == 0) (return-KeepsOrder tt) (await_completion-KeepsOrder n)))

  await_in_time-KeepsOrder : KeepsOrder (await_in_time env)
  unfolding await_in_time
  await_in_time-KeepsOrder = record {
    at = λ h i. (await_completion-KeepsOrder (env.polls h)).at h i;
  }

  finish_calibration-KeepsOrder : KeepsOrder (finish_calibration env)
  unfolding finish_calibration
  finish_calibration-KeepsOrder = search (await_in_time-KeepsOrder, order_rules) depth 8

  verify_calibration-KeepsOrder : KeepsOrder (verify_calibration env)
  unfolding verify_calibration
  verify_calibration-KeepsOrder = search (finish_calibration-KeepsOrder, order_rules) depth 8

  verify_register-KeepsOrder :
      (c : DeviceCommand) (a v : ℕ) → KeepsOrder (verify_register env c a v)
  unfolding verify_register
  verify_register-KeepsOrder c a v = search order_rules depth 12

  verify-KeepsOrder : (c : DeviceCommand) (a v : ℕ) → KeepsOrder (verify env c a v)
  unfolding verify
  verify-KeepsOrder angle_reference a v = save_reference-KeepsOrder
  verify-KeepsOrder save a v = search order_rules
  verify-KeepsOrder zero_yaw a v = search order_rules
  verify-KeepsOrder reset_defaults a v = verify_reset-KeepsOrder
  verify-KeepsOrder accel_calibrate a v = verify_calibration-KeepsOrder
  verify-KeepsOrder c a v = verify_register-KeepsOrder c a v

  -- Whatever the device, the link or a cancellation does, a command writes nothing but the unlock
  -- sequence without having announced that write as the step directly before it.
  pub execute-KeepsOrder : (c : DeviceCommand) → KeepsOrder (execute env c)
  unfolding execute
  execute-KeepsOrder c =
      search
        (
          check_guards-KeepsOrder, unlock_device-KeepsOrder, write_command-KeepsOrder,
          verify-KeepsOrder, order_rules,
        )
        depth 12
