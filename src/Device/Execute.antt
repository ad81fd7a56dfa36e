-- ===== src/Device/Execute.antt =====
-- `execute` of crates/posebridge-core/src/device.rs: the guards, the unlocked write and what each
-- command verifies. Its message text is left out.
pub mod Order
pub mod Guards
mod Examples
use pose_bridge.Prelude.{
  ℕ, zero, suc, Bool, true, false, not, ◌&&◌, ◌||◌, Option, none, some, List, [], ◌∷◌, ◌==◌,
  if◌then◌else◌,
}
use pose_bridge.Model.{Error, Result, ok, err, invalid, protocol, timeout}
use pose_bridge.Model.Command.{
  OutputProfile, experimental_full_inertial_20hz, profile_code, DeviceCommand, rate, output,
  accel_calibrate, mag_start, mag_stop, save, algorithm, zero_yaw, angle_reference, reset_defaults,
  command_register, unlock, write_register,
}
use pose_bridge.Model.Observation.{DeviceObservation, OperationOutcome, succeeded, unverified}
use pose_bridge.Device.Exec.{
  Environment, Exec, ◌>>=◌, ◌>>◌, return, throw, lift, fail_if, report, read_register_values,
  write_bytes, pause, Progress, write_attempt, command_sent, register_verified, completion_observed,
}
use pose_bridge.Device.Inspect.{inspect, word}

abbrev pub is_output : DeviceCommand → Bool
is_output (output p) = true
is_output _ = false

abbrev pub is_full_output : DeviceCommand → Bool
is_full_output (output p) = profile_code p == 0xe4
is_full_output _ = false

-- `Rate { hz } if *hz != 20`.
abbrev pub leaves_20_hz : DeviceCommand → Bool
leaves_20_hz (rate hz) = not (hz == 20)
leaves_20_hz _ = false

abbrev pub is_rate : DeviceCommand → Bool
is_rate (rate hz) = true
is_rate _ = false

abbrev pub is_save : DeviceCommand → Bool
is_save save = true
is_save _ = false

abbrev pub is_reset : DeviceCommand → Bool
is_reset reset_defaults = true
is_reset _ = false

abbrev pub is_zero_yaw : DeviceCommand → Bool
is_zero_yaw zero_yaw = true
is_zero_yaw _ = false

abbrev pub is_mag_stop : DeviceCommand → Bool
is_mag_stop mag_stop = true
is_mag_stop _ = false

-- The new-format output registers.
abbrev pub is_new_format : ℕ → Bool
is_new_format f = f == 0x61 || (f == 0x81 || (f == 0x84 || (f == 0xa4 || f == 0xe4)))

-- The result: the outcome, and the observation after a reset.
abbrev pub Outcome : Type 0
Outcome = OperationOutcome × Option DeviceObservation

module _ (env : Environment) where
  -- A check of one register, when the command wants it.
  unfoldable pub check : Bool → ℕ → (ℕ → Bool) → Error → Exec (Unit {0})
  check false address refused e = return tt
  check true address refused e = do
    values ← read_register_values env address none
    fail_if (refused (word values 0)) e

  -- The four guards, in their order.
  unfoldable pub check_guards : DeviceCommand → Exec (Unit {0})
  check_guards command = do
    check (is_full_output command) 0x03 (λ v. not (v == 7)) invalid
    check (leaves_20_hz command) 0x0e (λ v. v == 0xe4) invalid
    check (is_output command || is_reset command) 0x0e (λ v. not (is_new_format v)) protocol
    check (is_zero_yaw command) 0x24 (λ v. not (v == 1)) invalid

  unfoldable pub unlock_device : Exec (Unit {0})
  unlock_device = do write_bytes env unlock; pause env 200

  -- The write of the command, announced before and reported after.
  unfoldable pub write_command : DeviceCommand → ℕ → ℕ → Exec (Unit {0})
  write_command command address value = do
    report (
        write_attempt (not (is_rate command || (is_output command || is_save command)))
          (is_save command || is_reset command))
    write_bytes env (write_register address value)
    report command_sent

  unfoldable pub save_reference : Exec Outcome
  save_reference = do
    pause env 100
    report (write_attempt true true)
    write_bytes env (write_register 0 0)
    return (unverified, none)

  abbrev pub is_default : DeviceObservation → Bool
  is_default o = eq o.rate_register 6 && (eq o.output_register 0x61 && eq o.algorithm_register 0)
    where
      eq : Option ℕ → ℕ → Bool
      eq none v = false
      eq (some w) v = w == v

  unfoldable pub verify_reset : Exec Outcome
  verify_reset = do
    pause env 100
    _ ← read_register_values env 0x03 (some 6)
    _ ← read_register_values env 0x0e (some 0x61)
    _ ← read_register_values env 0x24 (some 0)
    o ← inspect env
    fail_if (not (is_default o)) protocol
    report register_verified
    return (succeeded, some o)

  -- The polls of the calibration switch until it reads 0, or until the time is over.
  unfoldable pub await_completion : ℕ → Exec (Unit {0})
  await_completion zero = throw timeout
  await_completion (suc n) = do
    pause env 100
    values ← read_register_values env 1 none
    if word values 0 == 0 then return tt else await_completion n

  -- `tokio::time::timeout` round the polls.
  unfoldable pub await_in_time : Exec (Unit {0})
  await_in_time h = await_completion (env.polls h) h

  unfoldable pub finish_calibration : Exec Outcome
  finish_calibration = do
    report register_verified
    await_in_time
    report completion_observed
    return (succeeded, none)

  unfoldable pub verify_calibration : Exec Outcome
  verify_calibration = do
    values ← read_register_values env 1 none
    if not (word values 0 == 1) then return (unverified, none) else finish_calibration

  unfoldable pub verify_register : DeviceCommand → ℕ → ℕ → Exec Outcome
  verify_register command address value = do
    pause env 100
    _ ← read_register_values env address (some value)
    report register_verified
    if is_mag_stop command then report completion_observed else return tt
    return (succeeded, none)

  -- What follows the write.
  unfoldable pub verify : DeviceCommand → ℕ → ℕ → Exec Outcome
  verify angle_reference address value = save_reference
  verify save address value = return (unverified, none)
  verify zero_yaw address value = return (unverified, none)
  verify reset_defaults address value = verify_reset
  verify accel_calibrate address value = verify_calibration
  verify command address value = verify_register command address value

  unfoldable pub execute : DeviceCommand → Exec Outcome
  execute command = do
    target ← lift (command_register command)
    check_guards command
    unlock_device
    write_command command (target.0) (target.1)
    verify command (target.0) (target.1)
