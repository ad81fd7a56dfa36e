-- ===== src/Device/Inspect.antt =====
-- `inspect` of crates/posebridge-core/src/device.rs: four reads, and what they are taken for.
use pose_bridge.Prelude.{ℕ, true, Option, none, some, List, [], ◌∷◌, ◌==◌, if◌then◌else◌, get_or}
use pose_bridge.Model.Command.{AlgorithmMode, nine_axis, six_axis}
use pose_bridge.Model.Observation.{
  DeviceObservation, CalibrationState, idle, accelerometer_active, magnetic_active, OutputField,
  acceleration, angular_velocity, euler, quaternion, sample_time,
}
use pose_bridge.Device.Exec.{Environment, Exec, ◌>>=◌, return, read_register_values}
use pose_bridge.Model.{ok}

unfoldable pub calibration_state_of : ℕ → Option CalibrationState
calibration_state_of calsw =
    if calsw == 0
    then some idle
    else if calsw == 1
    then some accelerometer_active
    else if calsw == 7
    then some magnetic_active
    else none

-- The rate in tenths of a hertz.
unfoldable pub rate_of : ℕ → Option ℕ
rate_of code =
    if code == 1
    then some 1
    else if code == 2
    then some 5
    else if code == 3
    then some 10
    else if code == 4
    then some 20
    else if code == 5
    then some 50
    else if code == 6
    then some 100
    else if code == 7
    then some 200
    else if code == 8
    then some 500
    else if code == 9
    then some 1000
    else if code == 11
    then some 2000
    else none

unfoldable pub output_fields_of : ℕ → Option (List OutputField)
output_fields_of code =
    if code == 0x61
    then some (acceleration ∷ angular_velocity ∷ euler ∷ [])
    else if code == 0x01
    then some (euler ∷ [])
    else if code == 0x04
    then some (quaternion ∷ [])
    else if code == 0x81
    then some (sample_time ∷ euler ∷ [])
    else if code == 0x84
    then some (sample_time ∷ quaternion ∷ [])
    else if code == 0xa4
    then some (sample_time ∷ angular_velocity ∷ quaternion ∷ [])
    else if code == 0xe4
    then some (sample_time ∷ acceleration ∷ angular_velocity ∷ quaternion ∷ [])
    else none

unfoldable pub algorithm_of : ℕ → Option AlgorithmMode
algorithm_of code = if code == 0 then some nine_axis else if code == 1 then some six_axis else none

abbrev pub word : List ℕ → ℕ → ℕ
word values i = get_or values i 0

-- The observation, from the values behind 0x01, 0x0e, 0x1f and 0x2e.
unfoldable pub observation : List ℕ → List ℕ → List ℕ → List ℕ → ℕ → DeviceObservation
observation control output options version unix_ms = record {
  valid = true;
  observed_unix_ms = some unix_ms;
  calsw = some (word control 0);
  calibration_state = calibration_state_of (word control 0);
  rate_decihertz = rate_of (word control 2);
  output_fields = output_fields_of (word output 0);
  algorithm = algorithm_of (word options 5);
  firmware_version = if word version 1 == 0 then some (word version 0) else none;
  rate_register = some (word control 2);
  output_register = some (word output 0);
  bandwidth_register = some (word options 0);
  orientation_register = some (word options 4);
  algorithm_register = some (word options 5);
  firmware_registers = some (word version 0, word version 1);
}

-- The reading of the wall clock.
unfoldable pub now_unix_ms : Environment → Exec ℕ
now_unix_ms env h = (ok (env.unix_ms h), h)

unfoldable pub inspect : Environment → Exec DeviceObservation
inspect env = do
  control ← read_register_values env 0x01 none
  output ← read_register_values env 0x0e none
  options ← read_register_values env 0x1f none
  version ← read_register_values env 0x2e none
  unix_ms ← now_unix_ms env
  return (observation control output options version unix_ms)
