-- ===== src/Model/Observation.antt =====
-- `DeviceObservation`, `OperationOutcome` and `OperationStatus` of crates/posebridge-core/src/model.rs.
-- A rate is kept in tenths of a hertz, and the calibration state and the output fields as data. The
-- texts of messages are left out.
use Prim.Native.String.{String}
use pose_bridge.Prelude.{ℕ, Bool, true, false, Option, none, List}
use pose_bridge.Model.Command.{AlgorithmMode}

pub data CalibrationState : Type 0 where
  idle accelerometer_active magnetic_active : CalibrationState

pub data OutputField : Type 0 where
  acceleration angular_velocity euler quaternion sample_time : OutputField

pub record DeviceObservation : Type 0 where
  pub valid : Bool
  pub observed_unix_ms : Option ℕ
  pub calsw : Option ℕ
  pub calibration_state : Option CalibrationState
  pub rate_decihertz : Option ℕ
  pub output_fields : Option (List OutputField)
  pub algorithm : Option AlgorithmMode
  pub firmware_version : Option ℕ
  pub rate_register : Option ℕ
  pub output_register : Option ℕ
  pub bandwidth_register : Option ℕ
  pub orientation_register : Option ℕ
  pub algorithm_register : Option ℕ
  pub firmware_registers : Option (ℕ × ℕ)

-- `DeviceObservation::default()`.
abbrev pub no_observation : DeviceObservation
no_observation = record {
  valid = false;
  observed_unix_ms = none;
  calsw = none;
  calibration_state = none;
  rate_decihertz = none;
  output_fields = none;
  algorithm = none;
  firmware_version = none;
  rate_register = none;
  output_register = none;
  bandwidth_register = none;
  orientation_register = none;
  algorithm_register = none;
  firmware_registers = none;
}

pub data OperationOutcome : Type 0 where
  running succeeded unverified failed cancelled : OperationOutcome

abbrev pub is_running : OperationOutcome → Bool
is_running running = true
is_running _ = false

abbrev pub is_succeeded : OperationOutcome → Bool
is_succeeded succeeded = true
is_succeeded _ = false

pub data Persistence : Type 0 where
  not_requested persistence_unverified : Persistence

pub record OperationStatus : Type 0 where
  pub source_id : Option String
  pub id : ℕ
  pub action : String
  pub outcome : OperationOutcome
  pub write_attempted : Bool
  pub command_sent : Bool
  pub register_verified : Bool
  pub completion_observed : Bool
  pub persistence : Persistence
  pub reference_may_have_changed : Bool

-- `OperationStatus::new`, with the identifier that `new_id` draws.
abbrev pub new_operation : ℕ → String → OperationStatus
new_operation id action = record {
  source_id = none;
  id = id;
  action = action;
  outcome = running;
  write_attempted = false;
  command_sent = false;
  register_verified = false;
  completion_observed = false;
  persistence = not_requested;
  reference_may_have_changed = false;
}
