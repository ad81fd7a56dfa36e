-- ===== src/Magnetic.antt =====
-- crates/posebridge-core/src/magnetic.rs: the state of a magnetic session, its window of statistics,
-- what register replies do to it, and its cursor queries. Instants are nanoseconds, a register value is
-- an integer, and a field is that integer with an exact fraction for the scale.
pub mod Window
pub mod State
pub mod Receive
mod Examples
use Prim.Native.String.{String}
use pose_bridge.Prelude.{ℕ, Bool, Option, none, some, List, ◌==◌, if◌then◌else◌}
use pose_bridge.Prelude.Int.{ℤ}
use pose_bridge.Model.Observation.{OperationStatus}

abbrev pub magnetic_history_capacity : ℕ
magnetic_history_capacity = 256

abbrev pub fresh_for : ℕ
fresh_for = 500000000

pub record MagneticCursor : Type 0 where
  pub instance_id : ℕ
  pub session_id : ℕ
  pub sequence : ℕ

pub data MagneticPhase : Type 0 where
  idle opening monitoring external_calibration starting calibrating stopping calibrated saving
        closed failed :
      MagneticPhase

-- The three axes of a register reply.
pub record Counts : Type 0 where
  pub x : ℤ
  pub y : ℤ
  pub z : ℤ

-- Microtesla for each count.
pub record Scale : Type 0 where
  pub numerator : ℕ
  pub denominator : ℕ

pub record MagneticSample : Type 0 where
  pub cursor : MagneticCursor
  pub window_id : ℕ
  pub phase : MagneticPhase
  pub register_xyz : Counts
  pub field_ut : Option (Counts × Scale)
  pub received_ns : ℕ
  pub age_ns : ℕ
  pub fresh : Bool

pub record MagneticStatistics : Type 0 where
  pub window_id : ℕ
  pub sample_count : ℕ
  pub elapsed_ns : ℕ
  pub frozen : Bool
  -- how many samples in how many nanoseconds; `none` is the rate 0
  pub actual_rate : Option (ℕ × ℕ)
  pub minimum_counts : Option Counts
  pub maximum_counts : Option Counts
  pub span_counts : Option Counts

pub record MagneticBatch : Type 0 where
  pub schema : ℕ
  pub source_id : String
  pub instance_id : ℕ
  pub session_id : ℕ
  pub cursor : Option MagneticCursor
  pub reset : Bool
  pub history_overrun : ℕ
  pub active : Bool
  pub phase : MagneticPhase
  pub sensor_type : Option ℕ
  pub scale_ut_per_count : Option Scale
  pub type_error : Option String
  pub calsw : Option ℕ
  pub calsw_age_ns : Option ℕ
  pub device_may_be_calibrating : Bool
  pub latest : Option MagneticSample
  pub samples : List MagneticSample
  pub statistics : MagneticStatistics
  pub operation : Option OperationStatus
  pub cleanup : Option OperationStatus
  pub last_error : Option String

abbrev ratio : ℕ → ℕ → Option Scale
ratio n d = some (record { numerator = n; denominator = d })

unfoldable pub scale : ℕ → Option Scale
scale sensor_type =
    if sensor_type == 2
    then ratio 15 100
    else if sensor_type == 3
    then ratio 13 1000
    else if sensor_type == 4
    then ratio 58 1000
    else if sensor_type == 5
    then ratio 98 1000
    else if sensor_type == 6
    then ratio 1 120
    else if sensor_type == 7
    then ratio 2 100
    else none
