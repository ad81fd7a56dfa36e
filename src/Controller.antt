-- ===== src/Controller.antt =====
-- The shared state of crates/posebridge-core/src/controller.rs and what it shows: status, descriptor,
-- freshness and snapshots. The texts of messages and the report of the BLE link are left out, rates are
-- counts over nanoseconds, and intervals are nanoseconds. Each lock covers one function here.
pub mod Publish
pub mod Control
pub mod Lifecycle
pub mod SetConfig
pub mod Prepare
pub mod Start
pub mod FullRate
pub mod Reconnect
pub mod Frames
pub mod Receive
pub mod Output
pub mod Pump
pub mod Wire
pub mod Monitor
pub mod Poll
pub mod Simulate
pub mod Sample
mod Examples
use Prim.Native.String.{String}
use pose_bridge.Prelude.{
  ℕ, ◌+◌, ◌-◌, Bool, true, false, not, ◌&&◌, Option, none, some, List, [], ◌∷◌, ltb, if◌then◌else◌,
  is_some_and, clamp_ns,
}
use pose_bridge.Prelude.Int.{ℤ}
use pose_bridge.Model.{Error}
use pose_bridge.Model.Text.{Text}
use pose_bridge.Model.Observation.{DeviceObservation, no_observation, OperationStatus}
use pose_bridge.Motion.{Quat, History}
use pose_bridge.Motion
use pose_bridge.Battery.{Battery, BatteryStatus}
use pose_bridge.Battery
use pose_bridge.Magnetic.State.{State}
use pose_bridge.Osc.{PoseSnapshot}
use pose_bridge.Pose.{FloatOps}
use pose_bridge.Dolby
use pose_bridge.Dolby.{DolbyOscStatus}
use pose_bridge.Config.{Source, ble, usb, simulate, Config, logical_source_id}

abbrev pub stale_after : ℕ
stale_after = 500000000

pub data TransportKind : Type 0 where
  ble_transport usb_transport : TransportKind

pub record DeviceInfo : Type 0 where
  pub transport : TransportKind
  pub id : String
  pub name : String
  pub rssi : Option ℤ
  pub usb_vid : Option ℕ
  pub usb_pid : Option ℕ

pub data ConnectionState : Type 0 where
  idle scanning connecting active stale reconnecting stopped failed configuring complete inspecting
        magnetic :
      ConnectionState

-- `last_error`, by its origin: only the one of OSC is told apart by its text.
pub data LastError : Type 0 where
  from_osc : Error → LastError
  from_work : Error → LastError
  worker_panic stop_timed_out : LastError

pub record DeliveryStats : Type 0 where
  pub reads : ℕ
  pub max_bytes_per_read : ℕ
  pub max_frames_per_read : ℕ
  -- how many gaps below 1, 10, 30 and 100 milliseconds, and above
  pub gap_histogram : List ℕ
  pub max_gap : ℕ

pub record StatusSnapshot (F : Type 0) : Type 0 where
  pub state : ConnectionState
  pub session_id : ℕ
  pub bytes_received : ℕ
  pub frames_received : ℕ
  pub discarded_bytes : ℕ
  pub invalid_poses : ℕ
  pub invalid_frames : ℕ
  pub duplicate_sample_times : ℕ
  pub clock_discontinuities : ℕ
  pub pose_count : ℕ
  pub session_samples : ℕ
  pub osc_sent : ℕ
  pub coalesced_samples : ℕ
  pub send_errors : ℕ
  pub telemetry_sent : ℕ
  pub reconnect_count : ℕ
  -- samples in nanoseconds; `none` is the rate 0
  pub actual_rate : Option (ℕ × ℕ)
  pub interval_min : ℕ
  pub interval_max : ℕ
  pub last_error : Option LastError
  pub delivery : DeliveryStats
  pub battery : BatteryStatus
  pub dolby_osc : Option (DolbyOscStatus F)

abbrev pub default_status : {F : Type 0} → StatusSnapshot F
default_status = record {
  state = idle;
  session_id = 0;
  bytes_received = 0;
  frames_received = 0;
  discarded_bytes = 0;
  invalid_poses = 0;
  invalid_frames = 0;
  duplicate_sample_times = 0;
  clock_discontinuities = 0;
  pose_count = 0;
  session_samples = 0;
  osc_sent = 0;
  coalesced_samples = 0;
  send_errors = 0;
  telemetry_sent = 0;
  reconnect_count = 0;
  actual_rate = none;
  interval_min = 0;
  interval_max = 0;
  last_error = none;
  delivery = record {
    reads = 0;
    max_bytes_per_read = 0;
    max_frames_per_read = 0;
    gap_histogram = 0 ∷ 0 ∷ 0 ∷ 0 ∷ 0 ∷ [];
    max_gap = 0;
  };
  battery = Battery.default.status;
  dolby_osc = none;
}

pub data ReferenceReason : Type 0 where
  new_context application_configuration_changed reconnected device_control device_control_uncertain
        magnetic_control magnetic_cleanup :
      ReferenceReason

-- `SourceDescriptor`, without the fields that never change.
pub record SourceDescriptor (F : Type 0) : Type 0 where
  pub source_id : String
  pub instance_id : ℕ
  pub session_id : ℕ
  pub metadata_revision : ℕ
  pub reference_epoch : ℕ
  pub reference_reason : ReferenceReason
  pub platform_id : Option String
  pub device_name : Option String
  pub application_config : Config F
  pub device : DeviceObservation

abbrev pub platform_of : {F : Type 0} → Source F → Option String
platform_of (ble device_id mode) = some device_id
platform_of (usb port baud) = some port
platform_of (simulate p e r c) = none

-- `SourceDescriptor::new`.
abbrev pub new_descriptor : {F : Type 0} → FloatOps F → Text → Bool → Config F → SourceDescriptor F
new_descriptor ops texts windows config = record {
  source_id = logical_source_id ops texts windows config;
  instance_id = 0;
  session_id = 0;
  metadata_revision = 1;
  reference_epoch = 1;
  reference_reason = new_context;
  platform_id = platform_of config.source;
  device_name = none;
  application_config = config;
  device = no_observation;
}

pub record Shared (F : Type 0) : Type 0 where
  pub status : StatusSnapshot F
  pub descriptor : SourceDescriptor F
  pub operation : Option OperationStatus
  pub pose : Option (PoseSnapshot F)
  pub devices : List DeviceInfo
  pub last_pose : Option ℕ
  pub first_pose : Option ℕ
  pub motion : History F
  pub battery : Battery
  pub magnetic_state : State
  pub physical : Option (Quat F)
  pub dolby : Option (Dolby.Sender F)

pub record Snapshot (F : Type 0) : Type 0 where
  pub schema : ℕ
  pub descriptor : SourceDescriptor F
  pub status : StatusSnapshot F
  pub pose : Option (PoseSnapshot F)
  pub operation : Option OperationStatus

abbrev pub is_tracking : ConnectionState → Bool
is_tracking active = true
is_tracking stale = true
is_tracking _ = false

abbrev pub is_acquiring : ConnectionState → Bool
is_acquiring connecting = true
is_acquiring active = true
is_acquiring stale = true
is_acquiring complete = true
is_acquiring _ = false

-- An active state without a fresh pose is shown as stale.
abbrev pub shown_state : ConnectionState → Bool → ConnectionState
shown_state active is_fresh = if is_fresh then active else stale
shown_state s is_fresh = s

module _ {F : Type 0} where
  unfoldable pub fresh : Shared F → ℕ → Bool
  fresh s now =
      is_tracking s.status.state && is_some_and s.last_pose (λ t. ltb (now - t) stale_after)

  -- The pose with its age, where both the pose and its time are there.
  abbrev pub aged : Option (PoseSnapshot F) → Option ℕ → ℕ → Bool → Option (PoseSnapshot F)
  aged (some pose) (some received) now is_fresh =
      some (record pose { age_ns = clamp_ns (now - received); fresh = is_fresh })
  aged _ _ now is_fresh = none

  unfoldable pub pose_at : Shared F → ℕ → Option (PoseSnapshot F)
  pose_at s now = aged s.pose s.last_pose now (fresh s now)

  unfoldable pub snapshot_at : Shared F → ℕ → Snapshot F
  snapshot_at s now = record {
    schema = 4;
    descriptor = s.descriptor;
    status = record (s.status) {
      battery = Battery.snapshot s.battery now (is_acquiring s.status.state);
      state = shown_state s.status.state (fresh s now);
    };
    pose = pose_at s now;
    operation = s.operation;
  }
