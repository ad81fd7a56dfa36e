-- ===== src/Controller/SetConfig.antt =====
-- `Controller::set_config` of crates/posebridge-core/src/controller.rs. The comparison of two
-- configurations as JSON is a parameter.
pub mod Epoch
use pose_bridge.Prelude.{
  ℕ, ◌+◌, Bool, true, false, not, ◌&&◌, ◌||◌, Option, none, some, ◌==◌, if◌then◌else◌, is_some,
  from_bool,
}
use pose_bridge.Prelude.Int.{ℤ, pos_part, neg_part}
use pose_bridge.Model.{Error, cancelled, timeout, io, busy, Result, ok, err}
use pose_bridge.Model.Text.{Text}
use pose_bridge.Model.Observation.{OperationStatus, OperationOutcome, is_running}
use pose_bridge.Model.Observation
use pose_bridge.Motion
use pose_bridge.Battery
use pose_bridge.Magnetic.{MagneticPhase, idle, closed}
use pose_bridge.Magnetic
use pose_bridge.Magnetic.State
use pose_bridge.Pose.{FloatOps}
use pose_bridge.Pose.Mounting.{Mounting}
use pose_bridge.Dolby.{DolbyOscStatus, clear_reference}
use pose_bridge.Dolby
use pose_bridge.Config.{
  Config, Source, PoseInput, euler, register_quaternion, stream_quaternion, validate,
}
use pose_bridge.Controller.{
  Shared, SourceDescriptor, StatusSnapshot, default_status, new_descriptor, LastError, from_work,
  worker_panic, stop_timed_out, ReferenceReason, application_configuration_changed, stopped,
  complete, failed, ConnectionState,
}
use pose_bridge.Controller.Control.{update}
use pose_bridge.Controller.Lifecycle.{Controller, and_then, ensure_idle}

-- The equality of two values as JSON.
pub record Json (F : Type 0) : Type 0 where
  pub same_config : Config F → Config F → Bool
  pub same_source : Source F → Source F → Bool

-- The derived `PartialEq` of the configuration's parts.
abbrev pub same_axis : ℤ → ℤ → Bool
same_axis a b = pos_part a == pos_part b && neg_part a == neg_part b

abbrev pub same_mounting : Option Mounting → Option Mounting → Bool
same_mounting none none = true
same_mounting (some a) (some b) =
    same_axis a.right b.right && (same_axis a.forward b.forward && same_axis a.up b.up)
same_mounting _ _ = false

abbrev pub same_input : PoseInput → PoseInput → Bool
same_input euler euler = true
same_input register_quaternion register_quaternion = true
same_input stream_quaternion stream_quaternion = true
same_input _ _ = false

module _ {F : Type 0} where
  abbrev pub reference_changed : Json F → Config F → Config F → Bool
  reference_changed json old new =
      not (json.same_source old.source new.source)
      || (not (same_mounting old.mounting new.mounting)
          || not (same_input old.pose_input new.pose_input))

  module _ (ops : FloatOps F) (texts : Text) (windows : Bool) (json : Json F) where
    unfoldable pub reconfigured : SourceDescriptor F → Config F → Config F → SourceDescriptor F
    reconfigured old old_config config =
        let moved = reference_changed json old_config config in
        let same = json.same_source old_config.source config.source in
        let d = new_descriptor ops texts windows config in
        record d {
          metadata_revision = old.metadata_revision + 1;
          reference_epoch = old.reference_epoch + from_bool moved;
          reference_reason =
              if moved then application_configuration_changed else old.reference_reason;
          device = if same then old.device else d.device;
          device_name = if same then old.device_name else d.device_name;
        }

    -- What a changed configuration clears; `window` is the identifier of the next magnetic window.
    abbrev pub reset_for : Shared F → SourceDescriptor F → ℕ → Shared F
    reset_for s d window = record s {
      descriptor = d;
      motion = Motion.default;
      magnetic_state = State.default window;
      pose = none;
      physical = none;
      dolby = none;
      last_pose = none;
      status = default_status;
      battery = Battery.default;
    }

    abbrev pub adopt : Config F → ℕ → Controller F → Controller F × Result (Unit {0})
    adopt config window c = (
      record c {
        shared =
            if json.same_config c.config config
            then c.shared
            else reset_for c.shared (reconfigured c.shared.descriptor c.config config) window;
        config = config;
      },
      ok tt,
    )

    unfoldable pub set_config : Controller F → Config F → ℕ → ℕ → Controller F × Result (Unit {0})
    set_config c config window now =
        and_then (c, validate ops texts windows config)
          (λ c'. and_then (ensure_idle c' now) (adopt config window))
