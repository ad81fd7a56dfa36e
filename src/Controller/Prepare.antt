-- ===== src/Controller/Prepare.antt =====
-- The states from which `Controller` of crates/posebridge-core/src/controller.rs starts its tasks, and the
-- work of the short tasks. Scans, connections and their names come from the transport, and are
-- parameters.
use Prim.Native.String.{String}
use pose_bridge.Prelude.{ℕ, ◌+◌, true, false, Option, none, some, List, []}
use pose_bridge.Model.{cancelled, Result, ok, err, ◌>>=◌}
use pose_bridge.Model.Observation.{DeviceObservation, OperationStatus, succeeded, new_operation}
use pose_bridge.Motion
use pose_bridge.Battery
use pose_bridge.Battery.{Battery}
use pose_bridge.Magnetic.State.{ready}
use pose_bridge.Magnetic.State
use pose_bridge.Dolby.{DolbyOscStatus}
use pose_bridge.Device.Exec.{Environment, read_register_values}
use pose_bridge.Device.Inspect.{inspect, word}
use pose_bridge.Config.{Config, DolbyOscConfig}
use pose_bridge.Controller.{
  Shared, default_status, connecting, scanning, inspecting, configuring, DeviceInfo,
}
use pose_bridge.Controller.Control.{update}

-- The battery reading of an inspection; only a cancellation ends the inspection.
abbrev pub read_battery : Result (List ℕ) → ℕ → Result Battery
read_battery (ok values) now = ok (Battery.observe Battery.default (word values 0) now)
read_battery (err cancelled) now = err cancelled
read_battery (err e) now = ok (Battery.fail Battery.default (Battery.failed e))

unfoldable pub inspect_device : Environment → ℕ → Result (DeviceObservation × Battery)
inspect_device env now =
    let (r, h) = inspect env [] in
    do
      observation ← r
      battery ← read_battery (read_register_values env Battery.register none h).0 now
      ok (observation, battery)

module _ {F : Type 0} where
  -- `DolbyOscStatus::default()`.
  abbrev pub default_dolby : DolbyOscStatus F
  default_dolby = record {
    active = false;
    sent = 0;
    coalesced_samples = 0;
    send_errors = 0;
    reference_set = false;
    last_ypr_deg = none;
    last_error = none;
  }

  abbrev pub dolby_status : Option DolbyOscConfig → Option (DolbyOscStatus F)
  dolby_status none = none
  dolby_status (some o) = some default_dolby

  -- A published operation on the source of the controller.
  abbrev pub published : Shared F → ℕ → String → Option OperationStatus
  published s id action =
      some (record (new_operation id action) { source_id = some (s.descriptor.source_id) })

  -- The shared state that `start` launches from.
  unfoldable pub started : Shared F → Config F → ℕ → ℕ → Shared F
  started s config instance window = record s {
    status = record default_status {
      state = connecting;
      dolby_osc = dolby_status config.dolby_osc;
    };
    battery = Battery.default;
    descriptor = record (s.descriptor) {
      instance_id = instance;
      session_id = 0;
      metadata_revision = s.descriptor.metadata_revision + 1;
    };
    motion = Motion.default;
    magnetic_state = State.default window;
    pose = none;
    physical = none;
    dolby = none;
    last_pose = none;
    first_pose = none;
  }

  unfoldable pub scan_started : Shared F → ℕ → Shared F
  scan_started s window = record s {
    devices = [];
    magnetic_state = State.default window;
    battery = Battery.default;
    status = record (s.status) { state = scanning };
  }

  -- The work of a scan.
  abbrev pub scan_work : Shared F → Result (List DeviceInfo) → Shared F × Result (Unit {0})
  scan_work s (ok devices) = (record s { devices = devices }, ok tt)
  scan_work s (err e) = (s, err e)

  unfoldable pub inspect_started : Shared F → ℕ → ℕ → Shared F
  inspect_started s window id = record s {
    status = record (s.status) { state = inspecting; last_error = none };
    magnetic_state = State.default window;
    battery = Battery.default;
    descriptor = record (s.descriptor) {
      device = record (s.descriptor.device) { valid = false };
      metadata_revision = s.descriptor.metadata_revision + 1;
    };
    operation = published s id "inspect";
  }

  abbrev pub inspected :
      Shared F → Option String → Result (DeviceObservation × Battery) → Shared F × Result (Unit {0})
  inspected s name (err e) = (s, err e)
  inspected s name (ok (observation, battery)) = (
    record s {
      battery = battery;
      descriptor = record (s.descriptor) {
        device = observation;
        device_name = name;
        metadata_revision = s.descriptor.metadata_revision + 1;
      };
      operation =
          update s.operation (λ op. record op { register_verified = true; outcome = succeeded });
    },
    ok tt,
  )

  -- The work of an inspection, on an open connection.
  unfoldable pub inspect_work :
      Environment → Shared F → Option String → ℕ → Shared F × Result (Unit {0})
  inspect_work env s name now = inspected s name (inspect_device env now)

  unfoldable pub configure_started : Shared F → ℕ → ℕ → String → Shared F
  configure_started s window id action = record s {
    status = record (s.status) { state = configuring; last_error = none };
    magnetic_state = State.default window;
    battery = Battery.default;
    operation = published s id action;
  }

  unfoldable pub magnetic_started : Shared F → ℕ → ℕ → ℕ → Shared F
  magnetic_started s instance session window = record s {
    status = record default_status { state = connecting; session_id = session };
    descriptor = record (s.descriptor) {
      instance_id = instance;
      session_id = session;
      metadata_revision = s.descriptor.metadata_revision + 1;
      device = record (s.descriptor.device) { valid = false };
    };
    magnetic_state = State.new window instance session;
    motion = Motion.default;
    battery = Battery.default;
    pose = none;
    physical = none;
    dolby = none;
    last_pose = none;
    first_pose = none;
    operation = none;
  }
