-- ===== src/Controller/Control.antt =====
-- The device commands of crates/posebridge-core/src/controller.rs: what the progress of a command and
-- its result change. The texts of reports are left out.
pub mod Epoch
pub mod Settled
use pose_bridge.Prelude.{
  ℕ, ◌+◌, Bool, true, false, Option, none, some, List, [], ◌∷◌, if◌then◌else◌, is_some_and,
}
use pose_bridge.Model.{Error, Result, ok, err}
use pose_bridge.Model.Command.{DeviceCommand}
use pose_bridge.Model.Observation.{
  DeviceObservation, OperationStatus, OperationOutcome, persistence_unverified,
}
use pose_bridge.Device.Exec.{
  Environment, Event, read, wrote, waited, progress, Progress, write_attempt, command_sent,
  register_verified, completion_observed,
}
use pose_bridge.Device.Execute.{Outcome, execute}
use pose_bridge.Controller.{Shared, ReferenceReason, device_control, device_control_uncertain}

abbrev pub may_have_changed : Option OperationStatus → Bool
may_have_changed o = is_some_and o (λ op. op.reference_may_have_changed)

-- `if let Some(op) = &mut s.operation`.
abbrev pub update :
    Option OperationStatus → (OperationStatus → OperationStatus) → Option OperationStatus
update none f = none
update (some op) f = some (f op)

abbrev pub attempted : Bool → OperationStatus → OperationStatus
attempted persistent op = record op {
  write_attempted = true;
  persistence = if persistent then persistence_unverified else op.persistence;
}

module _ {F : Type 0} where
  unfoldable pub invalidate_reference : Shared F → ReferenceReason → Shared F
  invalidate_reference s reason = record s {
    descriptor = record (s.descriptor) {
      reference_epoch =
          if may_have_changed s.operation
          then s.descriptor.reference_epoch
          else s.descriptor.reference_epoch + 1;
      reference_reason = reason;
      metadata_revision = s.descriptor.metadata_revision + 1;
    };
    operation = update s.operation (λ op. record op { reference_may_have_changed = true });
  }

  -- The device may no longer be as it was observed.
  abbrev pub unsettled : Shared F → Shared F
  unsettled s = record s {
    descriptor = record (s.descriptor) {
      device = record (s.descriptor.device) { valid = false };
      metadata_revision = s.descriptor.metadata_revision + 1;
    };
  }

  -- The closure that `device::execute` reports to.
  unfoldable pub on_progress : Shared F → Progress → Shared F
  on_progress s (write_attempt reference persistent) =
      let t =
        if reference then invalidate_reference (unsettled s) device_control else unsettled s in
      record t { operation = update t.operation (attempted persistent) }
  on_progress s command_sent = record s {
    operation = update s.operation (λ op. record op { command_sent = true });
  }
  on_progress s register_verified = record s {
    operation = update s.operation (λ op. record op { register_verified = true });
  }
  on_progress s completion_observed = record s {
    operation = update s.operation (λ op. record op { completion_observed = true });
  }

  -- The reports of a history, which has the newest event first.
  unfoldable pub on_events : Shared F → List Event → Shared F
  on_events s [] = s
  on_events s (progress p ∷ events) = on_progress (on_events s events) p
  on_events s (read a e ∷ events) = on_events s events
  on_events s (wrote b ∷ events) = on_events s events
  on_events s (waited ms ∷ events) = on_events s events

  abbrev pub observed : Shared F → Option DeviceObservation → Shared F
  observed s none = s
  observed s (some o) = record s {
    descriptor = record (s.descriptor) {
      device = o;
      metadata_revision = s.descriptor.metadata_revision + 1;
    };
  }

  -- The `match result` of `control_connection`.
  unfoldable pub concluded : Shared F → Result Outcome → Shared F × Result (Unit {0})
  concluded s (ok (outcome, observation)) =
      let t = observed s observation in
      (record t { operation = update t.operation (λ op. record op { outcome = outcome }) }, ok tt)
  concluded s (err e) = (
    if is_some_and s.operation (λ op. op.write_attempted)
        then invalidate_reference s device_control_uncertain
        else s,
    err e,
  )

  -- `control_connection` on a fresh connection.
  unfoldable pub control_connection :
      Environment → Shared F → DeviceCommand → Shared F × Result (Unit {0})
  control_connection env s command =
      let run = execute env command [] in concluded (on_events s run.1) run.0
