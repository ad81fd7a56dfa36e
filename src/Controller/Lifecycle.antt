-- ===== src/Controller/Lifecycle.antt =====
-- `Controller` of crates/posebridge-core/src/controller.rs: how it stops and concludes its
-- work. A task is what the controller sees of it: whether it has finished.
pub mod Conclude
use pose_bridge.Prelude.{
  ℕ, ◌+◌, Bool, true, false, not, ◌&&◌, ◌||◌, Option, none, some, ◌==◌, if◌then◌else◌, is_some,
  from_bool,
}
use pose_bridge.Prelude.Int.{ℤ, pos_part, neg_part}
use pose_bridge.Model.{Error, cancelled, timeout, io, busy, Result, ok, err}
use pose_bridge.Model.Text.{Text}
use pose_bridge.Model.Observation.{OperationStatus, OperationOutcome, is_running}
use pose_bridge.Model.Observation
use pose_bridge.Motion
use pose_bridge.Battery
use pose_bridge.Magnetic.{MagneticPhase, idle, closed}
use pose_bridge.Magnetic
use pose_bridge.Magnetic.State
use pose_bridge.Pose.{FloatOps}
use pose_bridge.Pose.Mounting.{Mounting}
use pose_bridge.Dolby.{DolbyOscStatus, clear_reference}
use pose_bridge.Dolby
use pose_bridge.Config.{
  Config, Source, PoseInput, euler, register_quaternion, stream_quaternion, validate,
}
use pose_bridge.Controller.{
  Shared, SourceDescriptor, StatusSnapshot, default_status, new_descriptor, LastError, from_work,
  worker_panic, stop_timed_out, ReferenceReason, application_configuration_changed, stopped,
  complete, failed, ConnectionState,
}
use pose_bridge.Controller.Control.{update}

pub record Controller (F : Type 0) : Type 0 where
  pub shared : Shared F
  pub config : Config F
  -- a task, and whether it has finished
  pub task : Option Bool
  -- the queue to a magnetic monitor
  pub magnetic_commands : Bool

-- What the worker does when it is told to stop: it ends within the five seconds, or not. Either way it
-- leaves a shared state.
pub data Ending (F : Type 0) : Type 0 where
  ended hung : Shared F → Ending F

-- What the work of a task comes to.
pub data Completion : Type 0 where
  returned : Result (Unit {0}) → Completion
  panicked : Completion

-- `op.outcome = outcome` of an operation that runs.
abbrev pub end_running : OperationOutcome → Option OperationStatus → Option OperationStatus
end_running outcome o =
    update o (λ op. if is_running op.outcome then record op { outcome = outcome } else op)

-- The monitor is at work.
abbrev pub is_open : MagneticPhase → Bool
is_open idle = false
is_open closed = false
is_open Magnetic.failed = false
is_open _ = true

module _ {F : Type 0} where
  abbrev pub retired : Dolby.Sender F → DolbyOscStatus F
  retired output = record ((clear_reference output).status) { active = false }

  abbrev pub retired_status :
      Option (Dolby.Sender F) → Option (DolbyOscStatus F) → Option (DolbyOscStatus F)
  retired_status none old = old
  retired_status (some output) old = some (retired output)

  unfoldable pub retire_dolby : Shared F → Shared F
  retire_dolby s = record s {
    dolby = none;
    status = record (s.status) { dolby_osc = retired_status s.dolby s.status.dolby_osc };
  }

  abbrev pub at_state : Shared F → ConnectionState → Option LastError → Shared F
  at_state s state error = record s {
    status = record (s.status) { state = state; last_error = error };
  }

  -- The `match result` at the end of `launch`.
  unfoldable pub concluded : Shared F → Completion → ℕ → Shared F
  concluded s (returned (ok u)) now = at_state s complete s.status.last_error
  concluded s (returned (err cancelled)) now = record (at_state s stopped s.status.last_error) {
    operation = end_running Observation.cancelled s.operation;
  }
  concluded s (returned (err e)) now = record (at_state s failed (some (from_work e))) {
    operation = end_running Observation.failed s.operation;
  }
  concluded s panicked now = record (at_state s failed (some worker_panic)) {
    magnetic_state =
        if is_open s.magnetic_state.phase
        then State.finish s.magnetic_state
            (some "internal worker panic; device calibration state unknown") now
        else s.magnetic_state;
    operation = end_running Observation.failed s.operation;
  }

  -- The end of `launch`, but for the last telemetry packets.
  unfoldable pub completed : Shared F → Completion → ℕ → Shared F
  completed s completion now = retire_dolby (concluded s completion now)

  -- The end of `stop`, once the worker is gone.
  unfoldable pub stop_idle : Controller F → Bool → Controller F × Result (Unit {0})
  stop_idle c magnetic =
      if magnetic && is_some c.shared.magnetic_state.last_error then (c, err io) else (
        record c { shared = retire_dolby (at_state c.shared stopped c.shared.status.last_error) },
        ok tt,
      )

  -- A worker that did not end.
  abbrev pub aborted : Shared F → Bool → ℕ → Shared F
  aborted s magnetic now =
      let t = retire_dolby (at_state s failed (some stop_timed_out)) in
      if magnetic
      then record t {
        magnetic_state =
            State.finish t.magnetic_state (some "stop timed out; device calibration state unknown")
              now;
      }
      else t

  abbrev pub stop_task : Controller F → Bool → Ending F → ℕ → Controller F × Result (Unit {0})
  stop_task c magnetic (ended s) now = stop_idle (record c { shared = s }) magnetic
  stop_task c magnetic (hung s) now = (record c { shared = aborted s magnetic now }, err timeout)

  abbrev pub stop_any :
      Option Bool → Controller F → Bool → Ending F → ℕ → Controller F × Result (Unit {0})
  stop_any none c magnetic ending now = stop_idle c magnetic
  stop_any (some is_finished) c magnetic ending now = stop_task c magnetic ending now

  unfoldable pub stop : Controller F → Ending F → ℕ → Controller F × Result (Unit {0})
  stop c ending now =
      stop_any c.task (record c { task = none; magnetic_commands = false }) c.magnetic_commands
        ending now

  abbrev pub ensure_idle_task : Option Bool → Controller F → ℕ → Controller F × Result (Unit {0})
  ensure_idle_task none c now = (c, ok tt)
  ensure_idle_task (some false) c now = (c, err busy)
  ensure_idle_task (some true) c now = stop c (ended c.shared) now

  -- A finished worker has already signalled its end.
  unfoldable pub ensure_idle : Controller F → ℕ → Controller F × Result (Unit {0})
  ensure_idle c now = ensure_idle_task c.task c now

  -- What follows a step that may fail.
  abbrev pub and_then :
      Controller F × Result (Unit {0})
      → (Controller F → Controller F × Result (Unit {0}))
      → Controller F × Result (Unit {0})
  and_then (c, ok u) f = f c
  and_then (c, err e) f = (c, err e)
