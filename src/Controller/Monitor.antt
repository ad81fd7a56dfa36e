-- ===== src/Controller/Monitor.antt =====
-- The commands of a magnetic session in crates/posebridge-core/src/magnetic.rs, and the end of its
-- connection: a calibration that the session started is stopped before it lets go of the device. The
-- texts of messages are left out, but for the one that the session keeps.
pub mod Heard
pub mod ReadBack
pub mod Cleanup
mod Examples
use Prim.Native.String.{String}
use pose_bridge.Prelude.{
  ℕ, ◌+◌, Bool, true, false, not, ◌&&◌, ◌||◌, Option, none, some, List, [], ◌∷◌, ◌==◌, get_or,
  if◌then◌else◌,
}
use pose_bridge.Model.{Error, invalid, cancelled, io, Result, ok, err, fail_if}
use pose_bridge.Model.Command.{
  DeviceCommand, mag_start, mag_stop, save, command_register, write_register, unlock,
}
use pose_bridge.Model.Observation.{
  OperationStatus, OperationOutcome, succeeded, unverified, new_operation, persistence_unverified,
}
use pose_bridge.Model.Observation
use pose_bridge.Magnetic.{MagneticPhase, starting, stopping, saving, calibrating, calibrated}
use pose_bridge.Magnetic.Window.{close}
use pose_bridge.Magnetic.Window
use pose_bridge.Magnetic.State.{State, finish}
use pose_bridge.Controller.{Shared, magnetic, magnetic_control, magnetic_cleanup}
use pose_bridge.Controller.Control.{update, unsettled}
use pose_bridge.Controller.Wire.{
  Line, Wire, Run, ◌>>=◌, ◌>>◌, return, lift, change, write_bytes, read_values, delay,
}

abbrev pub is_start : DeviceCommand → Bool
is_start mag_start = true
is_start _ = false

abbrev pub is_stop : DeviceCommand → Bool
is_stop mag_stop = true
is_stop _ = false

abbrev pub is_save : DeviceCommand → Bool
is_save save = true
is_save _ = false

-- The command does not fit the calibration switch.
abbrev pub is_misfit : DeviceCommand → ℕ → Bool
is_misfit command calsw =
    (is_start command || is_save command) && not (calsw == 0)
    || (is_stop command && not (calsw == 0 || calsw == 7))

abbrev pub phase_of : DeviceCommand → MagneticPhase
phase_of mag_start = starting
phase_of mag_stop = stopping
phase_of _ = saving

abbrev pub attempt : DeviceCommand → OperationStatus → OperationStatus
attempt command op = record op {
  write_attempted = true;
  reference_may_have_changed = not (is_save command);
  persistence = if is_save command then persistence_unverified else op.persistence;
}

-- The calibration state that a verified command leaves, at the instant `now`; `window` is the
-- identifier of a new window.
unfoldable pub verified : DeviceCommand → ℕ → ℕ → State → State
verified command window now m =
    if is_start command
    then record m { window = Window.default window; phase = calibrating }
    else record m { owned = false; window = close m.window now; phase = calibrated }

-- The message that the session keeps of its result.
abbrev pub kept_error : Result (Unit {0}) → (Error → String) → Option String
kept_error (ok u) text = none
kept_error (err cancelled) text = none
kept_error (err e) text = some (text e)

module _ {F : Type 0} where
  abbrev pub with_magnetic : Shared F → (State → State) → Shared F
  with_magnetic s f = record s { magnetic_state = f s.magnetic_state }

  -- `Io::operation`.
  unfoldable pub operation : Bool → (OperationStatus → OperationStatus) → Run F (Unit {0})
  operation true f = change (λ s. with_magnetic s (λ m. record m { cleanup = update m.cleanup f }))
  operation false f = change (λ s. record s { operation = update s.operation f })

  -- What is known of the device before a command is written.
  unfoldable pub announced : DeviceCommand → Bool → Shared F → Shared F
  announced command cleanup s =
      let t = unsettled s in
      record t {
        descriptor = if is_save command then t.descriptor else record (t.descriptor) {
          reference_epoch = t.descriptor.reference_epoch + 1;
          reference_reason = if cleanup then magnetic_cleanup else magnetic_control;
        };
        magnetic_state = record (t.magnetic_state) {
          owned = if is_start command then true else t.magnetic_state.owned;
        };
      }

  -- The status of the cleanup, published before it.
  abbrev pub owning : Wire F → ℕ → Wire F
  owning w id = record w {
    shared = with_magnetic w.shared (λ m. record m {
      cleanup = some (record (new_operation id "mag_stop_cleanup") {
        source_id = some (w.shared.descriptor.source_id);
      });
    });
  }

  abbrev pub cleaned : Result (Unit {0}) × Wire F → Result (Unit {0}) → Result (Unit {0}) × Wire F
  cleaned (ok u, w) result = (result, w)
  cleaned (err e, w) result =
      (err io, (operation true (λ op. record op { outcome = Observation.failed }) w).1)

  abbrev pub stopped : Wire F → Wire F
  stopped w = record w { shared = with_magnetic w.shared (λ m. record m { running = false }) }

  abbrev pub finished :
      Result (Unit {0}) × Wire F → (Error → String) → ℕ → Result (Unit {0}) × Shared F
  finished (result, w) text now =
      (result, with_magnetic w.shared (λ m. finish m (kept_error result text) now))

  module _ (line : Line) where
    unfoldable pub finish_save : MagneticPhase → Bool → Run F (Unit {0})
    finish_save previous cleanup = do
      change (λ s. with_magnetic s (λ m. record m { phase = previous }))
      operation cleanup (λ op. record op { outcome = unverified })

    unfoldable pub finish_switch : DeviceCommand → ℕ → Bool → ℕ → ℕ → Run F (Unit {0})
    finish_switch command value cleanup window now = do
      delay line 100
      _ ← read_values line 1 (some value)
      change (λ s. with_magnetic s (verified command window now))
      operation cleanup (λ op. record op {
        register_verified = true;
        completion_observed = is_stop command;
        outcome = succeeded;
      })

    abbrev pub finish_command : DeviceCommand → MagneticPhase → ℕ → Bool → ℕ → ℕ → Run F (Unit {0})
    finish_command command previous value cleanup window now =
        if is_save command
        then finish_save previous cleanup
        else finish_switch command value cleanup window now

    abbrev pub probe : DeviceCommand → Run F (Unit {0})
    probe command =
        if is_start command then read_values line 0x3a none >>= (λ _. return tt) else return tt

    unfoldable pub execute_from : MagneticPhase → DeviceCommand → Bool → ℕ → ℕ → Run F (Unit {0})
    execute_from previous command cleanup window now = do
      values ← read_values line 1 none
      lift (fail_if (is_misfit command (get_or values 0 0)) invalid)
      probe command
      change (λ s. with_magnetic s (λ m. record m { phase = phase_of command }))
      write_bytes line unlock
      delay line 200
      change (announced command cleanup)
      operation cleanup (attempt command)
      target ← lift (command_register command)
      write_bytes line (write_register (target.0) (target.1))
      operation cleanup (λ op. record op { command_sent = true })
      finish_command command previous (target.1) cleanup window now

    -- `Io::execute`.
    unfoldable pub execute : DeviceCommand → Bool → ℕ → ℕ → Run F (Unit {0})
    execute command cleanup window now w =
        execute_from w.shared.magnetic_state.phase command cleanup window now w

    -- The calibration that the session owns is stopped, within four seconds: `line` answers then.
    unfoldable pub cleanup_calibration :
        Result (Unit {0}) × Wire F → ℕ → ℕ → ℕ → Result (Unit {0}) × Wire F
    cleanup_calibration (result, w) id window now =
        if w.shared.magnetic_state.owned
        then cleaned (execute mag_stop true window now (owning w id)) result
        else (result, w)

    abbrev pub after_monitor :
        Result (Unit {0}) × Wire F → (Error → String) → ℕ → ℕ → ℕ → Result (Unit {0}) × Shared F
    after_monitor (result, w) text id window now =
        finished (cleanup_calibration (result, stopped w) id window now) text now

    -- `run_connection`, round the run of `monitor`; `text` renders an error.
    unfoldable pub run_connection :
        Run F (Unit {0}) → Wire F → (Error → String) → ℕ → ℕ → ℕ → Result (Unit {0}) × Shared F
    run_connection monitor w text id window now =
        after_monitor
          (monitor (record w {
            shared = record (w.shared) { status = record (w.shared.status) { state = magnetic } };
          }))
          text id window now

  -- The end of `run`, by what closing the connection comes to. Only an error's text is kept.
  abbrev pub closed :
      Result (Unit {0}) × Shared F → Result (Unit {0}) → String → ℕ → Result (Unit {0}) × Shared F
  closed r (ok u) message now = r
  closed (result, s) (err e) message now =
      (err io, with_magnetic s (λ m. finish m (some message) now))

  abbrev pub unopened : Error → Shared F → (Error → String) → ℕ → Result (Unit {0}) × Shared F
  unopened e s text now = (err e, with_magnetic s (λ m. finish m (kept_error (err e) text) now))

  -- `run`, with what opening the connection comes to, the session on it, and what closing it comes to.
  unfoldable pub run :
      Result (Unit {0})
      → (Shared F → Result (Unit {0}) × Shared F)
      → Result (Unit {0})
      → (Error → String)
      → String
      → ℕ
      → Shared F
      → Result (Unit {0}) × Shared F
  run (err e) session closing text message now s = unopened e s text now
  run (ok u) session closing text message now s = closed (session s) closing message now
