-- ===== src/Controller/Start.antt =====
-- What `Controller` of crates/posebridge-core/src/controller.rs starts. The name that JSON has for a
-- command, and whether the queue of a monitor takes one, are parameters.
pub mod Queued
pub mod Exclusive
use Prim.Native.String.{String}
use pose_bridge.Prelude.{
  ℕ, Bool, true, false, not, ◌&&◌, ◌||◌, Option, some, leb, if◌then◌else◌, is_some_and,
}
use pose_bridge.Model.{invalid, busy, Result, ok, err, fail_if, ◌>>=◌, ◌>>◌}
use pose_bridge.Model.Text.{Text}
use pose_bridge.Model.Command.{DeviceCommand, mag_start, mag_stop, save, command_register}
use pose_bridge.Model.Observation.{is_running}
use pose_bridge.Magnetic.State.{ready}
use pose_bridge.Pose.{FloatOps}
use pose_bridge.Config.{Config, is_simulate, validate, validate_acquisition}
use pose_bridge.Controller.{Shared}
use pose_bridge.Controller.Lifecycle.{Controller, and_then, ensure_idle}
use pose_bridge.Controller.Prepare.{
  published, started, scan_started, inspect_started, configure_started, magnetic_started,
}

abbrev pub has_live_task : Option Bool → Bool
has_live_task t = is_some_and t (λ is_finished. not is_finished)

-- The commands that a monitor takes.
abbrev pub is_magnetic : DeviceCommand → Bool
is_magnetic mag_start = true
is_magnetic mag_stop = true
is_magnetic save = true
is_magnetic _ = false

abbrev pub action_of : DeviceCommand → String
action_of mag_start = "mag_start"
action_of mag_stop = "mag_stop"
action_of _ = "save"

module _ {F : Type 0} where
  -- The new task, which has not finished.
  abbrev pub launched : Controller F → Shared F → Controller F × Result (Unit {0})
  launched c s = (record c { shared = s; task = some false }, ok tt)

  -- The monitor is busy with another operation, or does not take the command.
  abbrev pub is_refused : Shared F → DeviceCommand → Bool
  is_refused s command =
      not (is_magnetic command)
      || (not (ready s.magnetic_state) || is_some_and s.operation (λ op. is_running op.outcome))

  -- A command for a running monitor.
  unfoldable pub queue_command :
      Controller F → DeviceCommand → Bool → ℕ → Controller F × Result (Unit {0})
  queue_command c command has_room id =
      if is_refused c.shared command || not has_room then (c, err busy) else (
        record c {
          shared = record (c.shared) { operation = published c.shared id (action_of command) };
        },
        ok tt,
      )

  unfoldable pub scan_start : Controller F → ℕ → ℕ → ℕ → Controller F × Result (Unit {0})
  scan_start c seconds window now =
      and_then (c, fail_if (not (leb 1 seconds && leb seconds 60)) invalid)
        (λ c. and_then (ensure_idle c now) (λ c. launched c (scan_started c.shared window)))

  abbrev pub refuse_simulator :
      (Controller F → Controller F × Result (Unit {0}))
      → Controller F
      → Controller F × Result (Unit {0})
  refuse_simulator next c = if is_simulate c.config.source then (c, err invalid) else next c

module _ {F : Type 0} (ops : FloatOps F) (texts : Text) (windows : Bool) where
  unfoldable pub start : Controller F → ℕ → ℕ → ℕ → Controller F × Result (Unit {0})
  start c instance window now =
      and_then (c, validate_acquisition ops texts windows c.config)
        (λ c.
          and_then (ensure_idle c now)
            (λ c. launched c (started c.shared c.config instance window)))

  -- What `inspect_start`, `magnetic_start` and `configure_device` have in common.
  unfoldable pub start_device :
      Controller F
      → ℕ
      → (Controller F → Controller F × Result (Unit {0}))
      → Controller F × Result (Unit {0})
  start_device c now next =
      and_then (c, validate ops texts windows c.config)
        (λ c. and_then (ensure_idle c now) (refuse_simulator next))

  unfoldable pub inspect_start : Controller F → ℕ → ℕ → ℕ → Controller F × Result (Unit {0})
  inspect_start c window id now =
      start_device c now (λ c. launched c (inspect_started c.shared window id))

  unfoldable pub magnetic_start : Controller F → ℕ → ℕ → ℕ → ℕ → Controller F × Result (Unit {0})
  magnetic_start c instance session window now = start_device c now (λ c.
      launched (record c { magnetic_commands = true })
        (magnetic_started c.shared instance session window))

  abbrev pub checked : Config F → DeviceCommand → Result (Unit {0})
  checked config command = do validate ops texts windows config; _ ← command_register command; ok tt

  unfoldable pub configure_device :
      Controller F → DeviceCommand → String → Bool → ℕ → ℕ → ℕ → Controller F × Result (Unit {0})
  configure_device c command action has_room window id now =
      and_then (c, checked c.config command)
        (λ c.
          if c.magnetic_commands && has_live_task c.task
          then queue_command c command has_room id
          else and_then (ensure_idle c now)
              (refuse_simulator (λ c. launched c (configure_started c.shared window id action))))
