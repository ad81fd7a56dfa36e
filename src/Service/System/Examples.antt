-- ===== src/Service/System/Examples.antt =====
-- The service, run over the natural numbers.
use pose_bridge.Client.{same_device}
use pose_bridge.Config.{
  logical_source_id, source_name, validate_acquisition, validate_dolby, validate_mounting,
  validate_osc, validate_source,
}
use pose_bridge.Controller.Lifecycle.{ensure_idle, stop_idle}
use pose_bridge.Controller.Prepare.{configure_started}
use pose_bridge.Controller.SetConfig.{reconfigured, set_config}
use pose_bridge.Controller.Start.{configure_device, start}
use pose_bridge.Coverage.{cross, proper, unit}
use pose_bridge.Model.Command.{command_register}
use pose_bridge.Model.Text.{validate_source_id}
use pose_bridge.Pose.Mounting.{determinant, entry, is_invalid}
use pose_bridge.Prelude.Int.{◌*ℤ◌, ◌+ℤ◌, ◌-ℤ◌}
use pose_bridge.Service.{
  admit_other, into_session, is_busy, phase_of, requested, send_after, try_send,
}
use pose_bridge.Service.Configure.{
  check, configuration, connection, observed_input, permitted, prechecked, send,
}
use pose_bridge.Service.Latch.{observe_magnetic}
use pose_bridge.Service.System.{step}
use pose_bridge.Service.Worker.{edit}
use pose_bridge.Service.Worker.Desk.{call, say, set, with_value, ◌>>◌}
use pose_bridge.Service.Worker.Handle.{on_command, on_request, perform, respond, retire}
use pose_bridge.Service.Worker.Poll.{passed, poll, progress, start_acquisition, tracked}
use pose_bridge.Service.Worker.Show.{observed_view, show}
use pose_bridge.Sweeps.{in_session}
use pose_bridge.Config
use pose_bridge.Controller
use pose_bridge.Controller.Lifecycle
use pose_bridge.Pose.Mounting
use pose_bridge.Prelude.{ℕ, ◌≡◌, refl, Bool, true, false, none, some, List, [], ◌∷◌, length}
use pose_bridge.Prelude.Int.{pos}
use pose_bridge.Model
use pose_bridge.Model.Command.{mag_start}
use pose_bridge.Naturals.{ops, texts, codec}
use pose_bridge.Controller.Lifecycle.{Controller, Ending, ended}
use pose_bridge.Controller.Sample.{config, empty}
use pose_bridge.Client.{Device, ble, new_device}
use pose_bridge.Service.{open_magnetic, write, Phase, admit}
use pose_bridge.Model.Observation.{no_observation, quaternion}
use pose_bridge.Controller.{Snapshot, snapshot_at, complete}
use pose_bridge.Service.{Outputs, tracking}
use pose_bridge.Service.Worker.{new_worker}
use pose_bridge.Service.Worker.Poll.{connect_step}
use pose_bridge.Service.Worker.Tracks.{IsTracked, connect_step-IsTracked}
use pose_bridge.Service.Worker.Desk.{Parts, Inputs, Desk}
use pose_bridge.Service.System.{System, Action, sends, takes, polls, writes, shows, new_system, run}
use pose_bridge.Service.System.Invariant.{IsWell, run-IsWell}

abbrev parts : Parts ℕ ℕ ℕ
parts = record {
  codec = codec;
  ops = ops;
  texts = texts;
  host = record { windows = false; macos = false; packaged = false };
  json = record { same_config = λ a b. false; same_source = λ a b. false };
  microtesla_of = λ c. record { x = 0; y = 0; z = 0 };
  drawing = λ c. length c.readings;
  action_of = λ c. "write";
  text_of = λ m. "failed";
}

abbrev controller : Controller ℕ
controller = record { shared = empty; config = config; task = none; magnetic_commands = false }

abbrev inputs : Model.Result (Controller ℕ) → Inputs ℕ
inputs created = record {
  now = 1000;
  instance = 1;
  session = 2;
  window = 3;
  operation = 4;
  has_room = true;
  ending = ended empty;
  created = created;
}

abbrev sensor : Device
sensor = record (new_device ble "a" "Sensor") {
  mounting = record { right = pos 1; forward = pos 2; up = pos 3 };
}

-- A session is asked for and written to at once; the controller cannot be made for the first request,
-- and is made for the second.
abbrev steps : List (Action ℕ)
steps =
    sends (open_magnetic sensor)
    ∷ sends (write sensor mag_start)
    ∷ takes (inputs (Model.err Model.unavailable))
    ∷ writes
    ∷ writes
    ∷ takes (inputs (Model.ok controller))
    ∷ writes
    ∷ writes
    ∷ polls (inputs (Model.ok controller))
    ∷ shows 2000000000
    ∷ []

abbrev reached : System ℕ ℕ
reached = run parts steps (new_system 0)

abbrev outcome : Bool × Phase × ℕ × ℕ
outcome = (
  reached.service.view.session_write_pending, reached.worker.phase, reached.service.view.request,
  reached.worker.current,
)

-- The write went out on its own, and nothing is left to tell that it ended.
stays_pending : reached.service.view.session_write_pending ≡ true
unfolding run step send send_after permitted prechecked admit admit_other check proper cross ◌-ℤ◌
    ◌*ℤ◌ unit is_busy try_send requested into_session phase_of same_device in_session on_request
    on_command edit respond ◌>>◌ retire say perform with_value configuration Config.validate
    validate_source validate_source_id validate_mounting validate_osc validate_dolby call set_config
    ensure_idle configure_device command_register set poll progress Controller.snapshot_at passed
    configure_started show observed_view observe_magnetic reconfigured
stays_pending = refl

run-IsWell_example : IsWell reached
run-IsWell_example = run-IsWell parts 0 steps

-- A connection whose inspection is complete.
abbrev inspected : Snapshot ℕ
inspected =
    let s = snapshot_at empty 1000 in
    record s {
      status = record (s.status) { state = complete };
      descriptor = record (s.descriptor) {
        device = record no_observation {
          valid = true;
          calsw = some 0;
          output_fields = some (quaternion ∷ []);
        };
      };
    }

abbrev no_outputs : Outputs
no_outputs = record { posebridge = none; dolby = none }

abbrev desk : Desk ℕ ℕ
desk = record {
  worker = record (new_worker 0) { phase = tracking; pending_connect = some (sensor, no_outputs) };
  controller = controller;
  edits = [];
}

abbrev joined : Desk ℕ ℕ
joined = connect_step parts (inputs (Model.ok controller)) inspected sensor no_outputs desk

tracks : joined.worker.phase ≡ tracking
unfolding connect_step with_value tracked connection configuration Mounting.validate is_invalid
    determinant ◌+ℤ◌ ◌-ℤ◌ ◌*ℤ◌ entry Config.validate validate_source validate_source_id
    validate_mounting validate_osc logical_source_id source_name validate_acquisition validate_dolby
    ensure_idle Lifecycle.stop stop_idle set_config start observed_input call ◌>>◌ start_acquisition
tracks = refl

connect_step-IsTracked_example :
    IsTracked parts
      (inputs (Model.ok controller))
      inspected
      sensor
      no_outputs
      (connect_step parts (inputs (Model.ok controller)) inspected sensor no_outputs desk)
connect_step-IsTracked_example =
    connect_step-IsTracked parts (inputs (Model.ok controller)) inspected sensor no_outputs desk
      refl tracks
