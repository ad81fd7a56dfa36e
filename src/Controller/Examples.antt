-- ===== src/Controller/Examples.antt =====
-- A controller over the natural numbers, and the laws at its states.
use pose_bridge.Prelude.{
  ℕ, ◌+◌, ◌≡◌, refl, Bool, true, false, not, ◌&&◌, ◌||◌, Option, none, some, List, [], ◌∷◌, arith,
  is_some_and, from_bool,
}
use pose_bridge.Model.{Result, ok, err, is_ok, io, timeout, cancelled}
use pose_bridge.Model.Command.{save}
use pose_bridge.Model.Observation.{new_operation}
use pose_bridge.Naturals.{ops, texts}
use pose_bridge.Osc.{Transmission, accepted, quaternion}
use pose_bridge.Osc.Sender.{Sender}
use pose_bridge.Osc.Sender
use pose_bridge.Config.{euler}
use pose_bridge.Device.Exec.{Environment}
use pose_bridge.Device.Execute.{execute}
use pose_bridge.Controller.{Shared}
use pose_bridge.Controller.Sample.{config, empty, in_session, prepared, mounting, local, bytes}
use pose_bridge.Controller.Publish.{begin_session, publish_batch}
use pose_bridge.Controller.Publish.Session.{IsSession, begin_session-IsSession}
use pose_bridge.Controller.Publish.Counts.{publish_batch-counts}
use pose_bridge.Controller.Receive.{receive}
use pose_bridge.Controller.Receive.Session.{receive-IsSession}
use pose_bridge.Controller.FullRate.{FullFrameRate, observe}
use pose_bridge.Controller.FullRate.Steady.{IsTimed, observe-IsTimed}
use pose_bridge.Controller.Control.{control_connection, may_have_changed}
use pose_bridge.Controller.Control.Epoch.{IsFresh, is_moved, is_attempted, control_connection-epoch}
use pose_bridge.Controller.Control.Settled.{control_connection-settled}
use pose_bridge.Controller.Lifecycle.{Controller, returned, completed}
use pose_bridge.Controller.Lifecycle.Conclude.{state_of, is_complete, runs, completed-settled}
use pose_bridge.Controller.SetConfig.{Json, set_config}
use pose_bridge.Controller.SetConfig.Epoch.{IsTaken, set_config-epoch}
use pose_bridge.Controller.Reconnect.{Round, reconnect}
use pose_bridge.Controller.Reconnect.Backoff.{IsBackoff, IsEnd, reconnect-IsBackoff}

receive-IsSession_example :
    IsSession (receive ops euler mounting local in_session bytes 0 1000000).1
receive-IsSession_example =
    receive-IsSession ops euler mounting local in_session bytes 0 1000000
      (begin_session-IsSession empty 7 9)

publish_batch-counts_example :
    let s' = publish_batch ops in_session 0 1000000 (prepared ∷ prepared ∷ []) in
    (s'.status.pose_count + s'.status.invalid_poses
      ≡ in_session.status.pose_count + in_session.status.invalid_poses + 2)
    × (s'.status.session_samples + in_session.status.pose_count
        ≡ in_session.status.session_samples + s'.status.pose_count)
    × (s'.motion.delivery ≡ in_session.motion.delivery + 1)
publish_batch-counts_example =
    publish_batch-counts ops in_session 0 1000000 (prepared ∷ prepared ∷ []) (refl, (refl, tt))

abbrev steady : FullFrameRate
steady = record { last = some 150; gaps = 50 ∷ 50 ∷ 50 ∷ [] }

steady-IsTimed : IsTimed steady 150
steady-IsTimed = record {
  last = refl;
  steady = (omega arith, omega arith, (omega arith, omega arith, (omega arith, omega arith, tt)));
  bounded = omega arith;
}

observe-IsTimed_example :
    (is_ok (observe steady 0xe4 (some 201)).1 ≡ true)
    × IsTimed (observe steady 0xe4 (some 201)).0 201
observe-IsTimed_example = observe-IsTimed steady 150 201 steady-IsTimed (omega arith) (omega arith)

-- A device that does not answer, and an operation that has just been published.
abbrev env : Environment
env = record {
  request = λ h. ok tt;
  arrivals = λ h. [];
  write = λ h. ok tt;
  delay = λ h. ok tt;
  unix_ms = λ h. 0;
  polls = λ h. 80;
}

abbrev saving : Shared ℕ
saving = record empty { operation = some (new_operation 3 "save") }

saving-IsFresh : IsFresh saving
saving-IsFresh = record {
  op = new_operation 3 "save";
  there = refl;
  unattempted = refl;
  unmoved = refl;
}

control_connection-epoch_example :
    let run = execute env save [] in
    let s' = (control_connection env saving save).0 in
    let moved = is_moved run.1 || (not (is_ok run.0) && is_attempted run.1) in
    (s'.descriptor.reference_epoch ≡ 1 + from_bool moved)
    × (may_have_changed s'.operation ≡ moved)
    × (is_some_and s'.operation (λ op. op.write_attempted) ≡ is_attempted run.1)
control_connection-epoch_example = control_connection-epoch env saving save saving-IsFresh

completed-settled_example :
    let t = completed saving (returned (err cancelled)) 5 in
    (t.status.state ≡ state_of (returned (err cancelled)))
    × (t.dolby ≡ none)
    × (runs t.operation ≡ (is_complete (returned (err cancelled)) && runs saving.operation))
    × (t.descriptor ≡ saving.descriptor)
    × (t.motion ≡ saving.motion)
completed-settled_example = completed-settled saving (returned (err cancelled)) 5

abbrev json : Json ℕ
json = record { same_config = λ a b. false; same_source = λ a b. true }

abbrev controller : Option Bool → Controller ℕ
controller task = record {
  shared = in_session;
  config = config;
  task = task;
  magnetic_commands = false;
}

set_config-epoch_example :
    IsTaken json
      (controller (some true))
      config
      (set_config ops texts false json (controller (some true)) config 8 5)
set_config-epoch_example = set_config-epoch ops texts false json (controller (some true)) config 8 5

-- A monitor runs, and takes commands.
abbrev commanded : Controller ℕ
commanded = record (controller (some false)) { magnetic_commands = true }

-- Two connections that fail, and one that is not opened.
abbrev round : Result (Unit {0}) → Round ℕ
round opening = record {
  is_cancelled = false;
  opening = opening;
  instance = 7;
  session = 9;
  name = none;
  pump = λ s. (s, err timeout);
  is_cut = false;
}

abbrev rounds : List (Round ℕ)
rounds = round (ok tt) ∷ round (err io) ∷ round (ok tt) ∷ []

pauses-doubled : (reconnect (λ a b. true) empty 1 rounds).pauses ≡ 1 ∷ 2 ∷ 4 ∷ []
unfolding reconnect begin_session
pauses-doubled = refl

reconnect-IsBackoff_example :
    let o = reconnect (λ a b. true) empty 1 rounds in IsBackoff 1 o.pauses × IsEnd o.result
reconnect-IsBackoff_example = reconnect-IsBackoff (λ a b. true) empty rounds

abbrev published : Shared ℕ
published = publish_batch ops in_session 0 1000000 (prepared ∷ [])

abbrev sender : Sender
sender = Sender.new quaternion 10000000

abbrev socket : List ℕ → Transmission
socket packet = accepted 1

control_connection-settled_example :
    let c = control_connection env saving save in
    runs (completed c.0 (returned c.1) 5).operation ≡ false
control_connection-settled_example = control_connection-settled env saving save 5
