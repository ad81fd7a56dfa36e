-- ===== src/Service/Worker/Handle.antt =====
-- The `match receiver.recv_timeout` of `worker` in
-- crates/posebridge-client/src/posebridge/service.rs. What the controller draws from outside is given: new
-- identifiers, how a task ends, the clock, and the room in the queue of a monitor.

use pose_bridge.Prelude.{
  ℕ, ◌-◌, leb, Bool, true, false, not, ◌&&◌, Option, none, some, List, [], ◌∷◌, ◌++◌, ◌==◌,
  if◌then◌else◌, is_some_and,
}
use pose_bridge.Model
use pose_bridge.Model.Command.{DeviceCommand}
use pose_bridge.Config.{Config}
use pose_bridge.Controller.Lifecycle.{Controller, Ending}
use pose_bridge.Controller.Lifecycle
use pose_bridge.Controller.SetConfig.{set_config}
use pose_bridge.Controller.Start.{scan_start, inspect_start, magnetic_start, configure_device}
use pose_bridge.Controller.Output.{magnetic_since}
use pose_bridge.Controller.Output
use pose_bridge.Configuration.Apply.{Apply, Progress}
use pose_bridge.Configuration.Apply
use pose_bridge.Client.{Device, same_device}
use pose_bridge.Sweeps.{Run, Session, in_session, absorb_batch}
use pose_bridge.Sweeps
use pose_bridge.Service.{
  Phase, idle, scanning, inspecting, tracking, operating, magnetic, failed, is_magnetic, Message,
  no_mounting, not_running, session_busy, apply_cancelled, core, Outcome, err, ok, Command, scan,
  connect, recenter_dolby, inspect, open_magnetic, write, apply, stop, shutdown, Request,
}
use pose_bridge.Service.Configure.{of_core, of_apply, configuration}
use pose_bridge.Service.Worker.{
  Worker, Edit, set_apply, publish, forget_session, clear_acquisition, refuse, complain,
}
use pose_bridge.Service.Worker.Desk.{Parts, Inputs, Desk, Step, ◌>>◌, call, set, say, with_value}

-- A second ago, so that the view is shown at once.
abbrev pub overdue : ℕ → ℕ
overdue now = if leb 1000000000 now then now - 1000000000 else now

module _ {F G S : Type 0} (parts : Parts F G S) (i : Inputs F) where
  abbrev pub stop_it : Controller F → Controller F × Model.Result (Unit {0})
  stop_it c = Lifecycle.stop c i.ending i.now

  abbrev pub configure : Config F → Controller F → Controller F × Model.Result (Unit {0})
  configure config c =
      set_config parts.ops parts.texts parts.host.windows parts.json c config i.window i.now

  abbrev pub inspect_it : Controller F → Controller F × Model.Result (Unit {0})
  inspect_it c = inspect_start parts.ops parts.texts parts.host.windows c i.window i.operation i.now

  abbrev pub write_it : DeviceCommand → Controller F → Controller F × Model.Result (Unit {0})
  write_it operation c =
      configure_device parts.ops parts.texts parts.host.windows c operation
        (parts.action_of operation) i.has_room i.window i.operation i.now

  abbrev pub configured : Device → Bool → Step F S
  configured device acquisition =
      with_value (configuration parts.ops parts.texts parts.host device acquisition)
        λ config. call (configure config)

  abbrev pub opened : Option (Run F S) → Outcome (Run F S)
  opened none = err no_mounting
  opened (some run) = ok run

  -- The `match request.command`.
  unfoldable pub perform : Command → Step F S
  perform stop = call stop_it >> set (λ w. record w { phase = idle })
  perform (scan kind) =
      call (λ c. scan_start c 5 i.window i.now) >> set (λ w. record w { phase = scanning })
  perform (connect device outputs) =
      configured device true
      >> call inspect_it
      >> set (λ w. record w {
        device = some device;
        pending_connect = some (device, outputs);
        phase = tracking;
      })
  perform (inspect device) =
      configured device false
      >> call inspect_it
      >> set (λ w. record w { device = some device; phase = inspecting })
  perform (open_magnetic device) =
      with_value (opened (Sweeps.new_run parts.ops parts.microtesla_of parts.drawing device)) λ run.
        call stop_it
        >> configured device false
        >> call (λ c.
          magnetic_start parts.ops parts.texts parts.host.windows c i.instance i.session i.window
            i.now)
        >> set (λ w. record w { device = some device; session = some run; phase = magnetic })
  perform (write device operation) =
      configured device false
      >> call (write_it operation)
      >> set (λ w. record w { device = some device; phase = operating })
  perform (apply device old settings) = with_value (of_apply (Apply.new old settings)) λ submission.
      call stop_it
      >> configured device false
      >> call inspect_it
      >> say (set_apply submission.progress)
      >> set (λ w. record w {
        pending_apply = some submission;
        device = some device;
        phase = operating;
      })
  -- `unreachable!()`
  perform shutdown = set (λ w. w)
  perform recenter_dolby = set (λ w. w)

  abbrev is_failed : Phase → Bool
  is_failed failed = true
  is_failed _ = false

  abbrev is_stop : Command → Bool
  is_stop stop = true
  is_stop _ = false

  -- `run.absorb(c.magnetic_since(run.cursor()))`.
  abbrev pub absorbed : Run F S → Controller F → Run F S × Session F S
  absorbed run c =
      absorb_batch parts.ops parts.microtesla_of parts.drawing run
        (magnetic_since c.shared run.cursor i.now)

  abbrev pub retire_session : Command → Option (Run F S) → Step F S
  retire_session command none d = (d, ok tt)
  retire_session command (some run) d =
      let (c, stopped) = stop_it d.controller in
      let (run', last) = absorbed run c in
      (
        record d {
          controller = c;
          worker = record (d.worker) { session = none };
          edits = d.edits ++ publish last run.device d.worker.current ∷ [];
        },
        if is_stop command && not (is_failed d.worker.phase) then of_core stopped else ok tt,
      )

  -- `session.take()`, and what becomes of it.
  unfoldable pub retire : Command → Step F S
  retire command d = retire_session command d.worker.session d

  abbrev pub forget : Command → Step F S
  forget command = if is_stop command then set (λ w. w) else say forget_session

  -- The closure whose result is matched.
  unfoldable pub respond : Command → Step F S
  respond command = retire command >> forget command >> perform command

  -- The worker, its writes, and its controller put back.
  abbrev pub settle : Desk F S × Outcome (Unit {0}) → Worker F S × List (Edit F S)
  settle (d, ok u) =
      (record (d.worker) { controller = some d.controller; last_view = overdue i.now }, d.edits)
  settle (d, err e) = (
    record (d.worker) {
      controller = some d.controller;
      last_view = overdue i.now;
      phase = failed;
      pending_connect = none;
    },
    d.edits ++ refuse d.worker.current e ∷ [],
  )

  abbrev pub controller_of : Option (Controller F) → Outcome (Controller F)
  controller_of (some c) = ok c
  controller_of none = of_core i.created

  abbrev pub respond_with :
      Worker F S → List (Edit F S) → Command → Outcome (Controller F) → Worker F S × List (Edit F S)
  respond_with w edits command (ok c) =
      settle (respond command (record { worker = w; controller = c; edits = edits }))
  respond_with w edits command (err e) = (
    record w { last_view = overdue i.now; phase = failed; pending_connect = none },
    edits ++ refuse w.current e ∷ [],
  )

  -- `apply.fail` of a submission that a new request cancels.
  abbrev pub cancelled : Option Apply → List (Edit F S)
  cancelled none = []
  cancelled (some submission) =
      set_apply (Apply.fail submission (parts.text_of apply_cancelled)).progress ∷ []

  abbrev pub begun : Worker F S → ℕ → Worker F S
  begun w id = record w {
    current = id;
    pending_apply = none;
    cursor = none;
    latest = none;
    pending_connect = none;
  }

  -- The arm of any other request.
  unfoldable pub on_command : Worker F S → ℕ → Command → Worker F S × List (Edit F S)
  on_command w id command =
      respond_with (begun w id) (cancelled w.pending_apply ++ clear_acquisition ∷ []) command
        (controller_of w.controller)

  abbrev pub stopped : Option (Controller F) → Option (Controller F)
  stopped none = none
  stopped (some c) = let (c', r) = stop_it c in some c'

  -- `shutdown` leaves the loop: what is after it.
  unfoldable pub on_shutdown : Worker F S → ℕ → Worker F S × List (Edit F S)
  on_shutdown w id = (
    record w { current = id; pending_apply = none; controller = stopped w.controller },
    cancelled w.pending_apply ++ clear_acquisition ∷ [],
  )

  abbrev session_message : Model.Error → Message
  session_message Model.busy = session_busy
  session_message e = core e

  abbrev pub wrote :
      Worker F S → Controller F × Model.Result (Unit {0}) → Worker F S × List (Edit F S)
  wrote w (c, Model.ok u) = (record w { controller = some c }, [])
  wrote w (c, Model.err e) =
      (record w { controller = some c }, refuse w.current (session_message e) ∷ [])

  abbrev pub write_with :
      Worker F S → DeviceCommand → Option (Controller F) → Worker F S × List (Edit F S)
  write_with w operation none = (w, [])
  write_with w operation (some c) = wrote w (write_it operation c)

  -- A write into the open session.
  unfoldable pub on_session_write : Worker F S → ℕ → DeviceCommand → Worker F S × List (Edit F S)
  on_session_write w id operation = write_with (record w { current = id }) operation w.controller

  abbrev pub takes_write : Worker F S → Device → DeviceCommand → Bool
  takes_write w target operation =
      is_magnetic w.phase
      && is_some_and w.session (λ run. same_device run.device target && in_session operation)

  abbrev result_of : Model.Result (Unit {0}) → Option Message
  result_of (Model.ok u) = none
  result_of (Model.err e) = some (core e)

  abbrev pub recentered : Worker F S → ℕ → Option (Controller F) → Worker F S × List (Edit F S)
  recentered w id none =
      (record w { last_view = overdue i.now }, complain id (some not_running) ∷ [])
  recentered w id (some c) =
      let (shared, r) = Output.recenter_dolby parts.ops parts.codec c.shared i.now in
      (
        record w { last_view = overdue i.now; controller = some (record c { shared = shared }) },
        complain id (result_of r) ∷ [],
      )

  -- A recentering of the request that the view shows, read under the first lock.
  unfoldable pub on_recenter : Worker F S → ℕ → ℕ → Worker F S × List (Edit F S)
  on_recenter w shown id = if shown == id then recentered w id w.controller else (w, [])

  abbrev pub on_write : Worker F S → ℕ → Device → DeviceCommand → Worker F S × List (Edit F S)
  on_write w id target operation =
      if takes_write w target operation
      then on_session_write w id operation
      else on_command w id (write target operation)

  unfoldable pub on_request : Worker F S → ℕ → Request → Worker F S × List (Edit F S)
  on_request w shown request = answer request.command
    where
      answer : Command → Worker F S × List (Edit F S)
      answer recenter_dolby = on_recenter w shown request.id
      answer (write target operation) = on_write w request.id target operation
      answer shutdown = on_shutdown w request.id
      answer command = on_command w request.id command
