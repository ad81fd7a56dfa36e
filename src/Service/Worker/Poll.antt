-- ===== src/Service/Worker/Poll.antt =====
-- What `worker` of crates/posebridge-client/src/posebridge/service.rs does after each request or wait: the
-- next step of a submission or of a connection, and the publication. A poll has one instant.
use pose_bridge.Prelude.{
  ℕ, ◌+◌, Bool, true, false, ◌&&◌, ◌||◌, Option, none, some, [], ◌∷◌, ◌++◌, back, leb, ◌==◌,
  if◌then◌else◌, is_none, is_some_and,
}
use mathlib.Core.Option
use pose_bridge.Model
use pose_bridge.Motion.{MotionBatch, MotionSample}
use pose_bridge.Config.{Config}
use pose_bridge.Controller.{
  Snapshot, ConnectionState, complete, stopped, failed, LastError, snapshot_at,
}
use pose_bridge.Controller.Lifecycle.{Controller}
use pose_bridge.Controller.Start
use pose_bridge.Controller.Output.{motion_since}
use pose_bridge.Configuration
use pose_bridge.Configuration.Apply.{Apply, Action}
use pose_bridge.Configuration.Apply
use pose_bridge.Client.{Device}
use pose_bridge.Sweeps.{Run, Session}
use pose_bridge.Tracking.{Sample, from_motion}
use pose_bridge.Service.{
  Phase, idle, scanning, inspecting, tracking, operating, magnetic, stopping, is_tracking, Message,
  calibration_active, apply_stopped, status, Outcome, err, ok, and_then, Outputs, View, Service,
}
use pose_bridge.Service
use pose_bridge.Service.Configure.{connection, observed_input}
use pose_bridge.Service.Worker.{set_apply, complain, set_error, end_apply}
use pose_bridge.Service.Worker.Desk.{Parts, Inputs, Desk, Step, ◌>>◌, call, set, with_value}
use pose_bridge.Service.Worker.Handle.{stop_it, configure, inspect_it, write_it, absorbed}

abbrev pub is_complete : ConnectionState → Bool
is_complete complete = true
is_complete _ = false

abbrev pub is_failed : ConnectionState → Bool
is_failed failed = true
is_failed _ = false

abbrev pub is_stopped : ConnectionState → Bool
is_stopped stopped = true
is_stopped _ = false

-- The phases that end with their task.
abbrev pub is_passing : Phase → Bool
is_passing scanning = true
is_passing inspecting = true
is_passing operating = true
is_passing _ = false

module _ {F G S : Type 0} (parts : Parts F G S) (i : Inputs F) where
  abbrev pub act : Action → Step F S
  act (Action.write command) = call (write_it parts i command)
  act Action.inspect = call (inspect_it parts i)
  act Action.done = set (λ w. w)

  abbrev pub is_done : Action → Bool
  is_done Action.done = true
  is_done _ = false

  -- A submission that was refused a step.
  abbrev pub broken : Desk F S → Apply → Message → Desk F S
  broken d submission error = record d {
    worker = record (d.worker) { phase = Service.failed; pending_apply = none };
    edits =
        d.edits
        ++ set_error error ∷ set_apply (Apply.fail submission (parts.text_of error)).progress ∷ [];
  }

  abbrev pub advanced : Apply → Bool → Desk F S × Outcome (Unit {0}) → Desk F S
  advanced submission done (d, err e) = broken d submission e
  advanced submission done (d, ok u) = record d {
    worker =
        if done
        then record (d.worker) { phase = idle; pending_apply = none }
        else record (d.worker) { pending_apply = some submission };
    edits = d.edits ++ set_apply submission.progress ∷ [];
  }

  abbrev pub take_action : Desk F S → Apply × Configuration.Result Action → Desk F S
  take_action d (submission, Configuration.err e) = broken d submission (Service.applying e)
  take_action d (submission, Configuration.ok action) =
      advanced submission (is_done action) ((call (stop_it parts i) >> act action) d)

  abbrev pub reason_of : Option LastError → Message
  reason_of none = apply_stopped
  reason_of (some e) = status e

  abbrev pub cut_short : Desk F S → Apply → Message → Desk F S
  cut_short d submission error = record d {
    worker = record (d.worker) { phase = Service.failed; pending_apply = none };
    edits = d.edits ++ end_apply (Apply.fail submission (parts.text_of error)).progress error ∷ [];
  }

  -- A submission under way.
  unfoldable pub apply_step : Snapshot F → Apply → Desk F S → Desk F S
  apply_step snapshot submission d =
      if is_complete snapshot.status.state
      then take_action d (Apply.advance submission snapshot.descriptor.device snapshot.operation)
      else if is_failed snapshot.status.state || is_stopped snapshot.status.state
      then cut_short d submission (reason_of snapshot.status.last_error)
      else d

  -- The configuration that an inspected device is tracked with.
  unfoldable pub tracked : Snapshot F → Device → Outputs → Outcome (Config F)
  tracked snapshot device outputs =
      if is_some_and snapshot.descriptor.device.calsw (λ c. c == 7)
      then err calibration_active
      else and_then (connection parts.ops parts.texts parts.host device outputs) λ config.
        and_then (observed_input device snapshot.descriptor.device)
          λ input. ok (record config { pose_input = input })

  abbrev pub start_it : Controller F → Controller F × Model.Result (Unit {0})
  start_it c = Start.start parts.ops parts.texts parts.host.windows c i.instance i.window i.now

  unfoldable pub start_acquisition : Config F → Step F S
  start_acquisition config =
      call (stop_it parts i) >> call (configure parts i config) >> call start_it

  abbrev pub connected : Desk F S × Outcome (Unit {0}) → Desk F S
  connected (d, ok u) = record d { worker = record (d.worker) { pending_connect = none } }
  connected (d, err e) = record d {
    worker = record (d.worker) { pending_connect = none; phase = Service.failed };
    edits = d.edits ++ complain d.worker.current (some e) ∷ [];
  }

  -- A connection under way.
  unfoldable pub connect_step : Snapshot F → Device → Outputs → Desk F S → Desk F S
  connect_step snapshot device outputs d =
      if is_complete snapshot.status.state
      then connected (with_value (tracked snapshot device outputs) start_acquisition d)
      else d

  unfoldable pub passed : Snapshot F → Desk F S → Desk F S
  passed snapshot d =
      if is_passing d.worker.phase
        && (is_complete snapshot.status.state || is_stopped snapshot.status.state)
      then record d { worker = record (d.worker) { phase = idle } }
      else d

  abbrev pub progress_of :
      Option Apply → Option (Device × Outputs) → Snapshot F → Desk F S → Desk F S
  progress_of (some submission) connecting snapshot d = apply_step snapshot submission d
  progress_of none (some (device, outputs)) snapshot d = connect_step snapshot device outputs d
  progress_of none none snapshot d = passed snapshot d

  abbrev pub seen : Desk F S → Snapshot F
  seen d = snapshot_at d.controller.shared i.now

  abbrev pub failed_task : Desk F S → Desk F S
  failed_task d =
      if is_failed (seen d).status.state
      then record d {
        worker = record (d.worker) { phase = Service.failed; pending_connect = none };
      }
      else d

  unfoldable pub progress : Desk F S → Desk F S
  progress d = failed_task (progress_of d.worker.pending_apply d.worker.pending_connect (seen d) d)

  abbrev pub latest_of : MotionBatch F → Option (Sample F) → Option (Sample F)
  latest_of batch old = newest (back batch.samples)
    where
      newest : Option (MotionSample F) → Option (Sample F)
      newest none = if batch.reset then none else old
      newest (some p) = some (from_motion p batch.queried_at)

  abbrev pub at_activity : Bool → Sample F → Sample F
  at_activity is_active p = record p { fresh = is_active }

  -- `next_poll`.
  abbrev pub poll_after : ℕ → ℕ
  poll_after next = if leb (next + 5000000) i.now then i.now + 5000000 else next + 5000000

-- What a poll has to show.
pub record Publication (F S : Type 0) : Type 0 where
  pub snapshot : Snapshot F
  pub sample : Option (Sample F)
  pub session : Option (Session F S × Device)

module _ {F G S : Type 0} (parts : Parts F G S) (i : Inputs F) where
  abbrev pub absorb_session :
      Option (Run F S) → Controller F → Option (Run F S) × Option (Session F S × Device)
  absorb_session none c = (none, none)
  absorb_session (some run) c =
      let (run', session) = absorbed parts i run c in (some run', some (session, run'.device))

  abbrev pub gathered : Desk F S → MotionBatch F → Desk F S × Publication F S
  gathered d batch =
      let w = d.worker in
      let latest = latest_of parts i batch w.latest in
      let (session, published) = absorb_session w.session d.controller in
      (
        record d {
          worker = record w {
            cursor = batch.cursor;
            latest = latest;
            next_poll = poll_after parts i w.next_poll;
            session = session;
          };
        },
        record {
          snapshot = seen parts i d;
          sample =
              if is_tracking w.phase && is_none w.pending_connect
              then Option.map (at_activity parts i batch.active) latest
              else none;
          session = published;
        },
      )

  -- A poll, up to the lock of the view.
  unfoldable pub poll : Desk F S → Desk F S × Publication F S
  poll d =
      let e = progress parts i d in
      gathered e (motion_since e.controller.shared e.worker.cursor i.now)
