-- ===== src/Service/System.antt =====
-- The service of crates/posebridge-client/src/posebridge/service.rs with its worker, as steps: a command is
-- sent, the worker takes a request, makes the next write, polls, or shows what it found. Commands are
-- sent between any two steps of the worker.
pub mod Invariant
pub mod Numbered
mod Examples
use pose_bridge.Prelude.{
  ℕ, Bool, true, false, not, Option, none, some, List, [], ◌∷◌, drop, if◌then◌else◌,
}
use pose_bridge.Controller.{Shared, DeviceInfo}
use pose_bridge.Controller.Lifecycle.{Controller}
use pose_bridge.Service.{Command, shutdown, Request, View, idle, Service}
use pose_bridge.Service.Configure.{send}
use pose_bridge.Service.Worker.{Worker, new_worker, Edit, edit}
use pose_bridge.Service.Worker.Desk.{Parts, Inputs, Desk}
use pose_bridge.Service.Worker.Handle.{on_request}
use pose_bridge.Service.Worker.Poll.{Publication, poll}
use pose_bridge.Service.Worker.Show.{show}

pub record System (F S : Type 0) : Type 0 where
  pub service : Service F S
  pub worker : Worker F S
  -- the writes that the worker has not made yet, and what it is to show after them
  pub edits : List (Edit F S)
  pub found : Option (Publication F S)
  -- the worker has not left its loop
  pub is_running : Bool

pub data Action (F : Type 0) : Type 0 where
  sends : Command → Action F
  takes polls : Inputs F → Action F
  writes leaves : Action F
  shows : ℕ → Action F

abbrev pub new_view : {F S : Type 0} → View F S
new_view = record {
  request = 0;
  phase = idle;
  device = none;
  devices = [];
  snapshot = none;
  error = none;
  delivery = none;
  magnetic = none;
  magnetic_session = none;
  session_write_pending = false;
  apply = none;
}

-- `Service::new`, with a worker that started.
abbrev pub new_system : {F S : Type 0} → ℕ → System F S
new_system now = record {
  service = record { queue = []; is_open = true; view = new_view; sample = none };
  worker = new_worker now;
  edits = [];
  found = none;
  is_running = true;
}

abbrev is_shutdown : Command → Bool
is_shutdown shutdown = true
is_shutdown _ = false

abbrev pub devices_of : {F : Type 0} → Option (Controller F) → List DeviceInfo
devices_of none = []
devices_of (some c) = c.shared.devices

module _ {F S : Type 0} where
  abbrev pub made : System F S → Worker F S × List (Edit F S) → System F S
  made s (w, edits) = record s { worker = w; edits = edits }

  abbrev pub written : System F S → List (Edit F S) → System F S
  written s [] = s
  written s (e ∷ es) = record s { service = edit s.service e; edits = es }

  abbrev pub with_shown : System F S → Worker F S × Service F S → System F S
  with_shown s (w, service) = record s { worker = w; service = service; found = none }

  abbrev pub shown : System F S → Option (Publication F S) → ℕ → System F S
  shown s none now = s
  shown s (some p) now =
      with_shown s (show s.worker p (devices_of s.worker.controller) now s.service)

  abbrev pub found_by : System F S → Desk F S × Publication F S → System F S
  found_by s (d, p) = record s {
    worker = record (d.worker) { controller = some d.controller };
    edits = d.edits;
    found = some p;
  }

  -- The worker goes on to a request or a poll when it has nothing left to write or to show.
  abbrev pub when_free :
      List (Edit F S) → Option (Publication F S) → Bool → System F S → System F S → System F S
  when_free [] none true s next = next
  when_free _ _ _ s next = s

  -- The receiver is gone with the worker.
  abbrev pub left : System F S → Bool → System F S
  left s true = s
  left s false = record s { service = record (s.service) { is_open = false } }

  abbrev pub when_written : List (Edit F S) → System F S → System F S → System F S
  when_written [] s next = next
  when_written _ s next = s

module _ {F G S : Type 0} (parts : Parts F G S) where
  abbrev pub handled : System F S → Inputs F → Request → List Request → System F S
  handled s i request rest =
      made
        (record s {
          service = record (s.service) { queue = rest };
          is_running = not (is_shutdown request.command);
        })
        (on_request parts i s.worker s.service.view.request request)

  abbrev pub take_first : System F S → Inputs F → List Request → System F S
  take_first s i [] = s
  take_first s i (request ∷ rest) = handled s i request rest

  abbrev pub polled : System F S → Inputs F → Option (Controller F) → System F S
  polled s i none = s
  polled s i (some c) =
      found_by s (poll parts i (record { worker = s.worker; controller = c; edits = [] }))

  unfoldable pub step : System F S → Action F → System F S
  step s (sends command) = record s {
    service = (send parts.ops parts.texts parts.host s.service command).0;
  }
  step s (takes i) = when_free s.edits s.found s.is_running s (take_first s i s.service.queue)
  step s writes = written s s.edits
  step s (polls i) = when_free s.edits s.found s.is_running s (polled s i s.worker.controller)
  step s (shows now) = when_written s.edits s (shown s s.found now)
  step s leaves = when_written s.edits s (left s s.is_running)

  unfoldable pub run : List (Action F) → System F S → System F S
  run [] s = s
  run (a ∷ as_rest) s = run as_rest (step s a)
