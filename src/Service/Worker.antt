-- ===== src/Service/Worker.antt =====
-- The worker of crates/posebridge-client/src/posebridge/service.rs: its state, and its writes to what
-- the service shows. Each write is one lock of the view or of the sample; between two of them other
-- threads may send commands. Instants are nanoseconds.
pub mod Desk
pub mod Handle
pub mod Poll
pub mod Show
pub mod Staged
pub mod Steps
pub mod Acquire
pub mod Tracks
use pose_bridge.Prelude.{
  ℕ, Bool, true, false, ◌&&◌, Option, none, some, ◌==◌, if◌then◌else◌, is_some_and,
}
use pose_bridge.Motion.{MotionCursor}
use pose_bridge.Controller.Lifecycle.{Controller}
use pose_bridge.Configuration.Apply.{Apply, Progress}
use pose_bridge.Client.{Device}
use pose_bridge.Sweeps.{Run, Session}
use pose_bridge.Tracking.{Sample}
use pose_bridge.Service.{
  Phase, idle, Message, Outputs, View, Service, Command, recenter_dolby, Request,
}
use pose_bridge.Service.Latch.{publish_session}

pub record Worker (F S : Type 0) : Type 0 where
  pub controller : Option (Controller F)
  pub current : ℕ
  pub cursor : Option MotionCursor
  pub latest : Option (Sample F)
  pub phase : Phase
  pub device : Option Device
  pub pending_connect : Option (Device × Outputs)
  pub pending_apply : Option Apply
  pub session : Option (Run F S)
  pub last_view : ℕ
  pub next_poll : ℕ
  -- when, how many reads, and the session they were made in
  pub delivery_mark : Option (ℕ × ℕ × ℕ)

abbrev pub new_worker : {F S : Type 0} → ℕ → Worker F S
new_worker now = record {
  controller = none;
  current = 0;
  cursor = none;
  latest = none;
  phase = idle;
  device = none;
  pending_connect = none;
  pending_apply = none;
  session = none;
  last_view = now;
  next_poll = now;
  delivery_mark = none;
}

-- A write of the worker, beside the publication of a poll.
pub data Edit (F S : Type 0) : Type 0 where
  set_apply : Progress → Edit F S
  publish : Session F S → Device → ℕ → Edit F S
  forget_session clear_acquisition : Edit F S
  -- a request that was refused, and the error of one that went on
  refuse : ℕ → Message → Edit F S
  complain : ℕ → Option Message → Edit F S
  -- errors of a submission, whatever was requested since
  set_error : Message → Edit F S
  end_apply : Progress → Message → Edit F S

module _ {F S : Type 0} where
  abbrev pub edit_view : View F S → Edit F S → View F S
  edit_view v (set_apply progress) = record v { apply = some progress }
  edit_view v (publish session device request) = publish_session v session device request
  edit_view v forget_session = record v { magnetic_session = none }
  edit_view v clear_acquisition = v
  edit_view v (refuse request error) =
      if v.request == request
      then record v { session_write_pending = false; error = some error }
      else v
  edit_view v (complain request error) =
      if v.request == request then record v { error = error } else v
  edit_view v (set_error error) = record v { error = some error }
  edit_view v (end_apply progress error) = record v { apply = some progress; error = some error }

  abbrev edit_sample : Option (Sample F) → Edit F S → Option (Sample F)
  edit_sample sample clear_acquisition = none
  edit_sample sample _ = sample

  unfoldable pub edit : Service F S → Edit F S → Service F S
  edit s e = record s { view = edit_view s.view e; sample = edit_sample s.sample e }

-- The request that the worker counts as its own, once it took one: a recentering has the number of
-- the request before it.
abbrev pub current_after : ℕ → Request → ℕ
current_after current request = numbered request.command
  where
    numbered : Command → ℕ
    numbered recenter_dolby = current
    numbered _ = request.id
