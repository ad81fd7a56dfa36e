-- ===== src/Service/Events.antt =====
-- What happens to the service of crates/posebridge-client/src/posebridge/service.rs, one lock at a time:
-- commands are sent, and the worker takes a request, makes a write or shows what it found.
pub mod Kept
pub mod Latched
mod Examples
use pose_bridge.Prelude.{ℕ, Bool, true, false, Option, none, some, List, [], ◌∷◌, ◌++◌, drop}
use pose_bridge.Controller.{DeviceInfo}
use pose_bridge.Service.{Outcome, err, ok, Command, Service, send_after}
use pose_bridge.Service.Worker.{Worker, Edit, edit}
use pose_bridge.Service.Worker.Poll.{Publication}
use pose_bridge.Service.Worker.Show.{show}

pub data Event (F S : Type 0) : Type 0 where
  -- what the checks before the lock came to
  sent : Outcome (Unit {0}) → Command → Event F S
  taken : Event F S
  edited : Edit F S → Event F S
  showed : Worker F S → Publication F S → List DeviceInfo → ℕ → Event F S

abbrev pub accept : Command → Outcome (Unit {0}) → List Command
accept command (err e) = []
accept command (ok u) = command ∷ []

module _ {F S : Type 0} where
  unfoldable pub step : Service F S → Event F S → Service F S
  step s (sent checks command) = (send_after checks s command).0
  step s taken = record s { queue = drop 1 s.queue }
  step s (edited e) = edit s e
  step s (showed w p devices now) = (show w p devices now s).1

  unfoldable pub run : List (Event F S) → Service F S → Service F S
  run [] s = s
  run (e ∷ es) s = run es (step s e)

  -- The command that an event sent, when it was not refused.
  unfoldable pub accepted_at : Service F S → Event F S → List Command
  accepted_at s (sent checks command) = accept command (send_after checks s command).1
  accepted_at s _ = []

  unfoldable pub accepted : List (Event F S) → Service F S → List Command
  accepted [] s = []
  accepted (e ∷ es) s = accepted_at s e ++ accepted es (step s e)
