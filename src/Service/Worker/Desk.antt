-- ===== src/Service/Worker/Desk.antt =====
-- A request at the worker of crates/posebridge-client/src/posebridge/service.rs: its controller, and what
-- was written so far.
use Prim.Native.String.{String}
use pose_bridge.Prelude.{ℕ, Bool, List, [], ◌∷◌, ◌++◌}
use pose_bridge.Model
use pose_bridge.Model.Text.{Text}
use pose_bridge.Model.Command.{DeviceCommand}
use pose_bridge.Motion.{Vec3}
use pose_bridge.Pose.{FloatOps}
use pose_bridge.Magnetic.{Counts, Scale}
use pose_bridge.Osc.{Codec}
use pose_bridge.Controller.Lifecycle.{Controller, Ending}
use pose_bridge.Controller.SetConfig.{Json}
use pose_bridge.Coverage.{Coverage}
use pose_bridge.Service.{Message, Outcome, err, ok}
use pose_bridge.Service.Configure.{Host, of_core}
use pose_bridge.Service.Worker.{Worker, Edit}

pub record Inputs (F : Type 0) : Type 0 where
  pub now : ℕ
  pub instance : ℕ
  pub session : ℕ
  pub window : ℕ
  pub operation : ℕ
  pub has_room : Bool
  -- what the task of the controller comes to, if it has one
  pub ending : Ending F
  -- `Controller::new()`
  pub created : Model.Result (Controller F)

-- What a component takes from the code outside.
pub record Parts (F G S : Type 0) : Type 0 where
  pub codec : Codec F G
  pub ops : FloatOps F
  pub texts : Text
  pub host : Host
  pub json : Json F
  pub microtesla_of : Counts × Scale → Vec3 F
  pub drawing : Coverage F → S
  -- the name that JSON has for a command, and the text of a message
  pub action_of : DeviceCommand → String
  pub text_of : Message → String

-- The worker at a request: its controller, and the writes so far.
pub record Desk (F S : Type 0) : Type 0 where
  pub worker : Worker F S
  pub controller : Controller F
  pub edits : List (Edit F S)

-- A part of the work that may fail, and what it left behind.
abbrev pub Step : Type 0 → Type 0 → Type 0
Step F S = Desk F S → Desk F S × Outcome (Unit {0})

module _ {F S : Type 0} where
  abbrev pub continue : Desk F S × Outcome (Unit {0}) → Step F S → Desk F S × Outcome (Unit {0})
  continue (d, ok u) next = next d
  continue (d, err e) next = (d, err e)

  infixl 5 ◌>>◌
  unfoldable pub ◌>>◌ : Step F S → Step F S → Step F S
  (first >> next) d = continue (first d) next

  abbrev pub called :
      Desk F S → Controller F × Model.Result (Unit {0}) → Desk F S × Outcome (Unit {0})
  called d (c, r) = (record d { controller = c }, of_core r)

  -- A call of the controller.
  unfoldable pub call : (Controller F → Controller F × Model.Result (Unit {0})) → Step F S
  call f d = called d (f d.controller)

  unfoldable pub set : (Worker F S → Worker F S) → Step F S
  set f d = (record d { worker = f d.worker }, ok tt)

  unfoldable pub say : Edit F S → Step F S
  say e d = (record d { edits = d.edits ++ e ∷ [] }, ok tt)

  unfoldable pub with_value : {A : Type 0} → Outcome A → (A → Step F S) → Step F S
  with_value (err e) next d = (d, err e)
  with_value (ok a) next d = next a d
