-- ===== src/Service/Worker/Staged.antt =====
-- The stage that a worker is in.
pub mod Requests
pub mod Answers
pub mod Submits
pub mod Polls
use pose_bridge.Prelude.{
  ℕ, ◌≡◌, refl, ap, ◌∙◌, arith, inl, inr, Bool, true, false, Bool-cases, Option, none, some, List,
  [], ◌∷◌, ◌++◌, is_some, ◌==◌,
}
use pose_bridge.Model
use pose_bridge.Model.Command.{DeviceCommand}
use pose_bridge.Config.{Config}
use pose_bridge.Controller.Lifecycle.{Controller}
use pose_bridge.Configuration.Apply.{Apply}
use pose_bridge.Client.{Device}
use pose_bridge.Sweeps.{Run}
use pose_bridge.Service.{
  Phase, idle, scanning, inspecting, tracking, operating, magnetic, stopping, failed, Outcome, err,
  ok, Outputs, Command, scan, connect, recenter_dolby, inspect, open_magnetic, write, apply, stop,
  shutdown, Request,
}
use pose_bridge.Service.Worker.{Worker, Edit, current_after}
use pose_bridge.Service.Worker.Desk.{Parts, Inputs, Desk, Step, ◌>>◌, call, set, say, with_value}
use pose_bridge.Service.Worker.Steps.{
  Leaves, Result, seq-Leaves, call-Leaves, say-Leaves, set-Leaves, with_value-Leaves,
  continue-Result,
}
use pose_bridge.Service.Worker.Handle.{
  perform, configured, configure, stop_it, retire, retire_session, forget, overdue, respond,
  respond_with, settle, on_command, begun, controller_of, wrote, write_with, write_it, recentered,
  stopped, takes_write, on_session_write, on_shutdown, on_recenter, on_write, on_request,
}

-- The phases of a worker with nothing under way, with a submission, and with a session.
abbrev pub is_free : Phase → Bool
is_free magnetic = false
is_free stopping = false
is_free _ = true

abbrev pub is_submitting : Phase → Bool
is_submitting operating = true
is_submitting failed = true
is_submitting _ = false

abbrev pub is_monitoring : Phase → Bool
is_monitoring magnetic = true
is_monitoring failed = true
is_monitoring _ = false

-- At most one of a submission, a connection and a session is under way, each in its phases, and the
-- phase is that of a session only when one is open.
pub data Staged {F S : Type 0} (w : Worker F S) : Type 0 where
  free :
      w.pending_apply ≡ none
      → w.pending_connect ≡ none
      → w.session ≡ none
      → is_free w.phase ≡ true
      → Staged w
  submits : w.pending_connect ≡ none → w.session ≡ none → is_submitting w.phase ≡ true → Staged w
  connects : w.pending_apply ≡ none → w.session ≡ none → w.phase ≡ tracking → Staged w
  monitors :
      w.pending_apply ≡ none
      → w.pending_connect ≡ none
      → is_some w.session ≡ true
      → is_monitoring w.phase ≡ true
      → Staged w

pub record IsClear {F S : Type 0} (current : ℕ) (w : Worker F S) : Type 0 where
  pub no_apply : w.pending_apply ≡ none
  pub no_connect : w.pending_connect ≡ none
  pub no_session : w.session ≡ none
  pub is_current : w.current ≡ current

pub record IsStaged {F S : Type 0} (current : ℕ) (w : Worker F S) : Type 0 where
  pub stage : Staged w
  pub is_current : w.current ≡ current

module _ {F S : Type 0} where
  -- A change of what is no part of the stage.
  pub moved :
      (w v : Worker F S)
      → v.pending_apply ≡ w.pending_apply
      → v.pending_connect ≡ w.pending_connect
      → v.session ≡ w.session
      → v.phase ≡ w.phase
      → Staged w
      → Staged v
  moved w v a c s p (free a' c' s' p') = free (a ∙ a') (c ∙ c') (s ∙ s') (ap is_free p ∙ p')
  moved w v a c s p (submits c' s' p') = submits (c ∙ c') (s ∙ s') (ap is_submitting p ∙ p')
  moved w v a c s p (connects a' s' p') = connects (a ∙ a') (s ∙ s') (p ∙ p')
  moved w v a c s p (monitors a' c' s' p') =
      monitors (a ∙ a') (c ∙ c') (ap is_some s ∙ s') (ap is_monitoring p ∙ p')

  pub failed-Staged :
      (w : Worker F S) (session : Option (Run F S))
      → w.session ≡ session
      → w.pending_apply ≡ none
      → w.pending_connect ≡ none
      → w.phase ≡ failed
      → Staged w
  failed-Staged w none e a c p = free a c e (ap is_free p)
  failed-Staged w (some run) e a c p = monitors a c (ap is_some e) (ap is_monitoring p)
