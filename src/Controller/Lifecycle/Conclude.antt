-- ===== src/Controller/Lifecycle/Conclude.antt =====
-- How the work of a task ends.
use pose_bridge.Prelude.{
  ℕ, ◌≡◌, refl, Bool, true, false, ◌&&◌, Option, none, some, arith, is_some_and,
}
use pose_bridge.Model.{ok, err, cancelled}
use pose_bridge.Model.Observation.{
  OperationStatus, OperationOutcome, is_running, running, succeeded, unverified,
}
use pose_bridge.Model.Observation
use pose_bridge.Controller.{Shared, ConnectionState, complete, stopped, failed}
use pose_bridge.Controller.Lifecycle.{
  Completion, returned, panicked, end_running, retire_dolby, concluded, completed,
}

-- An operation is still running.
abbrev pub runs : Option OperationStatus → Bool
runs o = is_some_and o (λ op. is_running op.outcome)

abbrev pub is_complete : Completion → Bool
is_complete (returned (ok u)) = true
is_complete _ = false

-- The state that a completion comes to.
abbrev pub state_of : Completion → ConnectionState
state_of (returned (ok u)) = complete
state_of (returned (err cancelled)) = stopped
state_of _ = failed

end_running-runs :
    (outcome : OperationOutcome) (o : Option OperationStatus)
    → is_running outcome ≡ false
    → runs (end_running outcome o) ≡ false
end_running-runs outcome none h = refl
end_running-runs outcome (some op) h = ground (arith, h)

module _ {F : Type 0} where
  -- However the work ends, its task leaves the state of that end, no Dolby output, and the descriptor
  -- and the motion history as they were; an operation that was running goes on only after a success.
  pub completed-settled :
      (s : Shared F) (x : Completion) (now : ℕ)
      → let t = completed s x now in
        (t.status.state ≡ state_of x)
        × (t.dolby ≡ none)
        × (runs t.operation ≡ (is_complete x && runs s.operation))
        × (t.descriptor ≡ s.descriptor)
        × (t.motion ≡ s.motion)
  unfolding completed concluded retire_dolby
  completed-settled s (returned (ok u)) now = (refl, refl, refl, refl, refl)
  completed-settled s (returned (err cancelled)) now =
      (refl, refl, end_running-runs Observation.cancelled s.operation refl, refl, refl)
  completed-settled s (returned (err e)) now =
      (refl, refl, end_running-runs Observation.failed s.operation refl, refl, refl)
  completed-settled s panicked now =
      (refl, refl, end_running-runs Observation.failed s.operation refl, refl, refl)
