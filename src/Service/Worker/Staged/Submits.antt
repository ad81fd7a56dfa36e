-- ===== src/Service/Worker/Staged/Submits.antt =====
-- What a step of a submission makes of the stage of a worker.
use pose_bridge.Prelude.{ℕ, ◌≡◌, refl, inl, inr, Bool, true, false, ◌||◌, Bool-cases, none}
use pose_bridge.Configuration.Apply.{Apply}
use pose_bridge.Service.{Outcome, err, ok}
use pose_bridge.Service.Worker.{Worker}
use pose_bridge.Service.Worker.Desk.{Parts, Inputs, Desk, call}
use pose_bridge.Service.Worker.Steps.{Leaves, Result, seq-Leaves, call-Leaves, set-Leaves}
use pose_bridge.Service.Worker.Handle.{stop_it}
use pose_bridge.Controller.{Snapshot}
use pose_bridge.Configuration
use pose_bridge.Configuration.Apply.{Action}
use pose_bridge.Service.{Message, applying}
use pose_bridge.Service.Worker.Handle.{stop_it}
use pose_bridge.Service.Worker.Poll.{
  act, is_done, broken, advanced, take_action, apply_step, is_complete, is_failed, is_stopped,
}
use pose_bridge.Service.Worker.Staged.{free, submits, IsStaged, is_submitting}

pub record IsSubmitting {F S : Type 0} (n : ℕ) (w : Worker F S) : Type 0 where
  pub no_connect : w.pending_connect ≡ none
  pub no_session : w.session ≡ none
  pub phase_lem : is_submitting w.phase ≡ true
  pub is_current : w.current ≡ n

module _ {F G S : Type 0} (parts : Parts F G S) (i : Inputs F) (n : ℕ) where
  act-IsSubmitting :
      (action : Action)
      → Leaves {F = F} {S = S} (IsSubmitting n) (IsSubmitting n) (act parts i action)
  act-IsSubmitting (Action.write command) = call-Leaves (IsSubmitting n) _
  act-IsSubmitting Action.inspect = call-Leaves (IsSubmitting n) _
  act-IsSubmitting Action.done = set-Leaves (IsSubmitting n) (IsSubmitting n) _ λ w h. h

  broken-IsStaged :
      (d : Desk F S) (submission : Apply) (e : Message)
      → IsSubmitting n d.worker
      → IsStaged n (broken parts i d submission e).worker
  broken-IsStaged d submission e h = record {
    stage = submits h.no_connect h.no_session refl;
    is_current = h.is_current;
  }

  advanced-IsStaged :
      (submission : Apply) (done : Bool) (r : Desk F S × Outcome (Unit {0}))
      → Result (IsSubmitting n) (IsSubmitting n) r
      → IsStaged n (advanced parts i submission done r).worker
  advanced-IsStaged submission done (d, err e) h = broken-IsStaged d submission e h
  advanced-IsStaged submission true (d, ok u) h = record {
    stage = free refl h.no_connect h.no_session refl;
    is_current = h.is_current;
  }
  advanced-IsStaged submission false (d, ok u) h = record {
    stage = submits h.no_connect h.no_session h.phase_lem;
    is_current = h.is_current;
  }

  take_action-IsStaged :
      (d : Desk F S) (r : Apply × Configuration.Result Action)
      → IsSubmitting n d.worker
      → IsStaged n (take_action parts i d r).worker
  take_action-IsStaged d (submission, Configuration.err e) h =
      broken-IsStaged d submission (applying e) h
  take_action-IsStaged d (submission, Configuration.ok action) h =
      advanced-IsStaged submission (is_done parts i action) _ (
        (seq-Leaves (IsSubmitting n) (IsSubmitting n) (call (stop_it parts i)) (act parts i action)
            (call-Leaves (IsSubmitting n) (stop_it parts i)) (act-IsSubmitting action)).leaves
          d h)

  pub apply_step-IsStaged :
      (snapshot : Snapshot F) (submission : Apply) (d : Desk F S)
      → IsSubmitting n d.worker
      → IsStaged n (apply_step parts i snapshot submission d).worker
  unfolding apply_step
  apply_step-IsStaged snapshot submission d h =
      elim (Bool-cases (is_complete snapshot.status.state)) [
        | inl e ↦ rw e (take_action-IsStaged d _ h)
        | inr e ↦
            rw e
              (elim (Bool-cases
                (is_failed snapshot.status.state || is_stopped snapshot.status.state)) [
                  | inl k ↦ rw k (record {
                    stage = submits h.no_connect h.no_session refl;
                    is_current = h.is_current;
                  })
                  | inr k ↦ rw k (record {
                    stage = submits h.no_connect h.no_session h.phase_lem;
                    is_current = h.is_current;
                  })
                ])
      ]
