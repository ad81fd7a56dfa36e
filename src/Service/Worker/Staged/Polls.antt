-- ===== src/Service/Worker/Staged/Polls.antt =====
-- What a poll makes of the stage of a worker.
use pose_bridge.Prelude.{
  ℕ, ◌≡◌, refl, ap, ◌∙◌, arith, inl, inr, Bool, true, false, ◌&&◌, ◌||◌, Bool-cases, Option, none,
  some, is_some,
}
use pose_bridge.Config.{Config}
use pose_bridge.Controller.Lifecycle.{Controller}
use pose_bridge.Configuration.Apply.{Apply}
use pose_bridge.Client.{Device}
use pose_bridge.Sweeps.{Run}
use pose_bridge.Service.{Phase, idle, tracking, failed, Outcome, err, ok, Outputs}
use pose_bridge.Service.Worker.{Worker}
use pose_bridge.Service.Worker.Desk.{Parts, Inputs, Desk}
use pose_bridge.Service.Worker.Steps.{Leaves, Result, seq-Leaves, call-Leaves, with_value-Leaves}
use pose_bridge.Controller.{Snapshot}
use pose_bridge.Controller.Output.{motion_since}
use pose_bridge.Motion.{MotionBatch}
use pose_bridge.Service.Worker.Poll.{
  tracked, start_acquisition, connected, connect_step, passed, is_passing, progress_of, failed_task,
  progress, seen, absorb_session, gathered, poll, is_complete, is_failed, is_stopped,
}
use pose_bridge.Service.Worker.Staged.{
  Staged, free, submits, connects, monitors, IsStaged, is_free, is_monitoring,
}
use pose_bridge.Service.Worker.Staged.Submits.{IsSubmitting, apply_step-IsStaged}

pub record IsConnecting {F S : Type 0} (n : ℕ) (w : Worker F S) : Type 0 where
  pub no_apply : w.pending_apply ≡ none
  pub no_session : w.session ≡ none
  pub phase_lem : w.phase ≡ tracking
  pub is_current : w.current ≡ n

module _ {F G S : Type 0} (parts : Parts F G S) (i : Inputs F) (n : ℕ) where
  connected-IsStaged :
      (r : Desk F S × Outcome (Unit {0}))
      → Result (IsConnecting n) (IsConnecting n) r
      → IsStaged n (connected parts i r).worker
  connected-IsStaged (d, ok u) h = record {
    stage = free h.no_apply refl h.no_session (ap is_free h.phase_lem);
    is_current = h.is_current;
  }
  connected-IsStaged (d, err e) h = record {
    stage = free h.no_apply refl h.no_session refl;
    is_current = h.is_current;
  }

  start_acquisition-IsConnecting :
      (config : Config F)
      → Leaves {F = F} {S = S} (IsConnecting n) (IsConnecting n) (start_acquisition parts i config)
  unfolding start_acquisition
  start_acquisition-IsConnecting config =
      seq-Leaves (IsConnecting n) (IsConnecting n) _ _
        (seq-Leaves (IsConnecting n) (IsConnecting n) _ _ (call-Leaves (IsConnecting n) _)
          (call-Leaves (IsConnecting n) _))
        (call-Leaves (IsConnecting n) _)

  connect_step-IsStaged :
      (snapshot : Snapshot F) (device : Device) (outputs : Outputs) (d : Desk F S)
      → IsConnecting n d.worker
      → IsStaged n (connect_step parts i snapshot device outputs d).worker
  unfolding connect_step
  connect_step-IsStaged snapshot device outputs d h =
      elim (Bool-cases (is_complete snapshot.status.state)) [
        | inl e ↦ rw e (
            connected-IsStaged _ (
              (with_value-Leaves (IsConnecting n) (IsConnecting n)
                  (tracked parts i snapshot device outputs) (start_acquisition parts i)
                  start_acquisition-IsConnecting).leaves
                d h))
        | inr e ↦ rw e (record {
          stage = connects h.no_apply h.no_session h.phase_lem;
          is_current = h.is_current;
        })
      ]

  passed-Staged :
      (w : Worker F S)
      → Staged w
      → w.pending_apply ≡ none
      → w.pending_connect ≡ none
      → is_passing w.phase ≡ true
      → Staged (record w { phase = idle })
  passed-Staged w (free a c s p) x y z = free a c s refl
  passed-Staged w (submits c s p) x y z = free x c s refl
  passed-Staged w (connects a s p) x y z = free a y s refl
  passed-Staged w (monitors a c s p) x y z = absurd (clash w.phase p z)
    where
      clash : (q : Phase) → is_monitoring q ≡ true → is_passing q ≡ true → ⊥
      clash q h k = ground arith

  passed-IsStaged :
      (snapshot : Snapshot F) (d : Desk F S)
      → d.worker.pending_apply ≡ none
      → d.worker.pending_connect ≡ none
      → IsStaged n d.worker
      → IsStaged n (passed parts i snapshot d).worker
  unfolding passed
  passed-IsStaged snapshot d a c h =
      elim (Bool-cases (
        is_passing d.worker.phase
        && (is_complete snapshot.status.state || is_stopped snapshot.status.state))) [
          | inl e ↦ rw e (record {
            stage = passed-Staged d.worker h.stage a c (and-left _ _ e);
            is_current = h.is_current;
          })
          | inr e ↦ rw e h
        ]
    where
      and-left : (a b : Bool) → (a && b) ≡ true → a ≡ true
      and-left true b e = refl
      and-left false b e = cc

  progress_of-IsStaged :
      (submission : Option Apply) (connecting : Option (Device × Outputs)) (snapshot : Snapshot F)
      (d : Desk F S)
      → d.worker.pending_apply ≡ submission
      → d.worker.pending_connect ≡ connecting
      → IsStaged n d.worker
      → IsStaged n (progress_of parts i submission connecting snapshot d).worker
  progress_of-IsStaged none none snapshot d a c h = passed-IsStaged snapshot d a c h
  progress_of-IsStaged (some submission) connecting snapshot d a c h =
      apply_step-IsStaged parts i n snapshot submission d
        (submitting d.worker h.stage a h.is_current)
    where
      submitting :
          (w : Worker F S)
          → Staged w
          → w.pending_apply ≡ some submission
          → w.current ≡ n
          → IsSubmitting n w
      submitting w (free a c s p) e k = cc
      submitting w (submits c s p) e k = record {
        no_connect = c;
        no_session = s;
        phase_lem = p;
        is_current = k;
      }
      submitting w (connects a s p) e k = cc
      submitting w (monitors a c s p) e k = cc
  progress_of-IsStaged none (some (device, outputs)) snapshot d a c h =
      connect_step-IsStaged snapshot device outputs d (connecting d.worker h.stage c h.is_current)
    where
      connecting :
          (w : Worker F S)
          → Staged w
          → w.pending_connect ≡ some (device, outputs)
          → w.current ≡ n
          → IsConnecting n w
      connecting w (free a c s p) e k = cc
      connecting w (submits c s p) e k = cc
      connecting w (connects a s p) e k = record {
        no_apply = a;
        no_session = s;
        phase_lem = p;
        is_current = k;
      }
      connecting w (monitors a c s p) e k = cc

  failed_of :
      (w : Worker F S) → Staged w → Staged (record w { phase = failed; pending_connect = none })
  failed_of w (free a c s p) = free a refl s refl
  failed_of w (submits c s p) = submits refl s refl
  failed_of w (connects a s p) = free a refl s refl
  failed_of w (monitors a c s p) = monitors a refl s refl

  failed_task-IsStaged :
      (d : Desk F S) → IsStaged n d.worker → IsStaged n (failed_task parts i d).worker
  failed_task-IsStaged d h = elim (Bool-cases (is_failed (seen parts i d).status.state)) [
    | inl e ↦ rw e (record { stage = failed_of d.worker h.stage; is_current = h.is_current })
    | inr e ↦ rw e h
  ]

  absorb_session-is_some :
      (session : Option (Run F S)) (c : Controller F)
      → is_some (absorb_session parts i session c).0 ≡ is_some session
  absorb_session-is_some none c = refl
  absorb_session-is_some (some run) c = refl

  absorb_session-none :
      (session : Option (Run F S)) (c : Controller F)
      → session ≡ none
      → (absorb_session parts i session c).0 ≡ none
  absorb_session-none none c e = refl
  absorb_session-none (some run) c e = cc

  gathered-IsStaged :
      (d : Desk F S) (batch : MotionBatch F)
      → IsStaged n d.worker
      → IsStaged n (gathered parts i d batch).0.worker
  gathered-IsStaged d batch h = record { stage = stage h.stage; is_current = h.is_current }
    where
      stage : Staged d.worker → Staged (gathered parts i d batch).0.worker
      stage (free a c s p) = free a c (absorb_session-none _ d.controller s) p
      stage (submits c s p) = submits c (absorb_session-none _ d.controller s) p
      stage (connects a s p) = connects a (absorb_session-none _ d.controller s) p
      stage (monitors a c s p) = monitors a c (absorb_session-is_some _ d.controller ∙ s) p

  progress-IsStaged : (d : Desk F S) → IsStaged n d.worker → IsStaged n (progress parts i d).worker
  unfolding progress
  progress-IsStaged d h =
      failed_task-IsStaged
        (progress_of parts i d.worker.pending_apply d.worker.pending_connect (seen parts i d) d)
        (progress_of-IsStaged d.worker.pending_apply d.worker.pending_connect (seen parts i d) d
          refl refl h)

  -- A poll takes a worker to a stage again.
  pub poll-IsStaged : (d : Desk F S) → IsStaged n d.worker → IsStaged n (poll parts i d).0.worker
  unfolding poll
  poll-IsStaged d h =
      let e = progress parts i d in
      gathered-IsStaged e (motion_since e.controller.shared e.worker.cursor i.now)
        (progress-IsStaged d h)
