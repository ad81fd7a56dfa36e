-- ===== src/Service/Worker/Staged/Requests.antt =====
-- What a request makes of the stage of a worker.
use pose_bridge.Prelude.{ℕ, ◌≡◌, refl, Bool, true, false, Option, none, some, List}
use pose_bridge.Model
use pose_bridge.Controller.Lifecycle.{Controller}
use pose_bridge.Client.{Device}
use pose_bridge.Sweeps.{Run}
use pose_bridge.Service.{
  Outcome, err, ok, Command, scan, connect, recenter_dolby, inspect, open_magnetic, write, apply,
  stop, shutdown,
}
use pose_bridge.Service.Worker.{Worker, Edit}
use pose_bridge.Service.Worker.Desk.{Parts, Inputs, Desk, Step, ◌>>◌, call}
use pose_bridge.Service.Worker.Steps.{
  Leaves, Result, seq-Leaves, call-Leaves, say-Leaves, set-Leaves, with_value-Leaves,
  continue-Result,
}
use pose_bridge.Service.Worker.Handle.{
  perform, configured, configure, retire, retire_session, forget, overdue, respond, respond_with,
  settle,
}
use pose_bridge.Service.Worker.Staged.{
  Staged, free, submits, connects, monitors, IsClear, IsStaged, failed-Staged,
}

-- The commands that `respond` is for.
abbrev pub is_performed : Command → Bool
is_performed shutdown = false
is_performed recenter_dolby = false
is_performed _ = true

-- What a request starts from.
pub record IsBefore {F S : Type 0} (current : ℕ) (w : Worker F S) : Type 0 where
  pub no_apply : w.pending_apply ≡ none
  pub no_connect : w.pending_connect ≡ none
  pub is_current : w.current ≡ current

module _ {F G S : Type 0} (parts : Parts F G S) (i : Inputs F) (n : ℕ) where
  configured-IsClear :
      (device : Device) (acquisition : Bool)
      → Leaves {F = F} {S = S} (IsClear n) (IsClear n) (configured parts i device acquisition)
  configured-IsClear device acquisition =
      with_value-Leaves (IsClear n) (IsClear n) _ _
        (λ config. call-Leaves (IsClear n) (configure parts i config))

  -- A call, or a step before it, and what is set at the end.
  call_then :
      (f : Controller F → Controller F × Model.Result (Unit {0})) (g : Step F S)
      → Leaves (IsClear n) (IsStaged n) g
      → Leaves (IsClear n) (IsStaged n) (call f >> g)
  call_then f g h = seq-Leaves (IsClear n) (IsStaged n) _ g (call-Leaves (IsClear n) f) h

  configured_then :
      (device : Device) (acquisition : Bool)
      (f : Controller F → Controller F × Model.Result (Unit {0})) (g : Step F S)
      → Leaves (IsClear n) (IsStaged n) g
      → Leaves (IsClear n) (IsStaged n) (configured parts i device acquisition >> call f >> g)
  configured_then device acquisition f g h =
      seq-Leaves (IsClear n) (IsStaged n) _ g
        (seq-Leaves (IsClear n) (IsClear n) _ _ (configured-IsClear device acquisition)
          (call-Leaves (IsClear n) f))
        h

  perform-IsStaged :
      (command : Command)
      → is_performed command ≡ true
      → Leaves {F = F} {S = S} (IsClear n) (IsStaged n) (perform parts i command)
  unfolding perform
  perform-IsStaged stop _ = call_then _ _ (
      set-Leaves (IsClear n) (IsStaged n) _ λ w h. record {
        stage = free h.no_apply h.no_connect h.no_session refl;
        is_current = h.is_current;
      })
  perform-IsStaged (scan kind) _ = call_then _ _ (
      set-Leaves (IsClear n) (IsStaged n) _ λ w h. record {
        stage = free h.no_apply h.no_connect h.no_session refl;
        is_current = h.is_current;
      })
  perform-IsStaged (connect device outputs) _ = configured_then device true _ _ (
      set-Leaves (IsClear n) (IsStaged n) _
        λ w h. record { stage = connects h.no_apply h.no_session refl; is_current = h.is_current })
  perform-IsStaged (inspect device) _ = configured_then device false _ _ (
      set-Leaves (IsClear n) (IsStaged n) _ λ w h. record {
        stage = free h.no_apply h.no_connect h.no_session refl;
        is_current = h.is_current;
      })
  perform-IsStaged (write device operation) _ = configured_then device false _ _ (
      set-Leaves (IsClear n) (IsStaged n) _ λ w h. record {
        stage = free h.no_apply h.no_connect h.no_session refl;
        is_current = h.is_current;
      })
  perform-IsStaged (open_magnetic device) _ = with_value-Leaves (IsClear n) (IsStaged n) _ _ λ run.
      seq-Leaves (IsClear n) (IsStaged n) _ _
        (seq-Leaves (IsClear n) (IsClear n) _ _
          (seq-Leaves (IsClear n) (IsClear n) _ _ (call-Leaves (IsClear n) _)
            (configured-IsClear device false))
          (call-Leaves (IsClear n) _))
        (set-Leaves (IsClear n) (IsStaged n) _ λ w h. record {
          stage = monitors h.no_apply h.no_connect refl refl;
          is_current = h.is_current;
        })
  perform-IsStaged (apply device old settings) _ =
      with_value-Leaves (IsClear n) (IsStaged n) _ _ λ submission.
        seq-Leaves (IsClear n) (IsStaged n) _ _
          (seq-Leaves (IsClear n) (IsClear n) _ _
            (seq-Leaves (IsClear n) (IsClear n) _ _
              (seq-Leaves (IsClear n) (IsClear n) _ _ (call-Leaves (IsClear n) _)
                (configured-IsClear device false))
              (call-Leaves (IsClear n) _))
            (say-Leaves (IsClear n) _))
          (set-Leaves (IsClear n) (IsStaged n) _ λ w h. record {
            stage = submits h.no_connect h.no_session refl;
            is_current = h.is_current;
          })
  perform-IsStaged shutdown h = cc
  perform-IsStaged recenter_dolby h = cc

  any-Result :
      (d : Desk F S) (o : Outcome (Unit {0}))
      → IsClear n d.worker
      → Result (IsClear n) (IsClear n) (d, o)
  any-Result d (ok u) h = h
  any-Result d (err e) h = h

  retire_session-IsClear :
      (command : Command) (session : Option (Run F S)) (d : Desk F S)
      → d.worker.session ≡ session
      → IsBefore n d.worker
      → Result (IsClear n) (IsClear n) (retire_session parts i command session d)
  retire_session-IsClear command none d e h = record {
    no_apply = h.no_apply;
    no_connect = h.no_connect;
    no_session = e;
    is_current = h.is_current;
  }
  retire_session-IsClear command (some run) d e h =
      any-Result (retire_session parts i command (some run) d).0
        (retire_session parts i command (some run) d).1
        (record {
          no_apply = h.no_apply;
          no_connect = h.no_connect;
          no_session = refl;
          is_current = h.is_current;
        })

  forget-IsClear :
      (command : Command) → Leaves {F = F} {S = S} (IsClear n) (IsClear n) (forget parts i command)
  forget-IsClear stop = set-Leaves (IsClear n) (IsClear n) _ λ w h. h
  forget-IsClear command = say-Leaves (IsClear n) _

  respond-IsStaged :
      (command : Command) (d : Desk F S)
      → is_performed command ≡ true
      → IsBefore n d.worker
      → Result (IsClear n) (IsStaged n) (respond parts i command d)
  unfolding respond retire ◌>>◌
  respond-IsStaged command d k h =
      continue-Result (IsClear n) (IsStaged n) _ _
        (continue-Result (IsClear n) (IsClear n) _ _
          (retire_session-IsClear command d.worker.session d refl h) (forget-IsClear command))
        (perform-IsStaged command k)

  settle-IsStaged :
      (r : Desk F S × Outcome (Unit {0}))
      → Result (IsClear n) (IsStaged n) r
      → IsStaged n (settle parts i r).0
  settle-IsStaged (d, ok u) h = record { stage = moved h.stage; is_current = h.is_current }
    where
      moved :
          Staged d.worker
          → Staged (record (d.worker) { controller = some d.controller; last_view = overdue i.now })
      moved (free a c s p) = free a c s p
      moved (submits c s p) = submits c s p
      moved (connects a s p) = connects a s p
      moved (monitors a c s p) = monitors a c s p
  settle-IsStaged (d, err e) h = record {
    stage = free h.no_apply refl h.no_session refl;
    is_current = h.is_current;
  }

  pub respond_with-IsStaged :
      (w : Worker F S) (edits : List (Edit F S)) (command : Command) (o : Outcome (Controller F))
      → is_performed command ≡ true
      → IsBefore n w
      → IsStaged n (respond_with parts i w edits command o).0
  respond_with-IsStaged w edits command (ok c) k h =
      settle-IsStaged _
        (respond-IsStaged command (record { worker = w; controller = c; edits = edits }) k h)
  respond_with-IsStaged w edits command (err e) k h = record {
    stage = failed-Staged _ w.session refl h.no_apply refl refl;
    is_current = h.is_current;
  }
