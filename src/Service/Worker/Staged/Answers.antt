-- ===== src/Service/Worker/Staged/Answers.antt =====
-- What an answer to a request makes of the stage of a worker.
use pose_bridge.Prelude.{ℕ, ◌≡◌, refl, arith, inl, inr, true, Bool-cases, Option, none, some, ◌==◌}
use pose_bridge.Model
use pose_bridge.Model.Command.{DeviceCommand}
use pose_bridge.Controller.Lifecycle.{Controller}
use pose_bridge.Client.{Device}
use pose_bridge.Service.{
  Phase, Command, scan, connect, recenter_dolby, inspect, open_magnetic, write, apply, stop,
  shutdown, Request,
}
use pose_bridge.Service.Worker.{Worker, current_after}
use pose_bridge.Service.Worker.Desk.{Parts, Inputs}
use pose_bridge.Service.Worker.Handle.{
  on_command, begun, controller_of, wrote, write_with, write_it, recentered, stopped, takes_write,
  on_session_write, on_shutdown, on_recenter, on_write, on_request,
}
use pose_bridge.Service.Worker.Staged.{
  Staged, free, submits, connects, monitors, IsStaged, is_free, is_submitting, moved,
}
use pose_bridge.Service.Worker.Staged.Requests.{is_performed, respond_with-IsStaged}

module _ {F G S : Type 0} (parts : Parts F G S) (i : Inputs F) where
  on_command-IsStaged :
      (w : Worker F S) (id : ℕ) (command : Command)
      → is_performed command ≡ true
      → IsStaged id (on_command parts i w id command).0
  unfolding on_command
  on_command-IsStaged w id command k =
      respond_with-IsStaged parts i id (begun parts i w id) _ command
        (controller_of parts i w.controller) k
        (record { no_apply = refl; no_connect = refl; is_current = refl })

  wrote-IsStaged :
      (w : Worker F S) (n : ℕ) (r : Controller F × Model.Result (Unit {0}))
      → IsStaged n w
      → IsStaged n (wrote parts i w r).0
  wrote-IsStaged w n (c, Model.ok u) h = record {
    stage = moved w _ refl refl refl refl h.stage;
    is_current = h.is_current;
  }
  wrote-IsStaged w n (c, Model.err e) h = record {
    stage = moved w _ refl refl refl refl h.stage;
    is_current = h.is_current;
  }

  write_with-IsStaged :
      (w : Worker F S) (n : ℕ) (operation : DeviceCommand) (o : Option (Controller F))
      → IsStaged n w
      → IsStaged n (write_with parts i w operation o).0
  write_with-IsStaged w n operation none h = h
  write_with-IsStaged w n operation (some c) h = wrote-IsStaged w n (write_it parts i operation c) h

  on_session_write-IsStaged :
      (w : Worker F S) (id : ℕ) (operation : DeviceCommand)
      → Staged w
      → IsStaged id (on_session_write parts i w id operation).0
  unfolding on_session_write
  on_session_write-IsStaged w id operation h =
      write_with-IsStaged (record w { current = id }) id operation w.controller
        (record { stage = moved w _ refl refl refl refl h; is_current = refl })

  submitting-is_free : (p : Phase) → is_submitting p ≡ true → is_free p ≡ true
  submitting-is_free p h = ground arith

  on_shutdown-IsStaged :
      (w : Worker F S) (id : ℕ) → Staged w → IsStaged id (on_shutdown parts i w id).0
  unfolding on_shutdown
  on_shutdown-IsStaged w id h = record { stage = without_apply h; is_current = refl }
    where
      without_apply :
          Staged w
          → Staged (record w {
            current = id;
            pending_apply = none;
            controller = stopped parts i w.controller;
          })
      without_apply (free a c s p) = free refl c s p
      without_apply (submits c s p) = free refl c s (submitting-is_free w.phase p)
      without_apply (connects a s p) = connects refl s p
      without_apply (monitors a c s p) = monitors refl c s p

  recentered-IsStaged :
      (w : Worker F S) (id n : ℕ) (o : Option (Controller F))
      → IsStaged n w
      → IsStaged n (recentered parts i w id o).0
  recentered-IsStaged w id n none h = record {
    stage = moved w _ refl refl refl refl h.stage;
    is_current = h.is_current;
  }
  recentered-IsStaged w id n (some c) h = record {
    stage = moved w _ refl refl refl refl h.stage;
    is_current = h.is_current;
  }

  on_recenter-IsStaged :
      (w : Worker F S) (shown id n : ℕ)
      → IsStaged n w
      → IsStaged n (on_recenter parts i w shown id).0
  unfolding on_recenter
  on_recenter-IsStaged w shown id n h = elim (Bool-cases (shown == id)) [
    | inl e ↦ rw e (recentered-IsStaged w id n w.controller h)
    | inr e ↦ rw e h
  ]

  on_write-IsStaged :
      (w : Worker F S) (id : ℕ) (device : Device) (operation : DeviceCommand)
      → Staged w
      → IsStaged id (on_write parts i w id device operation).0
  on_write-IsStaged w id device operation h =
      elim (Bool-cases (takes_write parts i w device operation)) [
        | inl e ↦ rw e (on_session_write-IsStaged w id operation h)
        | inr e ↦ rw e (on_command-IsStaged w id (write device operation) refl)
      ]

  answer-IsStaged :
      (w : Worker F S) (shown : ℕ) (id : ℕ) (command : Command)
      → Staged w
      → IsStaged
          (current_after w.current (record { id = id; command = command }))
          (on_request parts i w shown (record { id = id; command = command })).0
  unfolding on_request
  answer-IsStaged w shown id recenter_dolby h =
      on_recenter-IsStaged w shown id w.current (record { stage = h; is_current = refl })
  answer-IsStaged w shown id (write device operation) h = on_write-IsStaged w id device operation h
  answer-IsStaged w shown id shutdown h = on_shutdown-IsStaged w id h
  answer-IsStaged w shown id (scan kind) h = on_command-IsStaged w id (scan kind) refl
  answer-IsStaged w shown id (connect d outputs) h =
      on_command-IsStaged w id (connect d outputs) refl
  answer-IsStaged w shown id (inspect d) h = on_command-IsStaged w id (inspect d) refl
  answer-IsStaged w shown id (open_magnetic d) h = on_command-IsStaged w id (open_magnetic d) refl
  answer-IsStaged w shown id (apply d old settings) h =
      on_command-IsStaged w id (apply d old settings) refl
  answer-IsStaged w shown id stop h = on_command-IsStaged w id stop refl

  -- A request takes a worker to a stage again, and makes its number the worker's.
  pub on_request-IsStaged :
      (w : Worker F S) (shown : ℕ) (r : Request)
      → Staged w
      → IsStaged (current_after w.current r) (on_request parts i w shown r).0
  on_request-IsStaged w shown r h = answer-IsStaged w shown r.id r.command h
