-- ===== src/Controller/Control/Settled.antt =====
-- A device command, as the work of a task, leaves no operation that runs.
use pose_bridge.Prelude.{
  ℕ, ◌≡◌, refl, Bool, true, false, not, ◌&&◌, Option, none, some, List, [], ◌==◌, if◌then◌else◌,
  ◌∙◌,
}
use pose_bridge.Model.{Result, ok, err}
use pose_bridge.Model.Command.{
  DeviceCommand, rate, output, accel_calibrate, mag_start, mag_stop, save, algorithm, zero_yaw,
  angle_reference, reset_defaults,
}
use pose_bridge.Model.Observation.{DeviceObservation, OperationStatus, OperationOutcome, is_running}
use pose_bridge.Device.Exec.{Environment, Exec, Event, ◌>>=◌, and_then, return}
use pose_bridge.Device.Inspect.{word}
use pose_bridge.Device.Execute.{
  Outcome, save_reference, verify_reset, finish_calibration, verify_calibration, verify_register,
  verify, execute,
}
use pose_bridge.Controller.{Shared}
use pose_bridge.Controller.Control.{update, on_events, concluded, control_connection}
use pose_bridge.Controller.Lifecycle.{returned, completed}
use pose_bridge.Controller.Lifecycle.Conclude.{runs, is_complete, completed-settled}

-- A result whose outcome is not that of a running operation.
abbrev IsSettled : Result Outcome × List Event → Type 0
IsSettled (ok o, h) = is_running (o.0) ≡ false
IsSettled (err e, h) = Unit {0}

record Settles (m : Exec Outcome) : Type 0 where
  at : (h : List Event) → IsSettled (m h)

and_then-IsSettled :
    {A : Type 0} (r : Result A × List Event) (f : A → Exec Outcome)
    → ((a : A) → Settles (f a))
    → IsSettled (and_then r f)
and_then-IsSettled (ok a, h) f k = (k a).at h
and_then-IsSettled (err e, h) f k = tt

bind-Settles :
    {A : Type 0} (m : Exec A) (f : A → Exec Outcome) → ((a : A) → Settles (f a)) → Settles (m >>= f)
unfolding ◌>>=◌
bind-Settles m f k = record { at = λ h. and_then-IsSettled (m h) f k }

return-Settles :
    (o : OperationOutcome) (x : Option DeviceObservation)
    → is_running o ≡ false
    → Settles (return (o, x))
unfolding return
return-Settles o x e = record { at = λ h. e }

if-Settles : (b : Bool) (m n : Exec Outcome) → Settles m → Settles n → Settles (if b then m else n)
if-Settles true m n p q = p
if-Settles false m n p q = q

module _ (env : Environment) where
  verify_register-Settles :
      (command : DeviceCommand) (address value : ℕ)
      → Settles (verify_register env command address value)
  unfolding verify_register
  verify_register-Settles command a v = bind-Settles _ _ (λ u.
      bind-Settles _ _
        (λ values. bind-Settles _ _ (λ u. bind-Settles _ _ (λ u. return-Settles _ _ refl))))

  verify-Settles :
      (command : DeviceCommand) (address value : ℕ) → Settles (verify env command address value)
  unfolding verify save_reference verify_reset verify_calibration finish_calibration
  verify-Settles angle_reference a v =
      bind-Settles _ _
        (λ u. bind-Settles _ _ (λ u. bind-Settles _ _ (λ u. return-Settles _ _ refl)))
  verify-Settles save a v = return-Settles _ _ refl
  verify-Settles zero_yaw a v = return-Settles _ _ refl
  verify-Settles reset_defaults a v = bind-Settles _ _ (λ u. bind-Settles _ _ (λ u.
      bind-Settles _ _ (λ u. bind-Settles _ _ (λ u.
        bind-Settles _ _
          (λ o. bind-Settles _ _ (λ u. bind-Settles _ _ (λ u. return-Settles _ _ refl)))))))
  verify-Settles accel_calibrate a v = bind-Settles _ _ (λ values.
      if-Settles (not (word values 0 == 1)) _ _ (return-Settles _ _ refl) (
        bind-Settles _ _
          (λ u. bind-Settles _ _ (λ u. bind-Settles _ _ (λ u. return-Settles _ _ refl)))))
  verify-Settles (rate hz) a v = verify_register-Settles (rate hz) a v
  verify-Settles (output p) a v = verify_register-Settles (output p) a v
  verify-Settles mag_start a v = verify_register-Settles mag_start a v
  verify-Settles mag_stop a v = verify_register-Settles mag_stop a v
  verify-Settles (algorithm m) a v = verify_register-Settles (algorithm m) a v

  execute-Settles : (command : DeviceCommand) → Settles (execute env command)
  unfolding execute
  execute-Settles command = bind-Settles _ _ (λ target. bind-Settles _ _ (λ u.
      bind-Settles _ _ (λ u. bind-Settles _ _ (λ u. verify-Settles command (target.0) (target.1)))))

update-runs :
    (o : Option OperationStatus) (outcome : OperationOutcome)
    → is_running outcome ≡ false
    → runs (update o (λ op. record op { outcome = outcome })) ≡ false
update-runs none outcome h = refl
update-runs (some op) outcome h = h

module _ {F : Type 0} where
  concluded-runs :
      (s : Shared F) (r : Result Outcome × List Event)
      → IsSettled r
      → (is_complete (returned ((concluded s r.0).1)) && runs (concluded s r.0).0.operation) ≡ false
  unfolding concluded
  concluded-runs s (ok (o, none), h) e = update-runs s.operation o e
  concluded-runs s (ok (o, some x), h) e = update-runs s.operation o e
  concluded-runs s (err e, h) u = refl

  -- Whatever a device answers to a command, and however its task ends on that result, the operation of
  -- the command does not stay running.
  pub control_connection-settled :
      (env : Environment) (s : Shared F) (command : DeviceCommand) (now : ℕ)
      → let c = control_connection env s command in
        runs (completed c.0 (returned c.1) now).operation ≡ false
  unfolding control_connection
  control_connection-settled env s command now =
      let run = execute env command [] in
      let c = concluded (on_events s run.1) run.0 in
      (completed-settled c.0 (returned c.1) now).2
      ∙ concluded-runs (on_events s run.1) run ((execute-Settles env command).at [])
