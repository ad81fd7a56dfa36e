-- ===== src/Controller/Monitor/ReadBack.antt =====
-- The exit of a calibration in magnetic.rs is written, and its register is read back.
use pose_bridge.Prelude.{ℕ, ◌≡◌, refl, ◌∙◌, Bool, true, false, some, List, [], ◌∷◌, ap}
use pose_bridge.Model.{Result, ok, err}
use pose_bridge.Model.Command.{mag_stop, command_register, write_register, read_register}
use pose_bridge.Model.Observation.{OperationStatus, succeeded}
use pose_bridge.Magnetic.{MagneticPhase}
use pose_bridge.Controller.{Shared}
use pose_bridge.Controller.Wire.{
  Line, Wire, Run, Action, asked, wrote, waited, ◌>>=◌, change, lift, read_after, read_values,
  write_bytes, delay, acted,
}
use pose_bridge.Controller.Monitor.{
  operation, verified, finish_switch, execute_from, execute, with_magnetic,
}
use pose_bridge.Controller.Monitor.Heard.{
  Receives, Ended, bind-Ended, read_loop-Receives, wait_loop-actions,
}

module _ {F : Type 0} where
  operation-actions :
      (cleanup : Bool) (f : OperationStatus → OperationStatus) (w : Wire F)
      → Ended (λ w'. w'.actions ≡ w.actions) (operation cleanup f w)
  unfolding operation change
  operation-actions true f w = refl
  operation-actions false f w = refl

  module _ (line : Line) where
    -- The exit was written, the switch was asked for 100 ms later, and a frame came in which its value
    -- is 0. The frames that the session has counted end with that one.
    pub record IsReadBack (s : Shared F) : Type 0 where
      pub earlier : List Action
      pub before : Wire F
      pub asks :
          before.actions
          ≡ asked 1 (some 0)
            ∷ wrote (0xff ∷ 0xaa ∷ 0x27 ∷ 1 ∷ 0 ∷ [])
            ∷ waited 100
            ∷ wrote (0xff ∷ 0xaa ∷ 1 ∷ 0 ∷ 0 ∷ [])
            ∷ earlier
      pub last : Wire F
      pub receives : Receives 1 0 (line.arrivals before.actions) before last
      pub counted : s.status ≡ last.shared.status
      pub described : s.descriptor ≡ last.shared.descriptor

    -- A success reads the exit back, and leaves the session without a calibration of its own.
    abbrev pub IsReleased : Wire F → Type 0
    IsReleased w = IsReadBack w.shared × (w.shared.magnetic_state.owned ≡ false)

    -- The wire on which a register was asked for.
    abbrev asking : Wire F → Wire F
    asking w = acted (acted w (wrote (read_register 1))) (asked 1 (some 0))

    read_values-Receives :
        (w : Wire F)
        → Ended
            (Receives 1 0 (line.arrivals (asking w).actions) (asking w))
            (read_values line 1 (some 0) w)
    unfolding read_values
    read_values-Receives w = by_write (line.write (asking w).actions)
      where
        by_write :
            (r : Result (Unit {0}))
            → Ended
                (Receives 1 0 (line.arrivals (asking w).actions) (asking w))
                (read_after line r 1 (some 0) (asking w))
        by_write (ok u) = read_loop-Receives (line.arrivals (asking w).actions) 0 (asking w)
        by_write (err e) = tt

    write_bytes-actions :
        (bytes : List ℕ) (w : Wire F)
        → Ended (λ w'. w'.actions ≡ wrote bytes ∷ w.actions) (write_bytes line bytes w)
    unfolding write_bytes
    write_bytes-actions bytes w = by_result (line.write (acted w (wrote bytes)).actions)
      where
        by_result :
            (r : Result (Unit {0}))
            → Ended (λ w'. w'.actions ≡ wrote bytes ∷ w.actions) (r, acted w (wrote bytes))
        by_result (ok u) = refl
        by_result (err e) = tt

    delay-actions :
        (ms : ℕ) (w : Wire F) → Ended (λ w'. w'.actions ≡ waited ms ∷ w.actions) (delay line ms w)
    unfolding delay
    delay-actions ms w =
        wait_loop-actions (line.arrivals (acted w (waited ms)).actions) (acted w (waited ms))

    -- What is kept of the answer.
    verified-IsReleased :
        (cleanup : Bool) (window now : ℕ) (before last : Wire F) (earlier : List Action)
        → before.actions ≡ waited 100 ∷ wrote (write_register 1 0) ∷ earlier
        → Receives 1 0 (line.arrivals (asking before).actions) (asking before) last
        → Ended IsReleased (
            (change (λ s. with_magnetic s (verified mag_stop window now)) >>= (λ _.
                operation cleanup (λ op. record op {
                  register_verified = true;
                  completion_observed = true;
                  outcome = succeeded;
                })))
              last)
    unfolding ◌>>=◌ change operation verified write_register read_register
    verified-IsReleased true window now before last earlier h r = (
      record {
        earlier = earlier;
        before = asking before;
        asks = ap (λ l. asked 1 (some 0) ∷ wrote (read_register 1) ∷ l) h;
        last = last;
        receives = r;
        counted = refl;
        described = refl;
      },
      refl,
    )
    verified-IsReleased false window now before last earlier h r = (
      record {
        earlier = earlier;
        before = asking before;
        asks = ap (λ l. asked 1 (some 0) ∷ wrote (read_register 1) ∷ l) h;
        last = last;
        receives = r;
        counted = refl;
        described = refl;
      },
      refl,
    )

    finish_switch-IsReleased :
        (cleanup : Bool) (window now : ℕ) (w : Wire F) (earlier : List Action)
        → w.actions ≡ wrote (write_register 1 0) ∷ earlier
        → Ended IsReleased (finish_switch line mag_stop 0 cleanup window now w)
    unfolding finish_switch
    finish_switch-IsReleased cleanup window now w earlier h =
        bind-Ended _ _ (delay line 100) _ w (delay-actions 100 w) (λ u w1 waits.
          bind-Ended _ _ (read_values line 1 (some 0)) _ w1 (read_values-Receives w1)
            (λ values w2 r.
              verified-IsReleased cleanup window now w1 w2 earlier
                (waits ∙ ap (λ l. waited 100 ∷ l) h) r))

    -- From any state, a success ends with a wire of `IsReleased`.
    record Releases {A : Type 0} (m : Run F A) : Type 0 where
      at : (w : Wire F) → Ended IsReleased (m w)

    anything : {A : Type 0} (r : Result A × Wire F) → Ended (λ w. Unit {0}) r
    anything (ok a, w) = tt
    anything (err e, w) = tt

    bind-Releases :
        {A B : Type 0} (m : Run F A) (f : A → Run F B)
        → ((a : A) → Releases (f a))
        → Releases (m >>= f)
    bind-Releases m f k = record {
      at = λ w.
          bind-Ended (λ w'. Unit {0}) IsReleased m f w (anything (m w)) (λ a w' u. (k a).at w');
    }

    write-Releases :
        (sent : OperationStatus → OperationStatus) (cleanup : Bool) (window now : ℕ)
        → Releases (
            write_bytes line (write_register 1 0) >>= (λ _.
              operation cleanup sent >>= (λ _. finish_switch line mag_stop 0 cleanup window now)))
    write-Releases sent cleanup window now = record {
      at = λ w.
          bind-Ended _ _ (write_bytes line (write_register 1 0)) _ w (write_bytes-actions _ w)
            (λ u w1 writes.
              bind-Ended _ _ (operation cleanup sent) _ w1 (operation-actions cleanup sent w1)
                (λ v w2 keeps.
                  finish_switch-IsReleased cleanup window now w2 w.actions (keeps ∙ writes)));
    }

    lift-Releases :
        {A B : Type 0} (a : A) (f : A → Run F B) → Releases (f a) → Releases (lift (ok a) >>= f)
    unfolding lift ◌>>=◌
    lift-Releases a f k = record { at = λ w. k.at w }

    execute_from-Releases :
        (previous : MagneticPhase) (cleanup : Bool) (window now : ℕ)
        → Releases (execute_from line previous mag_stop cleanup window now)
    unfolding execute_from command_register
    execute_from-Releases previous cleanup window now = bind-Releases _ _ (λ values.
        bind-Releases _ _ (λ a. bind-Releases _ _ (λ b. bind-Releases _ _ (λ c.
          bind-Releases _ _ (λ d. bind-Releases _ _ (λ e. bind-Releases _ _ (λ f.
            bind-Releases _ _ (λ g. lift-Releases _ _ (write-Releases _ cleanup window now)))))))))

    pub execute-IsReleased :
        (w : Wire F) (cleanup : Bool) (window now : ℕ)
        → Ended IsReleased (execute line mag_stop cleanup window now w)
    unfolding execute
    execute-IsReleased w cleanup window now =
        (execute_from-Releases w.shared.magnetic_state.phase cleanup window now).at w
