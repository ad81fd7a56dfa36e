-- ===== src/Magnetic/State/Phases.antt =====
-- What the readings of the calibration switch do to a session.
use pose_bridge.Prelude.{
  ℕ, ◌≡◌, ◌≢◌, refl, Bool, true, false, none, some, List, [], ◌∷◌, ◌++◌, arith, ◌==◌, if◌then◌else◌,
}
use pose_bridge.Magnetic.{MagneticPhase, monitoring, external_calibration, calibrating}
use pose_bridge.Magnetic.Window.{close}
use pose_bridge.Magnetic.State.{State, next_phase, observe_calsw}

-- The readings in their order, each with its time.
unfoldable pub run : State → List (ℕ × ℕ) → State
run s [] = s
run s ((value, now) ∷ readings) = run (observe_calsw s value now) readings

abbrev pub monitor_phase : Bool → MagneticPhase
monitor_phase true = external_calibration
monitor_phase false = monitoring

-- Whether the last reading of 7 or 0 was 7.
abbrev pub is_active_last : Bool → List (ℕ × ℕ) → Bool
is_active_last external [] = external
is_active_last external ((value, now) ∷ readings) =
    is_active_last (if value == 7 then true else if value == 0 then false else external) readings

abbrev pub NoZero : List (ℕ × ℕ) → Type 0
NoZero [] = Unit {0}
NoZero ((value, now) ∷ readings) = (value ≢ 0) × NoZero readings

record IsMonitoring (s t : State) (external : Bool) : Type 0 where
  phase_lem : t.phase ≡ monitor_phase external
  owned_lem : t.owned ≡ s.owned
  window_lem : t.window ≡ s.window

observe_calsw-IsMonitoring :
    (s t : State) (value now : ℕ) (external : Bool)
    → IsMonitoring s t external
    → IsMonitoring s
        (observe_calsw t value now)
        (if value == 7 then true else if value == 0 then false else external)
unfolding observe_calsw next_phase
observe_calsw-IsMonitoring s t value now external m = ground arith

record IsCalibrating (s t : State) : Type 0 where
  phase_lem : t.phase ≡ calibrating
  owned_lem : t.owned ≡ s.owned
  window_lem : t.window ≡ s.window

observe_calsw-IsCalibrating :
    (s t : State) (value now : ℕ)
    → IsCalibrating s t
    → value ≢ 0
    → IsCalibrating s (observe_calsw t value now)
unfolding observe_calsw next_phase
observe_calsw-IsCalibrating s t value now c h = ground arith

-- The calibration is over, and the window ended at that time.
record IsOver (end : ℕ) (t : State) : Type 0 where
  phase_lem : t.phase ≢ calibrating
  owned_lem : t.owned ≡ false
  window_lem : t.window.end ≡ some end

observe_calsw-IsOver :
    (t : State) (value now end : ℕ) → IsOver end t → IsOver end (observe_calsw t value now)
unfolding observe_calsw next_phase
observe_calsw-IsOver t value now end o = ground arith

exit-IsOver :
    (s t : State) (now : ℕ)
    → IsCalibrating s t
    → s.window.end ≡ none
    → IsOver now (observe_calsw t 0 now)
unfolding observe_calsw next_phase close
exit-IsOver s t now c h = ground arith

run-IsMonitoring :
    (s t : State) (readings : List (ℕ × ℕ)) (external : Bool)
    → IsMonitoring s t external
    → IsMonitoring s (run t readings) (is_active_last external readings)
unfolding run
run-IsMonitoring s t [] external m = m
run-IsMonitoring s t ((value, now) ∷ readings) external m =
    run-IsMonitoring s (observe_calsw t value now) readings
      (if value == 7 then true else if value == 0 then false else external)
      (observe_calsw-IsMonitoring s t value now external m)

-- A session that only monitors follows the switch: after any readings it is in external calibration
-- exactly if the last of them that was 7 or 0 was 7, it owns no more and no less than before, and its
-- window is untouched.
pub run-monitor_phase :
    (s : State) (readings : List (ℕ × ℕ)) (external : Bool)
    → s.phase ≡ monitor_phase external
    → ((run s readings).phase ≡ monitor_phase (is_active_last external readings))
      × ((run s readings).owned ≡ s.owned)
      × ((run s readings).window ≡ s.window)
run-monitor_phase s readings external h =
    let m =
      run-IsMonitoring s s readings external
        (record { phase_lem = h; owned_lem = refl; window_lem = refl }) in
    (m.phase_lem, m.owned_lem, m.window_lem)

run-IsCalibrating :
    (s t : State) (readings : List (ℕ × ℕ))
    → IsCalibrating s t
    → NoZero readings
    → IsCalibrating s (run t readings)
unfolding run
run-IsCalibrating s t [] c n = c
run-IsCalibrating s t ((value, now) ∷ readings) c n =
    run-IsCalibrating s (observe_calsw t value now) readings
      (observe_calsw-IsCalibrating s t value now c n.0) n.1

run-IsOver :
    (t : State) (end : ℕ) (readings : List (ℕ × ℕ)) → IsOver end t → IsOver end (run t readings)
unfolding run
run-IsOver t end [] o = o
run-IsOver t end ((value, now) ∷ readings) o =
    run-IsOver (observe_calsw t value now) end readings (observe_calsw-IsOver t value now end o)

run-append : (s : State) (a b : List (ℕ × ℕ)) → run s (a ++ b) ≡ run (run s a) b
unfolding run
run-append s [] b = refl
run-append s ((value, now) ∷ a) b = run-append (observe_calsw s value now) a b

-- A session that calibrates gives the device up with the first reading of 0 and not before: until then
-- it is calibrating, as much its owner as before and with its window open; from then on, whatever is
-- read, it is not calibrating and not the owner, and its window ended at that reading.
pub run-calibrating :
    (s : State) (readings later : List (ℕ × ℕ)) (now : ℕ)
    → s.phase ≡ calibrating
    → s.window.end ≡ none
    → NoZero readings
    → let exit = run s (readings ++ (0, now) ∷ later) in
      ((run s readings).phase ≡ calibrating)
      × ((run s readings).owned ≡ s.owned)
      × ((run s readings).window ≡ s.window)
      × (exit.phase ≢ calibrating)
      × (exit.owned ≡ false)
      × (exit.window.end ≡ some now)
run-calibrating s readings later now p h n =
    let c =
      run-IsCalibrating s s readings (record { phase_lem = p; owned_lem = refl; window_lem = refl })
        n in
    let o : IsOver now (run s (readings ++ (0, now) ∷ later)) =
      rw (run-append s readings ((0, now) ∷ later)) (
        unfold run in
        run-IsOver (observe_calsw (run s readings) 0 now) now later
          (exit-IsOver s (run s readings) now c h)) in
    (c.phase_lem, c.owned_lem, c.window_lem, o.phase_lem, o.owned_lem, o.window_lem)
