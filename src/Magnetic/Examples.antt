-- ===== src/Magnetic/Examples.antt =====
-- A window of two readings and sessions that read the calibration switch.
use pose_bridge.Prelude.{
  ℕ, ◌+◌, ◌≡◌, ◌≢◌, refl, true, false, some, List, [], ◌∷◌, ◌++◌, length, arith,
}
use pose_bridge.Prelude.Int.{pos, negsuc}
use pose_bridge.Protocol.Parser
use pose_bridge.Protocol.Parser.Laws.{total_length}
use pose_bridge.Magnetic.Receive
use pose_bridge.Magnetic.Receive.{Io}
use pose_bridge.Magnetic.Receive.Account.{run-received}
use pose_bridge.Magnetic.{Counts, monitoring, calibrating, calibrated}
use pose_bridge.Magnetic.Window.{default}
use pose_bridge.Magnetic.State.{State, new, observe_calsw, next_phase}
use pose_bridge.Magnetic.State.History.{Holds, observe_all, observe_all-newest}
use pose_bridge.Magnetic.State.Phases.{run, run-calibrating}

abbrev readings : List (Counts × ℕ)
readings =
    (record { x = pos 5; y = negsuc 3; z = pos 0 }, 1000)
    ∷ (record { x = negsuc 9; y = negsuc 1; z = pos 7 }, 2000)
    ∷ []

abbrev monitoring_state : State
monitoring_state = record (new 1 2 3) { phase = monitoring }

abbrev calibrating_state : State
calibrating_state = record (new 1 2 3) { phase = calibrating; owned = true }

abbrev switch_readings : List (ℕ × ℕ)
switch_readings = (7, 100) ∷ (0, 200) ∷ (1, 300) ∷ (7, 400) ∷ []

run-calibrating_state_phase : (run calibrating_state ((7, 100) ∷ (0, 200) ∷ [])).phase ≡ calibrated
unfolding run observe_calsw next_phase
run-calibrating_state_phase = refl

run-calibrating_example :
    let exit = run calibrating_state (((7, 100) ∷ []) ++ (0, 200) ∷ (7, 300) ∷ []) in
    ((run calibrating_state ((7, 100) ∷ [])).phase ≡ calibrating)
    × ((run calibrating_state ((7, 100) ∷ [])).owned ≡ true)
    × ((run calibrating_state ((7, 100) ∷ [])).window ≡ default 1)
    × (exit.phase ≢ calibrating)
    × (exit.owned ≡ false)
    × (exit.window.end ≡ some 200)
run-calibrating_example =
    run-calibrating calibrating_state ((7, 100) ∷ []) ((7, 300) ∷ []) 200 refl refl
      (omega arith, tt)

observe_all-newest_example : Holds readings (observe_all readings 0 (new 1 2 3))
observe_all-newest_example = observe_all-newest 1 2 3 0 readings

abbrev io : Io
io = record {
  parser = Parser.default;
  status = record {
    bytes_received = 0;
    frames_received = 0;
    discarded_bytes = 0;
    invalid_frames = 0;
  };
  magnetic = new 1 2 3;
  start = 0;
}

-- A byte of noise and a field reading in two reads.
abbrev reads : List (List ℕ × ℕ)
reads =
    (9 ∷ 0x55 ∷ 0x71 ∷ 0x3a ∷ 0 ∷ 1 ∷ 0 ∷ [], 1000)
    ∷ (2 ∷ 0 ∷ 3 ∷ 0 ∷ 0 ∷ 0 ∷ 0 ∷ 0 ∷ 0 ∷ 0 ∷ 0 ∷ 0 ∷ 0 ∷ 0 ∷ [], 2000)
    ∷ []

run-received_example :
    let r = Receive.run io reads in
    (r.0.status.bytes_received + 0 + 0
      ≡ r.0.status.discarded_bytes + total_length r.1 + length r.0.parser.buffer + 0)
    × (r.0.status.frames_received ≡ 0 + length r.1)
run-received_example = run-received io reads
