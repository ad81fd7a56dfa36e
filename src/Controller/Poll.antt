-- ===== src/Controller/Poll.antt =====
-- `Io::monitor` of crates/posebridge-core/src/magnetic.rs: the readings of a magnetic session and the
-- commands between them. The list of what happens ends with a cancellation.
use Prim.Native.String.{String}
use pose_bridge.Prelude.{
  ℕ, ◌+◌, false, none, some, List, [], ◌∷◌, ◌==◌, leb, get_or, min, if◌then◌else◌, is_none,
}
use pose_bridge.Model.{Error, invalid, cancelled, Result, ok, err}
use pose_bridge.Model.Command.{DeviceCommand}
use pose_bridge.Model.Observation.{OperationOutcome}
use pose_bridge.Model.Observation
use pose_bridge.Magnetic.{MagneticPhase, monitoring, external_calibration, scale}
use pose_bridge.Controller.{Shared}
use pose_bridge.Controller.Wire.{
  Line, Wire, Run, ◌>>=◌, ◌>>◌, return, change, read_values, receive_bytes,
}
use pose_bridge.Controller.Monitor.{operation, execute, with_magnetic}

abbrev pub poll_interval : ℕ
poll_interval = 200000000

-- What wakes the loop: a command with the instant and the new window that it may take, the instant of
-- the next poll, bytes, or a read that fails.
pub data Wake : Type 0 where
  commanded : DeviceCommand → ℕ → ℕ → Wake
  polled : ℕ → Wake
  came : List ℕ → ℕ → Wake
  broken : Error → Wake

pub record Polls : Type 0 where
  pub next_mag : ℕ
  pub next_control : ℕ

abbrev pub outcome_of : Error → OperationOutcome
outcome_of cancelled = Observation.cancelled
outcome_of e = Observation.failed

abbrev pub first_phase : ℕ → MagneticPhase
first_phase calsw = if calsw == 7 then external_calibration else monitoring

module _ {F : Type 0} (line : Line) (text : Error → String) (unknown : ℕ → String) where
  -- The sensor type, or why it is not known.
  abbrev pub with_type : ℕ → Shared F → Shared F
  with_type type s = with_magnetic s (λ m. record m {
    sensor_type = some type;
    type_error = if is_none (scale type) then some (unknown type) else m.type_error;
  })

  abbrev pub typed : Result (List ℕ) × Wire F → Result (Unit {0}) × Wire F
  typed (ok values, w) = change (with_type (get_or values 0 0)) w
  typed (err cancelled, w) = (err cancelled, w)
  typed (err e, w) = change (λ s. with_magnetic s (λ m. record m { type_error = some (text e) })) w

  unfoldable pub read_type : Run F (Unit {0})
  read_type w = typed (read_values line 0x72 none w)

  -- The readings before the loop.
  unfoldable pub prepare : Run F (Unit {0})
  prepare = do
    read_type
    values ← read_values line 1 none
    change (λ s. with_magnetic s (λ m. record m { phase = first_phase (get_or values 0 0) }))
    _ ← read_values line 0x3a none
    return tt

  -- A failed command fails its operation, and the session unless the command was refused.
  abbrev pub commanded_result : Result (Unit {0}) × Wire F → Result (Unit {0}) × Wire F
  commanded_result (ok u, w) = (ok tt, w)
  commanded_result (err e, w) =
      let failed = (operation false (λ op. record op { outcome = outcome_of e }) w).1 in
      after e failed
    where
      after : Error → Wire F → Result (Unit {0}) × Wire F
      after invalid v = (ok tt, v)
      after other v = (err other, v)

  unfoldable pub on_command : DeviceCommand → ℕ → ℕ → Run F (Unit {0})
  on_command command window now w = commanded_result (execute line command false window now w)

  -- A poll comes when the earlier one of the two is due; the control register goes first.
  unfoldable pub on_poll : Polls → ℕ → Run F Polls
  on_poll polls now =
      if leb polls.next_control polls.next_mag
      then read_values line 1 none
        >>= (λ values. return (record polls { next_control = now + 1000000000 }))
      else read_values line 0x3a none
        >>= (λ values. return (record polls { next_mag = now + poll_interval }))

  unfoldable pub poll_loop : List Wake → Polls → Run F (Unit {0})
  poll_loop [] polls w = (err cancelled, w)
  poll_loop (commanded command window now ∷ wakes) polls w =
      (on_command command window now >>= (λ u. poll_loop wakes polls)) w
  poll_loop (polled now ∷ wakes) polls w =
      if leb (min polls.next_mag polls.next_control) now
      then (on_poll polls now >>= (λ next. poll_loop wakes next)) w
      else poll_loop wakes polls w
  poll_loop (came bytes at_ns ∷ wakes) polls w =
      poll_loop wakes polls ((receive_bytes w bytes at_ns).0)
  poll_loop (broken e ∷ wakes) polls w = (err e, w)

  -- `Io::monitor`, whose loop starts at the instant `start`.
  unfoldable pub monitor : List Wake → ℕ → Run F (Unit {0})
  monitor wakes start = do
    prepare
    poll_loop wakes (record { next_mag = start + poll_interval; next_control = start + 1000000000 })
