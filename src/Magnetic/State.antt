-- ===== src/Magnetic/State.antt =====
-- `State` of crates/posebridge-core/src/magnetic.rs.
pub mod Phases
pub mod Records
pub mod History
use Prim.Native.String.{String}
use pose_bridge.Prelude.{
  ℕ, ◌+◌, ◌-◌, Bool, true, false, not, ◌&&◌, ◌||◌, Option, none, some, List, [], ◌∷◌, ◌++◌, map,
  ltb, ◌==◌, if◌then◌else◌, length, drop, filter, front, back, is_some, is_none, is_some_and,
  map_or, saturating_add, clamp_ns,
}
use mathlib.Core.Option
use pose_bridge.Model.Observation.{OperationStatus}
use pose_bridge.Magnetic.{
  magnetic_history_capacity, fresh_for, MagneticCursor, MagneticPhase, idle, opening, monitoring,
  external_calibration, calibrating, calibrated, closed, failed, Counts, Scale, MagneticSample,
  MagneticBatch, scale,
}
use pose_bridge.Magnetic.Window.{Window, close, snapshot}
use pose_bridge.Magnetic.Window

pub record State : Type 0 where
  pub instance_id : ℕ
  pub session_id : ℕ
  pub sequence : ℕ
  pub phase : MagneticPhase
  pub running : Bool
  pub sensor_type : Option ℕ
  pub type_error : Option String
  pub calsw : Option ℕ
  pub calsw_at : Option ℕ
  pub owned : Bool
  pub records : List (ℕ × MagneticSample)
  pub window : Window
  pub cleanup : Option OperationStatus
  pub last_error : Option String

-- `State::default()`, with the identifier of its window.
abbrev pub default : ℕ → State
default window_id = record {
  instance_id = 0;
  session_id = 0;
  sequence = 0;
  phase = idle;
  running = false;
  sensor_type = none;
  type_error = none;
  calsw = none;
  calsw_at = none;
  owned = false;
  records = [];
  window = Window.default window_id;
  cleanup = none;
  last_error = none;
}

-- `State::new`.
abbrev pub new : ℕ → ℕ → ℕ → State
new window_id instance_id session_id = record (default window_id) {
  instance_id = instance_id;
  session_id = session_id;
  phase = opening;
  running = true;
}

abbrev pub is_unready : MagneticPhase → Bool
is_unready opening = true
is_unready closed = true
is_unready failed = true
is_unready _ = false

unfoldable pub ready : State → Bool
ready s = s.running && (is_some (front s.records) && not (is_unready s.phase))

-- `State::observe`. The window is the one after the reading.
unfoldable pub observe : State → Counts → ℕ → ℕ → State
observe s xyz received start =
    let window = Window.observe s.window xyz received in
    let sample : MagneticSample = record {
      cursor = record {
        instance_id = s.instance_id;
        session_id = s.session_id;
        sequence = s.sequence + 1;
      };
      window_id = window.id;
      phase = s.phase;
      register_xyz = xyz;
      field_ut = map_or s.sensor_type none (λ t. map_or (scale t) none (λ c. some (xyz, c)));
      received_ns = clamp_ns (received - start);
      age_ns = 0;
      fresh = true;
    } in
    let kept =
      if length s.records == magnetic_history_capacity then drop 1 s.records else s.records in
    record s {
      sequence = s.sequence + 1;
      window = window;
      records = kept ++ (received, sample) ∷ [];
    }

-- The exit of a calibration was read back.
abbrev pub complete : State → ℕ → State
complete s now = record s { phase = calibrated; owned = false; window = close s.window now }

-- The `match self.phase` of `State::observe_calsw`.
unfoldable pub next_phase : MagneticPhase → State → ℕ → ℕ → State
next_phase monitoring s value now =
    if value == 7 then record s { phase = external_calibration } else s
next_phase external_calibration s value now =
    if value == 7
    then record s { phase = external_calibration }
    else if value == 0
    then record s { phase = monitoring }
    else s
next_phase calibrated s value now =
    if value == 7 then record s { phase = external_calibration } else s
next_phase calibrating s value now = if value == 0 then complete s now else s
next_phase _ s value now = s

unfoldable pub observe_calsw : State → ℕ → ℕ → State
observe_calsw s value now =
    next_phase s.phase (record s { calsw = some value; calsw_at = some now }) value now

unfoldable pub finish : State → Option String → ℕ → State
finish s error now = record s {
  running = false;
  window = close s.window now;
  phase = if is_some error then failed else closed;
  last_error = error;
}

abbrev pub sequence_of : ℕ × MagneticSample → ℕ
sequence_of (received, p) = p.cursor.sequence

abbrev pub cursor_of : ℕ × MagneticSample → MagneticCursor
cursor_of (received, p) = p.cursor

abbrev pub is_reset : State → Option MagneticCursor → Bool
is_reset s none = false
is_reset s (some c) =
    not (c.instance_id == s.instance_id)
    || (not (c.session_id == s.session_id) || ltb s.sequence c.sequence)

abbrev pub is_active : State → ℕ → Bool
is_active s now =
    s.running
    && (is_none s.last_error && is_some_and (back s.records) (λ r. ltb (now - r.0) fresh_for))

unfoldable pub at_query : ℕ → Bool → ℕ × MagneticSample → MagneticSample
at_query now active (received, p) =
    let age = clamp_ns (now - received) in
    record p { age_ns = age; fresh = active && ltb age (clamp_ns fresh_for) }

unfoldable pub since :
    State → Option MagneticCursor → String → Option OperationStatus → ℕ → MagneticBatch
since s cursor source_id operation now =
    let reset = is_reset s cursor in
    let after = if reset then 0 else map_or cursor 0 (λ c. c.sequence) in
    let active = is_active s now in
    record {
      schema = 1;
      source_id = source_id;
      instance_id = s.instance_id;
      session_id = s.session_id;
      cursor = Option.map cursor_of (back s.records);
      reset = reset;
      history_overrun =
          if is_some cursor && not reset
          then map_or (front s.records) 0 (λ r. sequence_of r - saturating_add after 1)
          else 0;
      active = active;
      phase = s.phase;
      sensor_type = s.sensor_type;
      scale_ut_per_count = map_or s.sensor_type none scale;
      type_error = s.type_error;
      calsw = s.calsw;
      calsw_age_ns = Option.map (λ t. clamp_ns (now - t)) s.calsw_at;
      device_may_be_calibrating = s.owned || is_some_and s.calsw (λ v. v == 7);
      latest = Option.map (at_query now active) (back s.records);
      samples = map (at_query now active) (filter (λ r. ltb after (sequence_of r)) s.records);
      statistics = snapshot s.window now;
      operation = operation;
      cleanup = s.cleanup;
      last_error = s.last_error;
    }
