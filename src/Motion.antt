-- ===== src/Motion.antt =====
-- crates/posebridge-core/src/motion.rs: the bounded history of motion records and its cursor queries.
-- `F` stands for f64, which the history only copies. Instants are nanoseconds.
pub mod Invariant
pub mod Laws
mod Examples
use Prim.Native.String.{String}
use pose_bridge.Prelude.{
  ℕ, ◌+◌, ◌-◌, Bool, true, false, not, ◌&&◌, ◌||◌, Option, none, some, List, [], ◌∷◌, ◌++◌, map,
  ltb, ◌==◌, if◌then◌else◌, length, drop, filter, front, back, is_some, map_or, saturating_add,
  clamp_ns,
}
use mathlib.Core.Option
use pose_bridge.SampleClock.{SampleTime}

abbrev pub motion_history_capacity : ℕ
motion_history_capacity = 256

pub record MotionCursor : Type 0 where
  pub instance_id : ℕ
  pub session_id : ℕ
  pub sequence : ℕ

pub data OrientationSource : Type 0 where
  native_quaternion converted_euler register_quaternion simulator : OrientationSource

-- `[f64; 3]` and `pose::Quat`.
pub record Vec3 (F : Type 0) : Type 0 where
  pub x : F
  pub y : F
  pub z : F

pub record Quat (F : Type 0) : Type 0 where
  pub x : F
  pub y : F
  pub z : F
  pub w : F

pub record MotionSample (F : Type 0) : Type 0 where
  pub source_id : String
  pub cursor : MotionCursor
  pub reference_epoch : ℕ
  pub metadata_revision : ℕ
  pub delivery_id : ℕ
  pub received_ns : ℕ
  pub age_ns : ℕ
  pub fresh : Bool
  pub sample_time : Option SampleTime
  pub orientation_xyzw : Quat F
  pub euler_deg : Vec3 F
  pub angular_velocity_rad_s : Option (Vec3 F)
  pub acceleration_g : Option (Vec3 F)
  pub orientation_source : OrientationSource
  pub profile : ℕ

pub record MotionBatch (F : Type 0) : Type 0 where
  pub source_id : String
  pub queried_at : ℕ
  pub active : Bool
  pub cursor : Option MotionCursor
  pub reset : Bool
  pub history_overrun : ℕ
  pub samples : List (MotionSample F)

pub record Signals (F : Type 0) : Type 0 where
  pub orientation : Quat F
  pub gyro : Option (Vec3 F)
  pub acceleration : Option (Vec3 F)
  pub source : OrientationSource
  pub profile : ℕ

-- Oldest record first.
pub record History (F : Type 0) : Type 0 where
  pub records : List (ℕ × MotionSample F)
  pub delivery : ℕ

-- `History::default()`.
abbrev pub default : {F : Type 0} → History F
default = record { records = []; delivery = 0 }

-- The cursor is of another instance or session, or ahead of the history.
abbrev pub is_reset : Option MotionCursor → Option MotionCursor → Bool
is_reset (some a) (some b) =
    not (a.instance_id == b.instance_id)
    || (not (a.session_id == b.session_id) || ltb b.sequence a.sequence)
is_reset _ _ = false

-- The sequence after which records are handed out.
abbrev pub after_of : Option MotionCursor → Bool → ℕ
after_of cursor reset = if reset then 0 else map_or cursor 0 (λ c. c.sequence)

module _ {F : Type 0} where
  unfoldable pub push : History F → ℕ → MotionSample F → History F
  push h received sample =
      let kept =
        if length h.records == motion_history_capacity then drop 1 h.records else h.records in
      record h { records = kept ++ (received, sample) ∷ [] }

  abbrev pub cursor_of : ℕ × MotionSample F → MotionCursor
  cursor_of (received, p) = p.cursor

  abbrev pub sequence_of : ℕ × MotionSample F → ℕ
  sequence_of (received, p) = p.cursor.sequence

  -- A record as it is handed out: with its age at the query.
  unfoldable pub at_query : ℕ → Bool → ℕ × MotionSample F → MotionSample F
  at_query now active (received, p) =
      let age = clamp_ns (now - received) in
      record p { age_ns = age; fresh = active && ltb age 500000000 }

  unfoldable pub overrun_of : Option MotionCursor → Bool → ℕ → List (ℕ × MotionSample F) → ℕ
  overrun_of cursor reset after records =
      if is_some cursor && not reset
      then map_or (front records) 0 (λ r. sequence_of r - saturating_add after 1)
      else 0

  unfoldable pub since : History F → Option MotionCursor → ℕ → Bool → MotionBatch F
  since h cursor now active =
      let latest = Option.map cursor_of (back h.records) in
      let reset = is_reset cursor latest in
      let after = after_of cursor reset in
      record {
        source_id = "";
        queried_at = now;
        active = active;
        cursor = latest;
        reset = reset;
        history_overrun = overrun_of cursor reset after h.records;
        samples = map (at_query now active) (filter (λ r. ltb after (sequence_of r)) h.records);
      }
