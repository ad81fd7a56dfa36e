-- ===== src/Tracking.antt =====
-- `Sample` of crates/posebridge-client/src/tracking.rs: a pose as the client keeps it, and how long it
-- counts as fresh. Durations and instants are nanoseconds.
use pose_bridge.Prelude.{ℕ, ◌+◌, ◌-◌, Bool, ◌&&◌, Option, ltb}
use pose_bridge.SampleClock.{SampleTime}
use pose_bridge.Motion.{Vec3, Quat, OrientationSource, MotionSample}

pub record Sample (F : Type 0) : Type 0 where
  pub instance : ℕ
  pub session : ℕ
  pub reference : ℕ
  pub sequence : ℕ
  pub physical : Quat F
  pub angles : Vec3 F
  pub fresh : Bool
  pub age : ℕ
  pub queried_at : ℕ
  pub gyro : Option (Vec3 F)
  pub acceleration : Option (Vec3 F)
  pub sample_time : Option SampleTime
  pub orientation_source : OrientationSource

module _ {F : Type 0} where
  unfoldable pub from_motion : MotionSample F → ℕ → Sample F
  from_motion p queried_at = record {
    instance = p.cursor.instance_id;
    session = p.cursor.session_id;
    reference = p.reference_epoch;
    sequence = p.cursor.sequence;
    physical = p.orientation_xyzw;
    angles = p.euler_deg;
    fresh = p.fresh;
    age = p.age_ns;
    queried_at = queried_at;
    gyro = p.angular_velocity_rad_s;
    acceleration = p.acceleration_g;
    sample_time = p.sample_time;
    orientation_source = p.orientation_source;
  }

  unfoldable pub age_at : Sample F → ℕ → ℕ
  age_at s now = s.age + (now - s.queried_at)

  unfoldable pub valid_at : Sample F → ℕ → Bool
  valid_at s now = s.fresh && ltb (age_at s now) 500000000
