-- ===== src/Controller/Publish.antt =====
-- Sessions and poses of crates/posebridge-core/src/controller.rs: `begin_session`, `publish_batch` and
-- what a published pose changes. A batch runs under one lock.
pub mod Session
pub mod Counts
use pose_bridge.Prelude.{
  ℕ, ◌+◌, ◌-◌, Bool, true, false, ◌||◌, Option, none, some, List, [], ◌∷◌, ltb, ◌==◌, if◌then◌else◌,
  unwrap_or, clamp_ns, max,
}
use pose_bridge.Model.{Error, Result, ok, err, ◌>>=◌}
use pose_bridge.SampleClock.{SampleTime}
use pose_bridge.Motion.{Vec3, Quat, Signals, MotionSample, push}
use pose_bridge.Motion
use pose_bridge.Battery
use pose_bridge.Osc.{RawData, PoseSnapshot}
use pose_bridge.Pose.{FloatOps, normalize, to_euler, physical_from_euler}
use pose_bridge.Dolby
use pose_bridge.Dolby.{clear_reference}
use pose_bridge.Controller.{
  Shared, SourceDescriptor, StatusSnapshot, connecting, active, reconnected,
}

pub record PreparedPose (F : Type 0) : Type 0 where
  pub q : Quat F
  pub raw : RawData F
  pub time : Option SampleTime
  pub signals : Option (Signals F)

abbrev pub rate_of : ℕ → ℕ → Option (ℕ × ℕ)
rate_of gaps elapsed = if ltb 0 elapsed then some (gaps, elapsed) else none

module _ {F : Type 0} where
  -- The reference of the Dolby output goes with the session.
  abbrev pub without_reference : Option (Dolby.Sender F) → Option (Dolby.Sender F)
  without_reference none = none
  without_reference (some output) = some (clear_reference output)

  abbrev pub output_status :
      Option (Dolby.Sender F) → Option (Dolby.DolbyOscStatus F) → Option (Dolby.DolbyOscStatus F)
  output_status none old = old
  output_status (some output) old = some (output.status)

  -- A session after the first one has a new reference.
  abbrev pub reopened : SourceDescriptor F → SourceDescriptor F
  reopened d = if d.session_id == 0 then d else record d {
    reference_epoch = d.reference_epoch + 1;
    reference_reason = reconnected;
    device = record (d.device) { valid = false };
  }

  -- `begin_session`, with the two identifiers that `new_id` draws.
  unfoldable pub begin_session : Shared F → ℕ → ℕ → Shared F
  begin_session s instance session =
      let output = without_reference s.dolby in
      let d = reopened s.descriptor in
      record s {
        physical = none;
        dolby = output;
        motion = Motion.default;
        battery = Battery.default;
        pose = none;
        last_pose = none;
        first_pose = none;
        descriptor = record d {
          instance_id = if d.instance_id == 0 then instance else d.instance_id;
          session_id = session;
          metadata_revision = d.metadata_revision + 1;
        };
        status = record (s.status) {
          dolby_osc = output_status output s.status.dolby_osc;
          session_id = session;
          session_samples = 0;
          actual_rate = none;
          interval_min = 0;
          interval_max = 0;
          state = connecting;
        };
      }

  -- The intervals with the gap to the pose before, which is at `last`.
  abbrev pub shortest : StatusSnapshot F → Option ℕ → ℕ → ℕ
  shortest t none now = t.interval_min
  shortest t (some last) now =
      if t.session_samples == 1 || ltb (now - last) t.interval_min
      then now - last
      else t.interval_min

  abbrev pub longest : StatusSnapshot F → Option ℕ → ℕ → ℕ
  longest t none now = t.interval_max
  longest t (some last) now = max t.interval_max (now - last)

  -- What a pose counts for, before its physical orientation is known.
  unfoldable pub counted : Shared F → ℕ → Shared F
  counted s now =
      let first = unwrap_or s.first_pose now in
      record s {
        first_pose = some first;
        last_pose = some now;
        status = record (s.status) {
          interval_min = shortest s.status s.last_pose now;
          interval_max = longest s.status s.last_pose now;
          pose_count = s.status.pose_count + 1;
          session_samples = s.status.session_samples + 1;
          actual_rate = rate_of s.status.session_samples (now - first);
          state = active;
        };
      }

  abbrev pub pose_of : Shared F → PreparedPose F → ℕ → ℕ → Quat F → Vec3 F → PoseSnapshot F
  pose_of s p start now q euler = record {
    instance_id = s.descriptor.instance_id;
    reference_epoch = s.descriptor.reference_epoch;
    metadata_revision = s.descriptor.metadata_revision;
    session_id = s.status.session_id;
    sequence = s.status.session_samples;
    received_ns = clamp_ns (now - start);
    age_ns = 0;
    sample_time = p.time;
    quaternion_xyzw = q;
    euler_deg = euler;
    raw = p.raw;
    fresh = true;
  }

  abbrev pub sample_of : Shared F → PreparedPose F → ℕ → ℕ → Vec3 F → Signals F → MotionSample F
  sample_of s p start now euler signals = record {
    source_id = s.descriptor.source_id;
    cursor = record {
      instance_id = s.descriptor.instance_id;
      session_id = s.status.session_id;
      sequence = s.status.session_samples;
    };
    reference_epoch = s.descriptor.reference_epoch;
    metadata_revision = s.descriptor.metadata_revision;
    delivery_id = s.motion.delivery;
    received_ns = clamp_ns (now - start);
    age_ns = 0;
    fresh = true;
    sample_time = p.time;
    orientation_xyzw = signals.orientation;
    euler_deg = euler;
    angular_velocity_rad_s = signals.gyro;
    acceleration_g = signals.acceleration;
    orientation_source = signals.source;
    profile = signals.profile;
  }

  -- The motion record, for a pose with signals.
  unfoldable pub remembered :
      Shared F → PreparedPose F → ℕ → ℕ → Vec3 F → Option (Signals F) → Shared F
  remembered s p start now euler none = s
  remembered s p start now euler (some signals) = record s {
    motion = push s.motion now (sample_of s p start now euler signals);
  }

  unfoldable pub presented :
      Shared F
      → PreparedPose F
      → ℕ
      → ℕ
      → Quat F
      → Vec3 F
      → Option (Signals F)
      → Result (Quat F)
      → Shared F × Result (Unit {0})
  presented s p start now q euler signals (err e) = (s, err e)
  presented s p start now q euler signals (ok physical) = (
    remembered (record s { physical = some physical; pose = some (pose_of s p start now q euler) })
        p start now euler signals,
    ok tt,
  )

  -- A pose that fails is counted.
  abbrev pub settled : Shared F × Result (Unit {0}) → Shared F
  settled (s, ok u) = s
  settled (s, err e) = record s {
    status = record (s.status) { invalid_poses = s.status.invalid_poses + 1 };
  }

module _ {F : Type 0} (ops : FloatOps F) where
  abbrev pub physical_of : Option (Signals F) → Vec3 F → Result (Quat F)
  physical_of none euler = physical_from_euler ops euler
  physical_of (some signals) euler = ok signals.orientation

  -- The normalized quaternion and its angles.
  unfoldable pub angles_of : Quat F → Result (Quat F × Vec3 F)
  angles_of given = do q ← normalize ops given; euler ← to_euler ops q; ok (q, euler)

  abbrev pub publish_angles :
      Shared F → PreparedPose F → ℕ → ℕ → Result (Quat F × Vec3 F) → Shared F × Result (Unit {0})
  publish_angles s p start now (err e) = (s, err e)
  publish_angles s p start now (ok (q, euler)) =
      presented (counted s now) p start now q euler p.signals (physical_of p.signals euler)

  unfoldable pub publish_locked : Shared F → PreparedPose F → ℕ → ℕ → Shared F × Result (Unit {0})
  publish_locked s p start now = publish_angles s p start now (angles_of p.q)

  unfoldable pub publish_all : Shared F → ℕ → ℕ → List (PreparedPose F) → Shared F
  publish_all s start now [] = s
  publish_all s start now (p ∷ ps) =
      publish_all (settled (publish_locked s p start now)) start now ps

  unfoldable pub publish_batch : Shared F → ℕ → ℕ → List (PreparedPose F) → Shared F
  publish_batch s start now poses =
      publish_all (record s { motion = record (s.motion) { delivery = s.motion.delivery + 1 } })
        start now poses
