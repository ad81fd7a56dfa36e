-- ===== src/Controller/Frames.antt =====
-- One frame in `pump` of crates/posebridge-core/src/controller.rs: the raw data it leaves, and the pose
-- and signals that it comes to for the pose input of the configuration.
use pose_bridge.Prelude.{ℕ, ◌||◌, Option, none, some, List, if◌then◌else◌, get_or, is_some}
use pose_bridge.Prelude.Int.{ℤ, pos}
use pose_bridge.Model.{Result, ok, ◌>>=◌}
use pose_bridge.Motion.{Vec3, Quat, Signals, OrientationSource, native_quaternion, converted_euler}
use pose_bridge.Motion
use pose_bridge.Osc.{RawData}
use pose_bridge.Pose.{FloatOps}
use pose_bridge.Pose.Mounting.{
  Mounting, vector, physical_from_sensor_quaternion, physical_from_sensor_euler,
  from_sensor_quaternion, from_sensor_euler,
}
use pose_bridge.Protocol.Frame.{Triple, Quad, StreamFields}
use pose_bridge.Config.{PoseInput, euler, register_quaternion, stream_quaternion}

-- A pose with its signals, each as far as it could be computed; `none` where the frame has no pose for
-- the configured input.
abbrev pub Reading : Type 0 → Type 0
Reading F = Option (Result (Quat F) × Result (Signals F))

module _ {F : Type 0} (ops : FloatOps F) where
  -- A count of 32768ths as a number.
  abbrev pub number : ℤ → F
  number count = ops.div (ops.of_int count) (ops.of_int (pos 32768))

  abbrev pub vec_of : Triple → Vec3 F
  vec_of t = record { x = number t.x; y = number t.y; z = number t.z }

  abbrev pub quat_of : Quad → Quat F
  quat_of q = record { x = number q.x; y = number q.y; z = number q.z; w = number q.w }

  abbrev pub map_vec : (F → F) → Vec3 F → Vec3 F
  map_vec f v = record { x = f v.x; y = f v.y; z = f v.z }

  -- `.map(f).transpose()?`.
  abbrev pub transposed : (Vec3 F → Result (Vec3 F)) → Option (Vec3 F) → Result (Option (Vec3 F))
  transposed f none = ok none
  transposed f (some v) = f v >>= λ u. ok (some u)

  unfoldable pub signals :
      Mounting
      → Result (Quat F)
      → Option (Vec3 F)
      → Option (Vec3 F)
      → OrientationSource
      → ℕ
      → Result (Signals F)
  signals m q gyro acceleration source profile = do
    orientation ← q
    turned ← transposed (λ v. vector ops m v >>= λ u. ok (map_vec ops.to_radians u)) gyro
    moved ← transposed (vector ops m) acceleration
    ok (record {
      orientation = orientation;
      gyro = turned;
      acceleration = moved;
      source = source;
      profile = profile;
    })

  abbrev pub option_vec : Option Triple → Option (Vec3 F)
  option_vec none = none
  option_vec (some t) = some (vec_of t)

  unfoldable pub raw_of_motion : RawData F → ℕ → Triple → Triple → Triple → RawData F
  raw_of_motion raw ns acceleration gyro angles = record raw {
    acceleration_g = some (vec_of acceleration);
    angular_velocity_dps = some (vec_of gyro);
    euler_xyz_deg = some (vec_of angles);
    motion_received_ns = some ns;
  }

  abbrev with_quaternion : RawData F → ℕ → Option Quad → RawData F
  with_quaternion raw ns none = raw
  with_quaternion raw ns (some q) = record raw {
    quaternion_wxyz = some (quat_of q);
    quaternion_received_ns = some ns;
  }

  unfoldable pub raw_of_stream : RawData F → ℕ → StreamFields → RawData F
  raw_of_stream raw ns f =
      with_quaternion
        (record raw {
          acceleration_g = option_vec f.acceleration_g;
          angular_velocity_dps = option_vec f.angular_velocity_dps;
          euler_xyz_deg = option_vec f.euler_xyz_deg;
          motion_received_ns =
              if is_some f.angular_velocity_dps || is_some f.euler_xyz_deg then some ns else none;
        })
        ns f.quaternion_wxyz

  -- The quaternion of a reply to 0x51.
  abbrev pub quad_of : List ℤ → Quad
  quad_of values = record {
    w = get_or values 0 (pos 0);
    x = get_or values 1 (pos 0);
    y = get_or values 2 (pos 0);
    z = get_or values 3 (pos 0);
  }

  unfoldable pub raw_of_reply : RawData F → ℕ → List ℤ → RawData F
  raw_of_reply raw ns values = with_quaternion raw ns (some (quad_of values))

  abbrev of_euler : Mounting → Vec3 F → Option (Vec3 F) → Option (Vec3 F) → ℕ → Reading F
  of_euler m angles gyro acceleration profile = some (
    from_sensor_euler ops m angles,
    signals m (physical_from_sensor_euler ops m angles) gyro acceleration converted_euler profile,
  )

  abbrev of_quaternion :
      Mounting → Quat F → Option (Vec3 F) → Option (Vec3 F) → OrientationSource → ℕ → Reading F
  of_quaternion m q gyro acceleration source profile = some (
    from_sensor_quaternion ops m q,
    signals m (physical_from_sensor_quaternion ops m q) gyro acceleration source profile,
  )

  unfoldable pub read_motion : PoseInput → Mounting → Triple → Triple → Triple → Reading F
  read_motion euler m acceleration gyro angles =
      of_euler m (vec_of angles) (some (vec_of gyro)) (some (vec_of acceleration)) 0x61
  read_motion _ m acceleration gyro angles = none

  -- The angles or the quaternion of a stream frame, where it has them.
  abbrev stream_angles : Option Triple → Mounting → StreamFields → Reading F
  stream_angles none m f = none
  stream_angles (some angles) m f =
      of_euler m (vec_of angles) (option_vec f.angular_velocity_dps) (option_vec f.acceleration_g)
        f.profile

  abbrev stream_quad : Option Quad → Mounting → StreamFields → Reading F
  stream_quad none m f = none
  stream_quad (some q) m f =
      of_quaternion m (quat_of q) (option_vec f.angular_velocity_dps) (option_vec f.acceleration_g)
        native_quaternion f.profile

  unfoldable pub read_stream : PoseInput → Mounting → StreamFields → Reading F
  read_stream euler m f = stream_angles f.euler_xyz_deg m f
  read_stream stream_quaternion m f = stream_quad f.quaternion_wxyz m f
  read_stream register_quaternion m f = none

  unfoldable pub read_reply : PoseInput → Mounting → List ℤ → Reading F
  read_reply register_quaternion m values =
      of_quaternion m (quat_of (quad_of values)) none none Motion.register_quaternion 0x71
  read_reply _ m values = none
