-- ===== src/Osc.antt =====
-- crates/posebridge-core/src/osc.rs: pose packets, and the sender that limits their rate. `F` stands
-- for f64 and `G` for f32. The OSC encoding itself is that of the crate rosc, a parameter.
pub mod Sender
mod Examples
use Prim.Native.String.{String}
use pose_bridge.Prelude.{
  ℕ, Bool, true, false, not, ◌||◌, Option, none, some, List, [], ◌∷◌, ◌++◌, leb, ltb, ◌==◌,
  if◌then◌else◌, map, map_or, length, i64_max,
}
use pose_bridge.Model.{Error, Result, ok, err, invalid, io, permission, ◌>>=◌, ◌>>◌, fail_if}
use pose_bridge.Model.Text.{Text, validate_source_id}
use pose_bridge.SampleClock.{SampleTime, SampleTimeKind, device_calendar, simulated_elapsed}
use pose_bridge.Motion.{Vec3, Quat}

pub data OscFormat : Type 0 where
  quaternion euler : OscFormat

-- `rosc::OscType`, the constructors that are used.
pub data OscType (G : Type 0) : Type 0 where
  int long : ℕ → OscType G
  text : String → OscType G
  float : G → OscType G

-- `RawData` of model.rs: the fields of the frames that came last. Its quaternion has
-- its components by name.
pub record RawData (F : Type 0) : Type 0 where
  pub acceleration_g : Option (Vec3 F)
  pub angular_velocity_dps : Option (Vec3 F)
  pub euler_xyz_deg : Option (Vec3 F)
  pub quaternion_wxyz : Option (Quat F)
  pub motion_received_ns : Option ℕ
  pub quaternion_received_ns : Option ℕ

-- `RawData::default()`.
abbrev pub no_raw : {F : Type 0} → RawData F
no_raw = record {
  acceleration_g = none;
  angular_velocity_dps = none;
  euler_xyz_deg = none;
  quaternion_wxyz = none;
  motion_received_ns = none;
  quaternion_received_ns = none;
}

-- `PoseSnapshot` of model.rs.
pub record PoseSnapshot (F : Type 0) : Type 0 where
  pub instance_id : ℕ
  pub reference_epoch : ℕ
  pub metadata_revision : ℕ
  pub session_id : ℕ
  pub sequence : ℕ
  pub received_ns : ℕ
  pub age_ns : ℕ
  pub sample_time : Option SampleTime
  pub quaternion_xyzw : Quat F
  pub euler_deg : Vec3 F
  pub raw : RawData F
  pub fresh : Bool

-- What `UdpSocket::send` comes to.
pub data Transmission : Type 0 where
  accepted : ℕ → Transmission
  would_block refused : Transmission
  failed : Error → Transmission

-- `send`: delivered, dropped without an error, or an error.
unfoldable pub send : (List ℕ → Transmission) → List ℕ → Result Bool
send socket packet = elim (socket packet) [
  | accepted n ↦ if n == length packet then ok true else err io
  | would_block ↦ ok false
  | refused ↦ ok false
  | failed e ↦ err e
]

abbrev pub protocol_version : ℕ
protocol_version = 3

abbrev pub max_packet_bytes : ℕ
max_packet_bytes = 8192

abbrev pub quaternion_address : String
quaternion_address = "/posebridge/quaternion"

abbrev pub euler_address : String
euler_address = "/posebridge/euler"

-- `t.kind as i32`.
abbrev pub kind_code : SampleTimeKind → ℕ
kind_code device_calendar = 1
kind_code simulated_elapsed = 2

abbrev pub has_zero : List ℕ → Bool
has_zero [] = false
has_zero (n ∷ ns) = n == 0 || has_zero ns

-- What the packet encoding takes from the standard library and from rosc: what it asks of a text, the
-- cast to f32, and the encoder.
pub record Codec (F G : Type 0) : Type 0 where
  pub texts : Text
  -- `none` where the f32 is not finite
  pub to_f32 : F → Option G
  pub rosc_encode : String → List (OscType G) → Result (List ℕ)

module _ {F G : Type 0} (codec : Codec F G) where
  unfoldable pub message : String → List (OscType G) → Result (List ℕ)
  message address args = do
    packet ← codec.rosc_encode address args
    fail_if (ltb max_packet_bytes (length packet)) invalid
    ok packet

  abbrev finite : Option G → Result G
  finite none = err invalid
  finite (some g) = ok g

  unfoldable pub floats : List F → Result (List (OscType G))
  floats [] = ok []
  floats (v ∷ vs) = do g ← finite (codec.to_f32 v); rest ← floats vs; ok (float g ∷ rest)

  -- `long(..)?` of each number.
  unfoldable pub longs : List ℕ → Result (List (OscType G))
  longs [] = ok []
  longs (n ∷ ns) = do fail_if (ltb i64_max n) invalid; rest ← longs ns; ok (long n ∷ rest)

  abbrev pub address_of : OscFormat → String
  address_of quaternion = quaternion_address
  address_of euler = euler_address

  abbrev pub values_of : OscFormat → PoseSnapshot F → List F
  values_of quaternion p =
      p.quaternion_xyzw.x ∷ p.quaternion_xyzw.y ∷ p.quaternion_xyzw.z ∷ p.quaternion_xyzw.w ∷ []
  values_of euler p = p.euler_deg.x ∷ p.euler_deg.y ∷ p.euler_deg.z ∷ []

  -- The identity, sequence or epoch fields that may not be 0.
  abbrev pub is_unidentified : PoseSnapshot F → ℕ → Bool
  is_unidentified p tx_seq =
      has_zero (
        p.instance_id ∷ p.session_id ∷ p.sequence ∷ tx_seq ∷ p.reference_epoch ∷ p.metadata_revision
        ∷ [])
      || map_or p.sample_time false (λ t. t.clock_epoch == 0)

  unfoldable pub encode : PoseSnapshot F → OscFormat → String → ℕ → ℕ → Result (List ℕ)
  encode p format source_id tx_seq age_ns = do
    validate_source_id codec.texts source_id
    fail_if (is_unidentified p tx_seq) invalid
    fields ← longs (
        p.instance_id ∷ p.session_id ∷ p.sequence ∷ tx_seq ∷ p.reference_epoch ∷ p.metadata_revision
        ∷ p.received_ns ∷ age_ns ∷ [])
    times ←
        longs (
          map_or p.sample_time 0 (λ t. t.time_ms)
          ∷ map_or p.sample_time 0 (λ t. t.clock_epoch)
          ∷ [])
    values ← floats (values_of format p)
    message (address_of format) (
        int protocol_version
        ∷ text source_id
        ∷ (fields ++ (int (map_or p.sample_time 0 (λ t. kind_code t.kind)) ∷ (times ++ values))))
