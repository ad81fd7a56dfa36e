-- ===== src/Config.antt =====
-- `Config` and its validation of crates/posebridge-core/src/model.rs. `windows` stands for
-- `cfg!(target_os = "windows")`, and an address is what the validation asks of it.
pub mod Accepted
mod Examples
use Prim.Native.String.{String}
use pose_bridge.Prelude.{
  ℕ, Bool, true, false, not, ◌&&◌, ◌||◌, Option, none, some, leb, ◌==◌, if◌then◌else◌, is_none,
  unwrap_or,
}
use pose_bridge.Model.{Result, ok, invalid, ◌>>=◌, ◌>>◌, fail_if}
use pose_bridge.Model.Text.{Text, validate_source_id}
use pose_bridge.Motion.{Vec3, Quat}
use pose_bridge.Pose.{FloatOps, from_euler}
use pose_bridge.Pose.Mounting.{Mounting}
use pose_bridge.Pose.Mounting
use pose_bridge.Osc.{OscFormat, quaternion}

pub data PoseInput : Type 0 where
  -- the quaternion register, and the quaternion of the stream
  euler register_quaternion stream_quaternion : PoseInput

pub data Pattern : Type 0 where
  fixed yaw combined wrap : Pattern

pub data BleConnectionMode : Type 0 where
  default_mode throughput : BleConnectionMode

pub data Source (F : Type 0) : Type 0 where
  -- device_id, connection_mode
  ble : String → BleConnectionMode → Source F
  -- port, baud
  usb : String → ℕ → Source F
  -- pattern, euler_deg, rate_hz, sample_clock
  simulate : Pattern → Vec3 F → ℕ → Bool → Source F

abbrev pub default_rate : ℕ
default_rate = 100

pub record SocketAddr : Type 0 where
  pub is_loopback : Bool
  pub port : ℕ

pub record OscConfig : Type 0 where
  pub target : SocketAddr
  pub max_rate_hz : ℕ
  pub format : OscFormat

pub record DolbyOscConfig : Type 0 where
  pub target : SocketAddr
  pub max_rate_hz : ℕ

pub record Config (F : Type 0) : Type 0 where
  pub source : Source F
  pub source_id : Option String
  pub pose_input : PoseInput
  pub mounting : Option Mounting
  pub osc : Option OscConfig
  pub dolby_osc : Option DolbyOscConfig

unfoldable pub validate_rate : ℕ → Result (Unit {0})
validate_rate rate = fail_if (not (leb 1 rate && leb rate 200)) invalid

-- The checks of an output, for OSC and Dolby alike.
unfoldable pub validate_output : SocketAddr → ℕ → Result (Unit {0})
validate_output target rate = do
  validate_rate rate
  fail_if (not target.is_loopback || target.port == 0) invalid

unfoldable pub validate_osc : Option OscConfig → Result (Unit {0})
validate_osc none = ok tt
validate_osc (some o) = validate_output o.target o.max_rate_hz

unfoldable pub validate_dolby : Option DolbyOscConfig → Result (Unit {0})
validate_dolby none = ok tt
validate_dolby (some o) = validate_output o.target o.max_rate_hz

unfoldable pub validate_mounting : Option Mounting → Result (Unit {0})
validate_mounting none = ok tt
validate_mounting (some m) = Mounting.validate m

module _ {F : Type 0} where
  abbrev pub is_simulate : Source F → Bool
  is_simulate (simulate p e r c) = true
  is_simulate _ = false

  -- `Config::default()`, with the f64 zero.
  abbrev pub default : F → Config F
  default zero = record {
    source = simulate fixed (record { x = zero; y = zero; z = zero }) default_rate false;
    source_id = none;
    pose_input = euler;
    mounting = none;
    osc = none;
    dolby_osc = none;
  }

module _ {F : Type 0} (ops : FloatOps F) (texts : Text) (windows : Bool) where
  abbrev discard : Result (Quat F) → Result (Unit {0})
  discard r = r >>= λ q. ok tt

  unfoldable pub validate_source : Source F → Result (Unit {0})
  validate_source (ble device_id default_mode) = fail_if (texts.is_blank device_id) invalid
  validate_source (ble device_id throughput) = do
    fail_if (texts.is_blank device_id) invalid
    fail_if (not windows) invalid
  validate_source (usb port baud) = fail_if (texts.is_blank port || baud == 0) invalid
  validate_source (simulate pattern euler_deg rate_hz sample_clock) = do
    validate_rate rate_hz
    discard (from_euler ops euler_deg)

  -- The name of a source that has none of its own.
  unfoldable pub source_name : Source F → String
  source_name (ble device_id mode) = texts.join "ble:" device_id
  source_name (usb port baud) = texts.join "usb:" port
  source_name (simulate p e r c) = "simulate"

  unfoldable pub logical_source_id : Config F → String
  logical_source_id c = unwrap_or c.source_id (source_name c.source)

  unfoldable pub validate : Config F → Result (Unit {0})
  validate c = do
    validate_source c.source
    validate_source_id texts (logical_source_id c)
    validate_mounting c.mounting
    validate_osc c.osc
    validate_dolby c.dolby_osc

  unfoldable pub validate_acquisition : Config F → Result (Unit {0})
  validate_acquisition c = do
    validate c
    fail_if (not (is_simulate c.source) && is_none c.mounting) invalid
