-- ===== src/Model/Command.antt =====
-- `DeviceCommand`, `OutputProfile` and `AlgorithmMode` of crates/posebridge-core/src/model.rs, and the
-- command encoders at the end of crates/posebridge-core/src/protocol.rs.
use pose_bridge.Prelude.{ℕ, ◌/◌, ◌%◌, Option, none, some, List, [], ◌∷◌, ◌==◌, if◌then◌else◌}
use pose_bridge.Model.{Result, ok, err, invalid}

pub data OutputProfile : Type 0 where
  motion timestamp_euler timestamp_quaternion timestamp_gyro_quaternion
        experimental_full_inertial_20hz :
      OutputProfile

-- `*format as u16`.
abbrev pub profile_code : OutputProfile → ℕ
profile_code motion = 0x61
profile_code timestamp_euler = 0x81
profile_code timestamp_quaternion = 0x84
profile_code timestamp_gyro_quaternion = 0xa4
profile_code experimental_full_inertial_20hz = 0xe4

pub data AlgorithmMode : Type 0 where
  nine_axis six_axis : AlgorithmMode

-- `*mode as u16`.
abbrev pub mode_code : AlgorithmMode → ℕ
mode_code nine_axis = 0
mode_code six_axis = 1

pub data DeviceCommand : Type 0 where
  rate : ℕ → DeviceCommand
  output : OutputProfile → DeviceCommand
  accel_calibrate mag_start mag_stop save : DeviceCommand
  algorithm : AlgorithmMode → DeviceCommand
  zero_yaw angle_reference reset_defaults : DeviceCommand

-- The `match hz` of `command_register`.
unfoldable pub rate_code : ℕ → Option ℕ
rate_code hz =
    if hz == 1
    then some 0x03
    else if hz == 2
    then some 0x04
    else if hz == 5
    then some 0x05
    else if hz == 10
    then some 0x06
    else if hz == 20
    then some 0x07
    else if hz == 50
    then some 0x08
    else if hz == 100
    then some 0x09
    else if hz == 200
    then some 0x0b
    else none

abbrev at_rate : Option ℕ → Result (ℕ × ℕ)
at_rate none = err invalid
at_rate (some code) = ok (0x03, code)

unfoldable pub command_register : DeviceCommand → Result (ℕ × ℕ)
command_register (rate hz) = at_rate (rate_code hz)
command_register (output format) = ok (0x0e, profile_code format)
command_register accel_calibrate = ok (0x01, 0x01)
command_register mag_start = ok (0x01, 0x07)
command_register mag_stop = ok (0x01, 0x00)
command_register save = ok (0x00, 0x00)
command_register (algorithm mode) = ok (0x24, mode_code mode)
command_register zero_yaw = ok (0x01, 0x04)
command_register angle_reference = ok (0x01, 0x08)
command_register reset_defaults = ok (0x00, 0x01)

-- `u16::to_le_bytes`.
abbrev pub to_le_bytes : ℕ → List ℕ
to_le_bytes n = n % 256 ∷ (n / 256) % 256 ∷ []

abbrev pub unlock : List ℕ
unlock = 0xff ∷ 0xaa ∷ 0x69 ∷ 0x88 ∷ 0xb5 ∷ []

unfoldable pub read_register : ℕ → List ℕ
read_register address = 0xff ∷ 0xaa ∷ 0x27 ∷ to_le_bytes address

unfoldable pub write_register : ℕ → ℕ → List ℕ
write_register address value = 0xff ∷ 0xaa ∷ address ∷ to_le_bytes value
