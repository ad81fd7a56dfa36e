-- ===== src/Protocol/Frame.antt =====
-- `Frame`, `frame_length` and `decode` of crates/posebridge-core/src/protocol.rs.
-- Every f64 of a frame is a word (an i16) over 32768, times 16, 2000 or 180: such a value is exact,
-- and stands here as the integer that counts 32768ths. An index of `decode` outside the slice would
-- panic; `get_or` gives 0 there, and the parser hands over slices of the frame's whole length.
pub mod Laws
mod Examples
use Prim.Native.Nat.{bit_and}
use pose_bridge.Prelude.{
  ℕ, suc, ◌+◌, ◌-◌, ◌*◌, ◌^◌, Bool, not, ◌&&◌, Option, none, some, List, [], ◌∷◌, leb, ltb, ◌==◌,
  if◌then◌else◌, get_or,
}
use pose_bridge.Prelude.Int.{ℤ, pos, negsuc, ◌*ℤ◌, nat_abs}
use pose_bridge.Protocol.Calendar.{from_le_bytes, device_calendar_ms}

-- `[f64; 3]`, and `[f64; 4]` in the order w, x, y, z, in 32768ths.
pub record Triple : Type 0 where
  pub x : ℤ
  pub y : ℤ
  pub z : ℤ

pub record Quad : Type 0 where
  pub w : ℤ
  pub x : ℤ
  pub y : ℤ
  pub z : ℤ

pub record StreamFields : Type 0 where
  pub profile : ℕ
  pub acceleration_g : Option Triple
  pub sample_time_ms : Option ℕ
  pub angular_velocity_dps : Option Triple
  pub euler_xyz_deg : Option Triple
  pub quaternion_wxyz : Option Quad

pub data Frame : Type 0 where
  -- acceleration_g, angular_velocity_dps, euler_xyz_deg
  motion : Triple → Triple → Triple → Frame
  stream : StreamFields → Frame
  -- address, values
  registers : ℕ → List ℤ → Frame

unfoldable pub frame_length : ℕ → Option ℕ
frame_length flag =
    if flag == 0x61
    then some 20
    else if flag == 0x71
    then some 20
    else if flag == 0x01
    then some 8
    else if flag == 0x04
    then some 10
    else if flag == 0x81
    then some 16
    else if flag == 0x84
    then some 18
    else if flag == 0xa4
    then some 24
    else if flag == 0xe4
    then some 30
    else none

-- `as i16` of a word.
unfoldable pub to_i16 : ℕ → ℤ
to_i16 n = if ltb n 32768 then pos n else negsuc (65535 - n)

abbrev pub byte_at : List ℕ → ℕ → ℕ
byte_at b i = get_or b i 0

abbrev pub i16_at : List ℕ → ℕ → ℤ
i16_at b i = to_i16 (from_le_bytes (byte_at b i) (byte_at b (i + 1)))

-- `triple(offset, scale)`.
unfoldable pub triple : List ℕ → ℕ → ℕ → Triple
unfolding to_i16 ◌*ℤ◌
triple b offset scale = record {
  x = i16_at b offset *ℤ pos scale;
  y = i16_at b (offset + 2) *ℤ pos scale;
  z = i16_at b (offset + 4) *ℤ pos scale;
}

unfoldable pub quad : List ℕ → ℕ → Quad
unfolding to_i16
quad b offset = record {
  w = i16_at b offset;
  x = i16_at b (offset + 2);
  y = i16_at b (offset + 4);
  z = i16_at b (offset + 6);
}

-- The sum of squares, in units of 2 ^ -30.
abbrev pub norm_squared : Quad → ℕ
norm_squared q =
    nat_abs q.w * nat_abs q.w
    + nat_abs q.x * nat_abs q.x
    + nat_abs q.y * nat_abs q.y
    + nat_abs q.z * nat_abs q.z

-- `(0.81..=1.21).contains(..)`: the sum is exact, and neither bound is a multiple of 2 ^ -30, so the
-- rounding of the two constants decides nothing.
unfoldable pub is_near_unit : Quad → Bool
is_near_unit q =
    leb (81 * 1073741824) (100 * norm_squared q) && leb (100 * norm_squared q) (121 * 1073741824)

unfoldable pub has_field : ℕ → ℕ → Bool
has_field flag bit = not (bit_and flag bit == 0)

abbrev pub when : Bool → Triple → Option Triple
when c t = if c then some t else none

-- The fields behind the sample time, with the offset that is reached there.
unfoldable pub decode_fields : List ℕ → Option ℕ → ℕ → Option Frame
decode_fields b sample_time_ms offset =
    let flag = byte_at b 1 in
    let acceleration = has_field flag 0x40 in
    let gyro = has_field flag 0x20 in
    let offset1 = if acceleration then offset + 6 else offset in
    let offset2 = if gyro then offset1 + 6 else offset1 in
    let fields = λ (q : Option Quad). stream (record {
      profile = flag;
      acceleration_g = when acceleration (triple b offset 16);
      sample_time_ms = sample_time_ms;
      angular_velocity_dps = when gyro (triple b offset1 2000);
      euler_xyz_deg = when (has_field flag 0x01) (triple b offset2 180);
      quaternion_wxyz = q;
    }) in
    if has_field flag 0x04
    then if is_near_unit (quad b offset2) then some (fields (some (quad b offset2))) else none
    else some (fields none)

-- The `?` behind the calendar: a frame with an invalid clock is refused.
unfoldable pub decode_timed : List ℕ → Option ℕ → Option Frame
decode_timed b none = none
decode_timed b (some ms) = decode_fields b (some ms) 10

unfoldable pub decode_stream : List ℕ → Option Frame
decode_stream b =
    if has_field (byte_at b 1) 0x80
    then decode_timed b (
        device_calendar_ms (byte_at b 2) (byte_at b 3) (byte_at b 4) (byte_at b 5) (byte_at b 6)
          (byte_at b 7) (byte_at b 8) (byte_at b 9))
    else decode_fields b none 2

unfoldable pub register_values : List ℕ → List ℤ
register_values b =
    i16_at b 4
    ∷ i16_at b 6
    ∷ i16_at b 8
    ∷ i16_at b 10
    ∷ i16_at b 12
    ∷ i16_at b 14
    ∷ i16_at b 16
    ∷ i16_at b 18
    ∷ []

unfoldable pub decode : List ℕ → Option Frame
decode b =
    if byte_at b 1 == 0x71
    then some (registers (from_le_bytes (byte_at b 2) (byte_at b 3)) (register_values b))
    else if byte_at b 1 == 0x61
    then some (motion (triple b 2 16) (triple b 8 2000) (triple b 14 180))
    else decode_stream b
