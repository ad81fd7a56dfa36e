-- ===== src/Protocol/Frame/Laws.antt =====
-- The lengths of frames, against the length that their header announces.
use pose_bridge.Prelude.{ℕ, ◌≤◌, ◌≡◌, Option, none, some, List, arith, unwrap_or}
use mathlib.Core.Path.{subst}
use pose_bridge.Protocol.Calendar.{device_calendar_ms}
use pose_bridge.Protocol.Frame.{
  Frame, motion, stream, registers, frame_length, byte_at, decode_fields, decode_timed,
  decode_stream, decode,
}

-- The bytes that a frame took on the wire.
abbrev pub wire_length : Frame → ℕ
wire_length (motion a g e) = 20
wire_length (stream s) = unwrap_or (frame_length s.profile) 0
wire_length (registers address values) = 20

pub frame_length_bounds : (flag : ℕ) {n : ℕ} → frame_length flag ≡ some n → (8 ≤ n) × (n ≤ 30)
unfolding frame_length
frame_length_bounds flag e = ground arith

abbrev IsProfile : ℕ → Option Frame → Type 0
IsProfile flag none = Unit {0}
IsProfile flag (some f) = wire_length f ≡ unwrap_or (frame_length flag) 0

decode_fields-IsProfile :
    (b : List ℕ) (t : Option ℕ) (offset : ℕ) → IsProfile (byte_at b 1) (decode_fields b t offset)
unfolding decode_fields
decode_fields-IsProfile b t offset = ground arith

decode_timed-IsProfile : (b : List ℕ) (t : Option ℕ) → IsProfile (byte_at b 1) (decode_timed b t)
unfolding decode_timed
decode_timed-IsProfile b none = tt
decode_timed-IsProfile b (some ms) = decode_fields-IsProfile b (some ms) 10

decode_stream-IsProfile : (b : List ℕ) → IsProfile (byte_at b 1) (decode_stream b)
unfolding decode_stream
decode_stream-IsProfile b = ground (
  arith,
  decode_fields-IsProfile b none 2,
  decode_timed-IsProfile b (
      device_calendar_ms (byte_at b 2) (byte_at b 3) (byte_at b 4) (byte_at b 5) (byte_at b 6)
        (byte_at b 7) (byte_at b 8) (byte_at b 9)),
)

decode-IsProfile : (b : List ℕ) → IsProfile (byte_at b 1) (decode b)
unfolding decode frame_length
decode-IsProfile b = ground (arith, decode_stream-IsProfile b)

-- A decoded frame takes the bytes that its header announces.
pub decode-wire_length :
    (b : List ℕ) {f : Frame} {n : ℕ}
    → decode b ≡ some f
    → frame_length (byte_at b 1) ≡ some n
    → wire_length f ≡ n
decode-wire_length b {f = f} e h =
    let p : IsProfile (byte_at b 1) (some f) =
      subst (IsProfile (byte_at b 1)) e (decode-IsProfile b) in
    rw h at p
