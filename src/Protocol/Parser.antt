-- ===== src/Protocol/Parser.antt =====
-- `Parser` of crates/posebridge-core/src/protocol.rs: bytes in, frames out. Counters are unbounded.
pub mod Laws
pub mod Stops
pub mod RoundTrip
pub mod Reply
mod Examples
use pose_bridge.Prelude.{
  ℕ, zero, suc, ◌+◌, ◌-◌, Bool, Option, none, some, List, [], ◌∷◌, ◌++◌, ltb, ◌==◌, if◌then◌else◌,
  length, take, drop,
}
use pose_bridge.Protocol.Frame.{Frame, frame_length, decode}

pub record Parser : Type 0 where
  pub buffer : List ℕ
  pub discarded_bytes : ℕ
  pub invalid_frames : ℕ

-- `Parser::default()`.
abbrev pub default : Parser
default = record { buffer = []; discarded_bytes = 0; invalid_frames = 0 }

-- What one round of the `while` loop finds at the front of the buffer.
pub data Scan : Type 0 where
  -- the loop ends, by its test or by `break`
  wait : Scan
  -- no header: drop one byte
  skip : Scan
  -- a whole frame that does not decode: drop one byte
  reject : Scan
  -- a frame, and its length
  deliver : Frame → ℕ → Scan

unfoldable pub header_length : List ℕ → Option ℕ
header_length (b0 ∷ b1 ∷ _) = if b0 == 0x55 then frame_length b1 else none
header_length _ = none

abbrev pub decoded : ℕ → Option Frame → Scan
decoded n none = reject
decoded n (some f) = deliver f n

unfoldable pub scan_header : List ℕ → Option ℕ → Scan
scan_header buffer none = skip
scan_header buffer (some n) =
    if ltb (length buffer) n then wait else decoded n (decode (take n buffer))

unfoldable pub scan : List ℕ → Scan
scan buffer = if ltb (length buffer) 2 then wait else scan_header buffer (header_length buffer)

-- The `while` loop. Each round takes a byte at least, so the length of the buffer is enough fuel.
unfoldable pub drain : ℕ → Parser → Parser × List Frame
drain zero p = (p, [])
drain (suc fuel) p = elim (scan p.buffer) [
  | wait ↦ (p, [])
  | skip ↦
      drain fuel (record p { buffer = drop 1 p.buffer; discarded_bytes = p.discarded_bytes + 1 })
  | reject ↦ drain fuel (record {
    buffer = drop 1 p.buffer;
    discarded_bytes = p.discarded_bytes + 1;
    invalid_frames = p.invalid_frames + 1;
  })
  | deliver f n ↦ let (q, fs) = drain fuel (record p { buffer = drop n p.buffer }) in (q, f ∷ fs)
]

-- One byte: `push_back` and the loop.
unfoldable pub push_byte : Parser → ℕ → Parser × List Frame
push_byte p byte =
    let buffer = p.buffer ++ byte ∷ [] in drain (length buffer) (record p { buffer = buffer })

unfoldable pub push : Parser → List ℕ → Parser × List Frame
push p [] = (p, [])
push p (byte ∷ bytes) =
    let (q, fs) = push_byte p byte in let (r, gs) = push q bytes in (r, fs ++ gs)
