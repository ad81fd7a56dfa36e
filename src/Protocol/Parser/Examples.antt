-- ===== src/Protocol/Parser/Examples.antt =====
-- A stream of noise, a frame and a half frame.
use pose_bridge.Prelude.{ℕ, ◌+◌, ◌≡◌, refl, List, [], ◌∷◌, ◌++◌, length}
use mathlib.Core.List.{flatten}
use pose_bridge.Protocol.Frame.{Frame, registers, frame_length, to_i16, register_values, decode}
use pose_bridge.Protocol.Parser.Stops.{drain-IsWaiting}
use pose_bridge.Protocol.Parser.{
  Parser, default, header_length, scan, scan_header, drain, push_byte, push,
}
use pose_bridge.Protocol.Parser.Laws.{total_length, IsWaiting, bytes_of, push-bytes_of}
use pose_bridge.Protocol.Parser.RoundTrip.{IsEncoding, push-flatten}
use pose_bridge.Protocol.Parser.Reply.{reply, i16_list}

abbrev frame_bytes : List ℕ
frame_bytes = reply 0x2e 1 2 3 4 5 6 7 0xffff

abbrev frame : Frame
frame = registers 0x2e (i16_list 1 2 3 4 5 6 7 0xffff)

abbrev noise : List ℕ
noise = 1 ∷ 0x55 ∷ 2 ∷ []

abbrev half : List ℕ
half = 0x55 ∷ 0x71 ∷ 0 ∷ []

push-noise : (push default (noise ++ (frame_bytes ++ half))).1 ≡ frame ∷ []
unfolding push push_byte drain scan scan_header header_length decode frame_length register_values
    to_i16
push-noise = refl

push-noise_discarded : (push default (noise ++ (frame_bytes ++ half))).0.discarded_bytes ≡ 3
unfolding push push_byte drain scan scan_header header_length decode frame_length register_values
    to_i16
push-noise_discarded = refl

push-bytes_of_example :
    bytes_of (push default (noise ++ (frame_bytes ++ half))).0
      + total_length (push default (noise ++ (frame_bytes ++ half))).1
    ≡ 0 + length (noise ++ (frame_bytes ++ half))
push-bytes_of_example = push-bytes_of default (noise ++ (frame_bytes ++ half))

frame-IsEncoding : IsEncoding frame_bytes frame
frame-IsEncoding = record {
  header = unfold header_length frame_length in refl;
  decodes = unfold decode register_values to_i16 in refl;
}

push-flatten_example :
    push default (flatten (frame_bytes ∷ frame_bytes ∷ [])) ≡ (default, frame ∷ frame ∷ [])
push-flatten_example =
    push-flatten default (frame_bytes ∷ frame_bytes ∷ []) (frame ∷ frame ∷ []) refl
      (frame-IsEncoding, (frame-IsEncoding, tt))

abbrev noisy : Parser
noisy = record default { buffer = noise ++ half }

drain-IsWaiting_example :
    IsWaiting (drain (length noisy.buffer) noisy).0
    × (drain (length noisy.buffer + 3) noisy ≡ drain (length noisy.buffer) noisy)
drain-IsWaiting_example = drain-IsWaiting noisy 3
