-- ===== src/Protocol/Frame/Examples.antt =====
-- A frame of the euler profile, decoded.
use pose_bridge.Prelude.{ℕ, ◌≡◌, refl, some, List, [], ◌∷◌}
use pose_bridge.Prelude.Int.{pos, negsuc}
use pose_bridge.Protocol.Frame.{Frame, registers, to_i16, register_values, decode}

-- Register 0x2e: 1, -1, 0x7fff, -0x8000, 0, 0, 0, 2.
abbrev register_bytes : List ℕ
register_bytes =
    0x55 ∷ 0x71 ∷ 0x2e ∷ 0 ∷ 1 ∷ 0 ∷ 0xff ∷ 0xff ∷ 0xff ∷ 0x7f ∷ 0 ∷ 0x80 ∷ 0 ∷ 0 ∷ 0 ∷ 0 ∷ 0 ∷ 0
    ∷ 2 ∷ 0 ∷ []

abbrev register_frame : Frame
register_frame =
    registers 0x2e
      (pos 1 ∷ negsuc 0 ∷ pos 0x7fff ∷ negsuc 0x7fff ∷ pos 0 ∷ pos 0 ∷ pos 0 ∷ pos 2 ∷ [])

decode-register_bytes : decode register_bytes ≡ some register_frame
unfolding decode register_values to_i16
decode-register_bytes = refl
