-- ===== src/Protocol/Parser/Reply.antt =====
-- Register replies: the twenty bytes that the device answers with, and what the parser makes of them.
use pose_bridge.Prelude.{ℕ, ◌/◌, ◌%◌, ◌<◌, ◌≡◌, refl, ◌∙◌, some, List, [], ◌∷◌, ◌++◌, arith, ap}
use pose_bridge.Prelude.Int.{ℤ}
use pose_bridge.Model.Command.{to_le_bytes}
use pose_bridge.Protocol.Calendar.{from_le_bytes}
use pose_bridge.Protocol.Frame.{registers, frame_length, to_i16, decode, register_values}
use pose_bridge.Protocol.Parser.{Parser, header_length, push}
use pose_bridge.Protocol.Parser.RoundTrip.{push-whole}

-- A reply with the address and eight words, each a u16 of two bytes.
abbrev pub reply : ℕ → ℕ → ℕ → ℕ → ℕ → ℕ → ℕ → ℕ → ℕ → List ℕ
reply address a b c d e f g h =
    0x55
    ∷ 0x71
    ∷ (to_le_bytes address
        ++ (to_le_bytes a
            ++ (to_le_bytes b
                ++ (to_le_bytes c
                    ++ (to_le_bytes d
                        ++ (to_le_bytes e
                            ++ (to_le_bytes f ++ (to_le_bytes g ++ to_le_bytes h))))))))

from-to_le_bytes : (n : ℕ) → n < 65536 → from_le_bytes (n % 256) (n / 256 % 256) ≡ n
from-to_le_bytes n h = omega arith

abbrev pub i16_list : ℕ → ℕ → ℕ → ℕ → ℕ → ℕ → ℕ → ℕ → List ℤ
i16_list a b c d e f g h =
    to_i16 a ∷ to_i16 b ∷ to_i16 c ∷ to_i16 d ∷ to_i16 e ∷ to_i16 f ∷ to_i16 g ∷ to_i16 h ∷ []

register_values-reply :
    (n a b c d e f g h : ℕ)
    → a < 65536
    → b < 65536
    → c < 65536
    → d < 65536
    → e < 65536
    → f < 65536
    → g < 65536
    → h < 65536
    → register_values (reply n a b c d e f g h) ≡ i16_list a b c d e f g h
unfolding register_values
register_values-reply n a b c d e f g h p q r s t u v w = λ k.
    to_i16 (from-to_le_bytes a p k)
    ∷ to_i16 (from-to_le_bytes b q k)
    ∷ to_i16 (from-to_le_bytes c r k)
    ∷ to_i16 (from-to_le_bytes d s k)
    ∷ to_i16 (from-to_le_bytes e t k)
    ∷ to_i16 (from-to_le_bytes f u k)
    ∷ to_i16 (from-to_le_bytes g v k)
    ∷ to_i16 (from-to_le_bytes h w k)
    ∷ []

decode-reply :
    (n a b c d e f g h : ℕ)
    → decode (reply n a b c d e f g h)
      ≡ some (
          registers
            (from_le_bytes (n % 256) (n / 256 % 256))
            (register_values (reply n a b c d e f g h)))
unfolding decode
decode-reply n a b c d e f g h = refl

-- A register reply is read back whole: a parser with an empty buffer turns its twenty bytes into one
-- register frame, with the address, and with the eight words as i16 values.
pub push-reply :
    (p : Parser) (n a b c d e f g h : ℕ)
    → p.buffer ≡ []
    → n < 65536
    → a < 65536
    → b < 65536
    → c < 65536
    → d < 65536
    → e < 65536
    → f < 65536
    → g < 65536
    → h < 65536
    → push p (reply n a b c d e f g h) ≡ (p, registers n (i16_list a b c d e f g h) ∷ [])
push-reply p n a b c d e f g h empty m j k l o q r s t =
    push-whole p (reply n a b c d e f g h) _ empty (record {
      header = unfold header_length frame_length in refl;
      decodes =
          decode-reply n a b c d e f g h
          ∙ rw (from-to_le_bytes n m) (
              ap (λ v. some (registers n v))
                (register_values-reply n a b c d e f g h j k l o q r s t));
    })
