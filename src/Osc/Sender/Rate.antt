-- ===== src/Osc/Sender/Rate.antt =====
-- The long run rate of the sender.
use Prim.Native.String.{String}
use pose_bridge.Prelude.{ℕ, ◌+◌, ◌*◌, ◌≤◌, ◌≡◌, Option, none, some, List, [], ◌∷◌}
use pose_bridge.Osc.{PoseSnapshot, Transmission, Codec}
use pose_bridge.Osc.Sender.{Sender, send_if_due}

-- One call of `send_if_due`.
pub record Call (F : Type 0) : Type 0 where
  pub pose : PoseSnapshot F
  pub source_id : String
  pub age_ns : ℕ
  pub now : ℕ
  pub socket : List ℕ → Transmission

-- The packets that were handed to the socket.
abbrev pub attempts : Sender → ℕ
attempts s = s.tx_seq + s.errors

-- The slot has moved on by an interval for each packet since `first`, and lies an interval after
-- `latest` at most.
abbrev IsPaced : ℕ → ℕ → ℕ → Sender → Type 0
IsPaced first latest interval s = (s.interval ≡ interval) × SlotIsPaced s.next_slot
  where
    SlotIsPaced : Option ℕ → Type 0
    SlotIsPaced none = attempts s ≡ 0
    SlotIsPaced (some slot) =
        (first + attempts s * s.interval ≤ slot) × (slot ≤ latest + s.interval)

-- The calls are made from `first` to `latest`.
abbrev pub Between : {F : Type 0} → ℕ → ℕ → List (Call F) → Type 0
Between first latest [] = Unit {0}
Between first latest (c ∷ cs) = (first ≤ c.now) × (c.now ≤ latest) × Between first latest cs

module _ {F G : Type 0} (codec : Codec F G) where
  unfoldable pub run : Sender → List (Call F) → Sender
  run s [] = s
  run s (c ∷ cs) = run (send_if_due codec s c.pose c.source_id c.age_ns c.now c.socket).0 cs
