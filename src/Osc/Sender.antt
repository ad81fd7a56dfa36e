-- ===== src/Osc/Sender.antt =====
-- `Sender` of crates/posebridge-core/src/osc.rs: one packet for a pose at most, and no more packets
-- than its interval allows. Each call brings the socket's answer to a packet.
pub mod Rate
pub mod Sequence
use Prim.Native.String.{String}
use pose_bridge.Prelude.{
  ℕ, ◌+◌, ◌-◌, Bool, true, false, not, ◌&&◌, ◌||◌, Option, none, some, List, ltb, ◌==◌,
  if◌then◌else◌,
}
use pose_bridge.Model.{Error, Result, ok, err}
use pose_bridge.Osc.{OscFormat, PoseSnapshot, Transmission, Codec, encode, send}

pub record Sender : Type 0 where
  pub format : OscFormat
  pub last_key : Option (ℕ × ℕ)
  pub interval : ℕ
  pub next_slot : Option ℕ
  pub pending_deadline : Option ℕ
  pub tx_seq : ℕ
  pub coalesced : ℕ
  pub errors : ℕ

-- `Sender::new`, with the interval that belongs to the rate of the configuration.
abbrev pub new : OscFormat → ℕ → Sender
new format interval = record {
  format = format;
  last_key = none;
  interval = interval;
  next_slot = none;
  pending_deadline = none;
  tx_seq = 0;
  coalesced = 0;
  errors = 0;
}

unfoldable pub clear_pending : Sender → Sender
clear_pending s = record s { pending_deadline = none }

-- `self.last_key == Some(key)`.
abbrev pub is_last : Option (ℕ × ℕ) → ℕ × ℕ → Bool
is_last none key = false
is_last (some (session, sequence)) (session', sequence') =
    session == session' && sequence == sequence'

-- The slot lies ahead.
abbrev pub is_early : Option ℕ → ℕ → Bool
is_early none now = false
is_early (some slot) now = ltb now slot

-- The sequence of the packet before, in the same session.
abbrev pub previous : Option (ℕ × ℕ) → ℕ → ℕ
previous none session' = 0
previous (some (session, sequence)) session' = if session == session' then sequence else 0

-- The slot after a delivered packet: one interval on, or from now where that has passed.
abbrev pub slot_after : Option ℕ → ℕ → ℕ → ℕ
slot_after none interval now = now + interval
slot_after (some slot) interval now =
    if ltb now (slot + interval) then slot + interval else now + interval

-- A packet that was delivered.
unfoldable pub delivered : Sender → ℕ × ℕ → ℕ → Sender
delivered s (session, sequence) now = record s {
  tx_seq = s.tx_seq + 1;
  coalesced = s.coalesced + (sequence - previous s.last_key session - 1);
  last_key = some (session, sequence);
  next_slot = some (slot_after s.next_slot s.interval now);
  pending_deadline = none;
}

-- A packet that was dropped or failed.
unfoldable pub undelivered : Sender → ℕ → Sender
undelivered s now = record s {
  errors = s.errors + 1;
  next_slot = some (now + s.interval);
  pending_deadline = some (now + s.interval);
}

unfoldable pub after_send : Sender → ℕ × ℕ → ℕ → Result Bool → Sender × Result Bool
after_send s key now (ok true) = (delivered s key now, ok true)
after_send s key now (ok false) = (undelivered s now, ok false)
after_send s key now (err e) = (undelivered s now, err e)

unfoldable pub send_encoded :
    Sender → ℕ × ℕ → ℕ → (List ℕ → Transmission) → Result (List ℕ) → Sender × Result Bool
send_encoded s key now socket (err e) = (s, err e)
send_encoded s key now socket (ok packet) = after_send s key now (send socket packet)

module _ {F G : Type 0} (codec : Codec F G) where
  unfoldable pub send_if_due :
      Sender → PoseSnapshot F → String → ℕ → ℕ → (List ℕ → Transmission) → Sender × Result Bool
  send_if_due s pose source_id age_ns now socket =
      if not pose.fresh || is_last s.last_key (pose.session_id, pose.sequence)
      then (clear_pending s, ok false)
      else if is_early s.next_slot now
      then (record s { pending_deadline = s.next_slot }, ok false)
      else send_encoded s (pose.session_id, pose.sequence) now socket
          (encode codec pose s.format source_id (s.tx_seq + 1) age_ns)
