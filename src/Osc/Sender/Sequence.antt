-- ===== src/Osc/Sender/Sequence.antt =====
-- The numbers of the sender in one session.
use Prim.Native.String.{String}
use pose_bridge.Prelude.{
  ℕ, ◌+◌, ◌<◌, ◌≤◌, ◌≡◌, refl, Bool, true, false, Option, none, some, List, [], ◌∷◌, arith,
}
use pose_bridge.Model.{Result, ok, err}
use pose_bridge.Osc.{OscFormat, PoseSnapshot, Transmission, Codec, encode, send}
use pose_bridge.Osc.Sender.{
  Sender, clear_pending, delivered, undelivered, after_send, send_encoded, send_if_due, is_last,
}
use pose_bridge.Osc.Sender.Rate.{Call, run}

-- Packets and skipped poses add up to the sequence of the last packet of the session.
abbrev KeyIsCounted : ℕ → Option (ℕ × ℕ) → ℕ → ℕ → Type 0
KeyIsCounted session none n latest = n ≡ 0
KeyIsCounted session (some (session', sequence)) n latest =
    (session' ≡ session) × (n ≡ sequence) × (sequence ≤ latest)

abbrev pub IsCounted : ℕ → ℕ → Sender → Type 0
IsCounted session latest s = KeyIsCounted session s.last_key (s.tx_seq + s.coalesced) latest

-- The calls bring the poses of one session, and no earlier pose after a later one.
abbrev pub IsOneSession : {F : Type 0} → ℕ → ℕ → List (Call F) → Type 0
IsOneSession session latest [] = Unit {0}
IsOneSession session latest (c ∷ cs) =
    (c.pose.session_id ≡ session)
    × (latest ≤ c.pose.sequence)
    × IsOneSession session c.pose.sequence cs

abbrev pub last_sequence : {F : Type 0} → ℕ → List (Call F) → ℕ
last_sequence latest [] = latest
last_sequence latest (c ∷ cs) = last_sequence c.pose.sequence cs

after_send-IsCounted :
    (session latest sequence now : ℕ) (s : Sender) (r : Result Bool)
    → IsCounted session latest s
    → latest ≤ sequence
    → 0 < sequence
    → is_last s.last_key (session, sequence) ≡ false
    → IsCounted session sequence (after_send s (session, sequence) now r).0
unfolding after_send delivered undelivered
after_send-IsCounted session latest sequence now s (ok true) c h k e = ground arith
after_send-IsCounted session latest sequence now s (ok false) c h k e = ground arith
after_send-IsCounted session latest sequence now s (err x) c h k e = ground arith

module _ {F G : Type 0} (codec : Codec F G) where
  encode-sequence :
      (p : PoseSnapshot F) (format : OscFormat) (source_id : String) (tx_seq age_ns : ℕ)
      {packet : List ℕ}
      → encode codec p format source_id tx_seq age_ns ≡ ok packet
      → 0 < p.sequence
  unfolding encode
  encode-sequence p format source_id tx_seq age_ns h = ground arith

  send_encoded-IsCounted :
      (session latest now tx_seq age_ns : ℕ) (s : Sender) (p : PoseSnapshot F) (format : OscFormat)
      (source_id : String) (socket : List ℕ → Transmission) (r : Result (List ℕ))
      → encode codec p format source_id tx_seq age_ns ≡ r
      → IsCounted session latest s
      → latest ≤ p.sequence
      → is_last s.last_key (session, p.sequence) ≡ false
      → IsCounted session p.sequence (send_encoded s (session, p.sequence) now socket r).0
  unfolding send_encoded
  send_encoded-IsCounted session latest now tx_seq age_ns s p format source_id socket (ok packet) e
        c h k =
      after_send-IsCounted session latest p.sequence now s (send socket packet) c h
        (encode-sequence p format source_id tx_seq age_ns e) k
  send_encoded-IsCounted session latest now tx_seq age_ns s p format source_id socket (err x) e c h
        k =
      ground arith

  send_if_due-IsCounted :
      (session latest : ℕ) (s : Sender) (c : Call F)
      → IsCounted session latest s
      → c.pose.session_id ≡ session
      → latest ≤ c.pose.sequence
      → IsCounted session c.pose.sequence
          (send_if_due codec s c.pose c.source_id c.age_ns c.now c.socket).0
  unfolding send_if_due clear_pending
  send_if_due-IsCounted session latest s c v e h = ground (
    arith,
    send_encoded-IsCounted session latest c.now (s.tx_seq + 1) c.age_ns s c.pose s.format
        c.source_id c.socket (encode codec c.pose s.format c.source_id (s.tx_seq + 1) c.age_ns)
        refl,
  )

  -- In one session whose poses come in order, packets are unique and complete in number: after any
  -- calls, whatever failed, the delivered packets and the poses counted as skipped add up to the
  -- sequence of the last pose that was delivered, or to 0 before the first.
  pub run-IsCounted :
      (session latest : ℕ) (s : Sender) (cs : List (Call F))
      → IsCounted session latest s
      → IsOneSession session latest cs
      → IsCounted session (last_sequence latest cs) (run codec s cs)
  unfolding run
  run-IsCounted session latest s [] v o = v
  run-IsCounted session latest s (c ∷ cs) v o =
      run-IsCounted session c.pose.sequence _ cs
        (send_if_due-IsCounted session latest s c v o.0 o.1) o.2
