-- ===== src/Dolby/Reference.antt =====
-- The reference of the head tracker output.
use pose_bridge.Prelude.{
  ℕ, ◌≡◌, refl, Bool, true, false, Option, none, some, List, [], ◌∷◌, arith, is_some, if◌then◌else◌,
}
use mathlib.Core.Option
use pose_bridge.Model.{Result, ok, err}
use pose_bridge.Motion.{Vec3, Quat}
use pose_bridge.Pose.{FloatOps, normalize}
use pose_bridge.Osc.{PoseSnapshot, Transmission, Codec}
use pose_bridge.Dolby.{
  Identity, identity_of, is_identity, Sender, new, clear_reference, adopt, set_reference,
  recentered, delivered, undelivered, after_send, recenter, send_adopted, send_if_due, transmit,
}

-- What happens to a sender.
pub data Event (F : Type 0) : Type 0 where
  recentering : PoseSnapshot F → Quat F → Event F
  clearing : Event F
  sending : PoseSnapshot F → Quat F → ℕ → (List ℕ → Transmission) → Event F

-- A reference with the identity and the sequence it was taken at.
pub record Taken (F : Type 0) : Type 0 where
  pub identity : Identity
  pub sequence : ℕ
  pub reference : Quat F

module _ {F : Type 0} where
  abbrev pub taken_by : Option (Taken F) → PoseSnapshot F → Result (Quat F) → Option (Taken F)
  taken_by before p (ok q) =
      some (record { identity = identity_of p; sequence = p.sequence; reference = q })
  taken_by before p (err e) = before

  -- A pose of another identity ends the reference.
  abbrev pub keep_for : Identity → Option (Taken F) → Option (Taken F)
  keep_for identity none = none
  keep_for identity (some t) = if is_identity (some t.identity) identity then some t else none

  abbrev IsOfIdentity : Option Identity → Option (Taken F) → Type 0
  IsOfIdentity identity none = Unit {0}
  IsOfIdentity identity (some t) = identity ≡ some t.identity

  record IsReference (s : Sender F) (found : Option (Taken F)) : Type 0 where
    reference_lem : s.reference ≡ Option.map (λ t. t.reference) found
    after_lem : s.reference_after ≡ Option.map (λ t. t.sequence) found
    set_lem : s.status.reference_set ≡ is_some found
    identity_lem : IsOfIdentity s.identity found

  adopt-IsReference :
      (s : Sender F) (found : Option (Taken F)) (identity : Identity)
      → IsReference s found
      → IsReference (adopt s identity) (keep_for identity found)
  unfolding adopt clear_reference
  adopt-IsReference s none identity r = ground arith
  adopt-IsReference s (some t) identity r = ground arith

  after_send-IsReference :
      (s : Sender F) (found : Option (Taken F)) (key : ℕ × ℕ) (now : ℕ) (r : Result (Bool × Vec3 F))
      → IsReference s found
      → IsReference (after_send s key now r) found
  unfolding after_send delivered undelivered
  after_send-IsReference s found (a, b) now (ok (true, ypr)) r = ground arith
  after_send-IsReference s found key now (ok (false, ypr)) r = ground arith
  after_send-IsReference s found key now (err e) r = ground arith

  recentered-IsReference :
      (s : Sender F) (found : Option (Taken F)) (p : PoseSnapshot F) (r : Result (Quat F))
      → IsReference s found
      → IsReference (recentered s p r).0 (taken_by found p r)
  unfolding set_reference
  recentered-IsReference s found p (ok q) v = ground arith
  recentered-IsReference s found p (err e) v = v

  clear_reference-IsReference : (s : Sender F) → IsReference (clear_reference s) none
  unfolding clear_reference
  clear_reference-IsReference s = ground arith

module _ {F G : Type 0} (ops : FloatOps F) (codec : Codec F G) where
  unfoldable pub apply : Sender F → Event F → Sender F
  apply s (recentering p physical) = (recenter ops codec s p physical).0
  apply s clearing = clear_reference s
  apply s (sending p physical now socket) = send_if_due ops codec s p physical now socket

  unfoldable pub run : Sender F → List (Event F) → Sender F
  run s [] = s
  run s (e ∷ es) = run (apply s e) es

  abbrev pub taken_at : Option (Taken F) → Event F → Option (Taken F)
  taken_at found (recentering p physical) = taken_by found p (normalize ops physical)
  taken_at found clearing = none
  taken_at found (sending p physical now socket) = keep_for (identity_of p) found

  -- The reference in force: the last one taken, unless it was cleared since or another identity came.
  abbrev pub taken : Option (Taken F) → List (Event F) → Option (Taken F)
  taken found [] = found
  taken found (e ∷ es) = taken (taken_at found e) es

  send_adopted-IsReference :
      (s : Sender F) (found : Option (Taken F)) (p : PoseSnapshot F) (physical : Quat F) (now : ℕ)
      (socket : List ℕ → Transmission)
      → IsReference s found
      → IsReference (send_adopted ops codec s p physical now socket) found
  unfolding send_adopted
  send_adopted-IsReference s found p physical now socket r = ground (
    arith,
    after_send-IsReference s found (p.session_id, p.sequence) now
        (transmit ops codec s.reference physical socket) r,
  )

  apply-IsReference :
      (s : Sender F) (found : Option (Taken F)) (e : Event F)
      → IsReference s found
      → IsReference (apply s e) (taken_at found e)
  unfolding apply recenter send_if_due
  apply-IsReference s found (recentering p physical) r =
      recentered-IsReference s found p (normalize ops physical) r
  apply-IsReference s found clearing r = clear_reference-IsReference s
  apply-IsReference s found (sending p physical now socket) r =
      send_adopted-IsReference _ _ p physical now socket
        (adopt-IsReference s found (identity_of p) r)

  run-IsReference :
      (s : Sender F) (found : Option (Taken F)) (es : List (Event F))
      → IsReference s found
      → IsReference (run s es) (taken found es)
  unfolding run
  run-IsReference s found [] r = r
  run-IsReference s found (e ∷ es) r =
      run-IsReference (apply s e) (taken_at found e) es (apply-IsReference s found e r)

  -- After any events, whatever was sent or failed, the sender's reference is the one that was taken
  -- last, and none if it was cleared since or a pose of another instance, session or reference epoch
  -- came; the sequence it holds poses back to is that reference's, and its status says whether one is
  -- set.
  pub run-taken :
      (interval : ℕ) (es : List (Event F))
      → let s = run (new interval) es in
        let found = taken none es in
        (s.reference ≡ Option.map (λ t. t.reference) found)
        × (s.reference_after ≡ Option.map (λ t. t.sequence) found)
        × (s.status.reference_set ≡ is_some found)
  run-taken interval es =
      let r =
        run-IsReference (new interval) none es
          (record { reference_lem = refl; after_lem = refl; set_lem = refl; identity_lem = tt }) in
      (r.reference_lem, r.after_lem, r.set_lem)
