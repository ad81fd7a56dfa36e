-- ===== src/Dolby.antt =====
-- crates/posebridge-core/src/dolby.rs: the head tracker output, relative to a reference that belongs to
-- one identity of a stream. The texts of errors are left out.
pub mod Reference
mod Examples
use Prim.Native.String.{String}
use pose_bridge.Prelude.{
  ℕ, ◌+◌, ◌-◌, Bool, true, false, not, ◌&&◌, ◌||◌, Option, none, some, List, [], ◌∷◌, ◌==◌, leb,
  if◌then◌else◌, is_some_and,
}
use pose_bridge.Model.{Error, Result, ok, err, io, ◌>>=◌}
use pose_bridge.Motion.{Vec3, Quat}
use pose_bridge.Pose.{FloatOps, normalize, multiply, conjugate}
use pose_bridge.Osc.{PoseSnapshot, Transmission, Codec, OscType, floats, message, send}
use pose_bridge.Osc.Sender.{is_last, is_early, previous, slot_after}

abbrev pub address : String
address = "/ypr"

-- Instance, session and reference epoch.
pub record Identity : Type 0 where
  pub instance_id : ℕ
  pub session_id : ℕ
  pub reference_epoch : ℕ

abbrev pub identity_of : {F : Type 0} → PoseSnapshot F → Identity
identity_of p = record {
  instance_id = p.instance_id;
  session_id = p.session_id;
  reference_epoch = p.reference_epoch;
}

-- `self.identity == Some(identity)`.
unfoldable pub is_identity : Option Identity → Identity → Bool
is_identity none b = false
is_identity (some a) b =
    a.instance_id == b.instance_id
    && (a.session_id == b.session_id && a.reference_epoch == b.reference_epoch)

pub record DolbyOscStatus (F : Type 0) : Type 0 where
  pub active : Bool
  pub sent : ℕ
  pub coalesced_samples : ℕ
  pub send_errors : ℕ
  pub reference_set : Bool
  pub last_ypr_deg : Option (Vec3 F)
  pub last_error : Option Error

pub record Sender (F : Type 0) : Type 0 where
  pub interval : ℕ
  pub next_slot : Option ℕ
  pub pending : Option ℕ
  pub last_key : Option (ℕ × ℕ)
  pub identity : Option Identity
  pub reference : Option (Quat F)
  pub reference_after : Option ℕ
  pub status : DolbyOscStatus F

module _ {F : Type 0} where
  abbrev pub new : ℕ → Sender F
  new interval = record {
    interval = interval;
    next_slot = none;
    pending = none;
    last_key = none;
    identity = none;
    reference = none;
    reference_after = none;
    status = record {
      active = true;
      sent = 0;
      coalesced_samples = 0;
      send_errors = 0;
      reference_set = false;
      last_ypr_deg = none;
      last_error = none;
    };
  }

  unfoldable pub clear_reference : Sender F → Sender F
  clear_reference s = record s {
    reference = none;
    reference_after = none;
    status = record (s.status) { reference_set = false; last_ypr_deg = none };
    pending = none;
  }

  -- The first lines of `send_if_due`.
  unfoldable pub adopt : Sender F → Identity → Sender F
  adopt s identity =
      if is_identity s.identity identity
      then s
      else record (clear_reference s) { identity = some identity }

  -- The reference that `recenter` takes.
  unfoldable pub set_reference : Sender F → PoseSnapshot F → Quat F → Sender F
  set_reference s pose reference = record s {
    identity = some (identity_of pose);
    reference = some reference;
    reference_after = some pose.sequence;
    status = record (s.status) { reference_set = true; last_ypr_deg = none };
    pending = none;
  }

  abbrev pub recentered : Sender F → PoseSnapshot F → Result (Quat F) → Sender F × Result (Unit {0})
  recentered s pose (ok reference) = (set_reference s pose reference, ok tt)
  recentered s pose (err e) = (s, err e)

  unfoldable pub delivered : Sender F → ℕ × ℕ → ℕ → Vec3 F → Sender F
  delivered s (session, sequence) now ypr = record s {
    status = record (s.status) {
      sent = s.status.sent + 1;
      coalesced_samples = s.status.coalesced_samples + (sequence - previous s.last_key session - 1);
      last_ypr_deg = some ypr;
      last_error = none;
    };
    last_key = some (session, sequence);
    next_slot = some (slot_after s.next_slot s.interval now);
    pending = none;
  }

  unfoldable pub undelivered : Sender F → ℕ → Error → Sender F
  undelivered s now error = record s {
    status = record (s.status) { send_errors = s.status.send_errors + 1; last_error = some error };
    next_slot = some (now + s.interval);
    pending = some (now + s.interval);
  }

  -- The `match result` of `send_if_due`.
  unfoldable pub after_send : Sender F → ℕ × ℕ → ℕ → Result (Bool × Vec3 F) → Sender F
  after_send s key now (ok (true, ypr)) = delivered s key now ypr
  after_send s key now (ok (false, ypr)) = undelivered s now io
  after_send s key now (err e) = undelivered s now e

  -- The pose is old, known, or from before the reference.
  abbrev pub is_skipped : Sender F → PoseSnapshot F → Bool
  is_skipped s pose =
      not pose.fresh
      || (is_last s.last_key (pose.session_id, pose.sequence)
          || is_some_and s.reference_after (λ sequence. leb pose.sequence sequence))

module _ {F G : Type 0} (ops : FloatOps F) (codec : Codec F G) where
  -- The three angles.
  abbrev angles : Quat F → F → Vec3 F
  angles q sine =
      let twice = λ (v : F). ops.mul ops.two v in
      let rest = λ (v : F) (u : F). ops.sub ops.one (twice (ops.add (ops.mul v v) (ops.mul u u))) in
      if ops.le (ops.sub ops.one ops.pico) (ops.abs sine)
      then record {
        x =
            ops.to_degrees
              (ops.atan2 (twice (ops.sub (ops.mul q.w q.z) (ops.mul q.x q.y))) (rest q.y q.z));
        y = ops.to_degrees (ops.asin sine);
        z = ops.to_degrees ops.zero;
      }
      else record {
        x =
            ops.to_degrees
              (ops.atan2 (twice (ops.add (ops.mul q.x q.y) (ops.mul q.w q.z))) (rest q.x q.z));
        y = ops.to_degrees (ops.asin sine);
        z =
            ops.to_degrees
              (ops.atan2 (twice (ops.add (ops.mul q.x q.z) (ops.mul q.w q.y))) (rest q.x q.y));
      }

  unfoldable pub ypr_from_physical : Quat F → Result (Vec3 F)
  ypr_from_physical physical = do
    q ← normalize ops physical
    ok (angles q (ops.clamp (ops.mul ops.two (ops.sub (ops.mul q.w q.x) (ops.mul q.y q.z)))))

  unfoldable pub encode : Vec3 F → Result (List ℕ)
  encode ypr = do values ← floats codec (ypr.x ∷ ypr.y ∷ ypr.z ∷ []); message codec address values

  abbrev relative : Option (Quat F) → Quat F → Quat F
  relative none physical = physical
  relative (some reference) physical = multiply ops (conjugate ops reference) physical

  -- The closure of `send_if_due`.
  unfoldable pub transmit :
      Option (Quat F) → Quat F → (List ℕ → Transmission) → Result (Bool × Vec3 F)
  transmit reference physical socket = do
    ypr ← ypr_from_physical (relative reference physical)
    packet ← encode ypr
    accepted ← send socket packet
    ok (accepted, ypr)

  unfoldable pub recenter : Sender F → PoseSnapshot F → Quat F → Sender F × Result (Unit {0})
  recenter s pose physical = recentered s pose (normalize ops physical)

  -- `send_if_due`, from the sender with the identity of the pose.
  unfoldable pub send_adopted :
      Sender F → PoseSnapshot F → Quat F → ℕ → (List ℕ → Transmission) → Sender F
  send_adopted s pose physical now socket =
      if is_skipped s pose
      then record s { pending = none }
      else if is_early s.next_slot now
      then record s { pending = s.next_slot }
      else after_send s (pose.session_id, pose.sequence) now (transmit s.reference physical socket)

  unfoldable pub send_if_due :
      Sender F → PoseSnapshot F → Quat F → ℕ → (List ℕ → Transmission) → Sender F
  send_if_due s pose physical now socket =
      send_adopted (adopt s (identity_of pose)) pose physical now socket
