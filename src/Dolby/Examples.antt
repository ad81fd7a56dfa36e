-- ===== src/Dolby/Examples.antt =====
-- A sender that is recentered, sends, and meets another session. The numbers are naturals here.
use pose_bridge.Prelude.{ℕ, ◌≡◌, refl, true, none, List, [], ◌∷◌, is_some}
use mathlib.Core.Option
use pose_bridge.Naturals.{ops, codec}
use pose_bridge.Motion.{Quat}
use pose_bridge.Pose.{normalize, multiply}
use pose_bridge.Osc.{no_raw, PoseSnapshot, accepted, message, floats, send}
use pose_bridge.Dolby.{
  new, delivered, undelivered, after_send, send_if_due, send_adopted, adopt, clear_reference,
  set_reference, recenter, transmit, encode, ypr_from_physical, is_identity,
}
use pose_bridge.Dolby.Reference.{Event, recentering, sending, apply, run, taken, run-taken}

abbrev pose : ℕ → ℕ → PoseSnapshot ℕ
pose session n = record {
  instance_id = 1;
  reference_epoch = 1;
  metadata_revision = 1;
  session_id = session;
  sequence = n;
  received_ns = 0;
  age_ns = 0;
  sample_time = none;
  quaternion_xyzw = record { x = 0; y = 0; z = 0; w = 1 };
  euler_deg = record { x = 0; y = 0; z = 0 };
  raw = no_raw;
  fresh = true;
}

abbrev physical : Quat ℕ
physical = record { x = 3; y = 0; z = 0; w = 4 }

abbrev in_session : List (Event ℕ)
in_session =
    recentering (pose 1 5) physical
    ∷ sending (pose 1 5) physical 0 (λ packet. accepted 1)
    ∷ sending (pose 1 6) physical 20000000 (λ packet. accepted 1)
    ∷ []

-- The pose of the reference itself is held back.
run-in_session : (run ops codec (new 10000000) in_session).status.sent ≡ 1
unfolding run apply recenter send_if_due send_adopted adopt is_identity clear_reference
    set_reference after_send delivered undelivered transmit encode ypr_from_physical normalize
    multiply message floats send
run-in_session = refl

run-taken_example :
    let s = run ops codec (new 10000000) in_session in
    let found = taken ops codec none in_session in
    (s.reference ≡ Option.map (λ t. t.reference) found)
    × (s.reference_after ≡ Option.map (λ t. t.sequence) found)
    × (s.status.reference_set ≡ is_some found)
run-taken_example = run-taken ops codec 10000000 in_session
