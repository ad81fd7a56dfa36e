-- ===== src/Osc/Examples.antt =====
-- A sender of 100 Hz with four calls, and the laws there. The codec sends the sequence as a byte.

use pose_bridge.Prelude.{ℕ, ◌≡◌, refl, true, false, none, some, List, [], ◌∷◌, arith}
use pose_bridge.Model.{ok}
use pose_bridge.Osc.{
  no_raw, euler, PoseSnapshot, Transmission, accepted, would_block, Codec, encode,
  validate_source_id, message, longs, floats, send,
}
use pose_bridge.Model.Text.{validate_source_id}
use pose_bridge.Osc.Sender.{new, send_if_due, send_encoded, after_send, delivered, undelivered}
use pose_bridge.Osc.Sender.Rate.{Call, run}
use pose_bridge.Osc.Sender.Sequence.{IsCounted, run-IsCounted}

abbrev codec : Codec ℕ ℕ
codec = record {
  texts = record {
    is_blank = λ s. false;
    byte_length = λ s. 6;
    has_control = λ s. false;
    join = λ s t. t;
  };
  to_f32 = λ v. some v;
  rosc_encode = λ address args. ok (1 ∷ []);
}

abbrev pose : ℕ → PoseSnapshot ℕ
pose n = record {
  instance_id = 1;
  reference_epoch = 1;
  metadata_revision = 1;
  session_id = 1;
  sequence = n;
  received_ns = 0;
  age_ns = 0;
  sample_time = none;
  quaternion_xyzw = record { x = 0; y = 0; z = 0; w = 1 };
  euler_deg = record { x = 0; y = 0; z = 0 };
  raw = no_raw;
  fresh = true;
}

abbrev call : ℕ → ℕ → Transmission → Call ℕ
call n now answer = record {
  pose = pose n;
  source_id = "sensor";
  age_ns = 0;
  now = now;
  socket = λ packet. answer;
}

-- The first pose is sent, the second comes too early, the third is dropped and the fourth sent.
abbrev calls : List (Call ℕ)
calls =
    call 1 0 (accepted 1)
    ∷ call 2 5000000 (accepted 1)
    ∷ call 3 12000000 would_block
    ∷ call 4 25000000 (accepted 1)
    ∷ []

run-calls-coalesced : (run codec (new euler 10000000) calls).coalesced ≡ 2
unfolding run send_if_due send_encoded after_send delivered undelivered encode validate_source_id
    message longs floats send
run-calls-coalesced = refl

run-IsCounted_example : IsCounted 1 4 (run codec (new euler 10000000) calls)
run-IsCounted_example =
    run-IsCounted codec 1 0 (new euler 10000000) calls refl
      (refl, omega arith, (refl, omega arith, (refl, omega arith, (refl, omega arith, tt))))
