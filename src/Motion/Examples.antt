-- ===== src/Motion/Examples.antt =====
-- A history of two records, and the laws there. The numbers of the samples are naturals here.
use pose_bridge.Prelude.{ℕ, suc, ◌+◌, ◌≡◌, refl, true, false, none, some, [], ◌∷◌, length, arith}
use pose_bridge.Motion.{MotionCursor, MotionSample, History, native_quaternion, since, overrun_of}
use pose_bridge.Motion.Invariant.{IsHistory}
use pose_bridge.Motion.Laws.{Numbered, since-Numbered}

abbrev cursor : ℕ → MotionCursor
cursor n = record { instance_id = 7; session_id = 2; sequence = n }

abbrev sample : ℕ → MotionSample ℕ
sample n = record {
  source_id = "sensor";
  cursor = cursor n;
  reference_epoch = 0;
  metadata_revision = 0;
  delivery_id = 0;
  received_ns = 0;
  age_ns = 0;
  fresh = true;
  sample_time = none;
  orientation_xyzw = record { x = 0; y = 0; z = 0; w = 1 };
  euler_deg = record { x = 0; y = 0; z = 0 };
  angular_velocity_rad_s = none;
  acceleration_g = none;
  orientation_source = native_quaternion;
  profile = 0x61;
}

abbrev two_records : History ℕ
two_records = record { records = (1000, sample 5) ∷ (2000, sample 6) ∷ []; delivery = 0 }

abbrev two_records-IsHistory : IsHistory 7 2 6 two_records
two_records-IsHistory = record {
  first = 5;
  first_pos = omega arith;
  numbered = (refl, (refl, tt));
  owned = (refl, refl, (refl, refl, tt));
  reaches = refl;
  bounded = omega arith;
}

-- A consumer that has seen record 2 misses records 3 and 4.
two_records-overrun : (since two_records (some (cursor 2)) 3000 true).history_overrun ≡ 2
unfolding since overrun_of
two_records-overrun = refl

since-Numbered_example :
    let b = since two_records (some (cursor 2)) 3000 true in
    (b.reset ≡ false)
    × (b.cursor ≡ some (cursor 6))
    × Numbered (suc (2 + b.history_overrun)) b.samples
    × (2 + b.history_overrun + length b.samples ≡ 6)
since-Numbered_example =
    since-Numbered 7 2 6 2 3000 two_records true two_records-IsHistory (omega arith) (omega arith)
      (omega arith)
