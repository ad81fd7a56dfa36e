-- ===== src/Sweeps/Examples.antt =====
-- A session whose one batch holds a reading of the field.
use pose_bridge.Prelude.{ℕ, ◌≡◌, refl, true, false, none, some, [], ◌∷◌, length}
use pose_bridge.Prelude.Int.{pos, ◌-ℤ◌, ◌*ℤ◌}
use pose_bridge.Naturals.{ops}
use pose_bridge.Motion.{Vec3}
use pose_bridge.Magnetic.{Counts, Scale, MagneticSample, MagneticBatch, MagneticCursor, calibrating}
use pose_bridge.Client.{Device, ble, new_device}
use pose_bridge.Coverage.{Coverage, proper, cross, unit, push, headset_axes}
use pose_bridge.Sweeps.{
  Run, clear, absorb, absorb_all, absorb_batch, absorb_sample, sweep_of, new_sweeps, new_run,
  reading,
}
use pose_bridge.Sweeps.Kept.{AllKept, absorb_batches, absorb_batches-AllKept}

abbrev headset : Device
headset = record (new_device ble "a" "Headset") {
  mounting = record { right = pos 1; forward = pos 2; up = pos 3 };
}

abbrev microtesla_of : Counts × Scale → Vec3 ℕ
microtesla_of field = record { x = 1; y = 2; z = 3 }

abbrev drawing : Coverage ℕ → ℕ
drawing c = length c.readings

abbrev opened : Run ℕ ℕ
opened = record {
  device = headset;
  cursor = none;
  sweeps = new_sweeps headset.mounting;
  drawn = record { before = 0; during = 0; after = 0 };
  overrun = 0;
  end_verified = false;
}

abbrev counts : Counts
counts = record { x = pos 5; y = pos 3; z = pos 1 }

abbrev cursor : MagneticCursor
cursor = record { instance_id = 1; session_id = 2; sequence = 1 }

abbrev sample : MagneticSample
sample = record {
  cursor = cursor;
  window_id = 1;
  phase = calibrating;
  register_xyz = counts;
  field_ut = none;
  received_ns = 1000;
  age_ns = 0;
  fresh = true;
}

abbrev batch : MagneticBatch
batch = record {
  schema = 1;
  source_id = "source";
  instance_id = 1;
  session_id = 2;
  cursor = some cursor;
  reset = true;
  history_overrun = 0;
  active = true;
  phase = calibrating;
  sensor_type = none;
  scale_ut_per_count = none;
  type_error = none;
  calsw = none;
  calsw_age_ns = none;
  device_may_be_calibrating = true;
  latest = some sample;
  samples = sample ∷ [];
  statistics = record {
    window_id = 1;
    sample_count = 1;
    elapsed_ns = 0;
    frozen = false;
    actual_rate = none;
    minimum_counts = some counts;
    maximum_counts = some counts;
    span_counts = none;
  };
  operation = none;
  cleanup = none;
  last_error = none;
}

new_run-headset : new_run ops microtesla_of drawing headset ≡ some opened
unfolding new_run proper cross unit ◌-ℤ◌ ◌*ℤ◌
new_run-headset = refl

keeps_reading :
    length
      (absorb_batches ops microtesla_of drawing (batch ∷ []) opened).sweeps.held.during.readings
    ≡ 1
unfolding clear absorb_batches absorb_batch absorb absorb_all absorb_sample sweep_of reading
    headset_axes push proper cross unit ◌-ℤ◌ ◌*ℤ◌
keeps_reading = refl

absorb_batches-AllKept_example :
    AllKept ops (absorb_batches ops microtesla_of drawing (batch ∷ []) opened).sweeps.held
absorb_batches-AllKept_example =
    absorb_batches-AllKept ops microtesla_of drawing headset opened (batch ∷ []) new_run-headset
