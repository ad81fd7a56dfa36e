-- ===== src/Configuration/Examples.antt =====
-- A submission that changes the rate and the output format.
use pose_bridge.Prelude.{ℕ, ◌≡◌, refl, true, false, none, some, List, [], ◌∷◌, length}
use pose_bridge.Model.Command.{
  experimental_full_inertial_20hz, motion, nine_axis, motion, rate, output,
}
use pose_bridge.Model.Observation.{DeviceObservation, no_observation, new_operation, succeeded}
use pose_bridge.Configuration.{
  Settings, ok, Write, validate, profile, differences, observed, observed_rate, is_supported_rate,
  writes,
}
use pose_bridge.Configuration.Writes.{Returns, perform_all, writes-perform_all}
use pose_bridge.Configuration.Apply.{Apply, before, advance, new, write, inspect, done}
use pose_bridge.Configuration.Apply.Laws.{Answers, advance-Answers}
use pose_bridge.Configuration.Apply.Runs.{Input, run, run_complete}

abbrev current : Settings
current = record { rate_hz = 100; format = 0x61; six_axis_mode = false }

abbrev target : Settings
target = record { rate_hz = 20; format = 0xe4; six_axis_mode = false }

-- A device at 100 Hz with the format 0x61.
abbrev device : ℕ → ℕ → DeviceObservation
device rate_register output_register = record no_observation {
  valid = true;
  calsw = some 0;
  rate_register = some rate_register;
  output_register = some output_register;
  algorithm = some nine_axis;
}

abbrev verified : Input
verified = (
  device 9 0x61,
  some (record (new_operation 1 "Rate") { outcome = succeeded; register_verified = true }),
)

abbrev changes : List Write
changes = ("Sample rate", rate 20) ∷ ("Output format", output experimental_full_inertial_20hz) ∷ []

-- The rate comes before full inertial output, which wants 20 Hz.
writes_target : writes target current ≡ ok changes
unfolding writes validate profile is_supported_rate
writes_target = refl

writes-perform_all_example :
    Returns
      (writes target current)
      (λ ws. (perform_all current ws ≡ some target) × (length ws ≡ differences target current))
writes-perform_all_example =
    writes-perform_all target current {q = motion}
      (unfold validate profile is_supported_rate in refl) (unfold profile in refl)

abbrev submission : Apply
submission = record {
  expected = current;
  progress = record {
    target = target;
    verified = [];
    step = "Reading current settings";
    complete = false;
    error = none;
  };
  stage = before;
  pending = [];
}

advance-Answers_example :
    Answers submission (device 9 0x61) (advance submission (device 9 0x61) none)
advance-Answers_example = advance-Answers submission (device 9 0x61) none

run_complete_example :
    let r =
      run submission ((device 9 0x61, none) ∷ (verified ∷ verified ∷ (device 7 0xe4, none) ∷ [])) in
    (r.0.progress.complete ≡ true)
    × (r.1
        ≡ ok (write (rate 20))
          ∷ ok (write (output experimental_full_inertial_20hz))
          ∷ ok inspect
          ∷ ok done
          ∷ [])
run_complete_example =
    run_complete current target ("Sample rate", rate 20)
      (("Output format", output experimental_full_inertial_20hz) ∷ []) (device 9 0x61, none)
      (device 7 0xe4, none) (verified ∷ verified ∷ [])
      (unfold new validate profile is_supported_rate in refl) writes_target
      (unfold observed observed_rate profile in refl) refl (refl, (refl, tt)) refl
      (unfold observed observed_rate profile in refl)
