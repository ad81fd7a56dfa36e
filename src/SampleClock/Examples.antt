-- ===== src/SampleClock/Examples.antt =====
-- The runs of the unit test, and the laws at concrete readings.
use pose_bridge.Prelude.{ℕ, ◌≡◌, refl, List, [], ◌∷◌, map}
use pose_bridge.SampleClock.{device_calendar, simulated_elapsed, default, observe}
use pose_bridge.SampleClock.Laws.{Reading, Follows, last_time, run, run-Follows}

abbrev reading : ℕ → ℕ → Reading
reading ms ns = record { kind = device_calendar; time_ms = ms; received_ns = ns }

-- The readings of the unit test.
abbrev batches : List Reading
batches =
    reading 10000 0
    ∷ reading 10005 0
    ∷ reading 10005 1000000000
    ∷ reading 11005 1000000000
    ∷ reading 5 1001000000
    ∷ reading 90000 1002000000
    ∷ record { kind = simulated_elapsed; time_ms = 90000; received_ns = 1003000000 }
    ∷ []

batches_epochs : map (λ t. t.clock_epoch) (run default batches).1 ≡ 1 ∷ 1 ∷ 1 ∷ 2 ∷ 3 ∷ 4 ∷ []
unfolding run observe
batches_epochs = refl

batches_discontinuities : (run default batches).0.discontinuities ≡ 3
unfolding run observe
batches_discontinuities = refl

run-Follows_example : Follows (last_time default.previous) (run default batches).1
run-Follows_example = run-Follows default batches
