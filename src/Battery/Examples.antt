-- ===== src/Battery/Examples.antt =====
-- A run of replies and failures, and the laws there.
use pose_bridge.Prelude.{◌≡◌, ◌&&◌, refl, true, none, some, List, [], ◌∷◌, is_some_and, ltb, ◌-◌}
use pose_bridge.Battery.{timed_out, default, fail, observe, age_at, stale_after, snapshot}
use pose_bridge.Battery.Laws.{
  Event, reading, failure, apply, run, latest_valid, is_good, raw_of, time_of, percent_of,
  snapshot-run,
}

-- A reply at 3.95 V after ten seconds, then a timeout and a reply out of range.
abbrev events : List Event
events = reading 395 10000000000 ∷ failure timed_out ∷ reading 600 40000000000 ∷ []

run-events : (snapshot (run default events) 70000000000 true).age_ns ≡ some 60000000000
unfolding snapshot run apply observe fail
run-events = refl

snapshot-run_example :
    let found = latest_valid none events in
    let s = snapshot (run default events) 70000000000 true in
    (s.raw_register ≡ raw_of found)
    × (s.voltage_centivolts ≡ raw_of found)
    × (s.estimated_percent ≡ percent_of found)
    × (s.age_ns ≡ age_at (time_of found) 70000000000)
    × (s.fresh ≡ (
        true
        && (is_good true events
            && is_some_and (time_of found) (λ t. ltb (70000000000 - t) stale_after))))
snapshot-run_example = snapshot-run events 70000000000 true
