-- ===== src/Controller/Pump/Examples.antt =====
-- A minute of an acquisition, with two battery requests.
use pose_bridge.Prelude.{ℕ, List, [], ◌∷◌}
use pose_bridge.Model.{ok}
use pose_bridge.Battery
use pose_bridge.Naturals.{ops}
use pose_bridge.Config.{euler}
use pose_bridge.Controller.Sample.{in_session, local, mounting}
use pose_bridge.Controller.Pump.{Wake, battery_due, battery_overdue, written, timers_at}
use pose_bridge.Controller.Pump.Spacing.{IsSpaced, battery_requests, requests-IsSpaced}

-- A request, its write and its end, a request too early, and the next one.
abbrev wakes : List (ℕ × Wake)
wakes =
    (1000000000, battery_due)
    ∷ (1100000000, written Battery.register (ok tt))
    ∷ (4000000000, battery_overdue)
    ∷ (20000000000, battery_due)
    ∷ (31000000000, battery_due)
    ∷ []

requests-IsSpaced_example : IsSpaced 1000000000 (
    battery_requests ops euler mounting
      (record { local = local; timers = timers_at 0; shared = in_session })
      0
      wakes)
requests-IsSpaced_example = requests-IsSpaced ops euler mounting local in_session 0 wakes
