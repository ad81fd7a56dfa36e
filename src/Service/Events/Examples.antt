-- ===== src/Service/Events/Examples.antt =====
-- A service whose device may be calibrating.
use pose_bridge.Client.{same_device}
use pose_bridge.Service.Worker.{edit}
use pose_bridge.Prelude.{ℕ, ◌≡◌, refl, true, none, some, List, [], ◌∷◌}
use pose_bridge.Prelude.Int.{pos}
use pose_bridge.Model.Command.{mag_stop}
use pose_bridge.Client.{Device, ble, new_device}
use pose_bridge.Service.{
  scan, inspect, write, stop, Service, ok, send_after, admit, admit_other, is_busy, into_session,
  try_send, phase_of, requested,
}
use pose_bridge.Service.System.{new_view}
use pose_bridge.Service.Worker.{clear_acquisition}
use pose_bridge.Service.Events.{Event, sent, taken, edited, run, step, accepted, accepted_at}
use pose_bridge.Service.Events.Latched.{run-AllEnd}
use pose_bridge.Service.Events.Kept.{IsAbout, no_event, next_event, AllEnd}

abbrev sensor : Device
sensor = record (new_device ble "a" "Sensor") {
  mounting = record { right = pos 1; forward = pos 2; up = pos 3 };
}

abbrev latched : Service ℕ ℕ
latched = record {
  queue = [];
  is_open = true;
  view = record new_view { magnetic = some sensor };
  sample = none;
}

-- A scan is refused, an inspection of the device is not, and a stop comes while that is busy.
abbrev events : List (Event ℕ ℕ)
events =
    sent (ok tt) (scan ble)
    ∷ sent (ok tt) (inspect sensor)
    ∷ taken
    ∷ edited clear_acquisition
    ∷ sent (ok tt) (write sensor mag_stop)
    ∷ sent (ok tt) stop
    ∷ []

accepts_two : accepted events latched ≡ inspect sensor ∷ stop ∷ []
unfolding accepted accepted_at send_after admit admit_other is_busy step same_device try_send edit
    requested into_session phase_of
accepts_two = refl

run-AllEnd_example :
    ((run events latched).view.magnetic ≡ some sensor) × AllEnd sensor (accepted events latched)
unfolding IsAbout
run-AllEnd_example = run-AllEnd events latched sensor refl (
    next_event tt
      (next_event tt (next_event tt (next_event tt (next_event tt (next_event tt no_event))))))
