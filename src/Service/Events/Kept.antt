-- ===== src/Service/Events/Kept.antt =====
-- What the worker writes about a device that may be calibrating, and the commands that reach it.
use mathlib.Core.Path.{subst}
use pose_bridge.Prelude.{
  ℕ, ◌≡◌, sym, arith, Bool, true, false, Option, none, some, List, [], ◌∷◌, is_some_and,
}
use pose_bridge.Model.Command.{DeviceCommand, mag_stop}
use pose_bridge.Model.Observation.{OperationStatus}
use pose_bridge.Controller.{Snapshot, DeviceInfo}
use pose_bridge.Client.{Device, same_device, same_device_iff}
use pose_bridge.Sweeps.{Session}
use pose_bridge.Service.{
  Command, scan, connect, recenter_dolby, inspect, open_magnetic, write, apply, stop, shutdown,
  View, Service, latch_allows,
}
use pose_bridge.Service.Latch.{is_verified_stop, observe_magnetic, publish_session}
use pose_bridge.Service.Worker.{
  Worker, Edit, edit_view, set_apply, publish, forget_session, clear_acquisition, refuse, complain,
  set_error, end_apply,
}
use pose_bridge.Service.Worker.Poll.{Publication}
use pose_bridge.Service.Worker.Show.{show, observed_view, publish_any}
use pose_bridge.Service.Events.{Event, edited, showed}

-- A command that ends a calibration of the device, looks at it, or stops the worker.
pub data Ends (d : Device) : Command → Type 0 where
  ends_calibration : Ends d (write d mag_stop)
  looks : Ends d (inspect d)
  watches : Ends d (open_magnetic d)
  stops : Ends d stop
  shuts_down : Ends d shutdown

pub data AllEnd (d : Device) : List Command → Type 0 where
  nothing : AllEnd d []
  one_more : {c : Command} {cs : List Command} → Ends d c → AllEnd d cs → AllEnd d (c ∷ cs)

abbrev pub shows_stop : Option OperationStatus → Bool
shows_stop o = is_some_and o is_verified_stop

-- A session is one of the device.
unfoldable pub IsOf : {F S : Type 0} → Device → Option (Session F S × Device) → Type 0
IsOf d none = Unit
IsOf d (some (session, device)) = device ≡ d

-- The worker reports on the device, and no verified stop of it.
unfoldable pub IsAbout : {F S : Type 0} → Device → Event F S → Type 0
IsAbout d (edited (publish session device request)) = device ≡ d
IsAbout d (showed w p devices now) =
    (w.device ≡ some d) × (shows_stop p.snapshot.operation ≡ false) × IsOf d p.session
IsAbout d _ = Unit

pub data AllAbout {F S : Type 0} (d : Device) : List (Event F S) → Type 0 where
  no_event : AllAbout d []
  next_event :
      {e : Event F S} {es : List (Event F S)} → IsAbout d e → AllAbout d es → AllAbout d (e ∷ es)

same_device-Ends :
    (d e : Device) (command : Device → Command)
    → Ends d (command d)
    → same_device e d ≡ true
    → Ends d (command e)
same_device-Ends d e command h k =
    subst (λ x. Ends d (command x)) (sym ((same_device_iff e d).0 k)) h

latch_allows_write :
    (d e : Device) (c : DeviceCommand) → latch_allows d (write e c) ≡ true → Ends d (write e c)
latch_allows_write d e mag_stop h = same_device-Ends d e (λ x. write x mag_stop) ends_calibration h
latch_allows_write d e _ h = cc

pub latch_allows-Ends : (d : Device) (c : Command) → latch_allows d c ≡ true → Ends d c
latch_allows-Ends d (scan kind) h = cc
latch_allows-Ends d (connect e outputs) h = cc
latch_allows-Ends d recenter_dolby h = cc
latch_allows-Ends d (inspect e) h = same_device-Ends d e inspect looks h
latch_allows-Ends d (open_magnetic e) h = same_device-Ends d e open_magnetic watches h
latch_allows-Ends d (write e c) h = latch_allows_write d e c h
latch_allows-Ends d (apply e old settings) h = cc
latch_allows-Ends d stop h = stops
latch_allows-Ends d shutdown h = shuts_down

module _ {F S : Type 0} where
  publish_session-magnetic :
      (v : View F S) (session : Session F S) (d : Device) (request : ℕ)
      → v.magnetic ≡ some d
      → (publish_session v session d request).magnetic ≡ some d
  unfolding publish_session
  publish_session-magnetic v session d request h = ground arith

  observe_magnetic_kept :
      (v : View F S) (snapshot : Snapshot F) (d : Device)
      → shows_stop snapshot.operation ≡ false
      → v.magnetic ≡ some d
      → (observe_magnetic v snapshot (some d)).magnetic ≡ some d
  unfolding observe_magnetic
  observe_magnetic_kept v snapshot d k h = ground arith

  pub edit_kept :
      (v : View F S) (e : Edit F S) (d : Device)
      → IsAbout d (edited e)
      → v.magnetic ≡ some d
      → (edit_view v e).magnetic ≡ some d
  unfolding IsAbout
  edit_kept v (publish session device request) d a h =
      subst (λ x. (publish_session v session x request).magnetic ≡ some d) (sym a)
        (publish_session-magnetic v session d request h)
  edit_kept v (set_apply progress) d a h = h
  edit_kept v forget_session d a h = h
  edit_kept v clear_acquisition d a h = h
  edit_kept v (refuse request error) d a h = ground arith
  edit_kept v (complain request error) d a h = ground arith
  edit_kept v (set_error error) d a h = h
  edit_kept v (end_apply progress error) d a h = h

  publish_any_kept :
      (p : Option (Session F S × Device)) (v : View F S) (d : Device) (request : ℕ)
      → IsOf d p
      → v.magnetic ≡ some d
      → (publish_any p request v).magnetic ≡ some d
  unfolding IsOf
  publish_any_kept none v d request a h = h
  publish_any_kept (some (session, device)) v d request a h =
      subst (λ x. (publish_session v session x request).magnetic ≡ some d) (sym a)
        (publish_session-magnetic v session d request h)

  pub show_kept :
      (w : Worker F S) (p : Publication F S) (devices : List DeviceInfo) (now : ℕ) (s : Service F S)
      (d : Device)
      → IsAbout d (showed w p devices now)
      → s.view.magnetic ≡ some d
      → (show w p devices now s).1.view.magnetic ≡ some d
  unfolding show observed_view IsAbout
  show_kept w p devices now s d (on_device, no_stop, of_device) h = ground (arith, kept)
    where
      kept :
          (publish_any p.session w.current (observe_magnetic s.view p.snapshot w.device)).magnetic
          ≡ some d
      kept =
          publish_any_kept p.session (observe_magnetic s.view p.snapshot w.device) d w.current
            of_device
            (subst (λ x. (observe_magnetic s.view p.snapshot x).magnetic ≡ some d) (sym on_device)
              (observe_magnetic_kept s.view p.snapshot d no_stop h))
