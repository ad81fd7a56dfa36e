-- ===== src/Service/Worker/Show.antt =====
-- The end of a turn of `worker` in crates/posebridge-client/src/posebridge/service.rs: what a poll found is
-- shown, unless a newer request was queued.
use pose_bridge.Prelude.{
  ℕ, ◌-◌, Bool, true, false, not, ◌&&◌, ◌||◌, Option, none, some, List, leb, ◌==◌, if◌then◌else◌,
  is_some_and,
}
use pose_bridge.Controller.{Snapshot, ConnectionState, complete, LastError, from_osc, DeviceInfo}
use pose_bridge.Client.{Device}
use pose_bridge.Sweeps.{Session}
use pose_bridge.Service.{
  Phase, idle, scanning, inspecting, tracking, operating, magnetic, stopping, failed, Message,
  status, View, Service,
}
use pose_bridge.Service.Latch.{observe_magnetic, publish_session}
use pose_bridge.Service.Worker.{Worker}
use pose_bridge.Service.Worker.Poll.{Publication}

-- The derived `PartialEq` of `Phase`.
abbrev pub same_phase : Phase → Phase → Bool
same_phase idle idle = true
same_phase scanning scanning = true
same_phase inspecting inspecting = true
same_phase tracking tracking = true
same_phase operating operating = true
same_phase magnetic magnetic = true
same_phase stopping stopping = true
same_phase failed failed = true
same_phase _ _ = false

-- The mark and the rate of delivery.
abbrev Delivery : Type 0
Delivery = Option (ℕ × ℕ × ℕ) × Option (ℕ × ℕ)

abbrev measure : ℕ → ℕ → ℕ → ℕ → ℕ → ℕ → Option (ℕ × ℕ) → Delivery
measure at before previous now reads session_id rate =
    if previous == session_id && leb before reads
    then if leb 1000000000 (now - at)
      then (some (now, reads, session_id), some (reads - before, now - at))
      else (some (at, before, previous), rate)
    else (some (now, reads, session_id), none)

unfoldable pub delivered : Option (ℕ × ℕ × ℕ) → ℕ → ℕ → ℕ → Option (ℕ × ℕ) → Delivery
delivered none now reads session_id rate = (some (now, reads, session_id), none)
delivered (some (at, before, previous)) now reads session_id rate =
    measure at before previous now reads session_id rate

abbrev is_idle_complete : Phase → ConnectionState → Bool
is_idle_complete idle complete = true
is_idle_complete _ _ = false

-- `error.starts_with("PoseBridge OSC:")`.
abbrev is_osc : Message → Bool
is_osc (status (from_osc e)) = true
is_osc _ = false

abbrev error_of : Option LastError → Option Message → Option Message
error_of (some e) old = some (status e)
error_of none old = if is_some_and old is_osc then none else old

-- The error beside a phase and a snapshot.
unfoldable pub shown_error :
    Phase → ConnectionState → Option LastError → Option Message → Option Message
shown_error phase state last old = if is_idle_complete phase state then none else error_of last old

module _ {F S : Type 0} where
  abbrev pub publish_any : Option (Session F S × Device) → ℕ → View F S → View F S
  publish_any none request v = v
  publish_any (some (session, device)) request v = publish_session v session device request

  abbrev pub is_due : Worker F S → View F S → ℕ → Bool
  is_due w v now = not (same_phase v.phase w.phase) || leb 100000000 (now - w.last_view)

  abbrev pub refreshed : Worker F S → View F S → Snapshot F → List DeviceInfo → View F S
  refreshed w v snapshot devices = record v {
    phase = w.phase;
    error = shown_error w.phase snapshot.status.state snapshot.status.last_error v.error;
    devices = devices;
    snapshot = some snapshot;
  }

  -- The latch, the session and the rate, which are shown in every turn.
  unfoldable pub observed_view : Worker F S → Publication F S → View F S → View F S
  observed_view w p v = publish_any p.session w.current (observe_magnetic v p.snapshot w.device)

  abbrev pub rated : Worker F S → Publication F S → View F S → ℕ → Worker F S × View F S
  rated w p v now =
      let (mark, rate) =
        delivered w.delivery_mark now p.snapshot.status.delivery.reads p.snapshot.status.session_id
          v.delivery in
      (record w { delivery_mark = mark }, record v { delivery = rate })

  abbrev pub show_due :
      Worker F S × View F S → Publication F S → List DeviceInfo → ℕ → Worker F S × View F S
  show_due (w, v) p devices now =
      if is_due w v now
      then (record w { last_view = now }, refreshed w v p.snapshot devices)
      else (w, v)

  abbrev pub with_view :
      Service F S → Publication F S → Worker F S × View F S → Worker F S × Service F S
  with_view s p (w, v) = (w, record s { view = v; sample = p.sample })

  unfoldable pub show :
      Worker F S → Publication F S → List DeviceInfo → ℕ → Service F S → Worker F S × Service F S
  show w p devices now s =
      if not (s.view.request == w.current)
      then (w, s)
      else with_view s p (show_due (rated w p (observed_view w p s.view) now) p devices now)
