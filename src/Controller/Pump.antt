-- ===== src/Controller/Pump.antt =====
-- The loop of `pump` in crates/posebridge-core/src/controller.rs: what wakes it, and the timers of its
-- requests. A wake comes at an instant, and counts only where its branch is enabled then. The report of
-- the BLE link and the outputs are left out, and the write of a request is its result.
pub mod Spacing
mod Examples
use pose_bridge.Prelude.{
  ℕ, ◌+◌, ◌-◌, ◌*◌, Bool, true, false, not, ◌&&◌, ◌||◌, Option, none, some, List, [], ◌∷◌, ltb, leb,
  ◌==◌, if◌then◌else◌, is_some_and, is_none, map_or,
}
use pose_bridge.Model.{Error, timeout, protocol, Result, ok, err}
use pose_bridge.Battery
use pose_bridge.Pose.{FloatOps}
use pose_bridge.Pose.Mounting.{Mounting}
use pose_bridge.Config.{PoseInput, register_quaternion}
use pose_bridge.Controller.{Shared, fresh, stale, stale_after}
use pose_bridge.Controller.Receive.{Local, receive}

abbrev pub second_ns : ℕ
second_ns = 1000000000

-- What wakes the loop: bytes, the deadlines, the end of a write, and the tick of the health checks.
pub data Wake : Type 0 where
  arrived : List ℕ → Wake
  -- a read that fails, or a cancellation
  interrupted : Error → Wake
  request_due battery_due battery_overdue ticked : Wake
  -- the address of the request, and the result of its write
  written : ℕ → Result (Unit {0}) → Wake

-- `writing`, `next_request` and `next_battery_request`.
pub record Timers : Type 0 where
  pub writing : Bool
  pub next_request : ℕ
  pub next_battery_request : ℕ

pub record Pump (F : Type 0) : Type 0 where
  pub local : Local F
  pub timers : Timers
  pub shared : Shared F

-- `tokio::time::sleep_until` of a deadline that is there.
abbrev pub is_due : Option ℕ → ℕ → Bool
is_due deadline now = is_some_and deadline (λ d. leb d now)

abbrev pub is_register_input : PoseInput → Bool
is_register_input register_quaternion = true
is_register_input _ = false

abbrev pub retry_at : Option ℕ → ℕ → ℕ
retry_at none next = next
retry_at (some sent) next = sent + 250000000

module _ {F : Type 0} where
  unfoldable pub request_deadline : PoseInput → Pump F → Option ℕ
  request_deadline input p =
      if is_register_input input && not p.timers.writing
      then some (retry_at p.local.outstanding p.timers.next_request)
      else none

  unfoldable pub battery_deadline : Pump F → Option ℕ
  battery_deadline p =
      if not p.timers.writing && is_none p.local.battery_outstanding
      then some (p.timers.next_battery_request)
      else none

  abbrev pub battery_timeout : Pump F → Option ℕ
  battery_timeout p =
      map_or p.local.battery_outstanding none (λ sent. some (sent + Battery.response_timeout))

  -- The branch of a wake can be taken.
  abbrev pub is_enabled : PoseInput → Pump F → ℕ → Wake → Bool
  is_enabled input p now (arrived bytes) = true
  is_enabled input p now (interrupted e) = true
  is_enabled input p now request_due = is_due (request_deadline input p) now
  is_enabled input p now battery_due = is_due (battery_deadline p) now
  is_enabled input p now battery_overdue = is_due (battery_timeout p) now
  is_enabled input p now ticked = true
  is_enabled input p now (written address result) = p.timers.writing

  abbrev pub battery_failed : Pump F → Battery.Failure → Pump F
  battery_failed p failure = record p {
    local = record (p.local) { battery_outstanding = none };
    shared = record (p.shared) { battery = Battery.fail p.shared.battery failure };
  }

  abbrev pub write_ended : Pump F → Pump F
  write_ended p = record p { timers = record (p.timers) { writing = false } }

  -- The result of a write; only that of a battery request may fail.
  unfoldable pub on_written : Pump F → ℕ → Result (Unit {0}) → Pump F × Result (Unit {0})
  on_written p address (ok u) = (write_ended p, ok tt)
  on_written p address (err e) =
      if address == Battery.register
      then (battery_failed (write_ended p) (Battery.failed e), ok tt)
      else (write_ended p, err e)

  -- A state without a fresh pose is stale, half a second after the start.
  abbrev pub checked_pose : Shared F → ℕ → ℕ → Shared F
  checked_pose s start now =
      if leb stale_after (now - start) && (is_none s.pose || not (fresh s now))
      then record s { status = record (s.status) { state = stale } }
      else s

  abbrev pub is_silent : Pump F → ℕ → Bool
  is_silent p now = ltb (10 * second_ns) (now - p.local.last_bytes)

  abbrev pub is_unsupported : Pump F → ℕ → ℕ → Bool
  is_unsupported p start now = ltb (10 * second_ns) (now - start) && not p.local.received_frame

  unfoldable pub on_tick : Pump F → ℕ → ℕ → Pump F × Result (Unit {0})
  on_tick p start now =
      let q = record p { shared = checked_pose p.shared start now } in
      if is_silent p now
      then (q, err timeout)
      else if is_unsupported p start now
      then (q, err protocol)
      else (q, ok tt)

module _ {F : Type 0} (ops : FloatOps F) (input : PoseInput) (mounting : Mounting) where
  abbrev pub received : Pump F → Local F × Shared F × Result (Unit {0}) → Pump F × Result (Unit {0})
  received p (l, s, r) = (record p { local = l; shared = s }, r)

  -- The branch of a wake.
  unfoldable pub take : Pump F → ℕ → ℕ → Wake → Pump F × Result (Unit {0})
  take p start now (arrived bytes) =
      received p (receive ops input mounting p.local p.shared bytes start now)
  take p start now (interrupted e) = (p, err e)
  take p start now request_due = (
    record p {
      timers = record (p.timers) { writing = true; next_request = now + 20000000 };
      local = record (p.local) { outstanding = some now };
    },
    ok tt,
  )
  take p start now battery_due = (
    record p {
      timers = record (p.timers) {
        writing = true;
        next_battery_request = now + Battery.poll_interval;
      };
      local = record (p.local) { battery_outstanding = some now };
    },
    ok tt,
  )
  take p start now battery_overdue = (battery_failed p Battery.timed_out, ok tt)
  take p start now ticked = on_tick p start now
  take p start now (written address result) = on_written p address result

  unfoldable pub step : Pump F → ℕ → ℕ → Wake → Pump F × Result (Unit {0})
  step p start now wake = if is_enabled input p now wake then take p start now wake else (p, ok tt)

-- The variables at the start of `pump`.
abbrev pub timers_at : ℕ → Timers
timers_at start = record {
  writing = false;
  next_request = start;
  next_battery_request = start + second_ns;
}
