-- ===== src/Battery.antt =====
-- crates/posebridge-core/src/battery.rs, with `BatteryStatus` of crates/posebridge-core/src/model.rs.
-- Instants are nanoseconds. The texts of failures are left out. A voltage is kept as the centivolts
-- that the source divides by 100.0.
pub mod Laws
mod Examples
use pose_bridge.Prelude.{
  ℕ, ◌-◌, ◌<◌, Bool, true, false, not, ◌&&◌, Option, none, some, leb, ltb, if◌then◌else◌, is_none,
  is_some_and, clamp_ns,
}
use pose_bridge.Model.{Error}

abbrev pub register : ℕ
register = 0x64

abbrev pub second_ns : ℕ
second_ns = 1000000000

abbrev pub poll_interval : ℕ
poll_interval = 30000000000

abbrev pub response_timeout : ℕ
response_timeout = 3000000000

abbrev pub stale_after : ℕ
stale_after = 90000000000

-- Why a query failed.
pub data Failure : Type 0 where
  invalid_register : ℕ → Failure
  timed_out : Failure
  failed : Error → Failure

pub record BatteryStatus : Type 0 where
  pub raw_register : Option ℕ
  pub voltage_centivolts : Option ℕ
  pub estimated_percent : Option ℕ
  pub age_ns : Option ℕ
  pub fresh : Bool
  pub last_error : Option Failure

pub record Battery : Type 0 where
  pub status : BatteryStatus
  pub received : Option ℕ

-- `Battery::default()`.
abbrev pub default : Battery
default = record {
  status = record {
    raw_register = none;
    voltage_centivolts = none;
    estimated_percent = none;
    age_ns = none;
    fresh = false;
    last_error = none;
  };
  received = none;
}

-- The `match raw` of `estimate`.
unfoldable pub level : ℕ → ℕ
level raw =
    if leb 396 raw
    then 100
    else if leb 393 raw
    then 90
    else if leb 387 raw
    then 75
    else if leb 382 raw
    then 60
    else if leb 379 raw
    then 50
    else if leb 377 raw
    then 40
    else if leb 373 raw
    then 30
    else if leb 370 raw
    then 20
    else if leb 368 raw
    then 15
    else if leb 350 raw
    then 10
    else if leb 340 raw
    then 5
    else 0

unfoldable pub estimate : ℕ → Option ℕ
estimate raw = if not (leb 200 raw && leb raw 430) then none else some (level raw)

unfoldable pub fail : Battery → Failure → Battery
fail b error = record b { status = record (b.status) { last_error = some error } }

unfoldable pub observe : Battery → ℕ → ℕ → Battery
unfolding fail
observe b raw now =
    if not (leb 200 raw && leb raw 550) then fail b (invalid_register raw) else record {
      status = record (b.status) {
        raw_register = some raw;
        voltage_centivolts = some raw;
        estimated_percent = estimate raw;
        last_error = none;
      };
      received = some now;
    }

-- The age of the last valid response; `saturating_duration_since` is `◌-◌`.
abbrev pub age_at : Option ℕ → ℕ → Option ℕ
age_at none now = none
age_at (some t) now = some (clamp_ns (now - t))

unfoldable pub snapshot : Battery → ℕ → Bool → BatteryStatus
snapshot b now available = record (b.status) {
  age_ns = age_at b.received now;
  fresh =
      available
      && (is_none b.status.last_error && is_some_and b.received (λ t. ltb (now - t) stale_after));
}
