-- ===== src/SampleClock.antt =====
-- crates/posebridge-core/src/sample_clock.rs and the types `SampleTimeKind` and `SampleTime` of
-- crates/posebridge-core/src/model.rs: the connection-local clock tracker. Counters are unbounded.
pub mod Laws
mod Examples
use pose_bridge.Prelude.{
  ℕ, ◌+◌, ◌-◌, ◌/◌, Bool, true, false, not, ◌&&◌, ◌||◌, Option, none, some, ltb, ◌==◌,
  if◌then◌else◌, from_bool, saturating_add,
}

pub data SampleTimeKind : Type 0 where
  device_calendar simulated_elapsed : SampleTimeKind

-- The derived `PartialEq`.
abbrev pub kind_eq : SampleTimeKind → SampleTimeKind → Bool
kind_eq device_calendar device_calendar = true
kind_eq simulated_elapsed simulated_elapsed = true
kind_eq _ _ = false

pub record SampleTime : Type 0 where
  pub kind : SampleTimeKind
  pub time_ms : ℕ
  pub clock_epoch : ℕ

pub record SampleClock : Type 0 where
  pub previous : Option (SampleTime × ℕ)
  pub duplicates : ℕ
  pub discontinuities : ℕ

-- `SampleClock::default()`.
abbrev pub default : SampleClock
default = record { previous = none; duplicates = 0; discontinuities = 0 }

-- The clock did not run on from the last sample: another kind, backwards, or ahead of the host by
-- more than two seconds.
abbrev pub is_discontinuity : SampleTime → ℕ → SampleTimeKind → ℕ → ℕ → Bool
is_discontinuity last host_ns kind time_ms received_ns =
    let host_gap_ms = (received_ns - host_ns) / 1000000 in
    not (kind_eq kind last.kind)
    || (ltb time_ms last.time_ms || ltb (saturating_add host_gap_ms 2000) (time_ms - last.time_ms))

-- The end of `observe`: record the sample under its epoch.
abbrev pub accept : SampleClock → SampleTimeKind → ℕ → ℕ → ℕ → SampleClock × Option SampleTime
accept c kind time_ms received_ns epoch =
    let time : SampleTime = record { kind = kind; time_ms = time_ms; clock_epoch = epoch } in
    (record c { previous = some (time, received_ns) }, some time)

unfoldable pub observe_after :
    Option (SampleTime × ℕ) → SampleClock → SampleTimeKind → ℕ → ℕ → SampleClock × Option SampleTime
observe_after none c kind time_ms received_ns = accept c kind time_ms received_ns 1
observe_after (some (last, host_ns)) c kind time_ms received_ns =
    let jump = from_bool (is_discontinuity last host_ns kind time_ms received_ns) in
    if kind_eq kind last.kind && time_ms == last.time_ms
    then (record c { duplicates = c.duplicates + 1 }, none)
    else accept (record c { discontinuities = c.discontinuities + jump }) kind time_ms received_ns
        (last.clock_epoch + jump)

unfoldable pub observe : SampleClock → SampleTimeKind → ℕ → ℕ → SampleClock × Option SampleTime
unfolding observe_after
observe c kind time_ms received_ns = observe_after c.previous c kind time_ms received_ns
