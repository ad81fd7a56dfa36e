-- ===== src/Sweeps.antt =====
-- crates/posebridge-client/src/posebridge/magnetic.rs: the three sweeps of a magnetic session, and what
-- the panel is shown of it. What a panel draws of one sweep is a parameter, as is the f64 that an
-- exact field stands for.
pub mod Kept
mod Examples
use Prim.Native.String.{String}
use pose_bridge.Prelude.{
  ℕ, Bool, true, false, not, ◌&&◌, ◌||◌, Option, none, some, List, [], ◌∷◌, if◌then◌else◌,
  is_some_and, saturating_add,
}
use pose_bridge.Prelude.Texts.{same_text}
use pose_bridge.Model.Command.{DeviceCommand, mag_start, mag_stop, save}
use pose_bridge.Model.Observation.{OperationStatus, is_succeeded}
use pose_bridge.Motion.{Vec3}
use mathlib.Core.Option
use pose_bridge.Pose.{FloatOps}
use pose_bridge.Pose.Mounting.{Mounting}
use pose_bridge.Magnetic.{
  MagneticCursor, MagneticPhase, monitoring, calibrating, calibrated, external_calibration, Counts,
  Scale, MagneticSample, MagneticBatch, MagneticStatistics,
}
use pose_bridge.Client.{Device}
use pose_bridge.Coverage.{Coverage, empty, push, proper, headset_axes}

pub data Sweep : Type 0 where
  before during after : Sweep

-- `Sweep::of`.
unfoldable pub sweep_of : MagneticPhase → Option Sweep
sweep_of monitoring = some before
sweep_of calibrating = some during
sweep_of calibrated = some after
sweep_of _ = none

pub data Units : Type 0 where
  microtesla counts : Units

abbrev pub same_units : Units → Units → Bool
same_units microtesla microtesla = true
same_units counts counts = true
same_units _ _ = false

-- `Units::of`.
abbrev pub units_of : Option Scale → Units
units_of none = counts
units_of (some s) = microtesla

unfoldable pub in_session : DeviceCommand → Bool
in_session mag_start = true
in_session mag_stop = true
in_session save = true
in_session _ = false

-- The array of three, in the order of `Sweep::ALL`.
pub record Three (A : Type 0) : Type 0 where
  pub before : A
  pub during : A
  pub after : A

abbrev pub at : {A : Type 0} → Three A → Sweep → A
at t before = t.before
at t during = t.during
at t after = t.after

abbrev pub put : {A : Type 0} → Three A → Sweep → A → Three A
put t before a = record t { before = a }
put t during a = record t { during = a }
put t after a = record t { after = a }

pub record Sweeps (F : Type 0) : Type 0 where
  pub mounting : Mounting
  pub units : Option Units
  pub held : Three (Coverage F)
  pub last : Option Sweep
  pub latest : Option (Vec3 F)

pub record Session (F S : Type 0) : Type 0 where
  pub phase : MagneticPhase
  pub active : Bool
  pub units : Option Units
  pub sensor_type : Option ℕ
  pub type_error : Option String
  pub calsw : Option ℕ
  pub device_may_be_calibrating : Bool
  pub operation : Option OperationStatus
  pub cleanup : Option OperationStatus
  pub last_error : Option String
  pub statistics : MagneticStatistics
  pub sweeps : Three S
  pub latest : Option (Vec3 F)
  pub overrun : ℕ
  pub end_verified : Bool

pub record Run (F S : Type 0) : Type 0 where
  pub device : Device
  pub cursor : Option MagneticCursor
  pub sweeps : Sweeps F
  pub drawn : Three S
  pub overrun : ℕ
  pub end_verified : Bool

abbrev pub none_held : {F : Type 0} → Three (Coverage F)
none_held = record { before = empty; during = empty; after = empty }

abbrev pub new_sweeps : {F : Type 0} → Mounting → Sweeps F
new_sweeps m = record { mounting = m; units = none; held = none_held; last = none; latest = none }

-- `Sweeps::clear`.
unfoldable pub clear : {F : Type 0} → Sweeps F → Sweeps F
clear s = record s { held = none_held; last = none; latest = none }

abbrev pub is_after : Option Sweep → Bool
is_after (some after) = true
is_after _ = false

abbrev pub is_during : Sweep → Bool
is_during during = true
is_during _ = false

-- A second calibration is judged against what the first one left.
abbrev pub restarted : {F : Type 0} → Sweeps F → Sweeps F
restarted s = record s { held = record { before = (s.held).after; during = empty; after = empty } }

module _ {F : Type 0} (ops : FloatOps F) (microtesla_of : Counts × Scale → Vec3 F) where
  -- `Units::reading`.
  unfoldable pub reading : Units → MagneticSample → Option (Vec3 F)
  reading microtesla sample = Option.map microtesla_of sample.field_ut
  reading counts sample = some (record {
    x = ops.of_int sample.register_xyz.x;
    y = ops.of_int sample.register_xyz.y;
    z = ops.of_int sample.register_xyz.z;
  })

  abbrev pub in_axes : Mounting → Option (Vec3 F) → Option (Vec3 F)
  in_axes m none = none
  in_axes m (some field) = headset_axes ops m field

  -- The reading goes into its sweep, and becomes the latest one.
  abbrev pub bin : Sweeps F → Sweep → Bool → Option (Vec3 F) → Sweeps F × Bool
  bin s sweep changed none = (s, changed)
  bin s sweep changed (some field) =
      let (c, kept) = push ops (at s.held sweep) field in
      (record s { held = put s.held sweep c; latest = some field }, changed || kept)

  -- A reading of a phase that belongs to a sweep.
  abbrev pub absorb_swept : Units → Sweeps F → Bool → MagneticSample → Sweep → Sweeps F × Bool
  absorb_swept units s changed sample sweep =
      let again = is_during sweep && is_after s.last in
      let t = if again then restarted s else s in
      bin (record t { last = some sweep }) sweep (changed || again)
        (in_axes s.mounting (reading units sample))

  abbrev pub is_external : MagneticPhase → Bool
  is_external external_calibration = true
  is_external _ = false

  abbrev pub absorb_of : Units → Sweeps F → Bool → MagneticSample → Option Sweep → Sweeps F × Bool
  absorb_of units s changed sample none = (s, changed)
  absorb_of units s changed sample (some sweep) = absorb_swept units s changed sample sweep

  -- One turn of the loop over the samples.
  unfoldable pub absorb_sample : Units → Sweeps F → Bool → MagneticSample → Sweeps F × Bool
  absorb_sample units s changed sample =
      if is_external sample.phase
      then (clear s, true)
      else absorb_of units s changed sample (sweep_of sample.phase)

  unfoldable pub absorb_all : List MagneticSample → Units → Sweeps F → Bool → Sweeps F × Bool
  absorb_all [] units s changed = (s, changed)
  absorb_all (sample ∷ samples) units s changed =
      let (t, c) = absorb_sample units s changed sample in absorb_all samples units t c

  -- `Sweeps::absorb`.
  unfoldable pub absorb : Sweeps F → MagneticBatch → Sweeps F × Bool
  absorb s batch =
      let units = units_of batch.scale_ut_per_count in
      let changed = batch.reset || is_some_and s.units (λ held. not (same_units held units)) in
      let t = if changed then clear s else s in
      absorb_all batch.samples units (record t { units = some units }) changed

  module _ {S : Type 0} (drawing : Coverage F → S) where
    -- `Run::new`, with `check`.
    unfoldable pub new_run : Device → Option (Run F S)
    new_run device =
        if proper device.mounting
        then some (record {
          device = device;
          cursor = none;
          sweeps = new_sweeps device.mounting;
          drawn = record { before = drawing empty; during = drawing empty; after = drawing empty };
          overrun = 0;
          end_verified = false;
        })
        else none

    abbrev drawn_of : Three (Coverage F) → Three S
    drawn_of h = record {
      before = drawing h.before;
      during = drawing h.during;
      after = drawing h.after;
    }

    -- Whether the latest calibration was seen to end.
    unfoldable pub verified_end : Option OperationStatus → Bool → Bool
    verified_end none old = old
    verified_end (some op) old =
        if same_text op.action "mag_start" && op.write_attempted
        then false
        else if same_text op.action "mag_stop"
        then op.register_verified && is_succeeded op.outcome
        else old

    -- `Run::absorb`.
    unfoldable pub absorb_batch : Run F S → MagneticBatch → Run F S × Session F S
    absorb_batch run batch =
        let (sweeps, changed) = absorb run.sweeps batch in
        let drawn = if changed then drawn_of sweeps.held else run.drawn in
        let overrun = saturating_add run.overrun batch.history_overrun in
        let end_verified =
          verified_end batch.operation (if batch.reset then false else run.end_verified) in
        (
          record run {
            cursor = batch.cursor;
            sweeps = sweeps;
            drawn = drawn;
            overrun = overrun;
            end_verified = end_verified;
          },
          record {
            phase = batch.phase;
            active = batch.active;
            units = sweeps.units;
            sensor_type = batch.sensor_type;
            type_error = batch.type_error;
            calsw = batch.calsw;
            device_may_be_calibrating = batch.device_may_be_calibrating;
            operation = batch.operation;
            cleanup = batch.cleanup;
            last_error = batch.last_error;
            statistics = batch.statistics;
            sweeps = drawn;
            latest = sweeps.latest;
            overrun = overrun;
            end_verified = end_verified;
          },
        )
