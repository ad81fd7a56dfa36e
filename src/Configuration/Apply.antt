-- ===== src/Configuration/Apply.antt =====
-- `Apply` of crates/posebridge-client/src/posebridge/configuration.rs: each write is verified before
-- the next, and the settings count as applied only when they are read back. Of the snapshot,
-- `advance` reads the device observation and the operation, which are its arguments here.
pub mod Laws
pub mod Runs
use Prim.Native.String.{String}
use pose_bridge.Prelude.{
  ℕ, Bool, true, false, not, ◌&&◌, ◌||◌, Option, none, some, List, [], ◌∷◌, ◌++◌, ◌==◌,
  if◌then◌else◌, is_some_and, map_or,
}
use pose_bridge.Model.Command.{DeviceCommand}
use pose_bridge.Model.Observation.{DeviceObservation, OperationStatus, is_succeeded}
use pose_bridge.Configuration.{
  Settings, ApplyError, calibration_active, unreadable, changed_since_read, unverified_write,
  unreadable_final, differs, stopped, Result, ok, err, Write, observed, validate, bool_eq, writes,
  ◌>>=◌,
}

pub record Progress : Type 0 where
  pub target : Settings
  pub verified : List String
  pub step : String
  pub complete : Bool
  pub error : Option String

pub data Action : Type 0 where
  write : DeviceCommand → Action
  inspect done : Action

pub data Stage : Type 0 where
  before writing after : Stage

pub record Apply : Type 0 where
  pub progress : Progress
  pub expected : Settings
  pub stage : Stage
  pub pending : List Write

-- `Apply::new`.
unfoldable pub new : Settings → Settings → Result Apply
new expected target = do
  _ ← validate target
  ok (record {
    expected = expected;
    progress = record {
      target = target;
      verified = [];
      step = "Reading current settings";
      complete = false;
      error = none;
    };
    stage = before;
    pending = [];
  })

-- The derived `PartialEq` of `Settings`.
unfoldable pub settings_eq : Settings → Settings → Bool
settings_eq s t =
    s.rate_hz == t.rate_hz && (s.format == t.format && bool_eq s.six_axis_mode t.six_axis_mode)

unfoldable pub finish : Apply → Apply × Result Action
finish a = (
  record a { progress = record (a.progress) { complete = true; step = "All settings verified" } },
  ok done,
)

-- The end of `advance`: the next write, or the final readback.
abbrev pub next_action : List Write → Apply → Apply × Result Action
next_action [] a = (
  record a { stage = after; progress = record (a.progress) { step = "Verifying all settings" } },
  ok inspect,
)
next_action ((name, command) ∷ rest) a = (
  record a { pending = rest; stage = writing; progress = record (a.progress) { step = name } },
  ok (write command),
)

-- `Stage::Before`, once the writes are known.
unfoldable pub begin_writes : Apply → Result (List Write) → Apply × Result Action
begin_writes a (err e) = (a, err e)
begin_writes a (ok []) = finish (record a { pending = [] })
begin_writes a (ok (w ∷ ws)) = next_action (w ∷ ws) (record a { pending = w ∷ ws })

unfoldable pub begin : Apply → Option Settings → Apply × Result Action
begin a none = (a, err unreadable)
begin a (some current) =
    if not (settings_eq current a.expected)
    then (a, err changed_since_read)
    else begin_writes a (writes a.progress.target current)

unfoldable pub conclude : Apply → Option Settings → Apply × Result Action
conclude a none = (a, err unreadable_final)
conclude a (some s) = if not (settings_eq s a.progress.target) then (a, err differs) else finish a

abbrev pub is_verified : Option OperationStatus → Bool
is_verified operation =
    is_some_and operation (λ op. is_succeeded op.outcome && op.register_verified)

-- The `match self.stage`.
unfoldable pub advance_stage :
    Stage → Apply → DeviceObservation → Option OperationStatus → Apply × Result Action
advance_stage before a device operation =
    if map_or device.calsw false (λ c. c == 7)
    then (a, err calibration_active)
    else begin a (observed device)
advance_stage writing a device operation =
    if not (is_verified operation)
    then (a, err unverified_write)
    else next_action a.pending (record a {
      progress = record (a.progress) { verified = a.progress.verified ++ a.progress.step ∷ [] };
    })
advance_stage after a device operation = conclude a (observed device)

abbrev advance_after :
    Option String → Apply → DeviceObservation → Option OperationStatus → Apply × Result Action
advance_after (some error) a device operation = (a, err (stopped error))
advance_after none a device operation = advance_stage a.stage a device operation

-- `Apply::advance`.
unfoldable pub advance : Apply → DeviceObservation → Option OperationStatus → Apply × Result Action
advance a device operation = advance_after a.progress.error a device operation

-- `Apply::fail`.
unfoldable pub fail : Apply → String → Apply
fail a error = record a { pending = []; progress = record (a.progress) { error = some error } }
