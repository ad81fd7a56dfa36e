-- ===== src/Service.antt =====
-- crates/posebridge-client/src/posebridge/service.rs: the commands of the client, what it shows, and
-- which command may start when. A message is a constructor, or the error that it is the text of.
pub mod Configure
pub mod Events
pub mod Latch
pub mod System
pub mod Worker
use pose_bridge.Prelude.{
  ℕ, ◌+◌, ◌%◌, ◌^◌, Bool, true, false, not, ◌&&◌, ◌||◌, Option, none, some, List, [], ◌∷◌, ◌++◌,
  length, leb, ◌==◌, if◌then◌else◌, is_some, is_none, is_some_and,
}
use pose_bridge.Model.{Error}
use pose_bridge.Model.Command.{DeviceCommand, mag_stop}
use pose_bridge.Config.{Config, OscConfig, DolbyOscConfig}
use pose_bridge.Controller.{Snapshot, DeviceInfo, LastError}
use pose_bridge.Configuration.{ApplyError, Settings}
use pose_bridge.Configuration.Apply.{Progress}
use pose_bridge.Client.{Transport, Device, ble, same_transport, same_device}
use pose_bridge.Sweeps.{Session, in_session}
use pose_bridge.Tracking.{Sample}

pub data Phase : Type 0 where
  idle scanning inspecting tracking operating magnetic stopping failed : Phase

-- `Phase::busy`.
unfoldable pub is_busy : Phase → Bool
is_busy idle = false
is_busy failed = false
is_busy _ = true

abbrev pub is_tracking : Phase → Bool
is_tracking tracking = true
is_tracking _ = false

abbrev pub is_magnetic : Phase → Bool
is_magnetic magnetic = true
is_magnetic _ = false

-- What the view says went wrong.
pub data Message : Type 0 where
  no_dolby_output waiting_for_sensor dolby_not_running pose_not_fresh : Message
  operation_pending busy calibration_elsewhere : Message
  no_mounting unpackaged_host worker_gone queue_full : Message
  not_running session_busy : Message
  unverified_device full_rate unsupported_output calibration_active : Message
  apply_cancelled apply_stopped : Message
  core : Error → Message
  applying : ApplyError → Message
  status : LastError → Message

pub data Outcome {ℓ} (A : Type ℓ) : Type ℓ where
  err : Message → Outcome A
  ok : A → Outcome A

abbrev pub and_then {ℓ κ} : {A : Type ℓ} {B : Type κ} → Outcome A → (A → Outcome B) → Outcome B
and_then (err e) f = err e
and_then (ok a) f = f a

abbrev pub refuse_if : Bool → Message → Outcome (Unit {0})
refuse_if true e = err e
refuse_if false e = ok tt

-- `Configuration` of crates/posebridge-client/src/output.rs.
pub record Outputs : Type 0 where
  pub posebridge : Option OscConfig
  pub dolby : Option DolbyOscConfig

-- `Configuration::apply`.
abbrev pub with_outputs : {F : Type 0} → Outputs → Config F → Config F
with_outputs outputs config = record config { osc = outputs.posebridge; dolby_osc = outputs.dolby }

pub data Command : Type 0 where
  scan : Transport → Command
  connect : Device → Outputs → Command
  recenter_dolby : Command
  inspect open_magnetic : Device → Command
  write : Device → DeviceCommand → Command
  apply : Device → Settings → Settings → Command
  stop shutdown : Command

pub record View (F S : Type 0) : Type 0 where
  pub request : ℕ
  pub phase : Phase
  pub device : Option Device
  pub devices : List DeviceInfo
  pub snapshot : Option (Snapshot F)
  pub error : Option Message
  -- reads in nanoseconds; `none` is the rate 0
  pub delivery : Option (ℕ × ℕ)
  pub magnetic : Option Device
  pub magnetic_session : Option (Session F S)
  pub session_write_pending : Bool
  pub apply : Option Progress

abbrev pub is_end : Command → Bool
is_end stop = true
is_end shutdown = true
is_end _ = false

-- `v.device.as_ref() == Some(device)`.
abbrev pub is_on : Option Device → Device → Bool
is_on current device = is_some_and current (λ d. same_device d device)

-- What a latched device still takes.
abbrev pub latch_allows : Device → Command → Bool
latch_allows latched (write device mag_stop) = same_device device latched
latch_allows latched (inspect device) = same_device device latched
latch_allows latched (open_magnetic device) = same_device device latched
latch_allows latched stop = true
latch_allows latched shutdown = true
latch_allows latched _ = false

abbrev pub latch_refuses : Option Device → Command → Bool
latch_refuses none command = false
latch_refuses (some latched) command = not (latch_allows latched command)

-- The phase that a command leaves the worker in; the test is whether it goes into a session.
unfoldable pub phase_of : Command → Bool → Phase
phase_of (scan kind) into = scanning
phase_of (connect device outputs) into = tracking
phase_of recenter_dolby into = tracking
phase_of (inspect device) into = inspecting
phase_of (open_magnetic device) into = magnetic
phase_of (write device operation) into = if into then magnetic else operating
phase_of (apply device old settings) into = operating
phase_of stop into = stopping
phase_of shutdown into = stopping

abbrev pub device_of : Command → Option Device → Option Device
device_of (connect device outputs) old = some device
device_of (inspect device) old = some device
device_of (open_magnetic device) old = some device
device_of (write device operation) old = some device
device_of (apply device old_settings settings) old = some device
device_of _ old = old

-- The checks on what the sensor shows, for `recenter_dolby`.
unfoldable pub admit_snapshot : {F : Type 0} → Option (Snapshot F) → Outcome Phase
admit_snapshot none = err waiting_for_sensor
admit_snapshot (some s) =
    if not (is_some_and s.status.dolby_osc (λ d. d.active))
    then err dolby_not_running
    else if not (is_some_and s.pose (λ p. p.fresh))
    then err pose_not_fresh
    else ok tracking

module _ {F S : Type 0} where
  unfoldable pub into_session : View F S → Command → Bool
  into_session v (write device operation) =
      is_magnetic v.phase && (is_on v.device device && in_session operation)
  into_session v _ = false

  unfoldable pub admit_recenter : View F S → Outcome Phase
  admit_recenter v =
      if not (is_tracking v.phase) || is_some v.magnetic
      then err no_dolby_output
      else admit_snapshot v.snapshot

  unfoldable pub admit_other : View F S → Command → Outcome Phase
  admit_other v command =
      if v.session_write_pending && not (is_end command)
      then err operation_pending
      else if is_busy v.phase && (not (into_session v command) && not (is_end command))
      then err busy
      else if latch_refuses v.magnetic command
      then err calibration_elsewhere
      else ok (phase_of command (into_session v command))

  unfoldable pub admit : View F S → Command → Outcome Phase
  admit v recenter_dolby = admit_recenter v
  admit v command = admit_other v command

  -- `View::guards_quit`.
  unfoldable pub guards_quit : View F S → Bool
  guards_quit v = is_some v.magnetic || (v.session_write_pending || is_unsettled v.phase)
    where
      is_unsettled : Phase → Bool
      is_unsettled operating = true
      is_unsettled stopping = true
      is_unsettled _ = false

pub record Request : Type 0 where
  pub id : ℕ
  pub command : Command

-- The service: its queue is a channel of eight, which the worker may have left.
pub record Service (F S : Type 0) : Type 0 where
  pub queue : List Request
  pub is_open : Bool
  pub view : View F S
  pub sample : Option (Sample F)

-- `SyncSender::try_send`.
unfoldable pub try_send : {F S : Type 0} → Service F S → Request → Outcome (List Request)
try_send s request =
    if not s.is_open
    then err worker_gone
    else if leb 8 (length s.queue)
    then err queue_full
    else ok (s.queue ++ request ∷ [])

-- `u64::wrapping_add` of one.
abbrev pub next_id : ℕ → ℕ
next_id id = (id + 1) % 2 ^ 64

module _ {F S : Type 0} where
  abbrev pub enqueue :
      Service F S
      → Outcome (List Request)
      → View F S
      → Option (Sample F)
      → Service F S × Outcome (Unit {0})
  enqueue s (err e) view sample = (s, err e)
  enqueue s (ok queue) view sample =
      (record s { queue = queue; view = view; sample = sample }, ok tt)

  -- The view once a command is queued.
  unfoldable pub requested : View F S → Command → Phase → View F S
  requested v command phase = record v {
    request = next_id v.request;
    phase = phase;
    error = none;
    device = device_of command v.device;
    session_write_pending = into_session v command;
    apply = if is_end command then v.apply else none;
  }

  abbrev pub send_admitted :
      Service F S → Command → Outcome Phase → Service F S × Outcome (Unit {0})
  send_admitted s command (err e) = (s, err e)
  send_admitted s command (ok phase) =
      enqueue s (try_send s (record { id = next_id s.view.request; command = command }))
        (requested s.view command phase) none

  abbrev pub send_recenter : Service F S → Outcome Phase → Service F S × Outcome (Unit {0})
  send_recenter s (err e) = (s, err e)
  send_recenter s (ok phase) =
      enqueue s (try_send s (record { id = s.view.request; command = recenter_dolby }))
        (record (s.view) { error = none }) s.sample

  abbrev pub send_checked :
      Service F S → Command → Outcome (Unit {0}) → Service F S × Outcome (Unit {0})
  send_checked s command (err e) = (s, err e)
  send_checked s command (ok u) = send_admitted s command (admit s.view command)

  -- `Service::send`, with what the checks before the lock come to.
  unfoldable pub send_after :
      Outcome (Unit {0}) → Service F S → Command → Service F S × Outcome (Unit {0})
  send_after checks s recenter_dolby = send_recenter s (admit s.view recenter_dolby)
  send_after checks s command = send_checked s command checks
