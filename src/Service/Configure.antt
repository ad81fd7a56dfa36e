-- ===== src/Service/Configure.antt =====
-- What the service of crates/posebridge-client/src/posebridge/service.rs makes of a device: its
-- configuration, the input that an inspection allows, and the checks before a command is queued. A
-- configuration is checked on a host: whether it runs Windows, or macOS outside an application bundle.
use pose_bridge.Prelude.{
  ℕ, Bool, true, false, not, ◌&&◌, ◌||◌, Option, none, some, List, [], ◌∷◌, ◌==◌, if◌then◌else◌,
  is_some_and,
}
use pose_bridge.Model
use pose_bridge.Model.Text.{Text}
use pose_bridge.Model.Observation.{DeviceObservation, OutputField, quaternion, euler}
use pose_bridge.Pose.{FloatOps}
use pose_bridge.Pose.Mounting.{Mounting}
use pose_bridge.Pose.Mounting
use pose_bridge.Config.{Config, Source, PoseInput, BleConnectionMode, throughput, default_mode}
use pose_bridge.Config
use pose_bridge.Configuration.{Settings}
use pose_bridge.Configuration
use pose_bridge.Client.{Transport, ble, usb, Input, automatic, register_quaternion, Device}
use pose_bridge.Coverage.{proper}
use pose_bridge.Service.{
  no_mounting, unpackaged_host, unverified_device, full_rate, unsupported_output, core, applying,
  Outcome, err, ok, and_then, refuse_if, Outputs, with_outputs, Command, scan, connect, inspect,
  open_magnetic, write, apply, Service, send_after,
}

pub record Host : Type 0 where
  pub windows : Bool
  pub macos : Bool
  -- the executable stands in an application bundle
  pub packaged : Bool

-- `map_err(|e| e.to_string())`.
abbrev pub of_core {ℓ} : {A : Type ℓ} → Model.Result A → Outcome A
of_core (Model.err e) = err (core e)
of_core (Model.ok a) = ok a

abbrev pub of_apply {ℓ} : {A : Type ℓ} → Configuration.Result A → Outcome A
of_apply (Configuration.err e) = err (applying e)
of_apply (Configuration.ok a) = ok a

-- `magnetic::check`.
unfoldable pub check : Device → Outcome (Unit {0})
check device = refuse_if (not (proper device.mounting)) no_mounting

abbrev pub is_ble : Device → Bool
is_ble d = map_transport d.transport
  where
    map_transport : Transport → Bool
    map_transport ble = true
    map_transport usb = false

unfoldable pub needs_bluetooth : Command → Bool
needs_bluetooth (scan ble) = true
needs_bluetooth (connect device outputs) = is_ble device
needs_bluetooth (inspect device) = is_ble device
needs_bluetooth (open_magnetic device) = is_ble device
needs_bluetooth (write device operation) = is_ble device
needs_bluetooth (apply device old settings) = is_ble device
needs_bluetooth _ = false

abbrev pub check_mounting : Bool → Mounting → Outcome (Unit {0})
check_mounting false m = ok tt
check_mounting true m = of_core (Mounting.validate m)

abbrev pub input_of : Input → PoseInput
input_of register_quaternion = PoseInput.register_quaternion
input_of automatic = PoseInput.euler

abbrev pub same_field : OutputField → OutputField → Bool
same_field quaternion quaternion = true
same_field euler euler = true
same_field _ _ = false

abbrev pub has : OutputField → List OutputField → Bool
has field [] = false
has field (f ∷ fs) = same_field field f || has field fs

abbrev pub fields_of : Option (List OutputField) → List OutputField
fields_of none = []
fields_of (some fields) = fields

abbrev pub is_code : Option ℕ → ℕ → Bool
is_code register code = is_some_and register (λ r. r == code)

abbrev pub input_among : List OutputField → Outcome PoseInput
input_among fields =
    if has quaternion fields
    then ok PoseInput.stream_quaternion
    else if has euler fields
    then ok PoseInput.euler
    else err unsupported_output

abbrev pub observed_automatic : DeviceObservation → Outcome PoseInput
observed_automatic o =
    if not o.valid
    then err unverified_device
    else if is_code o.output_register 0xe4 && not (is_code o.rate_register 7)
    then err full_rate
    else input_among (fields_of o.output_fields)

abbrev pub observed_for : Input → DeviceObservation → Outcome PoseInput
observed_for register_quaternion o = ok PoseInput.register_quaternion
observed_for automatic o = observed_automatic o

unfoldable pub observed_input : Device → DeviceObservation → Outcome PoseInput
observed_input device o = observed_for device.input o

module _ {F : Type 0} where
  abbrev source_of : Transport → Device → Source F
  source_of ble d = Source.ble d.id (if d.throughput then throughput else default_mode)
  source_of usb d = Source.usb d.id d.baud

  abbrev pub config_of : Device → Bool → Config F
  config_of d acquisition = record {
    source = source_of d.transport d;
    source_id = none;
    pose_input = input_of d.input;
    mounting = if acquisition then some d.mounting else none;
    osc = none;
    dolby_osc = none;
  }

module _ {F : Type 0} (ops : FloatOps F) (texts : Text) (host : Host) where
  abbrev pub validated : Config F → Outcome (Config F)
  validated config =
      and_then (of_core (Config.validate ops texts host.windows config)) λ u. ok config

  unfoldable pub configuration : Device → Bool → Outcome (Config F)
  configuration d acquisition =
      and_then (check_mounting acquisition d.mounting) λ u. validated (config_of d acquisition)

  -- What a connection is to output, checked as `Connect` is.
  unfoldable pub connection : Device → Outputs → Outcome (Config F)
  connection device outputs =
      and_then (configuration device true) λ config. validated (with_outputs outputs config)

  -- The checks of `Service::send` before it locks the view.
  unfoldable pub prechecked : Command → Outcome (Unit {0})
  prechecked (connect device outputs) = and_then (connection device outputs) λ config. ok tt
  prechecked (apply device old settings) = of_apply (Configuration.validate settings)
  prechecked (open_magnetic device) = check device
  prechecked _ = ok tt

  unfoldable pub permitted : Command → Outcome (Unit {0})
  permitted command =
      and_then (prechecked command) λ u.
        refuse_if (host.macos && (needs_bluetooth command && not host.packaged)) unpackaged_host

  -- `Service::send`.
  unfoldable pub send : {S : Type 0} → Service F S → Command → Service F S × Outcome (Unit {0})
  send s command = send_after (permitted command) s command
