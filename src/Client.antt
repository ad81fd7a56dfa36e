-- ===== src/Client.antt =====
-- crates/posebridge-client/src/posebridge.rs: the device that the client is set to, and those that
-- it remembers. The outputs among the preferences are theirs to keep.

pub mod Remember
mod Examples
use Prim.Native.String.{String}
use pose_bridge.Prelude.{
  ℕ, ◌≡◌, refl, ◌↔◌, arith, Bool, true, false, not, ◌&&◌, ◌||◌, Option, none, some, List, [], ◌∷◌,
  ◌++◌, map, ◌==◌, ==_iff, if◌then◌else◌, filter, unwrap_or,
}
use pose_bridge.Prelude.Int.{ℤ, pos}
use pose_bridge.Prelude.Texts.{same_text, same_text_iff}
use pose_bridge.Pose.Mounting.{Mounting}
use pose_bridge.Controller.SetConfig.{same_axis}

pub data Transport : Type 0 where
  ble usb : Transport

pub data Input : Type 0 where
  automatic register_quaternion : Input

pub record Device : Type 0 where
  pub transport : Transport
  pub id : String
  pub name : String
  pub baud : ℕ
  pub mounting : Mounting
  pub input : Input
  pub throughput : Bool

-- `..Device::default()` round a transport, an identifier and a name.
abbrev pub new_device : Transport → String → String → Device
new_device transport id name = record {
  transport = transport;
  id = id;
  name = name;
  baud = 115200;
  mounting = record { right = pos 0; forward = pos 0; up = pos 0 };
  input = automatic;
  throughput = false;
}

-- The derived `PartialEq` of `Transport`, `Input` and `Device`.
abbrev pub same_transport : Transport → Transport → Bool
same_transport ble ble = true
same_transport usb usb = true
same_transport _ _ = false

abbrev pub same_input : Input → Input → Bool
same_input automatic automatic = true
same_input register_quaternion register_quaternion = true
same_input _ _ = false

abbrev pub same_bool : Bool → Bool → Bool
same_bool true b = b
same_bool false b = not b

abbrev pub same_axes : Mounting → Mounting → Bool
same_axes a b = same_axis a.right b.right && (same_axis a.forward b.forward && same_axis a.up b.up)

unfoldable pub same_device : Device → Device → Bool
same_device d e =
    same_transport d.transport e.transport
    && (same_text d.id e.id
        && (same_text d.name e.name
            && (d.baud == e.baud
                && (same_axes d.mounting e.mounting
                    && (same_input d.input e.input && same_bool d.throughput e.throughput)))))

pub same_transport_iff : (a b : Transport) → (same_transport a b ≡ true) ↔ (a ≡ b)
same_transport_iff a b = (λ h. ground arith, λ h. ground arith)

pub same_device_iff : (d e : Device) → (same_device d e ≡ true) ↔ (d ≡ e)
unfolding same_device
same_device_iff d e = (
  λ h. ground (arith, same_text_iff d.id e.id, same_text_iff d.name e.name),
  λ h. ground (arith, same_text_iff d.id e.id, same_text_iff d.name e.name),
)

pub record Preferences : Type 0 where
  pub device : Device
  pub remembered : List Device

-- The closure of `retain`, and that of `find` in `select`.
abbrev pub is_named : Transport → String → Device → Bool
is_named transport id d = same_transport d.transport transport && same_text d.id id

abbrev pub is_empty : String → Bool
is_empty s = same_text s ""

-- `Preferences::remember`.
unfoldable pub remember : Preferences → Preferences
remember p = if is_empty p.device.id then p else record p {
  remembered =
      filter
        (λ d.
          not (same_transport d.transport p.device.transport) || not (same_text d.id p.device.id))
        p.remembered
      ++ p.device ∷ [];
}

-- `Iterator::find`.
abbrev pub find : (Device → Bool) → List Device → Option Device
find test [] = none
find test (d ∷ ds) = if test d then some d else find test ds

-- `Preferences::select`.
unfoldable pub select : Preferences → Transport → String → String → Preferences
select p transport id name =
    let q = remember p in
    record q {
      device = unwrap_or (find (is_named transport id) q.remembered) (new_device transport id name);
    }

-- `Preferences::validate`, but for the rates of the outputs.
abbrev pub corrected : Bool → Device → Device
corrected windows d = record d {
  baud = if d.baud == 0 then 115200 else d.baud;
  throughput = if windows then d.throughput else false;
}

unfoldable pub validate : Bool → Preferences → Preferences
validate windows p = record {
  device = corrected windows p.device;
  remembered = map (corrected windows) p.remembered;
}
