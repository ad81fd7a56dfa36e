-- ===== src/Client/Examples.antt =====
-- Devices that are selected, and come back.
use pose_bridge.Prelude.{◌≡◌, refl, [], ◌∷◌, length}
use pose_bridge.Prelude.Int.{pos}
use pose_bridge.Client.{Device, Preferences, ble, usb, new_device, remember, select}
use pose_bridge.Client.Remember.{select_back}

-- A mounting other than the default one, which must come back.
abbrev headset : Device
headset = record (new_device ble "a" "Headset") {
  mounting = record { right = pos 1; forward = pos 2; up = pos 3 };
}

abbrev preferences : Preferences
preferences = record { device = headset; remembered = new_device usb "b" "Old" ∷ [] }

selects_usb : (select preferences usb "b" "New").device ≡ new_device usb "b" "Old"
unfolding select remember
selects_usb = refl

remembers_two : length (select preferences usb "b" "New").remembered ≡ 2
unfolding select remember
remembers_two = refl

select_back_example : (select (select preferences usb "b" "New") ble "a" "Other").device ≡ headset
select_back_example = select_back preferences usb "b" "New" "Other" refl refl
