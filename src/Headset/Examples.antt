-- ===== src/Headset/Examples.antt =====
-- Mountings that are chosen and revealed.
use pose_bridge.Prelude.{ℕ, ◌≡◌, refl, ◌↔◌, Bool, true, false, none, leb}
use pose_bridge.Prelude.Int.{pos, negsuc, ◌+ℤ◌, ◌-ℤ◌, ◌*ℤ◌}
use pose_bridge.Model
use pose_bridge.Model.{is_ok}
use pose_bridge.Pose.Mounting.{Mounting, validate, is_invalid, determinant, entry}
use pose_bridge.Headset.{
  nod, shake, tilt, Observation, Limits, usable, Calibration, observe, resolve, ok, can_complete,
  allows_axis,
}
use pose_bridge.Headset.Choices.{Keeps, can_complete-Keeps}
use pose_bridge.Headset.Revealed.{observe-resolve}

-- The sensor's -Y points right and its +X forward.
abbrev worn : Mounting
worn = record { right = negsuc 1; forward = pos 1; up = pos 3 }

abbrev presented : Mounting
presented = record { right = pos 1; forward = pos 2; up = pos 3 }

abbrev half_chosen : Mounting
half_chosen = record { right = negsuc 1; forward = pos 0; up = pos 3 }

refuses_same_axis : allows_axis half_chosen 1 (pos 2) ≡ false
unfolding allows_axis can_complete
refuses_same_axis = refl

allows_other_axis : allows_axis half_chosen 1 (pos 1) ≡ true
unfolding allows_axis can_complete validate is_invalid determinant entry ◌+ℤ◌ ◌-ℤ◌ ◌*ℤ◌
allows_other_axis = refl

can_complete-Keeps_example :
    (can_complete half_chosen ≡ true)
    ↔ ((t : Mounting) × (validate t ≡ Model.ok tt) × Keeps half_chosen t)
can_complete-Keeps_example = can_complete-Keeps half_chosen

abbrev limits : Limits ℕ
limits = record { le = leb; minimum_degrees = 20; minimum_purity = 85 }

abbrev turn : ℕ → Bool → Observation ℕ
turn axis positive = record { axis = axis; positive = positive; degrees = 40; purity = 95 }

abbrev nothing_found : Calibration
nothing_found = record { right = none; forward = none; up = none }

observe-resolve_example :
    resolve
      (observe limits
        (observe limits
          (observe limits nothing_found presented nod (turn 1 false)).0
          presented
          shake
          (turn 2 true)).0
        presented
        tilt
        (turn 0 true)).0
    ≡ ok worn
unfolding usable validate is_invalid determinant entry ◌+ℤ◌ ◌-ℤ◌ ◌*ℤ◌
observe-resolve_example =
    observe-resolve limits nothing_found presented worn (turn 1 false) (turn 2 true) (turn 0 true)
      refl (record { is_usable = refl; shows_axis = refl })
      (record { is_usable = refl; shows_axis = refl })
      (record { is_usable = refl; shows_axis = refl })
