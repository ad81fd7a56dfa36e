-- ===== src/Headset/Revealed.antt =====
-- What the motions of the head reveal.
use pose_bridge.Prelude.{
  ◌≡◌, refl, ap, ◌∙◌, arith, inl, inr, Bool, true, false, ◌&&◌, ◌||◌, Bool-cases, some,
  if◌then◌else◌,
}
use pose_bridge.Prelude.Int.{ℤ, nat_abs, ◌+ℤ◌, ◌-ℤ◌, ◌*ℤ◌}
use pose_bridge.Model.{Result, is_ok}
use pose_bridge.Model
use pose_bridge.Pose.Mounting.{Mounting, validate, is_invalid, is_no_axis, determinant, entry}
use pose_bridge.Pose.Mounting.Rotation.{all_axes, all_axes_lem, same}
use pose_bridge.Coverage.{unit, cross, proper}
use pose_bridge.Headset.{
  Motion, nod, shake, tilt, Observation, Limits, usable, Calibration, observe, sensor_axis, negated,
  resolve, resolve_axes, Resolution, err, ok, with_found, clear_motion,
}

abbrev is_resolved : Resolution → Bool
is_resolved (ok m) = true
is_resolved (err e) = false

unfoldable agrees : ℤ → ℤ → ℤ → Bool
agrees a b c =
    let m : Mounting = record { right = a; forward = b; up = c } in
    same (is_ok (validate m)) (is_resolved (resolve_axes m)) && same (is_ok (validate m)) (proper m)

all_agree : all_axes (λ a. all_axes (λ b. all_axes (λ c. agrees a b c))) ≡ true
unfolding all_axes agrees validate is_invalid determinant entry ◌+ℤ◌ ◌-ℤ◌ ◌*ℤ◌ resolve_axes proper
    cross unit
all_agree = refl

agrees_lem :
    (m : Mounting)
    → is_no_axis (nat_abs m.right) ≡ false
    → is_no_axis (nat_abs m.forward) ≡ false
    → is_no_axis (nat_abs m.up) ≡ false
    → agrees m.right m.forward m.up ≡ true
agrees_lem m h k l =
    all_axes_lem (λ c. agrees m.right m.forward c) m.up
      (all_axes_lem (λ b. all_axes (λ c. agrees m.right b c)) m.forward
        (all_axes_lem (λ a. all_axes (λ b. all_axes (λ c. agrees a b c))) m.right all_agree h) k)
      l

-- Out of range, nothing is accepted.
none_accept :
    (m : Mounting)
    → (is_no_axis (nat_abs m.right)
        || (is_no_axis (nat_abs m.forward) || is_no_axis (nat_abs m.up)))
      ≡ true
    → (is_ok (validate m) ≡ false) × (is_resolved (resolve_axes m) ≡ false) × (proper m ≡ false)
unfolding validate is_invalid resolve_axes proper
none_accept m h = (ground arith, ground arith, ground arith)

same-eq : (a b : Bool) → same a b ≡ true → a ≡ b
same-eq a b h = ground arith

axes_agree :
    (m : Mounting)
    → (is_resolved (resolve_axes m) ≡ is_ok (validate m)) × (proper m ≡ is_ok (validate m))
unfolding agrees
axes_agree m =
    elim (Bool-cases (
      is_no_axis (nat_abs m.right)
      || (is_no_axis (nat_abs m.forward) || is_no_axis (nat_abs m.up)))) [
        | inl h ↦ ground (arith, none_accept m h)
        | inr h ↦ ground (arith, agrees_lem m)
      ]

-- The check of the client before a magnetic session and the validation of the core accept the same
-- mountings.
pub proper-validate : (m : Mounting) → proper m ≡ is_ok (validate m)
proper-validate m = (axes_agree m).1

resolved_as : (m : Mounting) → is_resolved (resolve_axes m) ≡ true → resolve_axes m ≡ ok m
unfolding resolve_axes
resolved_as m h = ground arith

module _ {F : Type 0} (limits : Limits F) where
  -- A usable turn under the mounting `m`, about the sensor axis `axis`.
  pub record Shows (m : Mounting) (axis : ℤ) (o : Observation F) : Type 0 where
    pub is_usable : usable limits o ≡ true
    pub shows_axis :
        (if o.positive then sensor_axis m o.axis else negated (sensor_axis m o.axis)) ≡ axis

  observe_shown :
      (c : Calibration) (m : Mounting) (motion : Motion) (o : Observation F) (axis : ℤ)
      → Shows m axis o
      → (observe limits c m motion o).0 ≡ with_found (clear_motion c motion) motion (some axis)
  unfolding observe
  observe_shown c m motion o axis h =
      rw h.is_usable (ap (λ x. with_found (clear_motion c motion) motion (some x)) h.shows_axis)

  valid-resolve_axes : (t : Mounting) → validate t ≡ Model.ok tt → resolve_axes t ≡ ok t
  valid-resolve_axes t v = resolved_as t ((axes_agree t).0 ∙ ap is_ok v)

  -- Whatever was found before: when a nod, a shake and a tilt are each a usable turn about the sensor
  -- axis that a valid mounting has there, the mounting in use being any, the calibration resolves
  -- to that valid mounting.
  pub observe-resolve :
      (c : Calibration) (m t : Mounting) (n s l : Observation F)
      → validate t ≡ Model.ok tt
      → Shows m t.right n
      → Shows m t.up s
      → Shows m t.forward l
      → resolve
          (observe limits (observe limits (observe limits c m nod n).0 m shake s).0 m tilt l).0
        ≡ ok t
  unfolding resolve clear_motion
  observe-resolve c m t n s l v hn hs hl =
      let first = observe_shown c m nod n t.right hn in
      let second = observe_shown (observe limits c m nod n).0 m shake s t.up hs in
      let third =
        observe_shown (observe limits (observe limits c m nod n).0 m shake s).0 m tilt l t.forward
          hl in
      ap resolve (
        third
        ∙ ap (λ x. with_found (clear_motion x tilt) tilt (some t.forward))
            (second ∙ ap (λ x. with_found (clear_motion x shake) shake (some t.up)) first))
      ∙ valid-resolve_axes t v
