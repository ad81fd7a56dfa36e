-- ===== src/Headset.antt =====
-- crates/posebridge-client/src/posebridge/mounting.rs: which choices of sensor axes can still become a
-- mounting, and the mounting that three motions of the head reveal. What an observed turn measures is
-- compared with limits that are parameters, as f64 is.
pub mod Choices
pub mod Revealed
mod Examples
use pose_bridge.Prelude.{
  ℕ, zero, suc, Bool, true, false, not, ◌&&◌, ◌||◌, Option, none, some, leb, ◌==◌, if◌then◌else◌,
  is_some_and,
}
use pose_bridge.Prelude.Int.{ℤ, pos, negsuc, nat_abs}
use pose_bridge.Model.{is_ok}
use pose_bridge.Pose.Mounting.{Mounting, validate}
use pose_bridge.Coverage.{is_axis, unit, cross, same_vector}

abbrev pub is_zero : ℤ → Bool
is_zero axis = nat_abs axis == 0

abbrev pub clashes : ℤ → ℤ → Bool
clashes a b = nat_abs a == nat_abs b

-- The loop of `can_complete` goes on past an axis: it is none, or a new one.
abbrev pub is_new : ℤ → Bool → Bool
is_new axis taken = is_zero axis || (is_axis axis && not taken)

unfoldable pub can_complete : Mounting → Bool
can_complete m =
    is_new m.right false
    && (is_new m.forward (clashes m.right m.forward)
        && (is_new m.up (clashes m.right m.up || clashes m.forward m.up)
            && ((is_zero m.right || (is_zero m.forward || is_zero m.up)) || is_ok (validate m))))

-- The entry of an index is set.
abbrev pub with_entry : Mounting → ℕ → ℤ → Option Mounting
with_entry m index axis =
    if index == 0
    then some (record m { right = axis })
    else if index == 1
    then some (record m { forward = axis })
    else if index == 2
    then some (record m { up = axis })
    else none

unfoldable pub allows_axis : Mounting → ℕ → ℤ → Bool
allows_axis m index axis =
    is_some_and (with_entry m index axis) (λ chosen. is_zero axis || can_complete chosen)

pub data Problem : Type 0 where
  conflict incomplete : Problem

unfoldable pub selection_problem : Mounting → Option Problem
selection_problem m =
    if not (can_complete m)
    then some conflict
    else if is_zero m.right || (is_zero m.forward || is_zero m.up)
    then some incomplete
    else none

pub data Motion : Type 0 where
  nod shake tilt : Motion

pub record Observation (F : Type 0) : Type 0 where
  pub axis : ℕ
  pub positive : Bool
  pub degrees : F
  pub purity : F

-- The comparison and the limits `MINIMUM_DEGREES` and `MINIMUM_PURITY`.
pub record Limits (F : Type 0) : Type 0 where
  pub le : F → F → Bool
  pub minimum_degrees : F
  pub minimum_purity : F

unfoldable pub usable : {F : Type 0} → Limits F → Observation F → Bool
usable limits o =
    limits.le limits.minimum_degrees o.degrees && limits.le limits.minimum_purity o.purity

-- The `found` array.
pub record Calibration : Type 0 where
  pub right : Option ℤ
  pub forward : Option ℤ
  pub up : Option ℤ

-- `self.found[motion.axis()] = axis`.
abbrev pub with_found : Calibration → Motion → Option ℤ → Calibration
with_found c nod axis = record c { right = axis }
with_found c tilt axis = record c { forward = axis }
with_found c shake axis = record c { up = axis }

-- `mounting[observation.axis]`, whose axis is below 3.
abbrev pub sensor_axis : Mounting → ℕ → ℤ
sensor_axis m index = if index == 0 then m.right else if index == 1 then m.forward else m.up

abbrev pub negated : ℤ → ℤ
negated (pos zero) = pos 0
negated (pos (suc n)) = negsuc n
negated (negsuc n) = pos (suc n)

unfoldable pub clear_motion : Calibration → Motion → Calibration
clear_motion c motion = with_found c motion none

-- `Calibration::record`.
unfoldable pub observe :
    {F : Type 0} → Limits F → Calibration → Mounting → Motion → Observation F → Calibration × Bool
observe limits c m motion o =
    let cleared = clear_motion c motion in
    if not (usable limits o) then (cleared, false) else (
      with_found cleared motion
          (some (if o.positive then sensor_axis m o.axis else negated (sensor_axis m o.axis))),
      true,
    )

pub data Unresolved : Type 0 where
  missing_motion no_axis repeated_axis left_handed : Unresolved

pub data Resolution : Type 0 where
  err : Unresolved → Resolution
  ok : Mounting → Resolution

-- The test of one axis in the loop of `resolve`, with those before it.
abbrev pub problem_of : ℤ → Bool → Option Unresolved
problem_of axis seen =
    if not (is_axis axis) then some no_axis else if seen then some repeated_axis else none

abbrev pub or_else : Option Unresolved → Resolution → Resolution
or_else (some e) next = err e
or_else none next = next

unfoldable pub resolve_axes : Mounting → Resolution
resolve_axes m = or_else (problem_of m.right false) (
    or_else (problem_of m.forward (clashes m.right m.forward)) (
      or_else (problem_of m.up (clashes m.right m.up || clashes m.forward m.up)) (
        if not (same_vector (cross (unit m.right) (unit m.forward)) (unit m.up))
        then err left_handed
        else ok m)))

abbrev pub resolve_found : Option ℤ → Option ℤ → Option ℤ → Resolution
resolve_found (some a) (some b) (some c) = resolve_axes (record { right = a; forward = b; up = c })
resolve_found _ _ _ = err missing_motion

-- `Calibration::resolve`.
unfoldable pub resolve : Calibration → Resolution
resolve c = resolve_found c.right c.forward c.up
