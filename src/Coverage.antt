-- ===== src/Coverage.antt =====
-- One sweep's readings of crates/posebridge-client/src/posebridge/coverage.rs, and the axes of the headset
-- of mounting.rs beside it.
use pose_bridge.Prelude.{
  ℕ, Bool, true, false, not, ◌&&◌, Option, none, some, List, [], ◌∷◌, ◌++◌, leb, ◌==◌,
  if◌then◌else◌, length, drop,
}
use pose_bridge.Prelude.Int.{ℤ, pos, negsuc, nat_abs, ◌-ℤ◌, ◌*ℤ◌}
use pose_bridge.Motion.{Vec3}
use pose_bridge.Pose.{FloatOps}
use pose_bridge.Pose.Mounting.{Mounting, is_negative}
use pose_bridge.Controller.SetConfig.{same_axis}

abbrev pub max_readings : ℕ
max_readings = 4096

-- `axis.signum()`, of an axis that is not zero.
abbrev signum : ℤ → ℤ
signum axis = if is_negative axis then negsuc 0 else pos 1

-- `unit` of mounting.rs.
unfoldable pub unit : ℤ → Vec3 ℤ
unit axis = record {
  x = if nat_abs axis == 1 then signum axis else pos 0;
  y = if nat_abs axis == 2 then signum axis else pos 0;
  z = if nat_abs axis == 3 then signum axis else pos 0;
}

-- `cross` of mounting.rs.
unfoldable pub cross : Vec3 ℤ → Vec3 ℤ → Vec3 ℤ
cross a b = record {
  x = a.y *ℤ b.z -ℤ a.z *ℤ b.y;
  y = a.z *ℤ b.x -ℤ a.x *ℤ b.z;
  z = a.x *ℤ b.y -ℤ a.y *ℤ b.x;
}

abbrev pub same_vector : Vec3 ℤ → Vec3 ℤ → Bool
same_vector a b = same_axis a.x b.x && (same_axis a.y b.y && same_axis a.z b.z)

-- `(1..=3).contains(&axis.unsigned_abs())`.
abbrev pub is_axis : ℤ → Bool
is_axis axis = leb 1 (nat_abs axis) && leb (nat_abs axis) 3

unfoldable pub proper : Mounting → Bool
proper m =
    (is_axis m.right && (is_axis m.forward && is_axis m.up))
    && same_vector (cross (unit m.right) (unit m.forward)) (unit m.up)

pub record Coverage (F : Type 0) : Type 0 where
  pub readings : List (Vec3 F)

abbrev pub empty : {F : Type 0} → Coverage F
empty = record { readings = [] }

module _ {F : Type 0} (ops : FloatOps F) where
  abbrev pub dot : Vec3 F → Vec3 F → F
  dot a b = ops.add (ops.add (ops.mul a.x b.x) (ops.mul a.y b.y)) (ops.mul a.z b.z)

  -- `unit(axis).map(f64::from)`.
  abbrev unit_field : ℤ → Vec3 F
  unit_field axis = record {
    x = ops.of_int (unit axis).x;
    y = ops.of_int (unit axis).y;
    z = ops.of_int (unit axis).z;
  }

  unfoldable pub headset_axes : Mounting → Vec3 F → Option (Vec3 F)
  headset_axes m sensor =
      if proper m
      then some (record {
        x = dot (unit_field m.right) sensor;
        y = dot (unit_field m.forward) sensor;
        z = dot (unit_field m.up) sensor;
      })
      else none

  abbrev pub is_finite_field : Vec3 F → Bool
  is_finite_field v = ops.is_finite v.x && (ops.is_finite v.y && ops.is_finite v.z)

  -- `Coverage::push`; the answer is whether the reading was kept.
  unfoldable pub push : Coverage F → Vec3 F → Coverage F × Bool
  push c field = if not (is_finite_field field) then (c, false) else (
    record {
      readings =
          (if length c.readings == max_readings then drop 1 c.readings else c.readings)
          ++ field ∷ [];
    },
    true,
  )
