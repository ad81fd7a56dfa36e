-- ===== src/Pose/Mounting.antt =====
-- `Mounting` of crates/posebridge-core/src/pose.rs: which signed sensor axis points right, forward and
-- up. The entries of its matrix are 1, 0 and -1, so the determinant that `validate` takes of them in
-- f64 is exact, and is the integer one here. An axis outside 1..3 is refused before it is an index.
pub mod Rotation
mod Examples
use pose_bridge.Prelude.{ℕ, ◌+◌, Bool, true, false, not, ◌&&◌, ◌||◌, leb, ◌==◌, if◌then◌else◌}
use pose_bridge.Prelude.Int.{ℤ, pos, negsuc, nat_abs, ltb_ℤ, ◌+ℤ◌, ◌-ℤ◌, ◌*ℤ◌}
use pose_bridge.Model.{Result, ok, err, invalid, protocol, ◌>>=◌, ◌>>◌, fail_if}
use pose_bridge.Motion.{Vec3, Quat}
use pose_bridge.Pose.{
  FloatOps, any_of, is_beyond, normalize, multiply, axis_x, axis_y, axis_z, from_euler, twice,
  rest_of,
}

pub record Mounting : Type 0 where
  pub right : ℤ
  pub forward : ℤ
  pub up : ℤ

abbrev pub is_negative : ℤ → Bool
is_negative (pos n) = false
is_negative (negsuc n) = true

-- The entry of the matrix in the row of an axis.
unfoldable pub entry : ℤ → ℕ → ℤ
entry axis column =
    if nat_abs axis == column + 1 then if is_negative axis then negsuc 0 else pos 1 else pos 0

unfoldable pub determinant : Mounting → ℤ
determinant m =
    let a = entry m.right in
    let b = entry m.forward in
    let c = entry m.up in
    a 0 *ℤ (b 1 *ℤ c 2 -ℤ b 2 *ℤ c 1)
    -ℤ a 1 *ℤ (b 0 *ℤ c 2 -ℤ b 2 *ℤ c 0)
    +ℤ a 2 *ℤ (b 0 *ℤ c 1 -ℤ b 1 *ℤ c 0)

abbrev pub is_no_axis : ℕ → Bool
is_no_axis n = not (leb 1 n && leb n 3)

-- The axes that `validate` refuses before it looks at the determinant.
unfoldable pub is_invalid : Mounting → Bool
is_invalid m =
    let a = nat_abs m.right in
    let b = nat_abs m.forward in
    let c = nat_abs m.up in
    is_no_axis a || (is_no_axis b || (is_no_axis c || (a == b || (a == c || b == c))))

unfoldable pub validate : Mounting → Result (Unit {0})
validate m = do fail_if (is_invalid m) invalid; fail_if (ltb_ℤ (determinant m) (pos 1)) invalid

module _ {F : Type 0} (ops : FloatOps F) where
  -- `sensor[axis.unsigned_abs() as usize - 1]` of a valid axis.
  abbrev pub component : Vec3 F → ℕ → F
  component v n = if n == 1 then v.x else if n == 2 then v.y else v.z

  abbrev pub sign : ℤ → F
  sign axis = if is_negative axis then ops.neg ops.one else ops.one

  abbrev pub along : Vec3 F → ℤ → F
  along v axis = ops.mul (component v (nat_abs axis)) (sign axis)

  unfoldable pub vector : Mounting → Vec3 F → Result (Vec3 F)
  vector m sensor = do
    validate m
    fail_if (any_of ops (λ v. not (ops.is_finite v)) sensor) invalid
    ok (record { x = along sensor m.right; y = along sensor m.forward; z = along sensor m.up })

  unfoldable pub physical_from_sensor_quaternion : Mounting → Quat F → Result (Quat F)
  physical_from_sensor_quaternion m sensor = do
    q ← normalize ops sensor
    v ← vector m (record { x = q.x; y = q.y; z = q.z })
    ok (record { x = v.x; y = v.y; z = v.z; w = q.w })

  -- `multiply(multiply(axis(2, z), axis(1, y)), axis(0, x))`.
  abbrev pub sensor_quaternion : Vec3 F → Quat F
  sensor_quaternion e =
      multiply ops (multiply ops (axis_z ops e.z) (axis_y ops e.y)) (axis_x ops e.x)

  unfoldable pub physical_from_sensor_euler : Mounting → Vec3 F → Result (Quat F)
  physical_from_sensor_euler m e = do
    fail_if (any_of ops (is_beyond ops ops.half_turn) e) protocol
    physical_from_sensor_quaternion m (sensor_quaternion e)

  -- The rotation matrix of a quaternion, by row and column.
  abbrev rotation : Quat F → ℕ → ℕ → F
  rotation q a b =
      let cross = λ (u : F) (v : F). twice ops (ops.add u v) in
      let anti = λ (u : F) (v : F). twice ops (ops.sub u v) in
      if a == 0
      then if b == 0
        then rest_of ops q.y q.z
        else if b == 1
        then anti (ops.mul q.x q.y) (ops.mul q.w q.z)
        else cross (ops.mul q.x q.z) (ops.mul q.w q.y)
      else if a == 1
      then if b == 0
        then cross (ops.mul q.x q.y) (ops.mul q.w q.z)
        else if b == 1
        then rest_of ops q.x q.z
        else anti (ops.mul q.y q.z) (ops.mul q.w q.x)
      else if b == 0
      then anti (ops.mul q.x q.z) (ops.mul q.w q.y)
      else if b == 1
      then cross (ops.mul q.y q.z) (ops.mul q.w q.x)
      else rest_of ops q.x q.y

  -- `head[i][j]`: the nine terms, added to 0.0 in the order of the loops.
  abbrev head : Quat F → ℤ → ℤ → F
  head q row column =
      let m = λ (axis : ℤ) (n : ℕ). ops.of_int (entry axis n) in
      let term = λ (a : ℕ) (b : ℕ). ops.mul (ops.mul (m row a) (rotation q a b)) (m column b) in
      let line =
        λ (start : F) (a : ℕ). ops.add (ops.add (ops.add start (term a 0)) (term a 1)) (term a 2) in
      line (line (line ops.zero 0) 1) 2

  -- The angles of the rotated orientation.
  abbrev angles_of : Mounting → Quat F → Vec3 F
  angles_of m q =
      let h = head q in
      let pitch = ops.asin (ops.clamp (h m.up m.forward)) in
      if ops.lt ops.tenth_micro (ops.abs (ops.cos pitch))
      then record {
        x = ops.to_degrees (ops.atan2 (ops.neg (h m.right m.forward)) (h m.forward m.forward));
        y = ops.to_degrees pitch;
        z = ops.to_degrees (ops.atan2 (ops.neg (h m.up m.right)) (h m.up m.up));
      }
      else record {
        x = ops.to_degrees (ops.atan2 (h m.forward m.right) (h m.right m.right));
        y = ops.to_degrees pitch;
        z = ops.to_degrees ops.zero;
      }

  unfoldable pub from_sensor_quaternion : Mounting → Quat F → Result (Quat F)
  from_sensor_quaternion m sensor = do
    validate m
    q ← normalize ops sensor
    from_euler ops (angles_of m q)

  unfoldable pub from_sensor_euler : Mounting → Vec3 F → Result (Quat F)
  from_sensor_euler m e = do
    fail_if (any_of ops (is_beyond ops ops.half_turn) e) protocol
    from_sensor_quaternion m (sensor_quaternion e)
