-- ===== src/Pose.antt =====
-- Quaternions and Euler angles of crates/posebridge-core/src/pose.rs, over the operations of f64, which are a parameter.
pub mod Mounting
use pose_bridge.Prelude.{Bool, not, ◌&&◌, ◌||◌, if◌then◌else◌}
use pose_bridge.Prelude.Int.{ℤ}
use pose_bridge.Model.{Result, ok, invalid, ◌>>◌, ◌>>=◌, fail_if}
use pose_bridge.Motion.{Vec3, Quat}

-- The operations of f64 that are used.
pub record FloatOps (F : Type 0) : Type 0 where
  pub add : F → F → F
  pub sub : F → F → F
  pub mul : F → F → F
  pub div : F → F → F
  pub neg : F → F
  pub abs : F → F
  pub sqrt : F → F
  pub atan2 : F → F → F
  pub asin : F → F
  pub acos : F → F
  pub sin : F → F
  pub cos : F → F
  pub to_degrees : F → F
  pub to_radians : F → F
  -- `clamp(-1.0, 1.0)`
  pub clamp : F → F
  -- `clamp(0.0, 1.0)`
  pub clamp_unit : F → F
  -- `as f64` of an integer below 2 ^ 53
  pub of_int : ℤ → F
  pub is_finite : F → Bool
  pub lt : F → F → Bool
  pub le : F → F → Bool
  -- the literals 0.0, 1.0, 2.0, 1e-6, 1e-7, 1e-12, 1e6 and 180.01
  pub zero : F
  pub one : F
  pub two : F
  pub micro : F
  pub tenth_micro : F
  pub pico : F
  pub million : F
  pub half_turn : F

module _ {F : Type 0} (ops : FloatOps F) where
  -- `v.is_finite()` of all four, negated.
  abbrev pub is_infinite : Quat F → Bool
  is_infinite q =
      not (ops.is_finite q.x)
      || (not (ops.is_finite q.y) || (not (ops.is_finite q.z) || not (ops.is_finite q.w)))

  abbrev pub norm : Quat F → F
  norm q = ops.sqrt (
      ops.add (ops.add (ops.add (ops.mul q.x q.x) (ops.mul q.y q.y)) (ops.mul q.z q.z))
        (ops.mul q.w q.w))

  unfoldable pub normalize : Quat F → Result (Quat F)
  normalize q =
      let n = norm q in
      do
        fail_if (is_infinite q) invalid
        fail_if (not (ops.is_finite n) || ops.lt n ops.micro) invalid
        ok (record { x = ops.div q.x n; y = ops.div q.y n; z = ops.div q.z n; w = ops.div q.w n })

  unfoldable pub multiply : Quat F → Quat F → Quat F
  multiply a b = record {
    x =
        ops.sub (ops.add (ops.add (ops.mul a.w b.x) (ops.mul a.x b.w)) (ops.mul a.y b.z))
          (ops.mul a.z b.y);
    y =
        ops.add (ops.add (ops.sub (ops.mul a.w b.y) (ops.mul a.x b.z)) (ops.mul a.y b.w))
          (ops.mul a.z b.x);
    z =
        ops.add (ops.sub (ops.add (ops.mul a.w b.z) (ops.mul a.x b.y)) (ops.mul a.y b.x))
          (ops.mul a.z b.w);
    w =
        ops.sub (ops.sub (ops.sub (ops.mul a.w b.w) (ops.mul a.x b.x)) (ops.mul a.y b.y))
          (ops.mul a.z b.z);
  }

  -- `[-x, -y, -z, w]`.
  abbrev pub conjugate : Quat F → Quat F
  conjugate q = record { x = ops.neg q.x; y = ops.neg q.y; z = ops.neg q.z; w = q.w }

  -- `axis(0, ..)`, `axis(1, ..)` and `axis(2, ..)`.
  abbrev half_angle : F → F
  half_angle degrees = ops.div (ops.to_radians degrees) ops.two

  unfoldable pub axis_x : F → Quat F
  axis_x degrees = record {
    x = ops.sin (half_angle degrees);
    y = ops.zero;
    z = ops.zero;
    w = ops.cos (half_angle degrees);
  }

  unfoldable pub axis_y : F → Quat F
  axis_y degrees = record {
    x = ops.zero;
    y = ops.sin (half_angle degrees);
    z = ops.zero;
    w = ops.cos (half_angle degrees);
  }

  unfoldable pub axis_z : F → Quat F
  axis_z degrees = record {
    x = ops.zero;
    y = ops.zero;
    z = ops.sin (half_angle degrees);
    w = ops.cos (half_angle degrees);
  }

  -- `any` of a test on three numbers.
  abbrev pub any_of : (F → Bool) → Vec3 F → Bool
  any_of p v = p v.x || (p v.y || p v.z)

  -- `!v.is_finite() || v.abs() > limit`.
  abbrev pub is_beyond : F → F → Bool
  is_beyond limit v = not (ops.is_finite v) || ops.lt limit (ops.abs v)

  -- A vector of angles is yaw, pitch, roll.
  unfoldable pub from_euler : Vec3 F → Result (Quat F)
  from_euler angles = do
    fail_if (any_of (is_beyond ops.million) angles) invalid
    normalize (multiply (multiply (axis_y angles.x) (axis_x angles.y)) (axis_z angles.z))

  unfoldable pub physical_from_euler : Vec3 F → Result (Quat F)
  physical_from_euler angles = do
    fail_if (any_of (λ v. not (ops.is_finite v)) angles) invalid
    normalize (multiply (multiply (axis_z angles.x) (axis_x angles.y)) (axis_y angles.z))

  -- `2.0 * v` and `1.0 - 2.0 * (a * a + b * b)`.
  abbrev pub twice : F → F
  twice v = ops.mul ops.two v

  abbrev pub rest_of : F → F → F
  rest_of a b = ops.sub ops.one (twice (ops.add (ops.mul a a) (ops.mul b b)))

  unfoldable pub to_euler : Quat F → Result (Vec3 F)
  to_euler given = do
    q ← normalize given
    ok (record {
      x =
          ops.to_degrees
            (ops.atan2 (twice (ops.add (ops.mul q.x q.z) (ops.mul q.w q.y))) (rest_of q.x q.y));
      y =
          ops.to_degrees
            (ops.asin (ops.clamp (twice (ops.sub (ops.mul q.w q.x) (ops.mul q.y q.z)))));
      z =
          ops.to_degrees
            (ops.atan2 (twice (ops.add (ops.mul q.x q.y) (ops.mul q.w q.z))) (rest_of q.x q.z));
    })

  -- The sum over the four components, in their order.
  abbrev dot : Quat F → Quat F → F
  dot a b =
      ops.add (ops.add (ops.add (ops.mul a.x b.x) (ops.mul a.y b.y)) (ops.mul a.z b.z))
        (ops.mul a.w b.w)

  unfoldable pub angular_distance_deg : Quat F → Quat F → Result F
  angular_distance_deg given given' = do
    a ← normalize given
    b ← normalize given'
    ok (ops.to_degrees (ops.mul ops.two (ops.acos (ops.clamp_unit (ops.abs (dot a b))))))
