-- ===== src/Pose/Mounting/Rotation.antt =====
-- Which mountings are valid.
use pose_bridge.Prelude.{
  zero, suc, ◌≡◌, refl, ◌↔◌, inl, inr, Bool, true, false, not, ◌&&◌, ◌||◌, arith, ◌==◌, Bool-cases,
  sym, ap, ◌∙◌,
}
use pose_bridge.Prelude.Int.{ℤ, pos, negsuc, nat_abs, pos_part, neg_part, ◌+ℤ◌, ◌-ℤ◌, ◌*ℤ◌}
use pose_bridge.Model.{Result, ok, err, is_ok}
use pose_bridge.Pose.Mounting.{Mounting, entry, determinant, is_invalid, is_no_axis, validate}

-- The product of two rows of the matrix.
unfoldable pub row_product : ℤ → ℤ → ℤ
row_product a b = entry a 0 *ℤ entry b 0 +ℤ entry a 1 *ℤ entry b 1 +ℤ entry a 2 *ℤ entry b 2

-- The rows are unit vectors at right angles, and the basis is right-handed.
pub record IsRotation (m : Mounting) : Type 0 where
  pub unit_right : row_product m.right m.right ≡ pos 1
  pub unit_forward : row_product m.forward m.forward ≡ pos 1
  pub unit_up : row_product m.up m.up ≡ pos 1
  pub right_forward : row_product m.right m.forward ≡ pos 0
  pub right_up : row_product m.right m.up ≡ pos 0
  pub forward_up : row_product m.forward m.up ≡ pos 0
  pub right_handed : determinant m ≡ pos 1

unfoldable pub eq_ℤ : ℤ → ℤ → Bool
eq_ℤ a b = pos_part a == pos_part b && neg_part a == neg_part b

pub eq_ℤ-eq : (a b : ℤ) → (eq_ℤ a b ≡ true) ↔ (a ≡ b)
unfolding eq_ℤ
eq_ℤ-eq a b = (λ h. ground arith, λ h. ground arith)

-- The equations of `IsRotation`, tested.
unfoldable is_rotation : Mounting → Bool
is_rotation m =
    eq_ℤ (row_product m.right m.right) (pos 1)
    && (eq_ℤ (row_product m.forward m.forward) (pos 1)
        && (eq_ℤ (row_product m.up m.up) (pos 1)
            && (eq_ℤ (row_product m.right m.forward) (pos 0)
                && (eq_ℤ (row_product m.right m.up) (pos 0)
                    && (eq_ℤ (row_product m.forward m.up) (pos 0)
                        && eq_ℤ (determinant m) (pos 1))))))

abbrev pub same : Bool → Bool → Bool
same true b = b
same false b = not b

unfoldable agrees : ℤ → ℤ → ℤ → Bool
agrees a b c =
    let m : Mounting = record { right = a; forward = b; up = c } in
    same (is_ok (validate m)) (is_rotation m)

-- A test of the six signed axes.
unfoldable pub all_axes : (ℤ → Bool) → Bool
all_axes p =
    p (pos 1) && (p (pos 2) && (p (pos 3) && (p (negsuc 0) && (p (negsuc 1) && p (negsuc 2)))))

pub all_axes_lem :
    (p : ℤ → Bool) (a : ℤ) → all_axes p ≡ true → is_no_axis (nat_abs a) ≡ false → p a ≡ true
unfolding all_axes
all_axes_lem p (pos zero) h k = cc
all_axes_lem p (pos (suc zero)) h k = ground arith
all_axes_lem p (pos (suc (suc zero))) h k = ground arith
all_axes_lem p (pos (suc (suc (suc zero)))) h k = ground arith
all_axes_lem p (pos (suc (suc (suc (suc n))))) h k = ground arith
all_axes_lem p (negsuc zero) h k = ground arith
all_axes_lem p (negsuc (suc zero)) h k = ground arith
all_axes_lem p (negsuc (suc (suc zero))) h k = ground arith
all_axes_lem p (negsuc (suc (suc (suc n)))) h k = ground arith

all_agree : all_axes (λ a. all_axes (λ b. all_axes (λ c. agrees a b c))) ≡ true
unfolding all_axes agrees validate is_invalid is_rotation row_product determinant entry eq_ℤ ◌+ℤ◌
    ◌-ℤ◌ ◌*ℤ◌
all_agree = refl

agrees_lem :
    (m : Mounting)
    → is_no_axis (nat_abs m.right) ≡ false
    → is_no_axis (nat_abs m.forward) ≡ false
    → is_no_axis (nat_abs m.up) ≡ false
    → same (is_ok (validate m)) (is_rotation m) ≡ true
unfolding agrees
agrees_lem m h k l =
    all_axes_lem (λ c. agrees m.right m.forward c) m.up
      (all_axes_lem (λ b. all_axes (λ c. agrees m.right b c)) m.forward
        (all_axes_lem (λ a. all_axes (λ b. all_axes (λ c. agrees a b c))) m.right all_agree h) k)
      l

row_product_none : (a : ℤ) → is_no_axis (nat_abs a) ≡ true → row_product a a ≡ pos 0
unfolding row_product entry ◌+ℤ◌ ◌*ℤ◌
row_product_none a h = ground arith

is_rotation-IsRotation : (m : Mounting) → (is_rotation m ≡ true) ↔ IsRotation m
unfolding is_rotation eq_ℤ
is_rotation-IsRotation m = (λ h. ground arith, λ r. ground arith)

validate_none :
    (m : Mounting)
    → (is_no_axis (nat_abs m.right)
        || (is_no_axis (nat_abs m.forward) || is_no_axis (nat_abs m.up)))
      ≡ true
    → (is_ok (validate m) ≡ false) × (is_rotation m ≡ false)
unfolding validate is_invalid is_rotation eq_ℤ
validate_none m h =
    ground (arith, row_product_none m.right, row_product_none m.forward, row_product_none m.up)

validate-is_rotation : (m : Mounting) → is_ok (validate m) ≡ is_rotation m
validate-is_rotation m =
    elim (Bool-cases (
      is_no_axis (nat_abs m.right)
      || (is_no_axis (nat_abs m.forward) || is_no_axis (nat_abs m.up)))) [
        | inl h ↦ ground (arith, validate_none m h)
        | inr h ↦ ground (arith, agrees_lem m)
      ]

pub is_ok-ok : (r : Result (Unit {0})) → is_ok r ≡ true → r ≡ ok tt
is_ok-ok (ok tt) h = refl
is_ok-ok (err e) h = cc

-- The accepted mountings are exactly the proper rotations: those whose rows are unit vectors at right
-- angles to one another, with the determinant 1.
pub validate-IsRotation : (m : Mounting) → (validate m ≡ ok tt) ↔ IsRotation m
validate-IsRotation m = (
  λ h. (is_rotation-IsRotation m).0 (sym (validate-is_rotation m) ∙ ap is_ok h),
  λ r. is_ok-ok (validate m) (validate-is_rotation m ∙ (is_rotation-IsRotation m).1 r),
)
