-- ===== src/Headset/Choices.antt =====
-- Which choices of sensor axes can become a mounting.
use pose_bridge.Prelude.{
  zero, suc, ◌≡◌, refl, ◌↔◌, ◌⊎◌, sym, ap, ◌∙◌, arith, inl, inr, Bool, true, false, not, ◌&&◌, ◌||◌,
  Bool-cases,
}
use pose_bridge.Prelude.Int.{ℤ, pos, negsuc, nat_abs, ◌+ℤ◌, ◌-ℤ◌, ◌*ℤ◌}
use pose_bridge.Model.{is_ok, ok}
use pose_bridge.Pose.Mounting.{Mounting, validate, is_invalid, is_no_axis, determinant, entry}
use pose_bridge.Pose.Mounting.Rotation.{all_axes, all_axes_lem, same, eq_ℤ, is_ok-ok}
use pose_bridge.Headset.{can_complete, is_zero}

-- A mounting keeps each axis that was chosen.
pub record Keeps (m t : Mounting) : Type 0 where
  pub right : (m.right ≡ pos 0) ⊎ (m.right ≡ t.right)
  pub forward : (m.forward ≡ pos 0) ⊎ (m.forward ≡ t.forward)
  pub up : (m.up ≡ pos 0) ⊎ (m.up ≡ t.up)

unfoldable any_axis : (ℤ → Bool) → Bool
any_axis p =
    p (pos 1) || (p (pos 2) || (p (pos 3) || (p (negsuc 0) || (p (negsuc 1) || p (negsuc 2)))))

any_axis_out : (p : ℤ → Bool) → any_axis p ≡ true → (a : ℤ) × (p a ≡ true)
unfolding any_axis
any_axis_out p h = elim (Bool-cases (p (pos 1))) [
  | inl e ↦ (pos 1, e)
  | inr e1 ↦ elim (Bool-cases (p (pos 2))) [
    | inl e ↦ (pos 2, e)
    | inr e2 ↦ elim (Bool-cases (p (pos 3))) [
      | inl e ↦ (pos 3, e)
      | inr e3 ↦ elim (Bool-cases (p (negsuc 0))) [
        | inl e ↦ (negsuc 0, e)
        | inr e4 ↦ elim (Bool-cases (p (negsuc 1))) [
          | inl e ↦ (negsuc 1, e)
          | inr e5 ↦ (negsuc 2, ground arith)
        ]
      ]
    ]
  ]
]

any_axis_in :
    (p : ℤ → Bool) (a : ℤ) → is_no_axis (nat_abs a) ≡ false → p a ≡ true → any_axis p ≡ true
unfolding any_axis
any_axis_in p (pos zero) k h = cc
any_axis_in p (pos (suc zero)) k h = ground arith
any_axis_in p (pos (suc (suc zero))) k h = ground arith
any_axis_in p (pos (suc (suc (suc zero)))) k h = ground arith
any_axis_in p (pos (suc (suc (suc (suc n))))) k h = ground arith
any_axis_in p (negsuc zero) k h = ground arith
any_axis_in p (negsuc (suc zero)) k h = ground arith
any_axis_in p (negsuc (suc (suc zero))) k h = ground arith
any_axis_in p (negsuc (suc (suc (suc n)))) k h = ground arith

-- The empty choice, or an axis.
abbrev is_choice : ℤ → Bool
is_choice a = is_zero a || not (is_no_axis (nat_abs a))

unfoldable all_choices : (ℤ → Bool) → Bool
all_choices p = p (pos 0) && all_axes p

all_choices_lem : (p : ℤ → Bool) (a : ℤ) → all_choices p ≡ true → is_choice a ≡ true → p a ≡ true
unfolding all_choices
all_choices_lem p (pos zero) h k = ground arith
all_choices_lem p (pos (suc n)) h k = all_axes_lem p (pos (suc n)) (ground arith) (ground arith)
all_choices_lem p (negsuc n) h k = all_axes_lem p (negsuc n) (ground arith) (ground arith)

unfoldable fits : ℤ → ℤ → Bool
fits e a = is_zero e || eq_ℤ e a

unfoldable completes : Mounting → ℤ → ℤ → ℤ → Bool
completes m a b c =
    fits m.right a
    && (fits m.forward b
        && (fits m.up c && is_ok (validate (record { right = a; forward = b; up = c }))))

unfoldable completable : Mounting → Bool
completable m = any_axis (λ a.
    fits m.right a
    && any_axis (λ b. fits m.forward b && any_axis (λ c. fits m.up c && completes m a b c)))

unfoldable agrees : ℤ → ℤ → ℤ → Bool
agrees a b c =
    let m : Mounting = record { right = a; forward = b; up = c } in
    same (can_complete m) (completable m)

all_agree : all_choices (λ a. all_choices (λ b. all_choices (λ c. agrees a b c))) ≡ true
unfolding all_choices all_axes any_axis agrees completable completes fits eq_ℤ can_complete validate
    is_invalid determinant entry ◌+ℤ◌ ◌-ℤ◌ ◌*ℤ◌
all_agree = refl

can_complete-is_choice :
    (m : Mounting)
    → can_complete m ≡ true
    → (is_choice m.right ≡ true) × (is_choice m.forward ≡ true) × (is_choice m.up ≡ true)
unfolding can_complete
can_complete-is_choice m h = (ground arith, ground arith, ground arith)

same-eq : (a b : Bool) → same a b ≡ true → a ≡ b
same-eq a b h = ground arith

can_complete-completable :
    (m : Mounting)
    → is_choice m.right ≡ true
    → is_choice m.forward ≡ true
    → is_choice m.up ≡ true
    → can_complete m ≡ completable m
unfolding agrees
can_complete-completable m h k l = same-eq _ _ (
    all_choices_lem (λ c. agrees m.right m.forward c) m.up
      (all_choices_lem (λ b. all_choices (λ c. agrees m.right b c)) m.forward
        (all_choices_lem (λ a. all_choices (λ b. all_choices (λ c. agrees a b c))) m.right all_agree
          h)
        k)
      l)

and-both : (a b : Bool) → (a && b) ≡ true → (a ≡ true) × (b ≡ true)
and-both true b h = (refl, h)
and-both false b h = cc

both-and : (a b : Bool) → a ≡ true → b ≡ true → (a && b) ≡ true
both-and a b h k = ground arith

fits_kept : (e a : ℤ) → fits e a ≡ true → (e ≡ pos 0) ⊎ (e ≡ a)
unfolding fits eq_ℤ
fits_kept e a h = ground arith

kept_fits : (e a : ℤ) → (e ≡ pos 0) ⊎ (e ≡ a) → fits e a ≡ true
unfolding fits eq_ℤ
kept_fits e a h = ground arith

completes-Keeps :
    (m : Mounting) (a b c : ℤ)
    → completes m a b c ≡ true
    → (t : Mounting) × (validate t ≡ ok tt) × Keeps m t
unfolding completes
completes-Keeps m a b c h =
    let (r, h2) = and-both _ _ h in
    let (f, h3) = and-both _ _ h2 in
    let (u, v) = and-both _ _ h3 in
    (
      record { right = a; forward = b; up = c },
      is_ok-ok _ v,
      record {
        right = fits_kept m.right a r;
        forward = fits_kept m.forward b f;
        up = fits_kept m.up c u;
      },
    )

completable-Keeps :
    (m : Mounting) → completable m ≡ true → (t : Mounting) × (validate t ≡ ok tt) × Keeps m t
unfolding completable
completable-Keeps m h =
    let (a, ha) = any_axis_out _ h in
    let (b, hb) = any_axis_out _ (and-both _ _ ha).1 in
    let (c, hc) = any_axis_out _ (and-both _ _ hb).1 in completes-Keeps m a b c (and-both _ _ hc).1

valid-in_range :
    (t : Mounting)
    → validate t ≡ ok tt
    → (is_no_axis (nat_abs t.right) ≡ false)
      × (is_no_axis (nat_abs t.forward) ≡ false)
      × (is_no_axis (nat_abs t.up) ≡ false)
unfolding validate is_invalid
valid-in_range t h = (ground arith, ground arith, ground arith)

kept-is_choice :
    (e a : ℤ) → (e ≡ pos 0) ⊎ (e ≡ a) → is_no_axis (nat_abs a) ≡ false → is_choice e ≡ true
kept-is_choice e a h k = ground arith

Keeps-completable : (m t : Mounting) → validate t ≡ ok tt → Keeps m t → completable m ≡ true
unfolding completable completes
Keeps-completable m t v k =
    let (r, f, u) = valid-in_range t v in
    let hr = kept_fits m.right t.right k.right in
    let hf = kept_fits m.forward t.forward k.forward in
    let hu = kept_fits m.up t.up k.up in
    any_axis_in _ t.right r (
      both-and _ _ hr (
        any_axis_in _ t.forward f (
          both-and _ _ hf (
            any_axis_in _ t.up u (
              both-and _ _ hu
                (both-and _ _ hr (both-and _ _ hf (both-and _ _ hu (ap is_ok v)))))))))

-- A choice of axes, some of them left open, can be completed exactly when a valid mounting keeps every
-- axis that was chosen.
pub can_complete-Keeps :
    (m : Mounting) → (can_complete m ≡ true) ↔ ((t : Mounting) × (validate t ≡ ok tt) × Keeps m t)
can_complete-Keeps m = (forth, back)
  where
    forth : can_complete m ≡ true → (t : Mounting) × (validate t ≡ ok tt) × Keeps m t
    forth h =
        let (r, f, u) = can_complete-is_choice m h in
        completable-Keeps m (sym (can_complete-completable m r f u) ∙ h)

    back : (t : Mounting) × (validate t ≡ ok tt) × Keeps m t → can_complete m ≡ true
    back (t, v, k) =
        let (r, f, u) = valid-in_range t v in
        can_complete-completable m (kept-is_choice _ _ k.right r) (kept-is_choice _ _ k.forward f)
          (kept-is_choice _ _ k.up u)
        ∙ Keeps-completable m t v k
