-- ===== src/Controller/FullRate/Steady.antt =====
-- A stream at 20 Hz is never refused.
use pose_bridge.Prelude.{
  ℕ, ◌+◌, ◌-◌, ◌/◌, ◌≤◌, ◌<◌, ◌≡◌, refl, true, false, some, List, [], ◌∷◌, ◌++◌, arith, length,
  drop, Bool-cases, inl, inr, leb, ltb, ◌==◌, length-append, length-drop, lt→ltb,
}
use mathlib.Core.Path.{subst, sym}
use pose_bridge.Model.{is_ok}
use pose_bridge.Controller.FullRate.{
  FullFrameRate, insert, sort, get, with_gap, is_off, observe_gap, observe_time, observe,
}

-- Gaps of a stream at 20 Hz.
abbrev pub IsSteady : List ℕ → Type 0
IsSteady [] = Unit {0}
IsSteady (g ∷ gs) = (45 ≤ g) × (g ≤ 55) × IsSteady gs

insert-IsSteady : (a : ℕ) (gs : List ℕ) → 45 ≤ a → a ≤ 55 → IsSteady gs → IsSteady (insert a gs)
unfolding insert
insert-IsSteady a [] h h' s = (h, h', tt)
insert-IsSteady a (g ∷ gs) h h' s = elim (Bool-cases (leb a g)) [
  | inl small ↦ rw small (h, h', s)
  | inr large ↦ rw large (s.0, s.1, insert-IsSteady a gs h h' s.2)
]

sort-IsSteady : (gs : List ℕ) → IsSteady gs → IsSteady (sort gs)
unfolding sort
sort-IsSteady [] s = tt
sort-IsSteady (g ∷ gs) s = insert-IsSteady g (sort gs) s.0 s.1 (sort-IsSteady gs s.2)

length-insert : (a : ℕ) (gs : List ℕ) → length (insert a gs) ≡ length gs + 1
unfolding insert
length-insert a [] = refl
length-insert a (g ∷ gs) = elim (Bool-cases (leb a g)) [
  | inl small ↦ rw small (omega arith)
  | inr large ↦ rw large (omega (arith, length-insert a gs))
]

length-sort : (gs : List ℕ) → length (sort gs) ≡ length gs
unfolding sort
length-sort [] = refl
length-sort (g ∷ gs) = omega (arith, length-insert g (sort gs), length-sort gs)

get-IsSteady :
    (gs : List ℕ) (i : ℕ) → IsSteady gs → i < length gs → (45 ≤ get gs i) × (get gs i ≤ 55)
unfolding get
get-IsSteady [] i s h = absurd (omega arith)
get-IsSteady (g ∷ gs) i s h = elim (Bool-cases (i == 0)) [
  | inl z ↦ rw z (s.0, s.1)
  | inr p ↦ rw p (get-IsSteady gs (i - 1) s.2 (ground arith))
]

append-IsSteady : (gs : List ℕ) (g : ℕ) → IsSteady gs → 45 ≤ g → g ≤ 55 → IsSteady (gs ++ g ∷ [])
append-IsSteady [] g s h h' = (h, h', tt)
append-IsSteady (x ∷ gs) g s h h' = (s.0, s.1, append-IsSteady gs g s.2 h h')

drop-IsSteady : (gs : List ℕ) → IsSteady gs → IsSteady (drop 1 gs)
drop-IsSteady [] s = tt
drop-IsSteady (g ∷ gs) s = s.2

steady-is_off : (gs : List ℕ) → IsSteady gs → is_off gs ≡ false
steady-is_off gs s = elim (Bool-cases (leb 4 (length gs))) [
  | inl many ↦
      let m =
        get-IsSteady (sort gs) (length gs / 2) (sort-IsSteady gs s)
          (rw (length-sort gs) (ground arith)) in
      ground (arith, m.0, m.1)
  | inr few ↦ rw few refl
]

with_gap-IsSteady : (gs : List ℕ) (g : ℕ) → IsSteady gs → 45 ≤ g → g ≤ 55 → IsSteady (with_gap gs g)
with_gap-IsSteady gs g s h h' = elim (Bool-cases (length gs == 8)) [
  | inl full ↦ rw full (append-IsSteady (drop 1 gs) g (drop-IsSteady gs s) h h')
  | inr room ↦ rw room (append-IsSteady gs g s h h')
]

length-with_gap : (gs : List ℕ) (g : ℕ) → length gs ≤ 8 → length (with_gap gs g) ≤ 8
length-with_gap gs g h = elim (Bool-cases (length gs == 8)) [
  | inl full ↦ rw full (omega (arith, length-append (drop 1 gs) (g ∷ []), length-drop 1 gs))
  | inr room ↦
      rw room (let n : length gs < 8 = ground arith in omega (arith, length-append gs (g ∷ []), n))
]

-- What a stream of full inertial frames at 20 Hz keeps: its gaps, eight at most, are steady.
pub record IsTimed (r : FullFrameRate) (time : ℕ) : Type 0 where
  pub last : r.last ≡ some time
  pub steady : IsSteady r.gaps
  pub bounded : length r.gaps ≤ 8

observe_gap-IsTimed :
    (r : FullFrameRate) (gaps : List ℕ) (time : ℕ)
    → IsSteady gaps
    → length gaps ≤ 8
    → (is_ok (observe_gap r gaps time).1 ≡ true) × IsTimed (observe_gap r gaps time).0 time
unfolding observe_gap
observe_gap-IsTimed r gaps time s b =
    rw (steady-is_off gaps s) (refl, record { last = refl; steady = s; bounded = b })

-- A full inertial frame that comes 45 to 55 milliseconds after the one before is taken, as long as the
-- gaps so far were of that size, and keeps them so, with eight gaps at most.
pub observe-IsTimed :
    (r : FullFrameRate) (previous time : ℕ)
    → IsTimed r previous
    → previous + 45 ≤ time
    → time ≤ previous + 55
    → (is_ok (observe r 0xe4 (some time)).1 ≡ true) × IsTimed (observe r 0xe4 (some time)).0 time
unfolding observe observe_time
observe-IsTimed r previous time t h h' =
    let step =
      observe_gap-IsTimed r (with_gap r.gaps (time - previous)) time
        (with_gap-IsSteady r.gaps (time - previous) t.steady (omega arith) (omega arith))
        (length-with_gap r.gaps (time - previous) t.bounded) in
    let later : ltb time previous ≡ false = ground (arith) in
    subst (λ o. (is_ok (observe_time o r time).1 ≡ true) × IsTimed (observe_time o r time).0 time)
      (sym t.last) (rw (later, lt→ltb previous time (omega arith)) step)
