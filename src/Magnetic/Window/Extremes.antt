-- ===== src/Magnetic/Window/Extremes.antt =====
-- The statistics of an open window.
use pose_bridge.Prelude.{
  ℕ, ◌+◌, ◌≡◌, false, Option, none, some, List, [], ◌∷◌, arith, length, map_or,
}
use pose_bridge.Prelude.Int.{ℤ, ltb_ℤ}
use pose_bridge.Magnetic.{Counts}
use pose_bridge.Magnetic.Window.{Window, min_ℤ, max_ℤ, zip_counts, observe}

unfoldable pub run : Window → List (Counts × ℕ) → Window
run w [] = w
run w ((xyz, now) ∷ readings) = run (observe w xyz now) readings

-- One axis of a reading lies in the range of two others.
abbrev pub InRange : ℤ → ℤ → ℤ → Type 0
InRange low v high = (ltb_ℤ v low ≡ false) × (ltb_ℤ high v ≡ false)

-- A reading lies between the extremes on each axis.
abbrev pub IsWithin : Option Counts → Option Counts → Counts → Type 0
IsWithin (some low) (some high) v =
    InRange low.x v.x high.x × InRange low.y v.y high.y × InRange low.z v.z high.z
IsWithin _ _ v = ⊥

min-InRange : (low v high r : ℤ) → InRange low v high → InRange (min_ℤ low r) v (max_ℤ high r)
unfolding min_ℤ max_ℤ
min-InRange low v high r h = ground arith

min-own : (low r : ℤ) → ltb_ℤ r (min_ℤ low r) ≡ false
unfolding min_ℤ
min-own low r = ground arith

max-own : (high r : ℤ) → ltb_ℤ (max_ℤ high r) r ≡ false
unfolding max_ℤ
max-own high r = ground arith

own : (r : ℤ) → ltb_ℤ r r ≡ false
own r = ground arith

-- The extremes with one more reading.
abbrev extend : (ℤ → ℤ → ℤ) → Option Counts → Counts → Option Counts
extend f extreme xyz = some (map_or extreme xyz (λ v. zip_counts f v xyz))

extend-IsWithin :
    (low high : Option Counts) (xyz v : Counts)
    → IsWithin low high v
    → IsWithin (extend min_ℤ low xyz) (extend max_ℤ high xyz) v
extend-IsWithin (some low) (some high) xyz v (a, b, c) = (
  min-InRange low.x v.x high.x xyz.x a,
  min-InRange low.y v.y high.y xyz.y b,
  min-InRange low.z v.z high.z xyz.z c,
)
extend-IsWithin none high xyz v h = absurd h
extend-IsWithin (some low) none xyz v h = absurd h

extend-IsWithin_own :
    (low high : Option Counts) (xyz : Counts)
    → IsWithin (extend min_ℤ low xyz) (extend max_ℤ high xyz) xyz
extend-IsWithin_own none none xyz =
    ((own xyz.x, own xyz.x), (own xyz.y, own xyz.y), (own xyz.z, own xyz.z))
extend-IsWithin_own none (some high) xyz = (
  (own xyz.x, max-own high.x xyz.x),
  (own xyz.y, max-own high.y xyz.y),
  (own xyz.z, max-own high.z xyz.z),
)
extend-IsWithin_own (some low) none xyz = (
  (min-own low.x xyz.x, own xyz.x),
  (min-own low.y xyz.y, own xyz.y),
  (min-own low.z xyz.z, own xyz.z),
)
extend-IsWithin_own (some low) (some high) xyz = (
  (min-own low.x xyz.x, max-own high.x xyz.x),
  (min-own low.y xyz.y, max-own high.y xyz.y),
  (min-own low.z xyz.z, max-own high.z xyz.z),
)

observe_open :
    (w : Window) (xyz : Counts) (now : ℕ)
    → w.end ≡ none
    → ((observe w xyz now).minimum ≡ extend min_ℤ w.minimum xyz)
      × ((observe w xyz now).maximum ≡ extend max_ℤ w.maximum xyz)
      × ((observe w xyz now).count ≡ w.count + 1)
      × ((observe w xyz now).end ≡ none)
unfolding observe
observe_open w xyz now h = ground arith

abbrev pub AllWithin : Window → List (Counts × ℕ) → Type 0
AllWithin w [] = Unit {0}
AllWithin w ((xyz, now) ∷ readings) = IsWithin w.minimum w.maximum xyz × AllWithin w readings

run-IsWithin :
    (w : Window) (readings : List (Counts × ℕ)) (v : Counts)
    → w.end ≡ none
    → IsWithin w.minimum w.maximum v
    → IsWithin (run w readings).minimum (run w readings).maximum v
unfolding run
run-IsWithin w [] v e h = h
run-IsWithin w ((xyz, now) ∷ readings) v e h =
    let (low, high, count, open_lem) = observe_open w xyz now e in
    run-IsWithin (observe w xyz now) readings v open_lem
      (rw (low, high) (extend-IsWithin w.minimum w.maximum xyz v h))

-- An open window counts its readings, and each of them lies between the final minimum and maximum on
-- every axis.
pub run-AllWithin :
    (w : Window) (readings : List (Counts × ℕ))
    → w.end ≡ none
    → ((run w readings).count ≡ w.count + length readings) × AllWithin (run w readings) readings
unfolding run
run-AllWithin w [] e = (omega arith, tt)
run-AllWithin w ((xyz, now) ∷ readings) e =
    let (low, high, count, open_lem) = observe_open w xyz now e in
    let rest = run-AllWithin (observe w xyz now) readings open_lem in
    (
      omega (arith, rest.0, count),
      (
        run-IsWithin (observe w xyz now) readings xyz open_lem
            (rw (low, high) (extend-IsWithin_own w.minimum w.maximum xyz)),
        rest.1,
      ),
    )
