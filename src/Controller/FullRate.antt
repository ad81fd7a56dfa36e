-- ===== src/Controller/FullRate.antt =====
-- `FullFrameRate` of crates/posebridge-core/src/controller.rs: full inertial frames are taken only at
-- 20 Hz, by the median of the last gaps between their times in milliseconds.
pub mod Steady
use pose_bridge.Prelude.{
  ℕ, ◌+◌, ◌-◌, ◌/◌, Bool, true, false, not, ◌&&◌, Option, none, some, List, [], ◌∷◌, ◌++◌, ltb, leb,
  ◌==◌, if◌then◌else◌, length, drop,
}
use pose_bridge.Model.{Result, ok, err, protocol}

pub record FullFrameRate : Type 0 where
  pub last : Option ℕ
  pub gaps : List ℕ

-- `FullFrameRate::default()`.
abbrev pub default : FullFrameRate
default = record { last = none; gaps = [] }

-- `sort_unstable` of numbers.
unfoldable pub insert : ℕ → List ℕ → List ℕ
insert a [] = a ∷ []
insert a (b ∷ bs) = let rest = insert a bs in if leb a b then a ∷ b ∷ bs else b ∷ rest

unfoldable pub sort : List ℕ → List ℕ
sort [] = []
sort (a ∷ rest) = insert a (sort rest)

-- `sorted[i]` of an index in range.
unfoldable pub get : List ℕ → ℕ → ℕ
get [] i = 0
get (a ∷ others) i = let rest = get others (i - 1) in if i == 0 then a else rest

abbrev pub median : List ℕ → ℕ
median gaps = get (sort gaps) (length gaps / 2)

-- The gaps with one more, the oldest of eight giving way.
abbrev pub with_gap : List ℕ → ℕ → List ℕ
with_gap gaps gap = (if length gaps == 8 then drop 1 gaps else gaps) ++ gap ∷ []

-- Four gaps or more whose median is not that of 20 Hz.
abbrev pub is_off : List ℕ → Bool
is_off gaps = leb 4 (length gaps) && not (leb 45 (median gaps) && leb (median gaps) 55)

-- A frame after the first one. Refused, it leaves the time of the last one.
unfoldable pub observe_gap : FullFrameRate → List ℕ → ℕ → FullFrameRate × Result (Unit {0})
observe_gap r gaps time =
    if is_off gaps
    then (record r { gaps = gaps }, err protocol)
    else (record { last = some time; gaps = gaps }, ok tt)

unfoldable pub observe_time : Option ℕ → FullFrameRate → ℕ → FullFrameRate × Result (Unit {0})
observe_time none r time = (record r { last = some time }, ok tt)
observe_time (some previous) r time =
    if ltb time previous
    then (record { last = some time; gaps = [] }, ok tt)
    else if ltb previous time
    then observe_gap r (with_gap r.gaps (time - previous)) time
    else (record r { last = some time }, ok tt)

abbrev pub observe_full : FullFrameRate → Option ℕ → FullFrameRate × Result (Unit {0})
observe_full r none = (r, err protocol)
observe_full r (some time) = observe_time r.last r time

unfoldable pub observe : FullFrameRate → ℕ → Option ℕ → FullFrameRate × Result (Unit {0})
observe r profile time = if not (profile == 0xe4) then (default, ok tt) else observe_full r time
