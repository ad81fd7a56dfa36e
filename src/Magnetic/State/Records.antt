-- ===== src/Magnetic/State/Records.antt =====
-- The records of a magnetic session.
use Prim.Native.String.{String}
use pose_bridge.Prelude.{
  ℕ, ◌+◌, ◌≤◌, ◌<◌, ap, inl, inr, ◌≡◌, refl, false, Option, some, List, [], ◌∷◌, ◌++◌, arith,
  length, drop, filter, back, ltb, ◌==◌, if◌then◌else◌, length-append, back-append, Bool-cases,
}
use mathlib.Core.Option
use pose_bridge.Model.Observation.{OperationStatus}
use pose_bridge.Magnetic.{Counts, MagneticCursor, MagneticSample}
use pose_bridge.Magnetic.State.{State, observe, since, is_reset, sequence_of, cursor_of}

-- No record is newer than the sequence.
abbrev AllUpTo : ℕ → List (ℕ × MagneticSample) → Type 0
AllUpTo n [] = Unit {0}
AllUpTo n (r ∷ rs) = (sequence_of r ≤ n) × AllUpTo n rs

abbrev pub own_cursor : State → MagneticCursor
own_cursor s = record {
  instance_id = s.instance_id;
  session_id = s.session_id;
  sequence = s.sequence;
}

-- The history is bounded, and its last record is the one with the session's sequence.
pub record IsSession (s : State) : Type 0 where
  pub bounded : length s.records ≤ 256
  pub old : AllUpTo s.sequence s.records
  pub latest : (0 < s.sequence) → Option.map cursor_of (back s.records) ≡ some (own_cursor s)

AllUpTo-append :
    (n : ℕ) (rs : List (ℕ × MagneticSample)) (r : ℕ × MagneticSample)
    → AllUpTo n rs
    → sequence_of r ≡ n + 1
    → AllUpTo (n + 1) (rs ++ r ∷ [])
AllUpTo-append n [] r a e = (omega arith, tt)
AllUpTo-append n (x ∷ rs) r a e = (omega (arith, a.0), AllUpTo-append n rs r a.1 e)

AllUpTo-drop : (n : ℕ) (rs : List (ℕ × MagneticSample)) → AllUpTo n rs → AllUpTo n (drop 1 rs)
AllUpTo-drop n [] a = a
AllUpTo-drop n (r ∷ rs) a = a.1

drop-length : (rs : List (ℕ × MagneticSample)) → length rs ≡ 256 → length (drop 1 rs) ≡ 255
drop-length [] e = absurd (omega arith)
drop-length (r ∷ rs) e = omega arith

-- The eviction of `State::observe`.
abbrev kept : List (ℕ × MagneticSample) → List (ℕ × MagneticSample)
kept rs = if length rs == 256 then drop 1 rs else rs

kept_lem :
    (n : ℕ) (rs : List (ℕ × MagneticSample))
    → AllUpTo n rs
    → length rs ≤ 256
    → AllUpTo n (kept rs) × (length (kept rs) ≤ 255)
kept_lem n rs a h = elim (Bool-cases (length rs == 256)) [
  | inl full ↦ rw full (AllUpTo-drop n rs a, ground (arith, drop-length rs))
  | inr room ↦ rw room (a, ground arith)
]

-- A reading keeps the history within its capacity, is its last record, and is numbered one on.
pub observe-IsSession :
    (s : State) (xyz : Counts) (received start : ℕ)
    → IsSession s
    → IsSession (observe s xyz received start)
      × ((observe s xyz received start).sequence ≡ s.sequence + 1)
unfolding observe
observe-IsSession s xyz received start v =
    let (old, below) = kept_lem s.sequence s.records v.old v.bounded in
    (
      record {
        bounded = omega (arith, below, length-append (kept s.records) (_ ∷ []));
        old = AllUpTo-append s.sequence (kept s.records) _ old refl;
        latest = λ h. ap (Option.map cursor_of) (back-append (kept s.records) _);
      },
      refl,
    )

none_newer :
    (n : ℕ) (rs : List (ℕ × MagneticSample))
    → AllUpTo n rs
    → filter (λ r. ltb n (sequence_of r)) rs ≡ []
none_newer n [] a = refl
none_newer n (r ∷ rs) a = ground (arith, a.0, none_newer n rs a.1)

is_reset-own : (s : State) → is_reset s (some (own_cursor s)) ≡ false
is_reset-own s = ground arith

-- A consumer that holds the cursor of the last reading is handed no record and no reset, whenever
-- it asks.
pub since-own_cursor :
    (s : State) (source_id : String) (operation : Option OperationStatus) (now : ℕ)
    → IsSession s
    → let b = since s (some (own_cursor s)) source_id operation now in
      (b.reset ≡ false) × (b.samples ≡ [])
unfolding since
since-own_cursor s source_id operation now v =
    rw (is_reset-own s) (refl, rw (none_newer s.sequence s.records v.old) refl)
