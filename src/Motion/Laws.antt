-- ===== src/Motion/Laws.antt =====
-- What a consumer that polls with cursors can rely on.
use pose_bridge.Motion.Invariant.{Consecutive, IsOwned, IsHistory}
use pose_bridge.Prelude.{
  ℕ, suc, ◌+◌, ◌-◌, ◌≤◌, ◌<◌, ◌≡◌, ◌≢◌, refl, ◌⊎◌, inl, inr, Bool, true, false, Option, none, some,
  List, [], ◌∷◌, map, arith, length, filter, back, ltb, length-map, u64_max, ap, lt→ltb, Bool-cases,
  ltb→lt,
}
use mathlib.Core.Option
use mathlib.Core.Path.{subst}
use pose_bridge.Motion.{
  MotionCursor, MotionSample, History, since, sequence_of, at_query, overrun_of, cursor_of,
  is_reset,
}

is_reset-own :
    (i s latest after : ℕ)
    → after ≤ latest
    → is_reset
        (some (record { instance_id = i; session_id = s; sequence = after }))
        (some (record { instance_id = i; session_id = s; sequence = latest }))
      ≡ false
is_reset-own i s latest after h = ground arith

-- The cursor is of another instance or session, or ahead of the latest record.
abbrev pub IsForeign : ℕ → ℕ → ℕ → MotionCursor → Type 0
IsForeign i s latest c = (c.instance_id ≢ i) ⊎ (c.session_id ≢ s) ⊎ (latest < c.sequence)

is_reset-foreign :
    (i s latest : ℕ) (c : MotionCursor)
    → IsForeign i s latest c
    → is_reset (some c) (some (record { instance_id = i; session_id = s; sequence = latest }))
      ≡ true
is_reset-foreign i s latest c h = ground arith

module _ {F : Type 0} where
  -- The records after a cursor.
  abbrev newer : ℕ → List (ℕ × MotionSample F) → List (ℕ × MotionSample F)
  newer after = filter (λ r. ltb after (sequence_of r))

  newer-all :
      (after n : ℕ) (rs : List (ℕ × MotionSample F))
      → Consecutive n rs
      → after < n
      → newer after rs ≡ rs
  newer-all after n [] c h = refl
  newer-all after n (r ∷ rs) c h =
      rw (lt→ltb after (sequence_of r) (omega arith))
        (ap (λ l. r ∷ l) (newer-all after (suc n) rs c.1 (omega arith)))

  record IsNewer (after next : ℕ) (rs : List (ℕ × MotionSample F)) : Type 0 where
    numbered : Consecutive (suc after) rs
    reaches : suc after + length rs ≡ next

  newer-IsNewer :
      (after n next : ℕ) (rs : List (ℕ × MotionSample F))
      → Consecutive n rs
      → n ≤ suc after
      → suc after ≤ next
      → n + length rs ≡ next
      → IsNewer after next (newer after rs)
  newer-IsNewer after n next [] c h k e = record { numbered = tt; reaches = omega arith }
  newer-IsNewer after n next (r ∷ rs) c h k e = elim (Bool-cases (ltb after (sequence_of r))) [
    | inl new ↦
        let n_lem : n ≡ suc after = omega (arith, ltb→lt after (sequence_of r) new, c.0) in
        rw (new, newer-all after (suc n) rs c.1 (omega arith))
          (record { numbered = subst (λ m. Consecutive m (r ∷ rs)) n_lem c; reaches = omega arith })
    | inr old ↦
        rw old (newer-IsNewer after (suc n) next rs c.1 (ground (arith, c.0)) k (omega arith))
  ]

  -- Ages and freshness do not touch the numbers.
  abbrev pub Numbered : ℕ → List (MotionSample F) → Type 0
  Numbered n [] = Unit {0}
  Numbered n (p ∷ ps) = (p.cursor.sequence ≡ n) × Numbered (suc n) ps

  map-Numbered :
      (now : ℕ) (active : Bool) (n : ℕ) (rs : List (ℕ × MotionSample F))
      → Consecutive n rs
      → Numbered n (map (at_query now active) rs)
  unfolding at_query
  map-Numbered now active n [] c = tt
  map-Numbered now active n (r ∷ rs) c = (c.0, map-Numbered now active (suc n) rs c.1)

  back-latest :
      (i s n latest : ℕ) (rs : List (ℕ × MotionSample F))
      → Consecutive n rs
      → IsOwned i s rs
      → n + length rs ≡ suc latest
      → 0 < length rs
      → Option.map cursor_of (back rs)
        ≡ some (record { instance_id = i; session_id = s; sequence = latest })
  back-latest i s n latest [] c o e h = absurd (omega arith)
  back-latest i s n latest (r ∷ []) c o e h = ground arith
  back-latest i s n latest (r ∷ r' ∷ rs) c o e h =
      back-latest i s (suc n) latest (r' ∷ rs) c.1 o.2 (omega arith) (omega arith)

  newer-Consecutive :
      (after n latest : ℕ) (rs : List (ℕ × MotionSample F))
      → Consecutive n rs
      → n + length rs ≡ suc latest
      → after ≤ latest
      → Consecutive (suc (after + (n - suc after))) (newer after rs)
        × (after + (n - suc after) + length (newer after rs) ≡ latest)
  newer-Consecutive after n latest rs c e le = elim (Bool-cases (ltb (suc after) n)) [
    | inl lost ↦
        let lt = ltb→lt (suc after) n lost in
        let n_lem : n ≡ suc (after + (n - suc after)) = omega arith in
        rw (newer-all after n rs c (omega arith))
          (subst (λ m. Consecutive m rs) n_lem c, omega arith)
    | inr none_lost ↦
        let none_lem : n - suc after ≡ 0 = ground arith in
        let after_lem : after + 0 ≡ after = omega arith in
        let v : IsNewer after (suc latest) (newer after rs) =
          newer-IsNewer after n (suc latest) rs c (omega arith) (omega arith) e in
        rw (none_lem, after_lem) (v.numbered, omega (arith, v.reaches))
  ]

  overrun_of_lem :
      (c : MotionCursor) (n after : ℕ) (rs : List (ℕ × MotionSample F))
      → Consecutive n rs
      → 0 < length rs
      → after < u64_max
      → overrun_of (some c) false after rs ≡ n - suc after
  unfolding overrun_of
  overrun_of_lem c n after [] e h k = absurd (omega arith)
  overrun_of_lem c n after (r ∷ rs) e h k = ground (arith, e.0)

  -- A consumer that polls with a cursor of the session, not ahead of it, misses nothing unnoticed:
  -- the batch is no reset, its records are numbered on from the cursor without a gap after the
  -- overrun, and cursor, overrun and records add up to the latest sequence, which is the new cursor.
  pub since-Numbered :
      (i s latest after now : ℕ) (h : History F) (active : Bool)
      → IsHistory i s latest h
      → 0 < length h.records
      → after ≤ latest
      → latest < u64_max
      → let b =
          since h
            (some (record { instance_id = i; session_id = s; sequence = after }))
            now
            active in
        (b.reset ≡ false)
        × (b.cursor ≡ some (record { instance_id = i; session_id = s; sequence = latest }))
        × Numbered (suc (after + b.history_overrun)) b.samples
        × (after + b.history_overrun + length b.samples ≡ latest)
  unfolding since
  since-Numbered i s latest after now h active v pos le small =
      let rs = h.records in
      let core = newer-Consecutive after v.first latest rs v.numbered v.reaches le in
      rw
        (
          back-latest i s v.first latest rs v.numbered v.owned v.reaches pos,
          is_reset-own i s latest after le,
          overrun_of_lem _ v.first after rs v.numbered pos (omega arith),
          length-map (newer after rs) (at_query now active),
        )
        (refl, refl, map-Numbered now active _ (newer after rs) core.0, core.1)

  overrun_of-reset :
      (c : Option MotionCursor) (after : ℕ) (rs : List (ℕ × MotionSample F))
      → overrun_of c true after rs ≡ 0
  unfolding overrun_of
  overrun_of-reset none after rs = refl
  overrun_of-reset (some c) after rs = refl

  -- A cursor that does not belong to the session, or that is ahead of it, is answered by a reset: all
  -- records that are kept, numbered without a gap up to the latest, and no overrun.
  pub since-reset :
      (i s latest now : ℕ) (h : History F) (active : Bool) (c : MotionCursor)
      → (v : IsHistory i s latest h) → 0 < length h.records
      → IsForeign i s latest c
      → let b = since h (some c) now active in
        (b.reset ≡ true)
        × (b.history_overrun ≡ 0)
        × Numbered v.first b.samples
        × (v.first + length b.samples ≡ suc latest)
  unfolding since
  since-reset i s latest now h active c v pos foreign =
      let rs = h.records in
      rw
        (
          back-latest i s v.first latest rs v.numbered v.owned v.reaches pos,
          is_reset-foreign i s latest c foreign,
          newer-all 0 v.first rs v.numbered v.first_pos,
          length-map rs (at_query now active),
        )
        (
          refl,
          overrun_of-reset (some c) 0 rs,
          map-Numbered now active v.first rs v.numbered,
          v.reaches,
        )
