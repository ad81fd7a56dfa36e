-- ===== src/Motion/Invariant.antt =====
-- The history of one session: consecutive records, up to the capacity.
use pose_bridge.Prelude.{
  ℕ, suc, ◌+◌, ◌≤◌, ◌<◌, ◌≡◌, inl, inr, some, List, [], ◌∷◌, ◌++◌, arith, length, drop, back, ◌==◌,
  length-append, back-append, if◌then◌else◌, Bool-cases,
}
use pose_bridge.Motion.{MotionSample, History, push, sequence_of, cursor_of}

module _ {F : Type 0} where
  -- Records are numbered one after the other, from `n`.
  abbrev pub Consecutive : ℕ → List (ℕ × MotionSample F) → Type 0
  Consecutive n [] = Unit {0}
  Consecutive n (r ∷ rs) = (sequence_of r ≡ n) × Consecutive (suc n) rs

  -- The records are those of one instance and session.
  abbrev pub IsOwned : ℕ → ℕ → List (ℕ × MotionSample F) → Type 0
  IsOwned i s [] = Unit {0}
  IsOwned i s (r ∷ rs) =
      ((cursor_of r).instance_id ≡ i) × ((cursor_of r).session_id ≡ s) × IsOwned i s rs

  Consecutive-append :
      (n : ℕ) (rs : List (ℕ × MotionSample F)) (r : ℕ × MotionSample F)
      → Consecutive n rs
      → sequence_of r ≡ n + length rs
      → Consecutive n (rs ++ r ∷ [])
  Consecutive-append n [] r c e = (omega arith, tt)
  Consecutive-append n (x ∷ rs) r c e = (c.0, Consecutive-append (suc n) rs r c.1 (omega arith))

  IsOwned-append :
      (i s : ℕ) (rs : List (ℕ × MotionSample F)) (r : ℕ × MotionSample F)
      → IsOwned i s rs
      → (cursor_of r).instance_id ≡ i
      → (cursor_of r).session_id ≡ s
      → IsOwned i s (rs ++ r ∷ [])
  IsOwned-append i s [] r o e e' = (e, e', tt)
  IsOwned-append i s (x ∷ rs) r o e e' = (o.0, o.1, IsOwned-append i s rs r o.2 e e')

  -- The history of one session: numbered without a gap up to `latest`, and within the capacity.
  pub record IsHistory (i s latest : ℕ) (h : History F) : Type 0 where
    pub first : ℕ
    pub first_pos : 0 < first
    pub numbered : Consecutive first h.records
    pub owned : IsOwned i s h.records
    pub reaches : first + length h.records ≡ suc latest
    pub bounded : length h.records ≤ 256

  -- The list after the eviction of `push`.
  abbrev kept : List (ℕ × MotionSample F) → List (ℕ × MotionSample F)
  kept rs = if length rs == 256 then drop 1 rs else rs

  record IsKept (i s next : ℕ) (rs : List (ℕ × MotionSample F)) : Type 0 where
    first : ℕ
    first_pos : 0 < first
    numbered : Consecutive first rs
    owned : IsOwned i s rs
    reaches : first + length rs ≡ next
    below : length rs < 256

  drop-IsKept :
      (i s n next : ℕ) (rs : List (ℕ × MotionSample F))
      → 0 < n
      → Consecutive n rs
      → IsOwned i s rs
      → n + length rs ≡ next
      → length rs ≡ 256
      → IsKept i s next (drop 1 rs)
  drop-IsKept i s n next [] pos c o e l = absurd (omega arith)
  drop-IsKept i s n next (r ∷ rs) pos c o e l = record {
    first = suc n;
    first_pos = omega arith;
    numbered = c.1;
    owned = o.2;
    reaches = omega arith;
    below = omega arith;
  }

  kept-IsKept :
      (i s n next : ℕ) (rs : List (ℕ × MotionSample F))
      → 0 < n
      → Consecutive n rs
      → IsOwned i s rs
      → n + length rs ≡ next
      → length rs ≤ 256
      → IsKept i s next (kept rs)
  kept-IsKept i s n next rs pos c o e l = elim (Bool-cases (length rs == 256)) [
    | inl full ↦ rw full (drop-IsKept i s n next rs pos c o e (ground arith))
    | inr room ↦ rw room (record {
      first = n;
      first_pos = pos;
      numbered = c;
      owned = o;
      reaches = e;
      below = ground arith;
    })
  ]

  -- A session's history starts empty, and each record with the next sequence of that session keeps it
  -- without a gap and within 256 records, the oldest giving way.
  pub push-IsHistory :
      (i s latest received : ℕ) (h : History F) (p : MotionSample F)
      → IsHistory i s latest h
      → p.cursor.instance_id ≡ i
      → p.cursor.session_id ≡ s
      → p.cursor.sequence ≡ suc latest
      → IsHistory i s (suc latest) (push h received p)
        × (back (push h received p).records ≡ some (received, p))
  unfolding push
  push-IsHistory i s latest received h p v e e' e'' =
      let k : IsKept i s (suc latest) (kept h.records) =
        kept-IsKept i s v.first (suc latest) h.records v.first_pos v.numbered v.owned v.reaches
          v.bounded in
      (
        record {
          first = k.first;
          first_pos = k.first_pos;
          numbered =
              Consecutive-append k.first _ (received, p) k.numbered (omega (arith, k.reaches, e''));
          owned = IsOwned-append i s _ (received, p) k.owned e e';
          reaches = omega (arith, k.reaches, length-append (kept h.records) ((received, p) ∷ []));
          bounded = omega (arith, k.below, length-append (kept h.records) ((received, p) ∷ []));
        },
        back-append (kept h.records) (received, p),
      )
