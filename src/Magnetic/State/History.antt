-- ===== src/Magnetic/State/History.antt =====
-- The history of a magnetic session beside the readings that came in.
use pose_bridge.Prelude.{
  ℕ, zero, suc, ◌+◌, ◌-◌, ◌≤◌, ◌≡◌, ◌≢◌, refl, sym, ap, ◌∙◌, inl, inr, Bool-cases, List, [], ◌∷◌,
  ◌++◌, arith, map, length, drop, ◌==◌, if◌then◌else◌, length-append, length-drop, length-map,
}
use mathlib.Core.Path.{subst}
use mathlib.Core.List.{append_assoc, append-nil}
use pose_bridge.Magnetic.{Counts, MagneticSample}
use pose_bridge.Magnetic.State.{State, new, observe, sequence_of}

-- The readings one after another, each with the instant at which it came in.
unfoldable pub observe_all : List (Counts × ℕ) → ℕ → State → State
observe_all [] start s = s
observe_all ((xyz, received) ∷ readings) start s =
    observe_all readings start (observe s xyz received start)

-- What a record keeps of its reading.
abbrev pub reading_of : ℕ × MagneticSample → Counts × ℕ
reading_of r = (r.1.register_xyz, r.0)

-- The records are numbered one after another, the first one by `n + 1`.
abbrev pub Numbered : ℕ → List (ℕ × MagneticSample) → Type 0
Numbered n [] = Unit {0}
Numbered n (r ∷ rs) = (sequence_of r ≡ n + 1) × Numbered (n + 1) rs

-- The last 256 readings, or all of them.
abbrev pub newest : {A : Type 0} → List A → List A
newest l = drop (length l - 256) l

-- The state holds what is left of the readings.
pub record Holds (readings : List (Counts × ℕ)) (s : State) : Type 0 where
  pub counted : s.sequence ≡ length readings
  pub held : map reading_of s.records ≡ newest readings
  pub numbered : Numbered (length readings - 256) s.records

drop_next : {A : Type 0} (k : ℕ) (l : List A) → drop 1 (drop k l) ≡ drop (suc k) l
drop_next zero l = refl
drop_next (suc k) [] = refl
drop_next (suc k) (a ∷ l) = drop_next k l

drop-append : {A : Type 0} (k : ℕ) (l m : List A) → k ≤ length l → drop k (l ++ m) ≡ drop k l ++ m
drop-append zero l m h = refl
drop-append (suc k) [] m h = absurd (omega arith)
drop-append (suc k) (a ∷ l) m h = drop-append k l m (omega arith)

map-append :
    (rs : List (ℕ × MagneticSample)) (r : ℕ × MagneticSample)
    → map reading_of (rs ++ r ∷ []) ≡ map reading_of rs ++ reading_of r ∷ []
map-append [] r = refl
map-append (x ∷ rs) r = ap (λ l. reading_of x ∷ l) (map-append rs r)

map-drop :
    (rs : List (ℕ × MagneticSample)) → map reading_of (drop 1 rs) ≡ drop 1 (map reading_of rs)
map-drop [] = refl
map-drop (x ∷ rs) = refl

Numbered-drop :
    (n : ℕ) (rs : List (ℕ × MagneticSample)) → Numbered n rs → Numbered (n + 1) (drop 1 rs)
Numbered-drop n [] h = tt
Numbered-drop n (r ∷ rs) h = h.1

Numbered-append :
    (n : ℕ) (rs : List (ℕ × MagneticSample)) (r : ℕ × MagneticSample)
    → Numbered n rs
    → sequence_of r ≡ n + length rs + 1
    → Numbered n (rs ++ r ∷ [])
Numbered-append n [] r h e = (omega arith, tt)
Numbered-append n (x ∷ rs) r h e = (h.0, Numbered-append (n + 1) rs r h.1 (omega arith))

-- A record after those that are kept.
appended-Holds :
    (done : List (Counts × ℕ)) (x : Counts × ℕ) (s : State) (left kept : List (ℕ × MagneticSample))
    (r : ℕ × MagneticSample) (k : ℕ)
    → length (done ++ x ∷ []) - 256 ≡ k
    → k ≤ length done
    → s.records ≡ left ++ r ∷ []
    → left ≡ kept
    → s.sequence ≡ length done + 1
    → sequence_of r ≡ length done + 1
    → reading_of r ≡ x
    → map reading_of kept ≡ drop k done
    → Numbered k kept
    → Holds (done ++ x ∷ []) s
appended-Holds done x s left kept r k e h records same sequence own reading held numbered =
    let records' : s.records ≡ kept ++ r ∷ [] = records ∙ ap (λ l. l ++ r ∷ []) same in
    let size : length kept ≡ length done - k =
      sym (length-map kept reading_of) ∙ (ap length held ∙ length-drop k done) in
    record {
      counted = omega (arith, length-append done (x ∷ []));
      held =
          ap (map reading_of) records'
          ∙ (map-append kept r
              ∙ (ap (λ l. l ++ reading_of r ∷ []) held
                  ∙ (ap (λ y. drop k done ++ y ∷ []) reading
                      ∙ (sym (drop-append k done (x ∷ []) h)
                          ∙ ap (λ n. drop n (done ++ x ∷ [])) (sym e)))));
      numbered =
          subst (λ l. Numbered (length (done ++ x ∷ []) - 256) l) (sym records')
            (subst (λ n. Numbered n (kept ++ r ∷ [])) (sym e)
              (Numbered-append k kept r numbered (omega arith)));
    }

observe-Holds :
    (done : List (Counts × ℕ)) (x : Counts × ℕ) (s : State) (start : ℕ)
    → Holds done s
    → Holds (done ++ x ∷ []) (observe s (x.0) (x.1) start)
unfolding observe
observe-Holds done x s start h =
    let size : length s.records ≡ length done - (length done - 256) =
      sym (length-map s.records reading_of)
      ∙ (ap length h.held ∙ length-drop (length done - 256) done) in
    let more = length-append done (x ∷ []) in
    elim (Bool-cases (length s.records == 256)) [
      | inl full ↦
          let evicts : (if length s.records == 256 then drop 1 s.records else s.records)
              ≡ drop 1 s.records =
            rw full refl in
          let whole : length s.records ≡ 256 = ground arith in
          appended-Holds done x _ _ (drop 1 s.records) _ (suc (length done - 256))
            (omega (arith, more)) (omega arith) refl evicts (ap (λ n. n + 1) h.counted)
            (ap (λ n. n + 1) h.counted) refl
            (map-drop s.records ∙ (ap (drop 1) h.held ∙ drop_next (length done - 256) done))
            (subst (λ n. Numbered n (drop 1 s.records)) (omega arith)
              (Numbered-drop (length done - 256) s.records h.numbered))
      | inr room ↦
          let keeps : (if length s.records == 256 then drop 1 s.records else s.records)
              ≡ s.records =
            rw room refl in
          let below : length s.records ≢ 256 = ground arith in
          appended-Holds done x _ _ s.records _ (length done - 256) (omega (arith, more))
            (omega arith) refl keeps (ap (λ n. n + 1) h.counted) (ap (λ n. n + 1) h.counted) refl
            h.held h.numbered
    ]

observe_all-Holds :
    (done readings : List (Counts × ℕ)) (s : State) (start : ℕ)
    → Holds done s
    → Holds (done ++ readings) (observe_all readings start s)
unfolding observe_all
observe_all-Holds done [] s start h = subst (λ l. Holds l s) (sym (append-nil done)) h
observe_all-Holds done (x ∷ readings) s start h =
    subst (λ l. Holds l (observe_all readings start (observe s (x.0) (x.1) start)))
      (append_assoc done (x ∷ []) readings)
      (observe_all-Holds (done ++ x ∷ []) readings (observe s (x.0) (x.1) start) start
        (observe-Holds done x s start h))

-- After any readings, a new session's history holds the last 256 of them, in order, each with the
-- instant at which it came in; they are numbered one after another, up to the number of all
-- readings, which is the session's sequence.
pub observe_all-newest :
    (window instance session start : ℕ) (readings : List (Counts × ℕ))
    → Holds readings (observe_all readings start (new window instance session))
observe_all-newest window instance session start readings =
    observe_all-Holds [] readings (new window instance session) start
      (record { counted = refl; held = refl; numbered = tt })
