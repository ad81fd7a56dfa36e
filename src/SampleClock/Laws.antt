-- ===== src/SampleClock/Laws.antt =====
-- What the tracker promises over a whole connection, as a run of `observe` over its readings.
use pose_bridge.Prelude.{
  ℕ, ◌+◌, ◌<◌, ◌≡◌, ◌⊎◌, true, Option, none, some, List, [], ◌∷◌, arith, length, refl, ap,
}
use mathlib.Core.Path.{subst}
use pose_bridge.SampleClock.{
  SampleTimeKind, SampleTime, SampleClock, kind_eq, device_calendar, simulated_elapsed,
  observe_after, observe,
}

-- One call of `observe`: kind, time and host time.
pub record Reading : Type 0 where
  pub kind : SampleTimeKind
  pub time_ms : ℕ
  pub received_ns : ℕ

abbrev pub keep : Option SampleTime → List SampleTime → List SampleTime
keep none ts = ts
keep (some t) ts = t ∷ ts

-- The calls of a connection in order, with the times that were accepted.
unfoldable pub run : SampleClock → List Reading → SampleClock × List SampleTime
run c [] = (c, [])
run c (r ∷ rs) =
    let (c', out) = observe c r.kind r.time_ms r.received_ns in
    let (c'', times) = run c' rs in (c'', keep out times)

abbrev pub last_time : Option (SampleTime × ℕ) → Option SampleTime
last_time none = none
last_time (some (t, _)) = some t

-- The next sample of the same clock lies ahead in time, and any other opens the next epoch.
abbrev pub Succeeds : SampleTime → SampleTime → Type 0
Succeeds l t =
    ((t.clock_epoch ≡ l.clock_epoch) × (t.kind ≡ l.kind) × (l.time_ms < t.time_ms))
    ⊎ (t.clock_epoch ≡ l.clock_epoch + 1)

abbrev pub Follows : Option SampleTime → List SampleTime → Type 0
Follows _ [] = Unit {0}
Follows none (t ∷ ts) = (t.clock_epoch ≡ 1) × Follows (some t) ts
Follows (some l) (t ∷ ts) = Succeeds l t × Follows (some t) ts

Follows-nil : (l : Option SampleTime) → Follows l []
Follows-nil l = tt

kind_eq_sound : (a b : SampleTimeKind) → kind_eq a b ≡ true → a ≡ b
kind_eq_sound device_calendar b h = ground arith
kind_eq_sound simulated_elapsed b h = ground arith

-- What one call does with the time that it accepts.
abbrev Accepts : Option SampleTime → SampleClock → Option SampleTime → Type 0
Accepts l c none = last_time c.previous ≡ l
Accepts none c (some t) = (last_time c.previous ≡ some t) × (t.clock_epoch ≡ 1)
Accepts (some l) c (some t) = (last_time c.previous ≡ some t) × Succeeds l t

after-Accepts :
    (p : Option (SampleTime × ℕ)) (c : SampleClock) (k : SampleTimeKind) (ms ns : ℕ)
    → c.previous ≡ p
    → Accepts (last_time p) (observe_after p c k ms ns).0 (observe_after p c k ms ns).1
unfolding observe_after
after-Accepts none c k ms ns e = ground arith
after-Accepts (some (l, host)) c k ms ns e = ground (arith, kind_eq_sound k l.kind, ap last_time e)

observe-Accepts :
    (c : SampleClock) (k : SampleTimeKind) (ms ns : ℕ)
    → Accepts (last_time c.previous) (observe c k ms ns).0 (observe c k ms ns).1
unfolding observe
observe-Accepts c k ms ns = after-Accepts c.previous c k ms ns refl

Follows-keep :
    (l : Option SampleTime) (c : SampleClock) (out : Option SampleTime) (ts : List SampleTime)
    → Accepts l c out
    → Follows (last_time c.previous) ts
    → Follows l (keep out ts)
Follows-keep l c none ts a h = subst (λ x. Follows x ts) a h
Follows-keep none c (some t) ts a h = (a.1, subst (λ x. Follows x ts) a.0 h)
Follows-keep (some l) c (some t) ts a h = (a.1, subst (λ x. Follows x ts) a.0 h)

-- Over any readings the accepted times follow one another: within a clock epoch they have one kind
-- and rise strictly, and otherwise the epoch goes up by exactly one; from a fresh clock the first
-- epoch is 1.
pub run-Follows :
    (c : SampleClock) (rs : List Reading) → Follows (last_time c.previous) (run c rs).1
unfolding run
run-Follows c [] = Follows-nil (last_time c.previous)
run-Follows c (r ∷ rs) =
    Follows-keep _ _ _ _ (observe-Accepts c r.kind r.time_ms r.received_ns)
      (run-Follows (observe c r.kind r.time_ms r.received_ns).0 rs)

-- The counters against what was accepted.
abbrev epoch_of : Option (SampleTime × ℕ) → ℕ
epoch_of none = 1
epoch_of (some (t, _)) = t.clock_epoch

after-counts :
    (p : Option (SampleTime × ℕ)) (c : SampleClock) (k : SampleTimeKind) (ms ns : ℕ)
    → c.previous ≡ p
    → (epoch_of p ≡ c.discontinuities + 1)
    → let (c', out) = observe_after p c k ms ns in
      (epoch_of c'.previous ≡ c'.discontinuities + 1)
      × (c'.duplicates + length (keep out []) ≡ c.duplicates + 1)
unfolding observe_after
after-counts none c k ms ns e h = ground arith
after-counts (some (l, host)) c k ms ns e h = ground (arith, ap epoch_of e)

abbrev pub IsCounted : SampleClock → Type 0
IsCounted c = epoch_of c.previous ≡ c.discontinuities + 1

observe-counts :
    (c : SampleClock) (k : SampleTimeKind) (ms ns : ℕ)
    → IsCounted c
    → IsCounted (observe c k ms ns).0
      × ((observe c k ms ns).0.duplicates + length (keep (observe c k ms ns).1 [])
          ≡ c.duplicates + 1)
unfolding observe
observe-counts c k ms ns h = after-counts c.previous c k ms ns refl h

length-keep :
    (o : Option SampleTime) (ts : List SampleTime)
    → length (keep o ts) ≡ length (keep o []) + length ts
length-keep none ts = omega arith
length-keep (some t) ts = omega arith

-- Over any readings of a fresh clock, the counters account for every call: the current epoch is one
-- more than the discontinuities, and each reading was accepted or counted as a duplicate.
pub run_counts :
    (c : SampleClock) (rs : List Reading)
    → IsCounted c
    → IsCounted (run c rs).0
      × ((run c rs).0.duplicates + length (run c rs).1 ≡ c.duplicates + length rs)
unfolding run
run_counts c [] h = (h, refl)
run_counts c (r ∷ rs) h =
    let step = observe-counts c r.kind r.time_ms r.received_ns h in
    let next = observe c r.kind r.time_ms r.received_ns in
    let rest = run_counts next.0 rs step.0 in
    (rest.0, omega (arith, length-keep next.1 (run next.0 rs).1, step.1, rest.1))
