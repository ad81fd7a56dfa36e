-- ===== src/Sweeps/Kept.antt =====
-- What the sweeps keep of the readings.
use pose_bridge.Prelude.{
  ℕ, ◌+◌, ◌≤◌, ◌≡◌, ◌≢◌, refl, arith, inl, inr, Bool, true, false, not, ◌&&◌, ◌||◌, Bool-cases,
  Option, none, some, List, [], ◌∷◌, ◌++◌, ◌==◌, if◌then◌else◌, length, drop, length-append,
  length-drop, is_some_and,
}
use mathlib.Core.Path.{subst}
use pose_bridge.Motion.{Vec3}
use pose_bridge.Pose.{FloatOps}
use pose_bridge.Magnetic.{Counts, Scale, MagneticSample, MagneticBatch}
use pose_bridge.Client.{Device}
use pose_bridge.Coverage.{Coverage, empty, push, proper, max_readings, is_finite_field}
use pose_bridge.Sweeps.{
  Sweep, before, during, after, Units, Three, at, put, Sweeps, Run, clear, restarted, bin,
  absorb_swept, absorb_of, absorb_sample, absorb_all, absorb, absorb_batch, new_run, is_during,
  is_after, is_external, sweep_of, units_of, same_units,
}

below_of : (n m : ℕ) → (n == m) ≡ false → n ≤ m → n + 1 ≤ m
below_of n m e h = ground arith

module _ {F : Type 0} (ops : FloatOps F) where
  -- Every reading is finite.
  pub data AllFinite : List (Vec3 F) → Type 0 where
    no_reading : AllFinite []
    one_reading :
        {v : Vec3 F} {vs : List (Vec3 F)}
        → is_finite_field ops v ≡ true
        → AllFinite vs
        → AllFinite (v ∷ vs)

  -- At most 4096 readings, each finite.
  pub record IsKept (c : Coverage F) : Type 0 where
    pub bounded : length c.readings ≤ max_readings
    pub finite : AllFinite c.readings

  pub record AllKept (held : Three (Coverage F)) : Type 0 where
    pub before : IsKept held.before
    pub during : IsKept held.during
    pub after : IsKept held.after

  snoc-AllFinite :
      (vs : List (Vec3 F)) (v : Vec3 F)
      → AllFinite vs
      → is_finite_field ops v ≡ true
      → AllFinite (vs ++ v ∷ [])
  snoc-AllFinite [] v no_reading k = one_reading k no_reading
  snoc-AllFinite (w ∷ vs) v (one_reading h hs) k = one_reading h (snoc-AllFinite vs v hs k)

  drop-AllFinite : (vs : List (Vec3 F)) → AllFinite vs → AllFinite (drop 1 vs)
  drop-AllFinite [] h = h
  drop-AllFinite (v ∷ vs) (one_reading h hs) = hs

  appended-IsKept :
      (vs : List (Vec3 F)) (v : Vec3 F) (full : Bool)
      → (length vs == max_readings) ≡ full
      → length vs ≤ max_readings
      → AllFinite vs
      → is_finite_field ops v ≡ true
      → IsKept (record { readings = (if full then drop 1 vs else vs) ++ v ∷ [] })
  appended-IsKept vs v true e h k f = record {
    bounded = omega (arith, h, length-append (drop 1 vs) (v ∷ []), length-drop 1 vs);
    finite = snoc-AllFinite (drop 1 vs) v (drop-AllFinite vs k) f;
  }
  appended-IsKept vs v false e h k f = record {
    bounded = omega (arith, length-append vs (v ∷ []), below_of (length vs) max_readings e h);
    finite = snoc-AllFinite vs v k f;
  }

  push-IsKept : (c : Coverage F) (v : Vec3 F) → IsKept c → IsKept (push ops c v).0
  unfolding push
  push-IsKept c v h = elim (Bool-cases (is_finite_field ops v)) [
    | inl f ↦
        rw f (
          appended-IsKept c.readings v (length c.readings == max_readings) refl h.bounded h.finite
            f)
    | inr f ↦ rw f h
  ]

  at-IsKept : (held : Three (Coverage F)) (sweep : Sweep) → AllKept held → IsKept (at held sweep)
  at-IsKept held before h = h.before
  at-IsKept held during h = h.during
  at-IsKept held after h = h.after

  put-AllKept :
      (held : Three (Coverage F)) (sweep : Sweep) (c : Coverage F)
      → AllKept held
      → IsKept c
      → AllKept (put held sweep c)
  put-AllKept held before c h k = record { before = k; during = h.during; after = h.after }
  put-AllKept held during c h k = record { before = h.before; during = k; after = h.after }
  put-AllKept held after c h k = record { before = h.before; during = h.during; after = k }

  empty-IsKept : IsKept empty
  empty-IsKept = record { bounded = omega arith; finite = no_reading }

  clear-AllKept : (s : Sweeps F) → AllKept (clear s).held
  unfolding clear
  clear-AllKept s = record { before = empty-IsKept; during = empty-IsKept; after = empty-IsKept }

  restarted-AllKept : (s : Sweeps F) → AllKept s.held → AllKept (restarted s).held
  restarted-AllKept s h = record { before = h.after; during = empty-IsKept; after = empty-IsKept }

  module _ (microtesla_of : Counts × Scale → Vec3 F) where
    bin-AllKept :
        (s : Sweeps F) (sweep : Sweep) (changed : Bool) (field : Option (Vec3 F))
        → AllKept s.held
        → AllKept (bin ops microtesla_of s sweep changed field).0.held
    bin-AllKept s sweep changed none h = h
    bin-AllKept s sweep changed (some field) h =
        put-AllKept s.held sweep (push ops (at s.held sweep) field).0 h
          (push-IsKept (at s.held sweep) field (at-IsKept s.held sweep h))

    swept-AllKept :
        (units : Units) (s : Sweeps F) (changed : Bool) (sample : MagneticSample) (sweep : Sweep)
        → AllKept s.held
        → AllKept (absorb_swept ops microtesla_of units s changed sample sweep).0.held
    swept-AllKept units s changed sample sweep h =
        elim (Bool-cases (is_during sweep && is_after s.last)) [
          | inl e ↦ rw e (bin-AllKept _ sweep _ _ (restarted-AllKept s h))
          | inr e ↦ rw e (bin-AllKept _ sweep _ _ h)
        ]

    of-AllKept :
        (units : Units) (s : Sweeps F) (changed : Bool) (sample : MagneticSample) (o : Option Sweep)
        → AllKept s.held
        → AllKept (absorb_of ops microtesla_of units s changed sample o).0.held
    of-AllKept units s changed sample none h = h
    of-AllKept units s changed sample (some sweep) h = swept-AllKept units s changed sample sweep h

    sample-AllKept :
        (units : Units) (s : Sweeps F) (changed : Bool) (sample : MagneticSample)
        → AllKept s.held
        → AllKept (absorb_sample ops microtesla_of units s changed sample).0.held
    unfolding absorb_sample
    sample-AllKept units s changed sample h =
        elim (Bool-cases (is_external ops microtesla_of sample.phase)) [
          | inl e ↦ rw e (clear-AllKept s)
          | inr e ↦ rw e (of-AllKept units s changed sample (sweep_of sample.phase) h)
        ]

    all-AllKept :
        (samples : List MagneticSample) (units : Units) (s : Sweeps F) (changed : Bool)
        → AllKept s.held
        → AllKept (absorb_all ops microtesla_of samples units s changed).0.held
    unfolding absorb_all
    all-AllKept [] units s changed h = h
    all-AllKept (sample ∷ samples) units s changed h =
        all-AllKept samples units (absorb_sample ops microtesla_of units s changed sample).0 _
          (sample-AllKept units s changed sample h)

    absorb-AllKept :
        (s : Sweeps F) (batch : MagneticBatch)
        → AllKept s.held
        → AllKept (absorb ops microtesla_of s batch).0.held
    unfolding absorb
    absorb-AllKept s batch h =
        elim (Bool-cases (
          batch.reset
          || is_some_and s.units
              (λ held. not (same_units held (units_of batch.scale_ut_per_count))))) [
                | inl e ↦ rw e (all-AllKept batch.samples _ _ _ (clear-AllKept s))
                | inr e ↦ rw e (all-AllKept batch.samples _ _ _ h)
              ]

    module _ {S : Type 0} (drawing : Coverage F → S) where
      -- The batches of a session, one after another.
      unfoldable pub absorb_batches : List MagneticBatch → Run F S → Run F S
      absorb_batches [] run = run
      absorb_batches (batch ∷ batches) run =
          absorb_batches batches (absorb_batch ops microtesla_of drawing run batch).0

      batches-AllKept :
          (batches : List MagneticBatch) (run : Run F S)
          → AllKept run.sweeps.held
          → AllKept (absorb_batches batches run).sweeps.held
      unfolding absorb_batches absorb_batch
      batches-AllKept [] run h = h
      batches-AllKept (batch ∷ batches) run h =
          batches-AllKept batches (absorb_batch ops microtesla_of drawing run batch).0
            (absorb-AllKept run.sweeps batch h)

      kept_of_some :
          (run0 run : Run F S)
          → AllKept run0.sweeps.held
          → some run0 ≡ some run
          → AllKept run.sweeps.held
      kept_of_some run0 run k e =
          let same : run0 ≡ run = cc in subst (λ (r : Run F S). AllKept r.sweeps.held) same k

      none_opened : (run : Run F S) → none ≢ some run
      none_opened run e = cc

      opened-AllKept :
          (device : Device) (run : Run F S)
          → new_run ops microtesla_of drawing device ≡ some run
          → AllKept run.sweeps.held
      unfolding new_run
      opened-AllKept device run e = elim (Bool-cases (proper device.mounting)) [
        | inl k ↦
            kept_of_some _ run
              (record { before = empty-IsKept; during = empty-IsKept; after = empty-IsKept })
              (rw k at e)
        | inr k ↦ absurd (none_opened run (rw k at e))
      ]

      -- After any batches, each sweep of a session that was opened on a device holds at most 4096
      -- readings, and each of them is finite.
      pub absorb_batches-AllKept :
          (device : Device) (run : Run F S) (batches : List MagneticBatch)
          → new_run ops microtesla_of drawing device ≡ some run
          → AllKept (absorb_batches batches run).sweeps.held
      absorb_batches-AllKept device run batches h =
          batches-AllKept batches run (opened-AllKept device run h)
