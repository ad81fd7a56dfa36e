-- ===== src/Controller/Publish/Counts.antt =====
-- How the poses of a batch are counted.
use pose_bridge.Prelude.{
  ℕ, ◌+◌, ◌≤◌, ◌≡◌, refl, Option, none, some, List, [], ◌∷◌, arith, length, true, is_some,
}
use mathlib.Core.Path.{subst, sym, ◌∙◌}
use pose_bridge.Model.{Result, ok, err}
use pose_bridge.Motion.{Vec3, Quat, Signals, push}
use pose_bridge.Pose.{FloatOps}
use pose_bridge.Controller.{Shared}
use pose_bridge.Controller.Publish.{
  PreparedPose, counted, remembered, presented, publish_angles, publish_locked, settled,
  publish_all, publish_batch, angles_of, physical_of,
}
use pose_bridge.Controller.Publish.Session.{HasSignals}

module _ {F : Type 0} where
  -- `s'` has counted `n` poses more than `s`, each as a pose or as an invalid one.
  record IsCounted (n : ℕ) (s s' : Shared F) : Type 0 where
    all :
        s'.status.pose_count + s'.status.invalid_poses
        ≡ s.status.pose_count + s.status.invalid_poses + n
    samples :
        s'.status.session_samples + s.status.pose_count
        ≡ s.status.session_samples + s'.status.pose_count
    grows : s.status.pose_count ≤ s'.status.pose_count
    delivery : s'.motion.delivery ≡ s.motion.delivery

  counted-IsCounted :
      (s : Shared F) (p : PreparedPose F) (start now : ℕ) (q : Quat F) (euler : Vec3 F)
      (signals : Option (Signals F)) (physical : Quat F)
      → IsCounted 1 s (presented (counted s now) p start now q euler signals (ok physical)).0
  unfolding counted presented remembered push
  counted-IsCounted s p start now q euler none physical = record {
    all = omega arith;
    samples = omega arith;
    grows = omega arith;
    delivery = refl;
  }
  counted-IsCounted s p start now q euler (some x) physical = record {
    all = omega arith;
    samples = omega arith;
    grows = omega arith;
    delivery = refl;
  }

  invalid-IsCounted :
      (s : Shared F)
      → IsCounted 1 s
          (record s { status = record (s.status) { invalid_poses = s.status.invalid_poses + 1 } })
  invalid-IsCounted s = record {
    all = omega arith;
    samples = omega arith;
    grows = omega arith;
    delivery = refl;
  }

  IsCounted-trans :
      (n m : ℕ) (s s' s'' : Shared F)
      → IsCounted n s s'
      → IsCounted m s' s''
      → IsCounted (n + m) s s''
  IsCounted-trans n m s s' s'' c c' = record {
    all = omega (arith, c.all, c'.all);
    samples = omega (arith, c.samples, c'.samples);
    grows = omega (arith, c.grows, c'.grows);
    delivery = c'.delivery ∙ c.delivery;
  }

module _ {F : Type 0} (ops : FloatOps F) where
  publish_angles-IsCounted :
      (s : Shared F) (p : PreparedPose F) (start now : ℕ) (r : Result (Quat F × Vec3 F))
      (signals : Option (Signals F))
      → p.signals ≡ signals
      → is_some signals ≡ true
      → IsCounted 1 s (settled (publish_angles ops s p start now r))
  unfolding presented
  publish_angles-IsCounted s p start now (err x) signals e h = invalid-IsCounted s
  publish_angles-IsCounted s p start now (ok a) none e h = absurd (ground arith)
  publish_angles-IsCounted s p start now (ok (q, euler)) (some x) e h =
      subst
        (λ y.
          IsCounted 1 s
            (settled (presented (counted s now) p start now q euler y (physical_of ops y euler))))
        (sym e) (counted-IsCounted s p start now q euler (some x) x.orientation)

  publish_all-IsCounted :
      (s : Shared F) (start now : ℕ) (ps : List (PreparedPose F))
      → HasSignals ps
      → IsCounted (length ps) s (publish_all ops s start now ps)
  unfolding publish_all publish_locked
  publish_all-IsCounted s start now [] h = record {
    all = omega arith;
    samples = refl;
    grows = omega arith;
    delivery = refl;
  }
  publish_all-IsCounted s start now (p ∷ ps) h =
      let s' = settled (publish_locked ops s p start now) in
      let first : IsCounted 1 s s' =
        publish_angles-IsCounted s p start now (angles_of ops p.q) p.signals refl h.0 in
      let rest : IsCounted (length ps) s' (publish_all ops s' start now ps) =
        publish_all-IsCounted s' start now ps h.1 in
      subst (λ k. IsCounted k s (publish_all ops s' start now ps)) (omega arith)
        (IsCounted-trans 1 (length ps) s s' (publish_all ops s' start now ps) first rest)

  -- A batch of poses with signals counts each pose exactly once, as a published pose or as an invalid
  -- one; the samples of the session grow by as many as were published, and the whole batch is one
  -- delivery.
  pub publish_batch-counts :
      (s : Shared F) (start now : ℕ) (ps : List (PreparedPose F))
      → HasSignals ps
      → let s' = publish_batch ops s start now ps in
        (s'.status.pose_count + s'.status.invalid_poses
          ≡ s.status.pose_count + s.status.invalid_poses + length ps)
        × (s'.status.session_samples + s.status.pose_count
            ≡ s.status.session_samples + s'.status.pose_count)
        × (s'.motion.delivery ≡ s.motion.delivery + 1)
  unfolding publish_batch
  publish_batch-counts s start now ps h =
      let c =
        publish_all-IsCounted
          (record s { motion = record (s.motion) { delivery = s.motion.delivery + 1 } }) start now
          ps h in
      (c.all, c.samples, c.delivery)
