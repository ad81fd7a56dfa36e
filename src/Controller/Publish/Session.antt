-- ===== src/Controller/Publish/Session.antt =====
-- What a session of the controller keeps: one motion record for each pose, and the pose that is shown
-- is the last one.
use pose_bridge.Prelude.{ℕ, ◌≡◌, refl, Option, none, some, List, [], ◌∷◌, arith, is_some, true}
use mathlib.Core.Path.{subst, sym}
use pose_bridge.Model.{Result, ok, err}
use pose_bridge.Motion.{Vec3, Quat, Signals, push}
use pose_bridge.Motion.Invariant.{IsHistory, push-IsHistory}
use pose_bridge.Osc.{PoseSnapshot}
use pose_bridge.Pose.{FloatOps}
use pose_bridge.Controller.{Shared}
use pose_bridge.Controller.Publish.{
  PreparedPose, begin_session, counted, remembered, presented, publish_angles, publish_locked,
  settled, publish_all, publish_batch, angles_of, pose_of, sample_of, physical_of,
}

module _ {F : Type 0} where
  -- Every pose of a list comes with its signals.
  abbrev pub HasSignals : List (PreparedPose F) → Type 0
  HasSignals [] = Unit {0}
  HasSignals (p ∷ ps) = (is_some p.signals ≡ true) × HasSignals ps

  -- The pose that is shown belongs to the session and is its last one.
  abbrev pub IsLatest : ℕ → ℕ → ℕ → Option (PoseSnapshot F) → Type 0
  IsLatest instance session samples none = samples ≡ 0
  IsLatest instance session samples (some p) =
      (p.instance_id ≡ instance) × (p.session_id ≡ session) × (p.sequence ≡ samples)

  pub record IsSession (s : Shared F) : Type 0 where
    pub same : s.descriptor.session_id ≡ s.status.session_id
    pub history :
        IsHistory s.descriptor.instance_id s.status.session_id s.status.session_samples s.motion
    pub latest :
        IsLatest s.descriptor.instance_id s.status.session_id s.status.session_samples s.pose

  pub begin_session-IsSession :
      (s : Shared F) (instance session : ℕ) → IsSession (begin_session s instance session)
  unfolding begin_session
  begin_session-IsSession s instance session = record {
    same = refl;
    history = record {
      first = 1;
      first_pos = omega arith;
      numbered = tt;
      owned = tt;
      reaches = refl;
      bounded = omega arith;
    };
    latest = refl;
  }

  counted-remembered-IsSession :
      (s : Shared F) (p : PreparedPose F) (start now : ℕ) (q : Quat F) (euler : Vec3 F)
      (signals : Signals F)
      → IsSession s
      → let c = counted s now in
        IsSession (
          remembered
            (record c {
              physical = some (signals.orientation);
              pose = some (pose_of c p start now q euler);
            })
            p
            start
            now
            euler
            (some signals))
  unfolding counted remembered
  counted-remembered-IsSession s p start now q euler signals v =
      let c = counted s now in
      record {
        same = v.same;
        history =
            subst
              (λ k.
                IsHistory s.descriptor.instance_id s.status.session_id k
                  (push s.motion now (sample_of c p start now euler signals)))
              (omega arith)
              (push-IsHistory s.descriptor.instance_id s.status.session_id s.status.session_samples
                now s.motion (sample_of c p start now euler signals) v.history refl refl
                (omega arith)).0;
        latest = (refl, refl, refl);
      }

  invalid-IsSession :
      (s : Shared F) (n : ℕ)
      → IsSession s
      → IsSession (record s { status = record (s.status) { invalid_poses = n } })
  invalid-IsSession s n v = record { same = v.same; history = v.history; latest = v.latest }

module _ {F : Type 0} (ops : FloatOps F) where
  publish_angles-IsSession :
      (s : Shared F) (p : PreparedPose F) (start now : ℕ) (r : Result (Quat F × Vec3 F))
      (signals : Option (Signals F))
      → p.signals ≡ signals
      → is_some signals ≡ true
      → IsSession s
      → IsSession (settled (publish_angles ops s p start now r))
  unfolding presented
  publish_angles-IsSession s p start now (err x) signals e h v = invalid-IsSession s _ v
  publish_angles-IsSession s p start now (ok a) none e h v = absurd (ground arith)
  publish_angles-IsSession s p start now (ok (q, euler)) (some signals) e h v =
      subst
        (λ x.
          IsSession
            (settled (presented (counted s now) p start now q euler x (physical_of ops x euler))))
        (sym e) (counted-remembered-IsSession s p start now q euler signals v)

  publish_locked-IsSession :
      (s : Shared F) (p : PreparedPose F) (start now : ℕ)
      → is_some p.signals ≡ true
      → IsSession s
      → IsSession (settled (publish_locked ops s p start now))
  unfolding publish_locked
  publish_locked-IsSession s p start now h v =
      publish_angles-IsSession s p start now (angles_of ops p.q) p.signals refl h v

  publish_all-IsSession :
      (s : Shared F) (start now : ℕ) (ps : List (PreparedPose F))
      → HasSignals ps
      → IsSession s
      → IsSession (publish_all ops s start now ps)
  unfolding publish_all
  publish_all-IsSession s start now [] h v = v
  publish_all-IsSession s start now (p ∷ ps) h v =
      publish_all-IsSession (settled (publish_locked ops s p start now)) start now ps h.1
        (publish_locked-IsSession s p start now h.0 v)

  -- From a state that is one of a session, a batch of poses with signals comes to a state of the same
  -- kind: the motion history is numbered without a gap up to the count of the session's samples, it
  -- belongs to the session, and the pose that is shown is the last one.
  pub publish_batch-IsSession :
      (s : Shared F) (start now : ℕ) (ps : List (PreparedPose F))
      → HasSignals ps
      → IsSession s
      → IsSession (publish_batch ops s start now ps)
  unfolding publish_batch
  publish_batch-IsSession s start now ps h v = publish_all-IsSession _ start now ps h (record {
    same = v.same;
    history = record {
      first = v.history.first;
      first_pos = v.history.first_pos;
      numbered = v.history.numbered;
      owned = v.history.owned;
      reaches = v.history.reaches;
      bounded = v.history.bounded;
    };
    latest = v.latest;
  })
