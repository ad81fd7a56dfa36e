-- ===== src/Controller/Control/Epoch.antt =====
-- What a device command does to the reference epoch.
use pose_bridge.Prelude.{
  ℕ, ◌+◌, ◌≡◌, refl, Bool, true, false, not, ◌&&◌, ◌||◌, none, some, List, [], ◌∷◌, arith,
  from_bool, if◌then◌else◌, ap, sym, is_some_and, ◌∙◌,
}
use mathlib.Core.Path.{subst}
use pose_bridge.Model.{Result, ok, err, is_ok}
use pose_bridge.Model.Command.{DeviceCommand}
use pose_bridge.Model.Observation.{DeviceObservation, OperationStatus}
use pose_bridge.Device.Exec.{
  Environment, Event, read, wrote, waited, progress, Progress, write_attempt, command_sent,
  register_verified, completion_observed,
}
use pose_bridge.Device.Execute.{Outcome, execute}
use pose_bridge.Controller.{Shared, ReferenceReason, device_control, device_control_uncertain}
use pose_bridge.Controller.Control.{
  may_have_changed, update, attempted, unsettled, invalidate_reference, on_progress, on_events,
  observed, concluded, control_connection,
}

-- A report of a write; of a write that may move the reference.
abbrev adds_attempt : Progress → Bool
adds_attempt (write_attempt r p) = true
adds_attempt _ = false

abbrev adds_move : Progress → Bool
adds_move (write_attempt r p) = r
adds_move _ = false

-- A write was announced; one that may move the reference was.
abbrev pub is_attempted : List Event → Bool
is_attempted [] = false
is_attempted (progress p ∷ h) = adds_attempt p || is_attempted h
is_attempted (e ∷ h) = is_attempted h

abbrev pub is_moved : List Event → Bool
is_moved [] = false
is_moved (progress p ∷ h) = adds_move p || is_moved h
is_moved (e ∷ h) = is_moved h

module _ {F : Type 0} where
  -- The operation's flags, and the epoch from the one at the start of the operation.
  record IsTold (epoch : ℕ) (attempted moved : Bool) (s : Shared F) : Type 0 where
    op : OperationStatus
    there : s.operation ≡ some op
    is_attempted : op.write_attempted ≡ attempted
    is_moved : op.reference_may_have_changed ≡ moved
    reached : s.descriptor.reference_epoch ≡ epoch + from_bool moved

  -- An operation that has just been published.
  pub record IsFresh (s : Shared F) : Type 0 where
    pub op : OperationStatus
    pub there : s.operation ≡ some op
    pub unattempted : op.write_attempted ≡ false
    pub unmoved : op.reference_may_have_changed ≡ false

  invalidate_reference-IsTold :
      (epoch : ℕ) (a m : Bool) (s : Shared F) (reason : ReferenceReason)
      → IsTold epoch a m s
      → IsTold epoch a true (invalidate_reference s reason)
  unfolding invalidate_reference
  invalidate_reference-IsTold epoch a m s reason t = record {
    op = record (t.op) { reference_may_have_changed = true };
    there = rw (t.there) refl;
    is_attempted = t.is_attempted;
    is_moved = refl;
    reached = rw (t.there, t.is_moved) (ground (arith, t.reached));
  }

  unsettled-IsTold :
      (epoch : ℕ) (a m : Bool) (s : Shared F) → IsTold epoch a m s → IsTold epoch a m (unsettled s)
  unsettled-IsTold epoch a m s t = record {
    op = t.op;
    there = t.there;
    is_attempted = t.is_attempted;
    is_moved = t.is_moved;
    reached = t.reached;
  }

  observed-IsTold :
      (epoch : ℕ) (a m : Bool) (s : Shared F) (o : DeviceObservation)
      → IsTold epoch a m s
      → IsTold epoch a m (observed s (some o))
  observed-IsTold epoch a m s o t = record {
    op = t.op;
    there = t.there;
    is_attempted = t.is_attempted;
    is_moved = t.is_moved;
    reached = t.reached;
  }

  attempted-IsTold :
      (epoch : ℕ) (a m persistent : Bool) (s : Shared F)
      → IsTold epoch a m s
      → IsTold epoch true m (record s { operation = update s.operation (attempted persistent) })
  attempted-IsTold epoch a m persistent s t = record {
    op = attempted persistent t.op;
    there = rw (t.there) refl;
    is_attempted = refl;
    is_moved = t.is_moved;
    reached = t.reached;
  }

  -- A report that only sets another flag of the operation.
  flag-IsTold :
      (epoch : ℕ) (a m : Bool) (s : Shared F) (f : OperationStatus → OperationStatus)
      → ((op : OperationStatus) → (f op).write_attempted ≡ op.write_attempted)
      → ((op : OperationStatus) → (f op).reference_may_have_changed ≡ op.reference_may_have_changed)
      → IsTold epoch a m s
      → IsTold epoch a m (record s { operation = update s.operation f })
  flag-IsTold epoch a m s f h h' t = record {
    op = f t.op;
    there = rw (t.there) refl;
    is_attempted = h t.op ∙ t.is_attempted;
    is_moved = h' t.op ∙ t.is_moved;
    reached = t.reached;
  }

  on_progress-IsTold :
      (epoch : ℕ) (a m : Bool) (s : Shared F) (p : Progress)
      → IsTold epoch a m s
      → IsTold epoch (adds_attempt p || a) (adds_move p || m) (on_progress s p)
  unfolding on_progress
  on_progress-IsTold epoch a m s (write_attempt true p) t = attempted-IsTold epoch a true p _ (
      invalidate_reference-IsTold epoch a m (unsettled s) device_control
        (unsettled-IsTold epoch a m s t))
  on_progress-IsTold epoch a m s (write_attempt false p) t =
      attempted-IsTold epoch a m p (unsettled s) (unsettled-IsTold epoch a m s t)
  on_progress-IsTold epoch a m s command_sent t =
      flag-IsTold epoch a m s _ (λ op. refl) (λ op. refl) t
  on_progress-IsTold epoch a m s register_verified t =
      flag-IsTold epoch a m s _ (λ op. refl) (λ op. refl) t
  on_progress-IsTold epoch a m s completion_observed t =
      flag-IsTold epoch a m s _ (λ op. refl) (λ op. refl) t

  on_events-IsTold :
      (s : Shared F) (h : List Event)
      → IsFresh s
      → IsTold s.descriptor.reference_epoch (is_attempted h) (is_moved h) (on_events s h)
  unfolding on_events
  on_events-IsTold s [] f = record {
    op = f.op;
    there = f.there;
    is_attempted = f.unattempted;
    is_moved = f.unmoved;
    reached = omega arith;
  }
  on_events-IsTold s (read a v ∷ h) f = on_events-IsTold s h f
  on_events-IsTold s (wrote b ∷ h) f = on_events-IsTold s h f
  on_events-IsTold s (waited ms ∷ h) f = on_events-IsTold s h f
  on_events-IsTold s (progress p ∷ h) f =
      on_progress-IsTold s.descriptor.reference_epoch (is_attempted h) (is_moved h) (on_events s h)
        p (on_events-IsTold s h f)

  as_moved :
      (epoch : ℕ) (a m m' : Bool) (s : Shared F) → m ≡ m' → IsTold epoch a m s → IsTold epoch a m' s
  as_moved epoch a m m' s e t = subst (λ x. IsTold epoch a x s) e t

  uncertain-IsTold :
      (epoch : ℕ) (a m : Bool) (s : Shared F)
      → IsTold epoch a m s
      → IsTold epoch a (m || a) (
          if is_some_and s.operation (λ op. op.write_attempted)
          then invalidate_reference s device_control_uncertain
          else s)
  uncertain-IsTold epoch a m s t =
      subst
        (λ b.
          IsTold epoch a (m || a)
            (if b then invalidate_reference s device_control_uncertain else s))
        (sym (ap (λ o. is_some_and o (λ op. op.write_attempted)) t.there ∙ t.is_attempted)) (go a t)
    where
      go :
          (b : Bool)
          → IsTold epoch b m s
          → IsTold epoch b
              (m || b)
              (if b then invalidate_reference s device_control_uncertain else s)
      go true u =
          as_moved epoch true true (m || true) _ (ground arith)
            (invalidate_reference-IsTold epoch true m s device_control_uncertain u)
      go false u = as_moved epoch false m (m || false) s (ground arith) u

  concluded-IsTold :
      (epoch : ℕ) (a m : Bool) (s : Shared F) (r : Result Outcome)
      → IsTold epoch a m s
      → IsTold epoch a (m || (not (is_ok r) && a)) (concluded s r).0
  unfolding concluded
  concluded-IsTold epoch a m s (ok (o, none)) t =
      as_moved epoch a m _ _ (ground arith)
        (flag-IsTold epoch a m s (λ op. record op { outcome = o }) (λ op. refl) (λ op. refl) t)
  concluded-IsTold epoch a m s (ok (o, some x)) t = as_moved epoch a m _ _ (ground arith) (
      flag-IsTold epoch a m (observed s (some x)) (λ op. record op { outcome = o }) (λ op. refl)
        (λ op. refl) (observed-IsTold epoch a m s x t))
  concluded-IsTold epoch a m s (err e) t = uncertain-IsTold epoch a m s t

  -- From an operation that has just been published, a device command raises the reference epoch by one
  -- when a write that may move the reference was announced, or when any write was announced and the
  -- command failed, and leaves it else; the operation is marked with the writes and the move.
  pub control_connection-epoch :
      (env : Environment) (s : Shared F) (command : DeviceCommand)
      → IsFresh s
      → let run = execute env command [] in
        let s' = (control_connection env s command).0 in
        let moved = is_moved run.1 || (not (is_ok run.0) && is_attempted run.1) in
        (s'.descriptor.reference_epoch ≡ s.descriptor.reference_epoch + from_bool moved)
        × (may_have_changed s'.operation ≡ moved)
        × (is_some_and s'.operation (λ op. op.write_attempted) ≡ is_attempted run.1)
  unfolding control_connection
  control_connection-epoch env s command f =
      let run = execute env command [] in
      let t =
        concluded-IsTold s.descriptor.reference_epoch (is_attempted run.1) (is_moved run.1)
          (on_events s run.1) run.0 (on_events-IsTold s run.1 f) in
      (
        t.reached,
        ap may_have_changed t.there ∙ t.is_moved,
        ap (λ o. is_some_and o (λ op. op.write_attempted)) t.there ∙ t.is_attempted,
      )
