-- ===== src/Controller/Pump/Spacing.antt =====
-- How often `pump` asks for the battery.
use pose_bridge.Prelude.{
  ℕ, ◌+◌, ◌≤◌, ◌≡◌, refl, Bool, true, false, ◌&&◌, List, [], ◌∷◌, arith, if◌then◌else◌, ◌==◌,
  Bool-cases, inl, inr, ap,
}
use mathlib.Core.Path.{subst}
use pose_bridge.Model.{Result, ok, err, is_ok}
use pose_bridge.Battery
use pose_bridge.Pose.{FloatOps}
use pose_bridge.Pose.Mounting.{Mounting}
use pose_bridge.Config.{PoseInput}
use pose_bridge.Controller.{Shared}
use pose_bridge.Controller.Receive.{Local}
use pose_bridge.Controller.Pump.{
  Wake, arrived, interrupted, request_due, battery_due, battery_overdue, ticked, written, Pump,
  battery_deadline, is_enabled, on_written, on_tick, take, step, timers_at, is_silent,
  is_unsupported,
}

-- Instants of which the first is not before `earliest`, and each other one thirty seconds or more after
-- the one before.
abbrev pub IsSpaced : ℕ → List ℕ → Type 0
IsSpaced earliest [] = Unit {0}
IsSpaced earliest (t ∷ ts) = (earliest ≤ t) × IsSpaced (t + 30000000000) ts

abbrev pub is_battery_due : Wake → Bool
is_battery_due battery_due = true
is_battery_due _ = false

module _ {F : Type 0} where
  -- A branch that leaves the timers.
  record KeepsTimers (p : Pump F) (r : Pump F × Result (Unit {0})) : Type 0 where
    same : r.0.timers ≡ p.timers

  if-KeepsTimers :
      (b : Bool) (p : Pump F) {x y : Pump F × Result (Unit {0})}
      → KeepsTimers p x
      → KeepsTimers p y
      → KeepsTimers p (if b then x else y)
  if-KeepsTimers true p k k' = k
  if-KeepsTimers false p k k' = k'

  on_tick-KeepsTimers : (p : Pump F) (start now : ℕ) → KeepsTimers p (on_tick p start now)
  unfolding on_tick
  on_tick-KeepsTimers p start now =
      if-KeepsTimers (is_silent p now) p (record { same = refl })
        (if-KeepsTimers (is_unsupported p start now) p (record { same = refl })
          (record { same = refl }))

  on_written-next :
      (p : Pump F) (address : ℕ) (r : Result (Unit {0}))
      → (on_written p address r).0.timers.next_battery_request ≡ p.timers.next_battery_request
  unfolding on_written
  on_written-next p address (ok u) = refl
  on_written-next p address (err e) = elim (Bool-cases (address == Battery.register)) [
    | inl b ↦ rw b refl
    | inr b ↦ rw b refl
  ]

module _ {F : Type 0} (ops : FloatOps F) (input : PoseInput) (mounting : Mounting) where
  take-next :
      (p : Pump F) (start now : ℕ) (wake : Wake)
      → is_battery_due wake ≡ false
      → (take ops input mounting p start now wake).0.timers.next_battery_request
        ≡ p.timers.next_battery_request
  unfolding take
  take-next p start now (arrived bytes) h = refl
  take-next p start now (interrupted e) h = refl
  take-next p start now request_due h = refl
  take-next p start now battery_due h = absurd (ground arith)
  take-next p start now battery_overdue h = refl
  take-next p start now ticked h =
      ap (λ t. t.next_battery_request) (on_tick-KeepsTimers p start now).same
  take-next p start now (written address r) h = on_written-next p address r

  step-next :
      (p : Pump F) (start now : ℕ) (wake : Wake)
      → is_battery_due wake ≡ false
      → (step ops input mounting p start now wake).0.timers.next_battery_request
        ≡ p.timers.next_battery_request
  unfolding step
  step-next p start now wake h = elim (Bool-cases (is_enabled input p now wake)) [
    | inl b ↦ rw b (take-next p start now wake h)
    | inr b ↦ rw b refl
  ]

  -- The instants of the battery requests of a run, which ends with the first error.
  pub battery_requests : Pump F → ℕ → List (ℕ × Wake) → List ℕ
  battery_requests p start [] = []
  battery_requests p start ((now, wake) ∷ wakes) =
      let r = step ops input mounting p start now wake in
      let rest = battery_requests r.0 start wakes in
      if is_battery_due wake && is_enabled input p now wake
      then now ∷ rest
      else if is_ok r.1
      then rest
      else []

  rest-IsSpaced :
      (earliest : ℕ) (b : Bool) (ts : List ℕ)
      → IsSpaced earliest ts
      → IsSpaced earliest (if b then ts else [])
  rest-IsSpaced earliest true ts s = s
  rest-IsSpaced earliest false ts s = tt

  due-next :
      (p : Pump F) (now : ℕ)
      → is_enabled input p now battery_due ≡ true
      → p.timers.next_battery_request ≤ now
  unfolding battery_deadline
  due-next p now h = ground arith

  step-due :
      (p : Pump F) (start now : ℕ)
      → is_enabled input p now battery_due ≡ true
      → (step ops input mounting p start now battery_due).0.timers.next_battery_request
        ≡ now + 30000000000
  unfolding step take
  step-due p start now h = rw h refl

  step-early :
      (p : Pump F) (start now : ℕ)
      → is_enabled input p now battery_due ≡ false
      → (step ops input mounting p start now battery_due).0.timers.next_battery_request
        ≡ p.timers.next_battery_request
  unfolding step
  step-early p start now h = rw h refl

  -- One wake, and the requests of the rest of the run.
  other-IsSpaced :
      (wake : Wake) (p : Pump F) (start now : ℕ) (rest : List ℕ)
      → is_battery_due wake ≡ false
      → let r = step ops input mounting p start now wake in
        IsSpaced r.0.timers.next_battery_request rest
        → IsSpaced p.timers.next_battery_request (
            if is_battery_due wake && is_enabled input p now wake
            then now ∷ rest
            else if is_ok r.1
            then rest
            else [])
  other-IsSpaced wake p start now rest h s = rw h (
      rest-IsSpaced p.timers.next_battery_request _ rest
        (subst (λ k. IsSpaced k rest) (step-next p start now wake h) s))

  due-IsSpaced :
      (p : Pump F) (start now : ℕ) (rest : List ℕ)
      → let r = step ops input mounting p start now battery_due in
        IsSpaced r.0.timers.next_battery_request rest
        → IsSpaced p.timers.next_battery_request (
            if is_enabled input p now battery_due
            then now ∷ rest
            else if is_ok r.1
            then rest
            else [])
  due-IsSpaced p start now rest s = go (is_enabled input p now battery_due) refl
    where
      go :
          (b : Bool)
          → is_enabled input p now battery_due ≡ b
          → IsSpaced p.timers.next_battery_request (
              if b
              then now ∷ rest
              else if is_ok (step ops input mounting p start now battery_due).1
              then rest
              else [])
      go true e = (due-next p now e, subst (λ k. IsSpaced k rest) (step-due p start now e) s)
      go false e =
          rest-IsSpaced p.timers.next_battery_request _ rest
            (subst (λ k. IsSpaced k rest) (step-early p start now e) s)

  wake-IsSpaced :
      (wake : Wake) (p : Pump F) (start now : ℕ) (rest : List ℕ)
      → let r = step ops input mounting p start now wake in
        IsSpaced r.0.timers.next_battery_request rest
        → IsSpaced p.timers.next_battery_request (
            if is_battery_due wake && is_enabled input p now wake
            then now ∷ rest
            else if is_ok r.1
            then rest
            else [])
  wake-IsSpaced battery_due p start now rest s = due-IsSpaced p start now rest s
  wake-IsSpaced (arrived bytes) p start now rest s =
      other-IsSpaced (arrived bytes) p start now rest refl s
  wake-IsSpaced (interrupted e) p start now rest s =
      other-IsSpaced (interrupted e) p start now rest refl s
  wake-IsSpaced request_due p start now rest s = other-IsSpaced request_due p start now rest refl s
  wake-IsSpaced battery_overdue p start now rest s =
      other-IsSpaced battery_overdue p start now rest refl s
  wake-IsSpaced ticked p start now rest s = other-IsSpaced ticked p start now rest refl s
  wake-IsSpaced (written address r) p start now rest s =
      other-IsSpaced (written address r) p start now rest refl s

  battery_requests-IsSpaced :
      (wakes : List (ℕ × Wake)) (p : Pump F) (start : ℕ)
      → IsSpaced p.timers.next_battery_request (battery_requests p start wakes)
  unfolding battery_requests
  battery_requests-IsSpaced [] p start = tt
  battery_requests-IsSpaced ((now, wake) ∷ wakes) p start =
      let r = step ops input mounting p start now wake in
      wake-IsSpaced wake p start now (battery_requests r.0 start wakes)
        (battery_requests-IsSpaced wakes r.0 start)

  -- Whatever wakes the loop and when, the battery is first asked a second after the start at the
  -- earliest, and then thirty seconds after the request before at the earliest.
  pub requests-IsSpaced :
      (l : Local F) (s : Shared F) (start : ℕ) (wakes : List (ℕ × Wake))
      → IsSpaced (start + 1000000000) (
          battery_requests (record { local = l; timers = timers_at start; shared = s }) start wakes)
  requests-IsSpaced l s start wakes =
      battery_requests-IsSpaced wakes (record { local = l; timers = timers_at start; shared = s })
        start
