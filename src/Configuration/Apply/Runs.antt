-- ===== src/Configuration/Apply/Runs.antt =====
-- A submission to a device that verifies every write runs to its end.

use pose_bridge.Prelude.{
  suc, ◌≡◌, refl, ap, ◌∙◌, Bool, true, false, Option, none, some, List, [], ◌∷◌, ◌++◌, arith,
  length, map_or, ◌==◌,
}
use pose_bridge.Model.Observation.{DeviceObservation, OperationStatus}
use pose_bridge.Configuration.{Settings, Result, ok, Write, observed, writes}
use pose_bridge.Configuration.Apply.{
  Apply, Action, write, inspect, done, before, writing, after, finish, next_action, begin_writes,
  begin, conclude, is_verified, advance_stage, advance, new,
}
use pose_bridge.Configuration.Apply.Laws.{settings_eq_refl}

-- What one call of `advance` reads.
abbrev pub Input : Type 0
Input = DeviceObservation × Option OperationStatus

unfoldable pub run : Apply → List Input → Apply × List (Result Action)
run a [] = (a, [])
run a ((device, operation) ∷ inputs) =
    let (b, answer) = advance a device operation in
    let (c, answers) = run b inputs in (c, answer ∷ answers)

abbrev pub AllVerified : List Input → Type 0
AllVerified [] = Unit {0}
AllVerified ((device, operation) ∷ inputs) = (is_verified operation ≡ true) × AllVerified inputs

abbrev pub write_answer : Write → Result Action
write_answer (name, command) = ok (write command)

-- The answers to the readings that verify the writes of the list.
abbrev pub answers_of : List Write → List (Result Action)
answers_of [] = ok inspect ∷ []
answers_of (w ∷ ws) = write_answer w ∷ answers_of ws

record IsVerifying (target : Settings) (r : Apply × List (Result Action))
    (answers : List (Result Action)) : Type 0 where
  target_lem : r.0.progress.target ≡ target
  error_lem : r.0.progress.error ≡ none
  stage_lem : r.0.stage ≡ after
  answers_lem : r.1 ≡ answers

advance-writing :
    (a : Apply) (input : Input)
    → a.progress.error ≡ none
    → a.stage ≡ writing
    → is_verified input.1 ≡ true
    → advance a input.0 input.1
      ≡ next_action a.pending (record a {
        progress = record (a.progress) { verified = a.progress.verified ++ a.progress.step ∷ [] };
      })
unfolding advance advance_stage
advance-writing a (device, operation) e s v = ground arith

run-writing :
    (a : Apply) (ws : List Write) (inputs : List Input)
    → a.progress.error ≡ none
    → a.stage ≡ writing
    → a.pending ≡ ws
    → AllVerified inputs
    → length inputs ≡ suc (length ws)
    → IsVerifying a.progress.target (run a inputs) (answers_of ws)
unfolding run
run-writing a ws [] e s p v l = absurd (omega arith)
run-writing a [] (i ∷ j ∷ inputs) e s p v l = absurd (omega arith)
run-writing a [] (i ∷ []) e s p v l =
    rw (advance-writing a i e s v.0, p)
      (record { target_lem = refl; error_lem = e; stage_lem = refl; answers_lem = refl })
run-writing a ((name, c) ∷ ws) (i ∷ inputs) e s p v l =
    let next : Apply × Result Action = next_action ((name, c) ∷ ws) (record a {
      progress = record (a.progress) { verified = a.progress.verified ++ a.progress.step ∷ [] };
    }) in
    let rest : IsVerifying a.progress.target (run next.0 inputs) (answers_of ws) =
      run-writing next.0 ws inputs e refl refl v.1 (omega arith) in
    rw (advance-writing a i e s v.0, p)
      (record {
        target_lem = rest.target_lem;
        error_lem = rest.error_lem;
        stage_lem = rest.stage_lem;
        answers_lem = ap (λ l. ok (write c) ∷ l) rest.answers_lem;
      })

run-append :
    (a : Apply) (xs ys : List Input)
    → run a (xs ++ ys) ≡ ((run (run a xs).0 ys).0, (run a xs).1 ++ (run (run a xs).0 ys).1)
unfolding run
run-append a [] ys = refl
run-append a ((device, operation) ∷ xs) ys = rw (run-append (advance a device operation).0 xs ys)

run-after :
    (a : Apply) (target : Settings) (device : DeviceObservation)
    (operation : Option OperationStatus)
    → a.progress.target ≡ target
    → a.progress.error ≡ none
    → a.stage ≡ after
    → observed device ≡ some target
    → ((run a ((device, operation) ∷ [])).0.progress.complete ≡ true)
      × ((run a ((device, operation) ∷ [])).1 ≡ ok done ∷ [])
unfolding run advance advance_stage conclude finish
run-after a target device operation t e s o = ground (arith, settings_eq_refl target)

new_lem :
    (expected target : Settings) {a : Apply}
    → new expected target ≡ ok a
    → (a.progress.target ≡ target)
      × (a.progress.error ≡ none)
      × (a.stage ≡ before)
      × (a.expected ≡ expected)
unfolding new
new_lem expected target h = ground arith

abbrev pub is_calibrating : DeviceObservation → Bool
is_calibrating device = map_or device.calsw false (λ c. c == 7)

advance-before :
    (a : Apply) (expected target : Settings) (w : Write) (ws : List Write) (input : Input)
    → a.progress.target ≡ target
    → a.progress.error ≡ none
    → a.stage ≡ before
    → a.expected ≡ expected
    → writes target expected ≡ ok (w ∷ ws)
    → observed (input.0) ≡ some expected
    → is_calibrating (input.0) ≡ false
    → advance a input.0 input.1 ≡ next_action (w ∷ ws) (record a { pending = w ∷ ws })
unfolding advance advance_stage begin begin_writes
advance-before a expected target w ws (device, operation) t e s x h o c =
    rw (e, s, advance_stage) (rw (c, o) (rw (x, settings_eq_refl expected) (rw (t, h))))

-- The answers after the first: the writes that are left, the inspection and the end.
run-rest :
    (a : Apply) (target : Settings) (ws : List Write) (verified : List Input) (last : Input)
    → a.progress.target ≡ target
    → a.progress.error ≡ none
    → a.stage ≡ writing
    → a.pending ≡ ws
    → AllVerified verified
    → length verified ≡ suc (length ws)
    → observed (last.0) ≡ some target
    → ((run a (verified ++ last ∷ [])).0.progress.complete ≡ true)
      × ((run a (verified ++ last ∷ [])).1 ≡ answers_of ws ++ ok done ∷ [])
run-rest a target ws verified (device, operation) t e s p v l o =
    let r : IsVerifying a.progress.target (run a verified) (answers_of ws) =
      run-writing a ws verified e s p v l in
    let end =
      run-after (run a verified).0 target device operation (r.target_lem ∙ t) r.error_lem
        r.stage_lem o in
    rw (run-append a verified ((device, operation) ∷ [])) (end.0, λ i. r.answers_lem i ++ end.1 i)

run-cons :
    (a : Apply) (i : Input) (inputs : List Input)
    → run a (i ∷ inputs) ≡ (
      (run (advance a i.0 i.1).0 inputs).0,
      (advance a i.0 i.1).1 ∷ (run (advance a i.0 i.1).0 inputs).1,
    )
unfolding run
run-cons a (device, operation) inputs = refl

-- A submission whose target is valid and differs from the expected settings, on a device that is read
-- with the expected settings and not calibrating, that verifies each write, and that is read with the
-- target at the end: the answers are the writes in order, the inspection and the end, and the
-- submission is complete.
pub run_complete :
    (expected target : Settings) (w : Write) (ws : List Write) (first last : Input)
    (verified : List Input) {a : Apply}
    → new expected target ≡ ok a
    → writes target expected ≡ ok (w ∷ ws)
    → observed (first.0) ≡ some expected
    → is_calibrating (first.0) ≡ false
    → AllVerified verified
    → length verified ≡ suc (length ws)
    → observed (last.0) ≡ some target
    → let r = run a (first ∷ (verified ++ last ∷ [])) in
      (r.0.progress.complete ≡ true) × (r.1 ≡ write_answer w ∷ (answers_of ws ++ ok done ∷ []))
run_complete expected target (name, command) ws first last verified {a = a} n h o c v l p =
    let (t, e, s, x) = new_lem expected target n in
    let begun : Apply × Result Action =
      next_action ((name, command) ∷ ws) (record a { pending = (name, command) ∷ ws }) in
    let r = run-rest begun.0 target ws verified last t e refl refl v l p in
    rw
      (
        run-cons a first (verified ++ last ∷ []),
        advance-before a expected target (name, command) ws first t e s x h o c,
      )
      (r.0, ap (λ q. ok (write command) ∷ q) r.1)
