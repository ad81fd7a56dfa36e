-- ===== src/Configuration/Apply/Laws.antt =====
-- When a submission counts as applied, and that a device which verifies each write gets there.

use pose_bridge.Prelude.{◌≡◌, refl, ap, ◌∙◌, true, Option, none, some, List, [], ◌∷◌, ◌++◌, arith}
use pose_bridge.Model.Observation.{DeviceObservation, OperationStatus}
use pose_bridge.Configuration.{Settings, Result, ok, err, Write, observed, writes}
use pose_bridge.Configuration.Apply.{
  Apply, Action, write, inspect, done, Stage, before, writing, after, settings_eq, finish,
  next_action, begin_writes, begin, conclude, advance_stage, advance,
}

settings_eq_sound : (s t : Settings) → settings_eq s t ≡ true → s ≡ t
unfolding settings_eq
settings_eq_sound s t h = ground arith

pub settings_eq_refl : (s : Settings) → settings_eq s s ≡ true
unfolding settings_eq
settings_eq_refl s = ground arith

writes-nil : (s current : Settings) → writes s current ≡ ok [] → current ≡ s
unfolding writes
writes-nil s current h = ground arith

-- What an answer says of the state behind it and of the device that was read.
abbrev pub Answers : Apply → DeviceObservation → Apply × Result Action → Type 0
Answers a device (b, err e) = b ≡ a
Answers a device (b, ok (write c)) =
    (b.progress.target ≡ a.progress.target) × (b.progress.complete ≡ a.progress.complete)
Answers a device (b, ok inspect) =
    (b.progress.target ≡ a.progress.target) × (b.progress.complete ≡ a.progress.complete)
Answers a device (b, ok done) =
    (b.progress.target ≡ a.progress.target)
    × (b.progress.complete ≡ true)
    × (observed device ≡ some a.progress.target)

begin_writes-Answers :
    (a : Apply) (device : DeviceObservation) (current : Settings) (r : Result (List Write))
    → observed device ≡ some current
    → writes a.progress.target current ≡ r
    → Answers a device (begin_writes a r)
unfolding begin_writes finish
begin_writes-Answers a device current (err e) o h = refl
begin_writes-Answers a device current (ok []) o h =
    (refl, refl, o ∙ ap some (writes-nil a.progress.target current h))
begin_writes-Answers a device current (ok ((name, c) ∷ ws)) o h = (refl, refl)

begin-Answers :
    (a : Apply) (device : DeviceObservation) (o : Option Settings)
    → observed device ≡ o
    → Answers a device (begin a o)
unfolding begin
begin-Answers a device none h = refl
begin-Answers a device (some current) h =
    ground (arith, begin_writes-Answers a device current (writes a.progress.target current) h refl)

conclude-Answers :
    (a : Apply) (device : DeviceObservation) (o : Option Settings)
    → observed device ≡ o
    → Answers a device (conclude a o)
unfolding conclude finish
conclude-Answers a device none h = refl
conclude-Answers a device (some s) h = ground (arith, settings_eq_sound s a.progress.target)

next_action-Answers :
    (a b : Apply) (device : DeviceObservation) (ws : List Write)
    → b.progress.target ≡ a.progress.target
    → b.progress.complete ≡ a.progress.complete
    → Answers a device (next_action ws b)
next_action-Answers a b device [] p q = (p, q)
next_action-Answers a b device ((name, c) ∷ ws) p q = (p, q)

advance_stage-Answers :
    (t : Stage) (a : Apply) (device : DeviceObservation) (operation : Option OperationStatus)
    → Answers a device (advance_stage t a device operation)
unfolding advance_stage
advance_stage-Answers before a device operation =
    ground (arith, begin-Answers a device (observed device) refl)
advance_stage-Answers writing a device operation = ground (
  arith,
  next_action-Answers a
      (record a {
        progress = record (a.progress) { verified = a.progress.verified ++ a.progress.step ∷ [] };
      })
      device a.pending refl refl,
)
advance_stage-Answers after a device operation = conclude-Answers a device (observed device) refl

-- Every answer of `advance`, in every stage: a refusal leaves the submission as it was; a write or an
-- inspection keeps its target and does not complete it; and it is done, and then complete, only when
-- the device that was just read has exactly the target settings.
pub advance-Answers :
    (a : Apply) (device : DeviceObservation) (operation : Option OperationStatus)
    → Answers a device (advance a device operation)
unfolding advance
advance-Answers a device operation =
    ground (arith, advance_stage-Answers a.stage a device operation)
