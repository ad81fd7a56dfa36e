-- ===== src/Service/Events/Latched.antt =====
-- What is kept of a device that may be calibrating.

use pose_bridge.Prelude.{◌≡◌, refl, ◌∙◌, arith, true, Option, none, some, List, [], ◌∷◌, ◌++◌}
use pose_bridge.Client.{Device}
use pose_bridge.Service.{
  Outcome, err, ok, Command, recenter_dolby, View, Service, no_dolby_output, admit, admit_recenter,
  admit_other, send_after, send_checked, send_recenter, send_admitted, enqueue, requested,
  latch_allows, Phase, Request,
}
use pose_bridge.Tracking.{Sample}
use pose_bridge.Service.Worker.{edit}
use pose_bridge.Service.Events.{
  Event, sent, taken, edited, showed, step, run, accept, accepted_at, accepted,
}
use pose_bridge.Service.Events.Kept.{
  Ends, AllEnd, nothing, one_more, IsAbout, AllAbout, no_event, next_event, latch_allows-Ends,
  edit_kept, show_kept,
}

module _ {F S : Type 0} where
  enqueue_kept :
      (s : Service F S) (o : Outcome (List Request)) (v : View F S) (sample : Option (Sample F))
      → v.magnetic ≡ s.view.magnetic
      → (enqueue s o v sample).0.view.magnetic ≡ s.view.magnetic
  enqueue_kept s (err e) v sample h = refl
  enqueue_kept s (ok queue) v sample h = h

  send_admitted_kept :
      (s : Service F S) (c : Command) (o : Outcome Phase)
      → (send_admitted s c o).0.view.magnetic ≡ s.view.magnetic
  unfolding requested
  send_admitted_kept s c (err e) = refl
  send_admitted_kept s c (ok phase) = enqueue_kept s _ (requested s.view c phase) none refl

  send_checked_kept :
      (s : Service F S) (c : Command) (o : Outcome (Unit {0}))
      → (send_checked s c o).0.view.magnetic ≡ s.view.magnetic
  send_checked_kept s c (err e) = refl
  send_checked_kept s c (ok u) = send_admitted_kept s c (admit s.view c)

  send_recenter_kept :
      (s : Service F S) (o : Outcome Phase) → (send_recenter s o).0.view.magnetic ≡ s.view.magnetic
  send_recenter_kept s (err e) = refl
  send_recenter_kept s (ok phase) =
      enqueue_kept s _ (record (s.view) { error = none }) s.sample refl

  send_kept :
      (s : Service F S) (checks : Outcome (Unit {0})) (c : Command)
      → (send_after checks s c).0.view.magnetic ≡ s.view.magnetic
  unfolding send_after
  send_kept s checks recenter_dolby = send_recenter_kept s (admit s.view recenter_dolby)
  send_kept s checks c = send_checked_kept s c checks

  -- Only what ends a calibration is admitted, so nothing else is accepted.
  admit_other_latched :
      (v : View F S) (c : Command) (d : Device) (phase : Phase)
      → v.magnetic ≡ some d
      → admit_other v c ≡ ok phase
      → latch_allows d c ≡ true
  unfolding admit_other
  admit_other_latched v c d phase h k = ground arith

  admit_recenter_latched :
      (v : View F S) (d : Device)
      → v.magnetic ≡ some d
      → admit v recenter_dolby ≡ err no_dolby_output
  unfolding admit admit_recenter
  admit_recenter_latched v d h = ground arith

  enqueue-AllEnd :
      (s : Service F S) (o : Outcome (List Request)) (v : View F S) (sample : Option (Sample F))
      (c : Command) (d : Device)
      → Ends d c
      → AllEnd d (accept c (enqueue s o v sample).1)
  enqueue-AllEnd s (err e) v sample c d h = nothing
  enqueue-AllEnd s (ok queue) v sample c d h = one_more h nothing

  send_admitted-AllEnd :
      (s : Service F S) (c : Command) (d : Device) (o : Outcome Phase)
      → ((phase : Phase) → o ≡ ok phase → Ends d c)
      → AllEnd d (accept c (send_admitted s c o).1)
  send_admitted-AllEnd s c d (err e) h = nothing
  send_admitted-AllEnd s c d (ok phase) h = enqueue-AllEnd s _ _ none c d (h phase refl)

  send_checked-AllEnd :
      (s : Service F S) (c : Command) (d : Device) (o : Outcome (Unit {0}))
      → ((phase : Phase) → admit s.view c ≡ ok phase → Ends d c)
      → AllEnd d (accept c (send_checked s c o).1)
  send_checked-AllEnd s c d (err e) h = nothing
  send_checked-AllEnd s c d (ok u) h = send_admitted-AllEnd s c d (admit s.view c) h

  send_recenter-AllEnd :
      (s : Service F S) (d : Device) (o : Outcome Phase)
      → o ≡ err no_dolby_output
      → AllEnd d (accept recenter_dolby (send_recenter s o).1)
  send_recenter-AllEnd s d (err e) h = nothing
  send_recenter-AllEnd s d (ok phase) h = cc

  sent-AllEnd :
      (s : Service F S) (checks : Outcome (Unit {0})) (c : Command) (d : Device)
      → s.view.magnetic ≡ some d
      → AllEnd d (accept c (send_after checks s c).1)
  unfolding send_after admit
  sent-AllEnd s checks recenter_dolby d h =
      send_recenter-AllEnd s d (admit s.view recenter_dolby) (admit_recenter_latched s.view d h)
  sent-AllEnd s checks c d h =
      send_checked-AllEnd s c d checks
        (λ phase k. latch_allows-Ends d c (admit_other_latched s.view c d phase h k))

  step_kept :
      (s : Service F S) (e : Event F S) (d : Device)
      → IsAbout d e
      → s.view.magnetic ≡ some d
      → (step s e).view.magnetic ≡ some d
  unfolding step edit
  step_kept s (sent checks c) d a h = send_kept s checks c ∙ h
  step_kept s taken d a h = h
  step_kept s (edited e) d a h = edit_kept s.view e d a h
  step_kept s (showed w p devices now) d a h = show_kept w p devices now s d a h

  accepted_at-AllEnd :
      (s : Service F S) (e : Event F S) (d : Device)
      → s.view.magnetic ≡ some d
      → AllEnd d (accepted_at s e)
  unfolding accepted_at
  accepted_at-AllEnd s (sent checks c) d h = sent-AllEnd s checks c d h
  accepted_at-AllEnd s taken d h = nothing
  accepted_at-AllEnd s (edited e) d h = nothing
  accepted_at-AllEnd s (showed w p devices now) d h = nothing

append-AllEnd :
    (d : Device) (cs bs : List Command) → AllEnd d cs → AllEnd d bs → AllEnd d (cs ++ bs)
append-AllEnd d [] bs nothing k = k
append-AllEnd d (c ∷ cs) bs (one_more h hs) k = one_more h (append-AllEnd d cs bs hs k)

-- Once a device may be calibrating, and while what the worker reports is about that device and shows
-- no verified stop of it, the device stays latched whatever is sent, and the only commands
-- accepted end its calibration, inspect it, open a magnetic session on it, or stop the worker.
pub run-AllEnd :
    {F S : Type 0} (es : List (Event F S)) (s : Service F S) (d : Device)
    → s.view.magnetic ≡ some d
    → AllAbout d es
    → ((run es s).view.magnetic ≡ some d) × AllEnd d (accepted es s)
unfolding run accepted
run-AllEnd [] s d h no_event = (h, nothing)
run-AllEnd (e ∷ es) s d h (next_event a as_rest) =
    let (kept, rest) = run-AllEnd es (step s e) d (step_kept s e d a h) as_rest in
    (kept, append-AllEnd d (accepted_at s e) _ (accepted_at-AllEnd s e d h) rest)
