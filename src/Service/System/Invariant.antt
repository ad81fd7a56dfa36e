-- ===== src/Service/System/Invariant.antt =====
-- What holds of the service in every state that it reaches.
use mathlib.Core.Path.{subst}
use pose_bridge.Prelude.{
  ℕ, ◌≡◌, refl, sym, arith, Bool, true, false, Bool-cases, inl, inr, ◌==◌, Option, none, some, List,
  [], ◌∷◌,
}
use pose_bridge.Controller.{DeviceInfo}
use pose_bridge.Controller.Lifecycle.{Controller}
use pose_bridge.Service.{Request, View, Service}
use pose_bridge.Service.Configure.{send, permitted}
use pose_bridge.Service.Worker.{Worker, Edit, current_after}
use pose_bridge.Service.Worker.Desk.{Parts, Inputs}
use pose_bridge.Service.Worker.Poll.{Publication}
use pose_bridge.Service.Worker.Show.{show, show_due, rated, observed_view}
use pose_bridge.Service.Worker.Staged.{Staged, free, moved}
use pose_bridge.Service.Worker.Staged.Answers.{on_request-IsStaged}
use pose_bridge.Service.Worker.Staged.Polls.{poll-IsStaged}
use pose_bridge.Service.System.{
  System, Action, sends, takes, polls, writes, leaves, shows, new_system, devices_of, written,
  shown, take_first, polled, when_free, when_written, left, step, run,
}
use pose_bridge.Service.System.Numbered.{
  Numbered, at_end, then_next, InOrder, send_after-InOrder, edit-InOrder, show_keeps,
}

-- The worker is in one of its stages, and the requests of the queue are numbered on from its own to
-- that of the view. So the view waits for no other request once the queue is empty.
pub record IsWell {F S : Type 0} (s : System F S) : Type 0 where
  pub stage : Staged s.worker
  pub ordered : InOrder s.worker.current s.service

renumbered :
    {n n' m m' : ℕ} {rs rs' : List Request}
    → n ≡ n'
    → rs ≡ rs'
    → m ≡ m'
    → Numbered n rs m
    → Numbered n' rs' m'
renumbered {n' = n'} {m = m} {rs = rs} {rs' = rs'} a b c h =
    subst (λ x. Numbered n' rs' x) c
      (subst (λ x. Numbered n' x m) b (subst (λ x. Numbered x rs m) a h))

tail-Numbered :
    {n m : ℕ} {r : Request} {rs : List Request}
    → Numbered n (r ∷ rs) m
    → Numbered (current_after n r) rs m
tail-Numbered (then_next h hs) = hs

module _ {F S : Type 0} where
  show_due-Staged :
      (w : Worker F S) (v : View F S) (p : Publication F S) (devices : List DeviceInfo) (now : ℕ)
      → Staged w
      → Staged (show_due (w, v) p devices now).0
  show_due-Staged w v p devices now h =
      moved w (show_due (w, v) p devices now).0 (ground arith) (ground arith) (ground arith)
        (ground arith) h

  show-Staged :
      (w : Worker F S) (p : Publication F S) (devices : List DeviceInfo) (now : ℕ) (s : Service F S)
      → Staged w
      → Staged (show w p devices now s).0
  unfolding show
  show-Staged w p devices now s h = elim (Bool-cases (s.view.request == w.current)) [
    | inl e ↦
        let v = observed_view w p s.view in
        rw e (
          show_due-Staged (rated w p v now).0 (rated w p v now).1 p devices now
            (moved w (rated w p v now).0 refl refl refl refl h))
    | inr e ↦ rw e h
  ]

  -- Steps of the worker that go on only when nothing is left of the one before.
  when_free-IsWell :
      (edits : List (Edit F S)) (found : Option (Publication F S)) (running : Bool)
      (s t : System F S)
      → IsWell s
      → IsWell t
      → IsWell (when_free edits found running s t)
  when_free-IsWell [] none true s t h k = k
  when_free-IsWell [] none false s t h k = h
  when_free-IsWell [] (some p) b s t h k = h
  when_free-IsWell (e ∷ es) found b s t h k = h

  when_written-IsWell :
      (edits : List (Edit F S)) (s t : System F S)
      → IsWell s
      → IsWell t
      → IsWell (when_written edits s t)
  when_written-IsWell [] s t h k = k
  when_written-IsWell (e ∷ es) s t h k = h

  left-IsWell : (s : System F S) (running : Bool) → IsWell s → IsWell (left s running)
  left-IsWell s true h = h
  left-IsWell s false h = record { stage = h.stage; ordered = h.ordered }

  written-IsWell : (s : System F S) (edits : List (Edit F S)) → IsWell s → IsWell (written s edits)
  written-IsWell s [] h = h
  written-IsWell s (e ∷ es) h = record {
    stage = h.stage;
    ordered = edit-InOrder s.worker.current s.service e h.ordered;
  }

  shown-IsWell :
      (s : System F S) (found : Option (Publication F S)) (now : ℕ)
      → IsWell s
      → IsWell (shown s found now)
  shown-IsWell s none now h = h
  shown-IsWell s (some p) now h =
      let devices = devices_of s.worker.controller in
      let (request, queue, current) = show_keeps s.worker p devices now s.service in
      record {
        stage = show-Staged s.worker p devices now s.service h.stage;
        ordered = renumbered (sym current) (sym queue) (sym request) h.ordered;
      }

module _ {F G S : Type 0} (parts : Parts F G S) where
  take_first-IsWell :
      (s : System F S) (i : Inputs F) (queue : List Request)
      → s.service.queue ≡ queue
      → IsWell s
      → IsWell (take_first parts s i queue)
  take_first-IsWell s i [] e h = h
  take_first-IsWell s i (r ∷ rest) e h =
      let d = on_request-IsStaged parts i s.worker s.service.view.request r h.stage in
      record {
        stage = d.stage;
        ordered =
            renumbered (sym d.is_current) refl refl
              (tail-Numbered (renumbered refl e refl h.ordered));
      }

  polled-IsWell :
      (s : System F S) (i : Inputs F) (c : Option (Controller F))
      → IsWell s
      → IsWell (polled parts s i c)
  polled-IsWell s i none h = h
  polled-IsWell s i (some c) h =
      let d =
        poll-IsStaged parts i s.worker.current
          (record { worker = s.worker; controller = c; edits = [] })
          (record { stage = h.stage; is_current = refl }) in
      record {
        stage = moved _ _ refl refl refl refl d.stage;
        ordered = subst (λ n. InOrder n s.service) (sym d.is_current) h.ordered;
      }

  step-IsWell : (s : System F S) (a : Action F) → IsWell s → IsWell (step parts s a)
  unfolding step send
  step-IsWell s (sends command) h = record {
    stage = h.stage;
    ordered =
        send_after-InOrder s.worker.current (permitted parts.ops parts.texts parts.host command)
          s.service command h.ordered;
  }
  step-IsWell s (takes i) h =
      when_free-IsWell s.edits s.found s.is_running s _ h
        (take_first-IsWell s i s.service.queue refl h)
  step-IsWell s writes h = written-IsWell s s.edits h
  step-IsWell s (polls i) h =
      when_free-IsWell s.edits s.found s.is_running s _ h (polled-IsWell s i s.worker.controller h)
  step-IsWell s (shows now) h = when_written-IsWell s.edits s _ h (shown-IsWell s s.found now h)
  step-IsWell s leaves h = when_written-IsWell s.edits s _ h (left-IsWell s s.is_running h)

  run_from-IsWell :
      (steps : List (Action F)) (s : System F S) → IsWell s → IsWell (run parts steps s)
  unfolding run
  run_from-IsWell [] s h = h
  run_from-IsWell (a ∷ rest) s h = run_from-IsWell rest (step parts s a) (step-IsWell s a h)

  -- Whatever is sent between the steps of the worker: at most one of a submission, a connection and
  -- a magnetic session is under way, each in its own phases and the magnetic phase only with an open
  -- session, and the queued requests are numbered on from the one that the worker is at to the one
  -- that the view waits for.
  pub run-IsWell :
      (now : ℕ) (steps : List (Action F))
      → IsWell (run parts steps (new_system {F = F} {S = S} now))
  run-IsWell now steps =
      run_from-IsWell steps (new_system now)
        (record { stage = free refl refl refl refl; ordered = at_end })
