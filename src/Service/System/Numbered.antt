-- ===== src/Service/System/Numbered.antt =====
-- The numbers of the requests.
use mathlib.Core.Path.{subst}
use pose_bridge.Prelude.{
  ℕ, ◌≡◌, refl, sym, ◌∙◌, arith, Bool-cases, inl, inr, ◌==◌, Option, none, some, List, [], ◌∷◌,
  ◌++◌,
}
use pose_bridge.Client.{Device}
use pose_bridge.Tracking.{Sample}
use pose_bridge.Controller.{DeviceInfo, Snapshot}
use pose_bridge.Sweeps.{Session}
use pose_bridge.Service.{
  Outcome, err, ok, Phase, View, admit, enqueue, try_send, requested, send_admitted, send_recenter,
  send_checked, send_after, Command, recenter_dolby, Request, next_id, Service,
}
use pose_bridge.Service.Worker.{
  Worker, Edit, edit, edit_view, current_after, refuse, complain, publish,
}
use pose_bridge.Service.Latch.{publish_session, observe_magnetic}
use pose_bridge.Service.Worker.Poll.{Publication}
use pose_bridge.Service.Worker.Show.{show, observed_view, publish_any, show_due, rated}

-- A recentering has the number of the request before it, and any other request the next number.
unfoldable pub IsNumbered : ℕ → Request → Type 0
IsNumbered n r = r.id ≡ number r.command
  where
    number : Command → ℕ
    number recenter_dolby = n
    number _ = next_id n

-- The requests of a queue are numbered from `n`, and `m` is the number after them.
pub data Numbered : ℕ → List Request → ℕ → Type 0 where
  at_end : {n : ℕ} → Numbered n [] n
  then_next :
      {n m : ℕ} {r : Request} {rs : List Request}
      → IsNumbered n r
      → Numbered (current_after n r) rs m
      → Numbered n (r ∷ rs) m

snoc-Numbered :
    (n m : ℕ) (rs : List Request) (r : Request)
    → Numbered n rs m
    → IsNumbered m r
    → Numbered n (rs ++ r ∷ []) (current_after m r)
snoc-Numbered n m [] r at_end k = then_next k at_end
snoc-Numbered n m (q ∷ rs) r (then_next h hs) k =
    then_next h (snoc-Numbered (current_after n q) m rs r hs k)

module _ {F S : Type 0} where
  -- The queue of a service, whose worker has the number `n`.
  abbrev pub InOrder : ℕ → Service F S → Type 0
  InOrder n s = Numbered n s.queue s.view.request

  try_send-Numbered :
      (n : ℕ) (s : Service F S) (r : Request) (queue : List Request)
      → InOrder n s
      → IsNumbered s.view.request r
      → try_send s r ≡ ok queue
      → Numbered n queue (current_after s.view.request r)
  unfolding try_send
  try_send-Numbered n s r queue h k e =
      subst (λ x. Numbered n x (current_after s.view.request r)) same
        (snoc-Numbered n s.view.request s.queue r h k)
    where
      same : s.queue ++ r ∷ [] ≡ queue
      same = ground arith

  enqueue-InOrder :
      (n : ℕ) (s : Service F S) (o : Outcome (List Request)) (v : View F S)
      (sample : Option (Sample F))
      → InOrder n s
      → ((queue : List Request) → o ≡ ok queue → Numbered n queue v.request)
      → InOrder n (enqueue s o v sample).0
  enqueue-InOrder n s (err e) v sample h k = h
  enqueue-InOrder n s (ok queue) v sample h k = k queue refl

  send_admitted-InOrder :
      (n : ℕ) (s : Service F S) (c : Command) (o : Outcome Phase)
      → IsNumbered s.view.request (record { id = next_id s.view.request; command = c })
      → current_after s.view.request (record { id = next_id s.view.request; command = c })
        ≡ next_id s.view.request
      → InOrder n s
      → InOrder n (send_admitted s c o).0
  unfolding requested
  send_admitted-InOrder n s c (err e) a b h = h
  send_admitted-InOrder n s c (ok phase) a b h =
      let r : Request = record { id = next_id s.view.request; command = c } in
      enqueue-InOrder n s (try_send s r) (requested s.view c phase) none h
        (λ queue e. subst (λ x. Numbered n queue x) b (try_send-Numbered n s r queue h a e))

  send_checked-InOrder :
      (n : ℕ) (s : Service F S) (c : Command) (o : Outcome (Unit {0}))
      → IsNumbered s.view.request (record { id = next_id s.view.request; command = c })
      → current_after s.view.request (record { id = next_id s.view.request; command = c })
        ≡ next_id s.view.request
      → InOrder n s
      → InOrder n (send_checked s c o).0
  send_checked-InOrder n s c (err e) a b h = h
  send_checked-InOrder n s c (ok u) a b h = send_admitted-InOrder n s c (admit s.view c) a b h

  send_recenter-InOrder :
      (n : ℕ) (s : Service F S) (o : Outcome Phase) → InOrder n s → InOrder n (send_recenter s o).0
  unfolding IsNumbered
  send_recenter-InOrder n s (err e) h = h
  send_recenter-InOrder n s (ok phase) h =
      let r : Request = record { id = s.view.request; command = recenter_dolby } in
      enqueue-InOrder n s (try_send s r) (record (s.view) { error = none }) s.sample h
        (λ queue e. try_send-Numbered n s r queue h refl e)

  pub send_after-InOrder :
      (n : ℕ) (checks : Outcome (Unit {0})) (s : Service F S) (c : Command)
      → InOrder n s
      → InOrder n (send_after checks s c).0
  unfolding send_after IsNumbered
  send_after-InOrder n checks s recenter_dolby h =
      send_recenter-InOrder n s (admit s.view recenter_dolby) h
  send_after-InOrder n checks s c h = send_checked-InOrder n s c checks refl refl h

  -- What the worker writes and shows leaves the number of the view.
  pub edit-InOrder : (n : ℕ) (s : Service F S) (e : Edit F S) → InOrder n s → InOrder n (edit s e)
  unfolding edit publish_session
  edit-InOrder n s e h = subst (λ x. Numbered n s.queue x) (sym (same e)) h
    where
      same : (e : Edit F S) → (edit_view s.view e).request ≡ s.view.request
      same (publish session device request) = ground arith
      same (refuse request error) = ground arith
      same (complain request error) = ground arith
      same _ = refl

  publish_any-request :
      (p : Option (Session F S × Device)) (n : ℕ) (v : View F S)
      → (publish_any p n v).request ≡ v.request
  unfolding publish_session
  publish_any-request none n v = refl
  publish_any-request (some (session, device)) n v = ground arith

  observe_magnetic-request :
      (v : View F S) (snapshot : Snapshot F) (device : Option Device)
      → (observe_magnetic v snapshot device).request ≡ v.request
  unfolding observe_magnetic
  observe_magnetic-request v snapshot none = refl
  observe_magnetic-request v snapshot (some device) = ground arith

  show_due-request :
      (w : Worker F S) (v : View F S) (p : Publication F S) (devices : List DeviceInfo) (now : ℕ)
      → (show_due (w, v) p devices now).1.request ≡ v.request
  show_due-request w v p devices now = ground arith

  show_due-current :
      (w : Worker F S) (v : View F S) (p : Publication F S) (devices : List DeviceInfo) (now : ℕ)
      → (show_due (w, v) p devices now).0.current ≡ w.current
  show_due-current w v p devices now = ground arith

  -- Neither the numbers nor the queue.
  pub show_keeps :
      (w : Worker F S) (p : Publication F S) (devices : List DeviceInfo) (now : ℕ) (s : Service F S)
      → ((show w p devices now s).1.view.request ≡ s.view.request)
        × ((show w p devices now s).1.queue ≡ s.queue)
        × ((show w p devices now s).0.current ≡ w.current)
  unfolding show observed_view
  show_keeps w p devices now s = elim (Bool-cases (s.view.request == w.current)) [
    | inl e ↦ rw e (
      show_due-request (rated w p v now).0 (rated w p v now).1 p devices now
          ∙ (publish_any-request p.session w.current (observe_magnetic s.view p.snapshot w.device)
              ∙ observe_magnetic-request s.view p.snapshot w.device),
      refl,
      show_due-current (rated w p v now).0 (rated w p v now).1 p devices now,
    )
    | inr e ↦ rw e (refl, refl, refl)
  ]
    where
      v : View F S
      v = publish_any p.session w.current (observe_magnetic s.view p.snapshot w.device)
