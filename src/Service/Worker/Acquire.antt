-- ===== src/Service/Worker/Acquire.antt =====
-- What a controller is after a configuration and a start that went well.
use pose_bridge.Prelude.{
  ℕ, ◌≡◌, refl, ◌∙◌, inl, inr, Bool, true, false, ◌&&◌, Bool-cases, Option, none, some, is_some,
}
use pose_bridge.Model
use pose_bridge.Model.Text.{Text}
use pose_bridge.Pose.{FloatOps}
use pose_bridge.Config.{Config}
use pose_bridge.Config.{validate, validate_acquisition}
use pose_bridge.Controller.Lifecycle
use pose_bridge.Controller.Lifecycle.{
  Controller, Ending, ended, stop, stop_idle, stop_any, ensure_idle, ensure_idle_task,
}
use pose_bridge.Controller.SetConfig.{Json, set_config}
use pose_bridge.Controller.Start.{start}

module _ {F : Type 0} where
  -- After a call that went well.
  abbrev pub Holds : (Controller F → Type 0) → Controller F × Model.Result (Unit {0}) → Type 0
  Holds P (c, Model.ok u) = P c
  Holds P (c, Model.err e) = Unit

  and_then-Holds :
      (P Q : Controller F → Type 0) (r : Controller F × Model.Result (Unit {0}))
      (f : Controller F → Controller F × Model.Result (Unit {0}))
      → Holds P r
      → ((c : Controller F) → P c → Holds Q (f c))
      → Holds Q (Lifecycle.and_then r f)
  and_then-Holds P Q (c, Model.ok u) f h k = k c h
  and_then-Holds P Q (c, Model.err e) f h k = tt

  any-Holds :
      (P : Controller F → Type 0) (c : Controller F) (v : Model.Result (Unit {0}))
      → P c
      → Holds P (c, v)
  any-Holds P c (Model.ok u) h = h
  any-Holds P c (Model.err e) h = tt

  all-Holds : (r : Controller F × Model.Result (Unit {0})) → Holds (λ d. Unit {0}) r
  all-Holds (c, Model.ok u) = tt
  all-Holds (c, Model.err e) = tt

  stop_idle-config :
      (c : Controller F) (magnetic : Bool) → Holds (λ d. d.config ≡ c.config) (stop_idle c magnetic)
  unfolding stop_idle
  stop_idle-config c magnetic =
      elim (Bool-cases (magnetic && is_some c.shared.magnetic_state.last_error)) [
        | inl e ↦ rw e tt
        | inr e ↦ rw e refl
      ]

  ensure_idle-config :
      (c : Controller F) (task : Option Bool) (now : ℕ)
      → Holds (λ d. d.config ≡ c.config) (ensure_idle_task task c now)
  unfolding stop
  ensure_idle-config c none now = refl
  ensure_idle-config c (some false) now = tt
  ensure_idle-config c (some true) now = finished c.task
    where
      finished :
          (task : Option Bool)
          → Holds
              (λ d. d.config ≡ c.config)
              (stop_any task
                (record c { task = none; magnetic_commands = false })
                c.magnetic_commands
                (ended c.shared)
                now)
      finished none = stop_idle-config _ c.magnetic_commands
      finished (some b) = stop_idle-config _ c.magnetic_commands

module _ {F : Type 0} (ops : FloatOps F) (texts : Text) (windows : Bool) where
  pub set_config-config :
      (json : Json F) (c : Controller F) (config : Config F) (window now : ℕ)
      → Holds (λ d. d.config ≡ config) (set_config ops texts windows json c config window now)
  unfolding set_config
  set_config-config json c config window now =
      and_then-Holds (λ d. Unit {0}) (λ d. d.config ≡ config) (c, validate ops texts windows config)
        _ (all-Holds (c, validate ops texts windows config))
        λ d u.
          and_then-Holds (λ x. Unit {0}) (λ x. x.config ≡ config) (ensure_idle d now) _
            (all-Holds (ensure_idle d now)) λ x v. refl

  pub start-config :
      (c : Controller F) (instance window now : ℕ)
      → Holds
          (λ d. (d.config ≡ c.config) × (d.task ≡ some false))
          (start ops texts windows c instance window now)
  unfolding start ensure_idle
  start-config c instance window now =
      and_then-Holds (λ d. d.config ≡ c.config) (λ d. (d.config ≡ c.config) × (d.task ≡ some false))
        (c, validate_acquisition ops texts windows c.config) _
        (any-Holds (λ d. d.config ≡ c.config) c (validate_acquisition ops texts windows c.config)
          refl)
        λ d e.
          and_then-Holds (λ x. x.config ≡ d.config)
            (λ x. (x.config ≡ c.config) × (x.task ≡ some false)) (ensure_idle d now) _
            (ensure_idle-config d d.task now) λ x k. (k ∙ e, refl)
