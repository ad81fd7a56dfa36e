-- ===== src/Controller/SetConfig/Epoch.antt =====
-- What a new configuration does to the source's description.
use pose_bridge.Prelude.{
  ℕ, ◌+◌, ◌≡◌, refl, Bool, true, false, not, ◌&&◌, Option, none, some, arith, from_bool,
  if◌then◌else◌, is_some, Bool-cases, inl, inr, ap, ◌∙◌,
}
use pose_bridge.Model.{Result, ok, err, is_ok}
use pose_bridge.Model.Text.{Text}
use pose_bridge.Pose.{FloatOps}
use pose_bridge.Config.{Config, validate}
use pose_bridge.Controller.SetConfig.{Json, reference_changed, reconfigured, adopt, set_config}
use pose_bridge.Controller.Lifecycle.{
  Controller, retire_dolby, stop_idle, stop, ensure_idle, ensure_idle_task, and_then,
}

module _ {F : Type 0} where
  -- A step that may stop the task, but leaves the configuration and the description.
  record IsKept (c : Controller F) (r : Controller F × Result (Unit {0})) : Type 0 where
    config : r.0.config ≡ c.config
    descriptor : r.0.shared.descriptor ≡ c.shared.descriptor
    idle : (is_ok r.1 && is_some r.0.task) ≡ false

  ensure_idle-IsKept :
      (t : Option Bool) (c : Controller F) (now : ℕ)
      → c.task ≡ t
      → IsKept c (ensure_idle_task t c now)
  unfolding stop stop_idle retire_dolby
  ensure_idle-IsKept none c now e = record { config = refl; descriptor = refl; idle = ground arith }
  ensure_idle-IsKept (some false) c now e = record {
    config = refl;
    descriptor = refl;
    idle = ground arith;
  }
  ensure_idle-IsKept (some true) c now e = record {
    config = ground arith;
    descriptor = ground arith;
    idle = ground arith;
  }

  -- The result of a new configuration: refused as a whole, or taken as a whole.
  abbrev pub IsTaken : Json F → Controller F → Config F → Controller F × Result (Unit {0}) → Type 0
  IsTaken json c config r =
      let accepted = is_ok r.1 in
      let changed = accepted && not (json.same_config c.config config) in
      (r.0.config ≡ (if accepted then config else c.config))
      × ((accepted && is_some r.0.task) ≡ false)
      × (r.0.shared.descriptor.metadata_revision
          ≡ c.shared.descriptor.metadata_revision + from_bool changed)
      × (r.0.shared.descriptor.reference_epoch
          ≡ c.shared.descriptor.reference_epoch
            + from_bool (changed && reference_changed json c.config config))

module _ {F : Type 0} (ops : FloatOps F) (texts : Text) (windows : Bool) (json : Json F) where
  adopted :
      (c : Controller F) (r : Controller F × Result (Unit {0})) (config : Config F) (window : ℕ)
      → IsKept c r
      → IsTaken json c config (and_then r (adopt ops texts windows json config window))
  unfolding reconfigured
  adopted c (c', ok u) config window k = elim (Bool-cases (json.same_config c.config config)) [
    | inl same ↦
        rw (k.config, same)
          (
            refl,
            k.idle,
            ap (λ d. d.metadata_revision) k.descriptor ∙ omega arith,
            ap (λ d. d.reference_epoch) k.descriptor ∙ omega arith,
          )
    | inr new ↦
        rw (k.config, new)
          (
            refl,
            k.idle,
            ap (λ d. d.metadata_revision + 1) k.descriptor,
            ap (λ d. d.reference_epoch + from_bool (reference_changed json c.config config))
                k.descriptor,
          )
  ]
  adopted c (c', err e) config window k = (
    k.config,
    refl,
    ap (λ d. d.metadata_revision) k.descriptor ∙ omega arith,
    ap (λ d. d.reference_epoch) k.descriptor ∙ omega arith,
  )

  -- A new configuration is taken or refused as a whole. Refused, it leaves the old one and the epoch and
  -- revision of the source. Taken, it leaves no task, raises the revision exactly when it differs from
  -- the old one as JSON, and the reference epoch exactly when it then has another source, mounting or
  -- pose input.
  pub set_config-epoch :
      (c : Controller F) (config : Config F) (window now : ℕ)
      → IsTaken json c config (set_config ops texts windows json c config window now)
  unfolding set_config ensure_idle
  set_config-epoch c config window now =
      elim (validate ops texts windows config)
        as (λ v. IsTaken json c config (
          and_then (c, v)
            (λ c'. and_then (ensure_idle c' now) (adopt ops texts windows json config window)))) [
              | ok u ↦
                  adopted c (ensure_idle_task c.task c now) config window
                    (ensure_idle-IsKept c.task c now refl)
              | err e ↦ (refl, refl, omega arith, omega arith)
            ]
