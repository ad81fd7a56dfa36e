-- ===== src/Service/Worker/Tracks.antt =====
-- What has to be known of a device before it is tracked.
use pose_bridge.Prelude.{
  List, [], ◌∷◌, ◌&&◌, not, Bool-cases, inl, inr, ℕ, ◌≡◌, ◌≢◌, refl, sym, ap, ◌∙◌, arith, Bool,
  true, false, if◌then◌else◌, Option, none, some, ◌==◌, is_some_and,
}
use mathlib.Core.Path.{subst}
use pose_bridge.Model
use pose_bridge.Pose.Mounting
use pose_bridge.Config.{Config, PoseInput}
use pose_bridge.Model.Observation.{DeviceObservation, OutputField, quaternion, euler}
use pose_bridge.Config.{validate}
use pose_bridge.Controller.{Snapshot}
use pose_bridge.Controller.Lifecycle.{Controller}
use pose_bridge.Controller.SetConfig.{set_config}
use pose_bridge.Controller.Start.{start}
use pose_bridge.Client.{Device, Input, automatic, register_quaternion}
use pose_bridge.Service.{
  tracking, Message, Outcome, err, ok, and_then, Outputs, with_outputs, calibration_active,
}
use pose_bridge.Service.Configure.{
  of_core, has, same_field, fields_of, is_code, observed_automatic, observed_for, configuration,
  connection, observed_input, validated, config_of,
}
use pose_bridge.Service.Worker.Desk.{Parts, Inputs, Desk, ◌>>◌, call, called, with_value, continue}
use pose_bridge.Service.Worker.Handle.{stop_it, configure}
use pose_bridge.Service.Worker.Poll.{
  tracked, start_acquisition, start_it, connected, connect_step, is_complete,
}
use pose_bridge.Service.Worker.Acquire.{Holds, set_config-config, start-config}

-- What an `ok` says of the steps before it.
and_then-ok :
    {A B : Type 0} (r : Outcome A) (f : A → Outcome B) (b : B)
    → and_then r f ≡ ok b
    → (a : A) × (r ≡ ok a) × (f a ≡ ok b)
and_then-ok (err e) f b h = cc
and_then-ok (ok a) f b h = (a, refl, h)

unless-ok :
    {A : Type 0} (test : Bool) (e : Message) (r : Outcome A) (a : A)
    → (if test then err e else r) ≡ ok a
    → (test ≡ false) × (r ≡ ok a)
unless-ok true e r a h = cc
unless-ok false e r a h = (refl, h)

ok-eq : {A : Type 0} {a b : A} → ok a ≡ ok b → a ≡ b
ok-eq h = cc

of_core-ok : (r : Model.Result (Unit {0})) (u : Unit {0}) → of_core r ≡ ok u → r ≡ Model.ok tt
of_core-ok (Model.ok u) v h = refl
of_core-ok (Model.err e) v h = cc

not_seven : (calsw : Option ℕ) → is_some_and calsw (λ c. c == 7) ≡ false → calsw ≢ some 7
not_seven none h = λ e. cc
not_seven (some c) h = λ e. ground arith

pub data Among : OutputField → List OutputField → Type 0 where
  here : {f : OutputField} {fs : List OutputField} → Among f (f ∷ fs)
  there : {f g : OutputField} {fs : List OutputField} → Among f fs → Among f (g ∷ fs)

-- A field is among the output fields that were observed.
abbrev pub Sends : DeviceObservation → OutputField → Type 0
Sends o field = (fields : List OutputField) × (o.output_fields ≡ some fields) × Among field fields

-- The input that was chosen, or that what was verified of the device's output allows.
pub data IsInput (device : Device) (o : DeviceObservation) : PoseInput → Type 0 where
  chosen : device.input ≡ register_quaternion → IsInput device o PoseInput.register_quaternion
  quaternions :
      device.input ≡ automatic
      → o.valid ≡ true
      → (o.output_register ≡ some 0xe4 → o.rate_register ≡ some 7)
      → Sends o quaternion
      → IsInput device o PoseInput.stream_quaternion
  angles :
      device.input ≡ automatic
      → o.valid ≡ true
      → (o.output_register ≡ some 0xe4 → o.rate_register ≡ some 7)
      → Sends o euler
      → ¬ (Sends o quaternion)
      → IsInput device o PoseInput.euler

same_field-eq : (f g : OutputField) → same_field f g ≡ true → f ≡ g
same_field-eq quaternion quaternion h = refl
same_field-eq euler euler h = refl
same_field-eq _ _ h = absurd cc

has-Among : (field : OutputField) (fs : List OutputField) → has field fs ≡ true → Among field fs
has-Among field [] h = absurd cc
has-Among field (f ∷ fs) h = elim (Bool-cases (same_field field f)) [
  | inl e ↦ subst (λ g. Among field (g ∷ fs)) (same_field-eq field f e) here
  | inr e ↦ there (has-Among field fs (rw e at h))
]

Among-has :
    (field : OutputField) (fs : List OutputField)
    → same_field field field ≡ true
    → Among field fs
    → has field fs ≡ true
Among-has field [] e a = elim a [ ]
Among-has field (f ∷ fs) e here = rw e refl
Among-has field (f ∷ fs) e (there a) = ground (arith, Among-has field fs e a)

sent :
    (o : DeviceObservation) (field : OutputField) (seen : Option (List OutputField))
    → o.output_fields ≡ seen
    → has field (fields_of seen) ≡ true
    → Sends o field
sent o field none e h = absurd cc
sent o field (some fields) e h = (fields, e, has-Among field fields h)

unsent :
    (o : DeviceObservation) (field : OutputField)
    → same_field field field ≡ true
    → has field (fields_of o.output_fields) ≡ false
    → ¬ (Sends o field)
unsent o field e h (fields, seen, a) =
    let there_is : has field (fields_of o.output_fields) ≡ true =
      rw seen (Among-has field fields e a) in
    cc

is_code-eq : (register : Option ℕ) (code : ℕ) → is_code register code ≡ true → register ≡ some code
is_code-eq none code h = absurd cc
is_code-eq (some r) code h = ap some (ground arith)

paced :
    (output rate : Option ℕ)
    → (is_code output 0xe4 && not (is_code rate 7)) ≡ false
    → output ≡ some 0xe4
    → rate ≡ some 7
paced output rate h e = is_code-eq rate 7 (ground arith)

automatic-IsInput :
    (device : Device) (o : DeviceObservation) (input : PoseInput)
    → device.input ≡ automatic
    → observed_automatic o ≡ ok input
    → IsInput device o input
automatic-IsInput device o input a h =
    let (invalid, h1) = unless-ok (not o.valid) _ _ input h in
    let (full, h2) =
      unless-ok (is_code o.output_register 0xe4 && not (is_code o.rate_register 7)) _ _ input h1 in
    let valid : o.valid ≡ true = ground arith in
    let pace = paced o.output_register o.rate_register full in
    elim (Bool-cases (has quaternion (fields_of o.output_fields))) [
      | inl q ↦
          subst (IsInput device o) (ok-eq (rw q at h2))
            (quaternions a valid pace (sent o quaternion o.output_fields refl q))
      | inr n ↦ elim (Bool-cases (has euler (fields_of o.output_fields))) [
        | inl e ↦
            subst (IsInput device o) (ok-eq (rw e at (rw n at h2))) (
              angles a valid pace (sent o euler o.output_fields refl e)
                (unsent o quaternion refl n))
        | inr m ↦ absurd (not_ok input (rw m at (rw n at h2)))
      ]
    ]
  where
    not_ok : {e : Message} (input : PoseInput) → err e ≡ ok input → ⊥
    not_ok input h = cc

observed_input-IsInput :
    (device : Device) (o : DeviceObservation) (input : PoseInput)
    → observed_input device o ≡ ok input
    → IsInput device o input
unfolding observed_input
observed_input-IsInput device o input h = by_input device.input refl h
  where
    by_input :
        (kind : Input)
        → device.input ≡ kind
        → observed_for kind o ≡ ok input
        → IsInput device o input
    by_input register_quaternion e h = subst (IsInput device o) (ok-eq h) (chosen e)
    by_input automatic e h = automatic-IsInput device o input e h

module _ {F G S : Type 0} (parts : Parts F G S) (i : Inputs F) where
  -- Of the desk, after a step that went well.
  abbrev Starts : Config F → Desk F S × Outcome (Unit {0}) → Type 0
  Starts config (d, ok u) = (d.controller.config ≡ config) × (d.controller.task ≡ some false)
  Starts config (d, err e) = Unit

  abbrev Has : Config F → Desk F S × Outcome (Unit {0}) → Type 0
  Has config (d, ok u) = d.controller.config ≡ config
  Has config (d, err e) = Unit

  configure-Has :
      (config : Config F) (d : Desk F S) (r : Controller F × Model.Result (Unit {0}))
      → Holds (λ c. c.config ≡ config) r
      → Has config (called d r)
  configure-Has config d (c, Model.ok u) h = h
  configure-Has config d (c, Model.err e) h = tt

  started-Starts :
      (config : Config F) (d : Desk F S) (r : Controller F × Model.Result (Unit {0}))
      → d.controller.config ≡ config
      → Holds (λ c. (c.config ≡ d.controller.config) × (c.task ≡ some false)) r
      → Starts config (called d r)
  started-Starts config d (c, Model.ok u) e (h, k) = (h ∙ e, k)
  started-Starts config d (c, Model.err x) e h = tt

  then_start :
      (config : Config F) (r : Desk F S × Outcome (Unit {0}))
      → Has config r
      → Starts config (continue r (call (start_it parts i)))
  unfolding call
  then_start config (d, ok u) h =
      started-Starts config d
        (start parts.ops parts.texts parts.host.windows d.controller i.instance i.window i.now) h
        (start-config parts.ops parts.texts parts.host.windows d.controller i.instance i.window
          i.now)
  then_start config (d, err e) h = tt

  then_configure :
      (config : Config F) (r : Desk F S × Outcome (Unit {0}))
      → Has config (continue r (call (configure parts i config)))
  unfolding call
  then_configure config (d, ok u) =
      configure-Has config d
        (set_config parts.ops parts.texts parts.host.windows parts.json d.controller config i.window
          i.now)
        (set_config-config parts.ops parts.texts parts.host.windows parts.json d.controller config
          i.window i.now)
  then_configure config (d, err e) = tt

  start_acquisition-Starts :
      (config : Config F) (d : Desk F S) → Starts config (start_acquisition parts i config d)
  unfolding start_acquisition ◌>>◌
  start_acquisition-Starts config d =
      then_start config (continue (call (stop_it parts i) d) (call (configure parts i config)))
        (then_configure config (call (stop_it parts i) d))

  -- What tracking was started with.
  pub record IsTracked (snapshot : Snapshot F) (device : Device) (outputs : Outputs) (d : Desk F S)
      : Type 0 where
    pub uncalibrated : snapshot.descriptor.device.calsw ≢ some 7
    pub input : IsInput device snapshot.descriptor.device d.controller.config.pose_input
    pub valid_mounting : Mounting.validate device.mounting ≡ Model.ok tt
    pub mounted : d.controller.config.mounting ≡ some device.mounting
    pub outputs_osc : d.controller.config.osc ≡ outputs.posebridge
    pub outputs_dolby : d.controller.config.dolby_osc ≡ outputs.dolby
    pub is_live : d.controller.task ≡ some false

  -- A configuration that was checked for tracking.
  record IsChecked (snapshot : Snapshot F) (device : Device) (outputs : Outputs) (config : Config F)
      : Type 0 where
    uncalibrated : snapshot.descriptor.device.calsw ≢ some 7
    input : IsInput device snapshot.descriptor.device config.pose_input
    valid_mounting : Mounting.validate device.mounting ≡ Model.ok tt
    mounted : config.mounting ≡ some device.mounting
    outputs_osc : config.osc ≡ outputs.posebridge
    outputs_dolby : config.dolby_osc ≡ outputs.dolby

  passed_on : (r : Outcome (Unit {0})) (x c : Config F) → and_then r (λ u. ok x) ≡ ok c → x ≡ c
  passed_on (err e) x c h = cc
  passed_on (ok u) x c h = ok-eq h

  validated-eq : (x c : Config F) → validated parts.ops parts.texts parts.host x ≡ ok c → x ≡ c
  validated-eq x c h =
      passed_on (of_core (validate parts.ops parts.texts parts.host.windows x)) x c h

  tracked-IsChecked :
      (snapshot : Snapshot F) (device : Device) (outputs : Outputs) (config : Config F)
      → tracked parts i snapshot device outputs ≡ ok config
      → IsChecked snapshot device outputs config
  unfolding tracked connection configuration
  tracked-IsChecked snapshot device outputs config h =
      let (uncalibrated, h1) = unless-ok _ calibration_active _ config h in
      let (c, hc, h2) = and_then-ok _ _ config h1 in
      let (input, hi, h3) = and_then-ok _ _ config h2 in
      let (c1, hd, h4) = and_then-ok _ _ c hc in
      let (v, hm, h6) = and_then-ok _ _ c1 hd in
      let from : config_of device true ≡ c1 = validated-eq (config_of device true) c1 h6 in
      let outputs_of : with_outputs outputs c1 ≡ c = validated-eq (with_outputs outputs c1) c h4 in
      let last : record c { pose_input = input } ≡ config = ok-eq h3 in
      record {
        uncalibrated = not_seven snapshot.descriptor.device.calsw uncalibrated;
        input =
            subst (IsInput device snapshot.descriptor.device)
              (ap (λ (x : Config F). x.pose_input) last)
              (observed_input-IsInput device snapshot.descriptor.device input hi);
        valid_mounting = of_core-ok (Mounting.validate device.mounting) v hm;
        mounted =
            sym (ap (λ (x : Config F). x.mounting) last)
            ∙ (sym (ap (λ (x : Config F). x.mounting) outputs_of)
                ∙ sym (ap (λ (x : Config F). x.mounting) from));
        outputs_osc =
            sym (ap (λ (x : Config F). x.osc) last) ∙ sym (ap (λ (x : Config F). x.osc) outputs_of);
        outputs_dolby =
            sym (ap (λ (x : Config F). x.dolby_osc) last)
            ∙ sym (ap (λ (x : Config F). x.dolby_osc) outputs_of);
      }

  connected-IsTracked :
      (snapshot : Snapshot F) (device : Device) (outputs : Outputs) (config : Config F)
      (r : Desk F S × Outcome (Unit {0}))
      → IsChecked snapshot device outputs config
      → Starts config r
      → (connected parts i r).worker.phase ≡ tracking
      → IsTracked snapshot device outputs (connected parts i r)
  connected-IsTracked snapshot device outputs config (d, err e) h k p = cc
  connected-IsTracked snapshot device outputs config (d, ok u) h (k, live) p = record {
    uncalibrated = h.uncalibrated;
    input =
        subst (IsInput device snapshot.descriptor.device)
          (ap (λ (x : Config F). x.pose_input) (sym k)) h.input;
    valid_mounting = h.valid_mounting;
    mounted = ap (λ (x : Config F). x.mounting) k ∙ h.mounted;
    outputs_osc = ap (λ (x : Config F). x.osc) k ∙ h.outputs_osc;
    outputs_dolby = ap (λ (x : Config F). x.dolby_osc) k ∙ h.outputs_dolby;
    is_live = live;
  }

  checked-IsTracked :
      (snapshot : Snapshot F) (device : Device) (outputs : Outputs) (d : Desk F S)
      (o : Outcome (Config F))
      → tracked parts i snapshot device outputs ≡ o
      → (connected parts i (with_value o (start_acquisition parts i) d)).worker.phase ≡ tracking
      → IsTracked snapshot device outputs
          (connected parts i (with_value o (start_acquisition parts i) d))
  unfolding with_value
  checked-IsTracked snapshot device outputs d (err e) h p = cc
  checked-IsTracked snapshot device outputs d (ok config) h p =
      connected-IsTracked snapshot device outputs config (start_acquisition parts i config d)
        (tracked-IsChecked snapshot device outputs config h) (start_acquisition-Starts config d) p

  -- When the inspection of a connection is complete and the worker goes on to track, the calibration
  -- switch was not read as 7. The controller's input is the register quaternion if that was chosen for
  -- the device, whatever else was read; else the device was verified, full inertial frames come at 20 Hz
  -- only, and it sends the quaternion or, without it, the Euler angles that are the input. The
  -- device's mounting is valid and is the controller's, the outputs are those asked for, and the
  -- task of the controller runs.
  pub connect_step-IsTracked :
      (snapshot : Snapshot F) (device : Device) (outputs : Outputs) (d : Desk F S)
      → is_complete snapshot.status.state ≡ true
      → (connect_step parts i snapshot device outputs d).worker.phase ≡ tracking
      → IsTracked snapshot device outputs (connect_step parts i snapshot device outputs d)
  unfolding connect_step
  connect_step-IsTracked snapshot device outputs d h =
      rw h
        (checked-IsTracked snapshot device outputs d (tracked parts i snapshot device outputs) refl)
