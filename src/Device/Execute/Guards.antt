-- ===== src/Device/Execute/Guards.antt =====
-- The guards of `execute` against the device that `Configuration.Writes` plans with.
use pose_bridge.Prelude.{
  ℕ, ◌≡◌, refl, Bool, true, false, not, ◌&&◌, none, some, List, ◌∷◌, arith, ◌==◌, if◌then◌else◌,
  is_some,
}
use pose_bridge.Model.{Error, ok, err, invalid, protocol, is_ok}
use pose_bridge.Model.Command.{profile_code, DeviceCommand, rate, output, algorithm}
use pose_bridge.Configuration.{Settings, observed_rate}
use pose_bridge.Configuration.Writes.{perform}
use pose_bridge.Device.Exec.{
  Environment, Event, read, ◌>>=◌, return, throw, fail_if, answer, read_register_values,
}
use pose_bridge.Device.Inspect.{word}
use pose_bridge.Device.Execute.{check, check_guards, is_new_format}

-- The device answers the reads of its rate and of its output format, with the settings that it has.
pub record IsTruthful (env : Environment) (d : Settings) : Type 0 where
  pub rate_known :
      (h : List Event)
      → (vs : List ℕ) × (answer env 0x03 none h ≡ ok vs)
        × (observed_rate (word vs 0) ≡ some d.rate_hz)
  pub format_known :
      (h : List Event) → (vs : List ℕ) × (answer env 0x0e none h ≡ ok vs) × (word vs 0 ≡ d.format)

-- The commands that change settings.
abbrev pub is_setting : DeviceCommand → Bool
is_setting (rate hz) = true
is_setting (output p) = true
is_setting (algorithm m) = true
is_setting _ = false

observed_rate-20 : (code : ℕ) {r : ℕ} → observed_rate code ≡ some r → (code == 7) ≡ (r == 20)
unfolding observed_rate
observed_rate-20 code h = ground arith

check-known :
    (env : Environment) (wanted : Bool) (a : ℕ) (refused : ℕ → Bool) (e : Error) (h : List Event)
    {vs : List ℕ}
    → answer env a none h ≡ ok vs
    → check env wanted a refused e h ≡ (
      if wanted && refused (word vs 0) then err e else ok tt,
      if wanted then read a none ∷ h else h,
    )
unfolding check ◌>>=◌ read_register_values fail_if throw return
check-known env false a refused e h p = refl
check-known env true a refused e h p = rw p (ground arith)

-- Against a device that answers truthfully, the guards let a setting through exactly when the device
-- of the submission's plan performs it: full inertial output only at 20 Hz, another rate only from a
-- short format, another format only from a known one, and the fusion mode always.
pub check_guards-perform :
    (env : Environment) (d : Settings) (c : DeviceCommand) (h : List Event)
    → IsTruthful env d
    → is_setting c ≡ true
    → is_ok (check_guards env c h).0 ≡ is_some (perform d c)
unfolding check_guards ◌>>=◌ perform check return
check_guards-perform env d (rate hz) h t s =
    let (vs, a, f) = t.format_known h in
    rw (check-known env (not (hz == 20)) 0x0e (λ v. v == 0xe4) invalid h a) (ground (arith, f, a))
check_guards-perform env d (output p) h t s =
    let (us, b, g) = t.rate_known h in
    let (vs, a, f) = t.format_known (if profile_code p == 0xe4 then read 0x03 none ∷ h else h) in
    rw (check-known env (profile_code p == 0xe4) 0x03 (λ v. not (v == 7)) invalid h b) (
      ground (
        arith,
        g,
        f,
        observed_rate-20 (word us 0) g,
        check-known env true 0x0e (λ v. not (is_new_format v)) protocol
            (if profile_code p == 0xe4 then read 0x03 none ∷ h else h) a,
      ))
check_guards-perform env d (algorithm m) h t s = refl
check_guards-perform env d c h t s = cc s
