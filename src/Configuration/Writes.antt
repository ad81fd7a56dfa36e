-- ===== src/Configuration/Writes.antt =====
-- The writes of one submission against a device that refuses what `device::execute` refuses.
use pose_bridge.Prelude.{
  ℕ, ◌≡◌, refl, Bool, true, not, ◌&&◌, ◌||◌, Option, none, some, List, [], ◌∷◌, arith, ◌==◌,
  if◌then◌else◌, length, ◌↔◌, is_some,
}
use pose_bridge.Model.Command.{
  OutputProfile, profile_code, DeviceCommand, rate, output, algorithm, rate_code,
}
use pose_bridge.Configuration.{
  Settings, ApplyError, Result, ok, err, Write, profile, observed_rate, is_supported_rate, validate,
  differences, is_six, writes,
}

-- The output formats that `device::execute` changes from.
abbrev pub is_new_format : ℕ → Bool
is_new_format f = f == 0x61 || (f == 0x81 || (f == 0x84 || (f == 0xa4 || f == 0xe4)))

-- The device after a command, or `none` where the guards of `device::execute` refuse it: full inertial
-- output wants 20 Hz, leaving 20 Hz wants a short format, and an output change a known format.
unfoldable pub perform : Settings → DeviceCommand → Option Settings
perform d (rate hz) =
    if not (hz == 20) && d.format == 0xe4 then none else some (record d { rate_hz = hz })
perform d (output p) =
    if (profile_code p == 0xe4 && not (d.rate_hz == 20)) || not (is_new_format d.format)
    then none
    else some (record d { format = profile_code p })
perform d (algorithm m) = some (record d { six_axis_mode = is_six m })
perform d _ = none

unfoldable pub perform_all : Settings → List Write → Option Settings
perform_all d [] = some d
perform_all d ((name, c) ∷ ws) = elim (perform d c) [ none ↦ none | some d' ↦ perform_all d' ws ]

abbrev pub Returns : {A : Type 0} → Result A → (A → Type 0) → Type 0
Returns (ok a) P = P a
Returns (err e) P = ⊥

profile-profile_code : (f : ℕ) {p : OutputProfile} → profile f ≡ ok p → profile_code p ≡ f
unfolding profile
profile-profile_code f e = ground arith

profile-is_new_format : (f : ℕ) {p : OutputProfile} → profile f ≡ ok p → is_new_format f ≡ true
unfolding profile
profile-is_new_format f e = ground arith

writes_sound :
    (s current : Settings) (o : Result OutputProfile) {q : OutputProfile}
    → profile s.format ≡ o
    → validate s ≡ ok tt
    → profile current.format ≡ ok q
    → Returns
        (writes s current)
        (λ ws. (perform_all current ws ≡ some s) × (length ws ≡ differences s current))
unfolding writes perform_all perform validate differences
writes_sound s current (err e) p v r = ground arith
writes_sound s current (ok x) p v r =
    ground (arith, profile-profile_code s.format p, profile-is_new_format current.format r)

-- Valid settings, for a device whose current format is supported, are reached by their writes: no
-- write is refused by the guards of the device, the device then has exactly those settings, and there
-- is one write for each setting that differs.
pub writes-perform_all :
    (s current : Settings) {q : OutputProfile}
    → validate s ≡ ok tt
    → profile current.format ≡ ok q
    → Returns
        (writes s current)
        (λ ws. (perform_all current ws ≡ some s) × (length ws ≡ differences s current))
writes-perform_all s current v r = writes_sound s current (profile s.format) refl v r

-- Invalid settings are refused before anything is written.
pub writes-invalid :
    (s current : Settings) {e : ApplyError} → validate s ≡ err e → writes s current ≡ err e
unfolding writes
writes-invalid s current h = rw (h, writes)

-- The rates that can be written and the rates that are read back are the same, and the register that
-- encodes a rate is read back as that rate: both directions, for every rate and register value.
pub observed_rate-rate_code :
    (hz code : ℕ)
    → ((rate_code hz ≡ some code) ↔ (observed_rate code ≡ some hz))
      × (is_supported_rate hz ≡ is_some (rate_code hz))
unfolding rate_code observed_rate is_supported_rate
observed_rate-rate_code hz code = ((λ h. ground arith, λ h. ground arith), ground arith)
