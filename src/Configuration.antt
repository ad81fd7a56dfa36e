-- ===== src/Configuration.antt =====
-- crates/posebridge-client/src/posebridge/configuration.rs: one submission of settings, as the writes
-- that it needs and as the state machine that has each of them verified.
pub mod Writes
pub mod Apply
mod Examples
use Prim.Native.String.{String}
use pose_bridge.Prelude.{
  ℕ, ◌+◌, Bool, true, false, not, ◌&&◌, ◌||◌, Option, none, some, List, [], ◌∷◌, ◌++◌, ◌==◌,
  if◌then◌else◌, from_bool,
}
use pose_bridge.Model.Command.{
  OutputProfile, motion, timestamp_euler, timestamp_quaternion, timestamp_gyro_quaternion,
  experimental_full_inertial_20hz, DeviceCommand, rate, output, algorithm, AlgorithmMode, nine_axis,
  six_axis,
}
use pose_bridge.Model.Observation.{DeviceObservation, OperationStatus, is_succeeded}

pub record Settings : Type 0 where
  pub rate_hz : ℕ
  pub format : ℕ
  pub six_axis_mode : Bool

-- Why a submission is refused or stops.
pub data ApplyError : Type 0 where
  unsupported_format unsupported_rate full_requires_20_hz : ApplyError
  calibration_active unreadable changed_since_read unverified_write unreadable_final differs :
      ApplyError
  -- an error that `fail` recorded
  stopped : String → ApplyError

pub data Result {ℓ} (Value : Type ℓ) : Type ℓ where
  err : ApplyError → Result Value
  ok : Value → Result Value

-- The `?` of a fallible step.
infixl 5 ◌>>=◌
abbrev pub ◌>>=◌ {ℓ κ} :
    {A : Type ℓ} {B : Type κ} (first : Result A) (next : A → Result B) → Result B
err e >>= next = err e
ok value >>= next = next value

infixl 5 ◌>>◌
abbrev pub ◌>>◌ {ℓ} : {B : Type ℓ} (first : Result (Unit {0})) (second : Result B) → Result B
first >> second = first >>= λ u. second

abbrev pub fail_if : Bool → ApplyError → Result (Unit {0})
fail_if true e = err e
fail_if false e = ok tt

-- `Settings::profile`.
unfoldable pub profile : ℕ → Result OutputProfile
profile format =
    if format == 0x61
    then ok motion
    else if format == 0x81
    then ok timestamp_euler
    else if format == 0x84
    then ok timestamp_quaternion
    else if format == 0xa4
    then ok timestamp_gyro_quaternion
    else if format == 0xe4
    then ok experimental_full_inertial_20hz
    else err unsupported_format

-- The rate of a rate register, in `Settings::observed`.
unfoldable pub observed_rate : ℕ → Option ℕ
observed_rate code =
    if code == 3
    then some 1
    else if code == 4
    then some 2
    else if code == 5
    then some 5
    else if code == 6
    then some 10
    else if code == 7
    then some 20
    else if code == 8
    then some 50
    else if code == 9
    then some 100
    else if code == 11
    then some 200
    else none

abbrev pub bind_option {ℓ κ} : {A : Type ℓ} {B : Type κ} → Option A → (A → Option B) → Option B
bind_option none f = none
bind_option (some a) f = f a

abbrev pub is_six : AlgorithmMode → Bool
is_six six_axis = true
is_six nine_axis = false

-- `settings.profile().ok()?`.
abbrev keep_supported : Result OutputProfile → Settings → Option Settings
keep_supported (ok p) s = some s
keep_supported (err e) s = none

unfoldable pub observed : DeviceObservation → Option Settings
observed o =
    if not o.valid
    then none
    else bind_option (bind_option o.rate_register observed_rate) (λ hz.
      bind_option o.output_register (λ format. bind_option o.algorithm (λ mode.
        keep_supported (profile format)
          (record { rate_hz = hz; format = format; six_axis_mode = is_six mode }))))

unfoldable pub is_supported_rate : ℕ → Bool
is_supported_rate hz =
    hz == 1
    || (hz == 2 || (hz == 5 || (hz == 10 || (hz == 20 || (hz == 50 || (hz == 100 || hz == 200))))))

unfoldable pub validate : Settings → Result (Unit {0})
validate s = do
  _ ← profile s.format
  fail_if (not (is_supported_rate s.rate_hz)) unsupported_rate
  fail_if (s.format == 0xe4 && not (s.rate_hz == 20)) full_requires_20_hz

abbrev pub bool_eq : Bool → Bool → Bool
bool_eq true b = b
bool_eq false b = not b

unfoldable pub differences : Settings → Settings → ℕ
differences s t =
    from_bool (not (s.rate_hz == t.rate_hz))
    + from_bool (not (s.format == t.format))
    + from_bool (not (bool_eq s.six_axis_mode t.six_axis_mode))

abbrev pub Write : Type 0
Write = String × DeviceCommand

abbrev pub rate_write : Settings → Write
rate_write s = ("Sample rate", rate s.rate_hz)

abbrev pub mode_write : Settings → Write
mode_write s = ("Fusion mode", algorithm (if s.six_axis_mode then six_axis else nine_axis))

abbrev pub when : Bool → Write → List Write
when c w = if c then w ∷ [] else []

-- `push_back` of the output write, with the `?` of the profile.
abbrev pub format_write : Bool → Result OutputProfile → Result (List Write)
format_write false p = ok []
format_write true (ok p) = ok (("Output format", output p) ∷ [])
format_write true (err e) = err e

-- `Settings::writes`, the commands in their order.
unfoldable pub writes : Settings → Settings → Result (List Write)
writes s current = do
  validate s
  format_list ← format_write (not (s.format == current.format)) (profile s.format)
  ok (
      when (s.format == 0xe4 && not (s.rate_hz == current.rate_hz)) (rate_write s)
      ++ (format_list
          ++ (when (not (s.format == 0xe4) && not (s.rate_hz == current.rate_hz)) (rate_write s)
              ++ when (not (bool_eq s.six_axis_mode current.six_axis_mode)) (mode_write s))))
