-- ===== src/Config/Accepted.antt =====
-- What a validated configuration guarantees.
use pose_bridge.Prelude.{ℕ, ◌≤◌, ◌≡◌, ◌≢◌, refl, Bool, true, Option, none, some, arith, is_none}
use pose_bridge.Model.{ok}
use pose_bridge.Model.Text.{Text, validate_source_id}
use pose_bridge.Pose.{FloatOps}
use pose_bridge.Pose.Mounting.{Mounting}
use pose_bridge.Pose.Mounting.Rotation.{IsRotation, validate-IsRotation}
use pose_bridge.Config.{
  SocketAddr, OscConfig, DolbyOscConfig, Config, validate_rate, validate_output, validate_osc,
  validate_dolby, validate_mounting, is_simulate, validate_source, logical_source_id, validate,
  validate_acquisition,
}

-- An output of this machine only, at a rate from 1 to 200 Hz.
pub record IsLocal (target : SocketAddr) (rate : ℕ) : Type 0 where
  pub loopback : target.is_loopback ≡ true
  pub port_ne : target.port ≢ 0
  pub rate_ge : 1 ≤ rate
  pub rate_le : rate ≤ 200

abbrev pub OscIsLocal : Option OscConfig → Type 0
OscIsLocal none = Unit {0}
OscIsLocal (some o) = IsLocal o.target o.max_rate_hz

abbrev pub DolbyIsLocal : Option DolbyOscConfig → Type 0
DolbyIsLocal none = Unit {0}
DolbyIsLocal (some o) = IsLocal o.target o.max_rate_hz

-- A mounting that turns the axes, or none where the source may do without.
abbrev pub IsMounted : Bool → Option Mounting → Type 0
IsMounted simulated none = simulated ≡ true
IsMounted simulated (some m) = IsRotation m

validate_output-IsLocal :
    (target : SocketAddr) (rate : ℕ) → validate_output target rate ≡ ok tt → IsLocal target rate
unfolding validate_output validate_rate
validate_output-IsLocal target rate h = ground arith

validate_osc-OscIsLocal : (o : Option OscConfig) → validate_osc o ≡ ok tt → OscIsLocal o
unfolding validate_osc
validate_osc-OscIsLocal none h = tt
validate_osc-OscIsLocal (some o) h = validate_output-IsLocal o.target o.max_rate_hz h

validate_dolby-DolbyIsLocal :
    (o : Option DolbyOscConfig) → validate_dolby o ≡ ok tt → DolbyIsLocal o
unfolding validate_dolby
validate_dolby-DolbyIsLocal none h = tt
validate_dolby-DolbyIsLocal (some o) h = validate_output-IsLocal o.target o.max_rate_hz h

validate_mounting-IsMounted :
    (simulated : Bool) (m : Option Mounting)
    → validate_mounting m ≡ ok tt
    → (is_none m ≡ true → simulated ≡ true)
    → IsMounted simulated m
unfolding validate_mounting
validate_mounting-IsMounted simulated none h k = k refl
validate_mounting-IsMounted simulated (some m) h k = (validate-IsRotation m).0 h

module _ {F : Type 0} (ops : FloatOps F) (texts : Text) (windows : Bool) where
  validate_parts :
      (c : Config F)
      → validate ops texts windows c ≡ ok tt
      → (validate_source ops texts windows c.source ≡ ok tt)
        × (validate_source_id texts (logical_source_id ops texts windows c) ≡ ok tt)
        × (validate_mounting c.mounting ≡ ok tt)
        × (validate_osc c.osc ≡ ok tt)
        × (validate_dolby c.dolby_osc ≡ ok tt)
  unfolding validate
  validate_parts c h = ground arith

  -- A configuration that acquisition accepts sends only to this machine, at no more than 200 packets in
  -- a second and to a port that is not 0, and turns what a sensor measures by a proper rotation; only a
  -- simulator does without a mounting.
  pub validate_acquisition_safe :
      (c : Config F)
      → validate_acquisition ops texts windows c ≡ ok tt
      → OscIsLocal c.osc × DolbyIsLocal c.dolby_osc × IsMounted (is_simulate c.source) c.mounting
  unfolding validate_acquisition
  validate_acquisition_safe c h =
      let valid : validate ops texts windows c ≡ ok tt = ground arith in
      let mounted : (is_none c.mounting ≡ true) → is_simulate c.source ≡ true = λ n. ground arith in
      let p = validate_parts c valid in
      (
        validate_osc-OscIsLocal c.osc p.3,
        validate_dolby-DolbyIsLocal c.dolby_osc p.4,
        validate_mounting-IsMounted (is_simulate c.source) c.mounting p.2 mounted,
      )
