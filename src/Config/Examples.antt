-- ===== src/Config/Examples.antt =====
-- A simulated source, over the natural numbers.
use pose_bridge.Prelude.{ℕ, ◌≡◌, refl, true, false, some}
use pose_bridge.Model.{ok}
use pose_bridge.Model.Text.{validate_source_id}
use pose_bridge.Osc.{quaternion}
use pose_bridge.Naturals.{ops, texts}
use pose_bridge.Pose.{normalize, multiply, from_euler, axis_x, axis_y, axis_z}
use pose_bridge.Config.{
  Config, default, validate_rate, validate_source, validate_mounting, validate_osc, validate_dolby,
  validate_output, logical_source_id, source_name, validate, validate_acquisition, is_simulate,
}
use pose_bridge.Config.Accepted.{OscIsLocal, DolbyIsLocal, IsMounted, validate_acquisition_safe}

-- With an OSC output to this machine.
abbrev config : Config ℕ
config = record (default 0) {
  osc = some (record {
    target = record { is_loopback = true; port = 9000 };
    max_rate_hz = 100;
    format = quaternion;
  });
}

config-accepted : validate_acquisition ops texts false config ≡ ok tt
unfolding validate_acquisition validate validate_source validate_source_id validate_mounting
    validate_osc validate_dolby validate_output validate_rate from_euler normalize multiply axis_x
    axis_y axis_z logical_source_id source_name
config-accepted = refl

validate_acquisition_safe_example :
    OscIsLocal config.osc
    × DolbyIsLocal config.dolby_osc
    × IsMounted (is_simulate config.source) config.mounting
validate_acquisition_safe_example = validate_acquisition_safe ops texts false config config-accepted
