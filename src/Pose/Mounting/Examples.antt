-- ===== src/Pose/Mounting/Examples.antt =====
-- A mounting with the sensor's second axis turned to the left.
use pose_bridge.Prelude.{◌≡◌, ◌↔◌}
use pose_bridge.Prelude.Int.{pos, negsuc}
use pose_bridge.Model.{ok}
use pose_bridge.Pose.Mounting.{Mounting, validate}
use pose_bridge.Pose.Mounting.Rotation.{IsRotation, validate-IsRotation}

abbrev turned : Mounting
turned = record { right = negsuc 1; forward = pos 1; up = pos 3 }

validate-IsRotation_example : (validate turned ≡ ok tt) ↔ IsRotation turned
validate-IsRotation_example = validate-IsRotation turned
