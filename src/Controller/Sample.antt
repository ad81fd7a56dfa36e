-- ===== src/Controller/Sample.antt =====
-- A controller's states over the natural numbers, for the examples.
use pose_bridge.Prelude.{ℕ, false, none, some, List, [], ◌∷◌}
use pose_bridge.Prelude.Int.{pos}
use pose_bridge.Motion.{Signals, native_quaternion}
use pose_bridge.Motion
use pose_bridge.Battery
use pose_bridge.Magnetic.State
use pose_bridge.SampleClock
use pose_bridge.Protocol.Parser
use pose_bridge.Naturals.{ops, texts}
use pose_bridge.Osc.{no_raw}
use pose_bridge.Pose.Mounting.{Mounting}
use pose_bridge.Config.{Config, euler}
use pose_bridge.Config
use pose_bridge.Controller.{Shared, default_status, new_descriptor}
use pose_bridge.Controller.Publish.{PreparedPose, begin_session}
use pose_bridge.Controller.Receive.{Local}
use pose_bridge.Controller.FullRate.{FullFrameRate, observe}
use pose_bridge.Controller.FullRate

abbrev pub config : Config ℕ
config = Config.default 0

abbrev pub empty : Shared ℕ
empty = record {
  status = default_status;
  descriptor = new_descriptor ops texts false config;
  operation = none;
  pose = none;
  devices = [];
  last_pose = none;
  first_pose = none;
  motion = Motion.default;
  battery = Battery.default;
  magnetic_state = State.default 4;
  physical = none;
  dolby = none;
}

abbrev pub in_session : Shared ℕ
in_session = begin_session empty 7 9

abbrev pub signals : Signals ℕ
signals = record {
  orientation = record { x = 0; y = 0; z = 0; w = 1 };
  gyro = none;
  acceleration = none;
  source = native_quaternion;
  profile = 0x84;
}

abbrev pub prepared : PreparedPose ℕ
prepared = record {
  q = record { x = 0; y = 0; z = 0; w = 1 };
  raw = no_raw;
  time = none;
  signals = some signals;
}

abbrev pub mounting : Mounting
mounting = record { right = pos 1; forward = pos 2; up = pos 3 }

abbrev pub local : Local ℕ
local = record {
  parser = Parser.default;
  received_frame = false;
  raw = no_raw;
  sample_clock = SampleClock.default;
  full_frame_rate = FullRate.default;
  outstanding = none;
  battery_outstanding = none;
  last_bytes = 0;
  last_delivery = none;
}

-- A motion frame of twenty bytes.
abbrev pub bytes : List ℕ
bytes = 0x55 ∷ 0x61 ∷ 0 ∷ 0 ∷ 0 ∷ 0 ∷ 0 ∷ 8 ∷ 0 ∷ 0 ∷ 0 ∷ 0 ∷ 0 ∷ 0 ∷ 0 ∷ 0 ∷ 0 ∷ 0 ∷ 0 ∷ 0 ∷ []
