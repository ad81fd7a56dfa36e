-- ===== src/Controller/Monitor/Examples.antt =====
-- A magnetic session that is cancelled, and whose calibration is stopped.
use pose_bridge.Magnetic.State.{finish, next_phase, observe_calsw}
use pose_bridge.Controller.Monitor.{
  cleanup_calibration, execute, execute_from, announced, finish_switch, operation, verified,
}
use pose_bridge.Controller.Wire.{
  ◌>>=◌, read_values, read_loop, receive_bytes, change, delay, lift, return, wait_loop, write_bytes,
}
use pose_bridge.Device.Registers.{search_frames, to_u16}
use pose_bridge.Magnetic.Receive.{receive, observe_frame, observe_frames}
use pose_bridge.Protocol.Parser.{push, push_byte, drain, scan, scan_header, header_length}
use pose_bridge.Protocol.Frame.{frame_length, decode, register_values, to_i16}
use pose_bridge.Model.Command.{command_register}
use pose_bridge.Prelude.{ℕ, ◌≡◌, refl, true, List, [], ◌∷◌}
use pose_bridge.Model.{ok, err, cancelled}
use pose_bridge.Protocol.Parser
use pose_bridge.Controller.Sample.{in_session}
use pose_bridge.Controller.Wire.{Line, Wire, Run, Action, Arrival, asked, came}
use pose_bridge.Controller.Monitor.{run_connection, with_magnetic}
use pose_bridge.Controller.Monitor.Cleanup.{IsSafe, monitoring, run_connection-IsSafe}

abbrev wire : Wire ℕ
wire = record { parser = Parser.default; start = 0; shared = in_session; actions = [] }

-- The switch reads 0 whenever it is asked for.
abbrev answers : List Action → List Arrival
answers (asked address expected ∷ actions) =
    came (0x55 ∷ 0x71 ∷ 1 ∷ 0 ∷ 0 ∷ 0 ∷ 0 ∷ 0 ∷ 0 ∷ 0 ∷ 0 ∷ 0 ∷ 0 ∷ 0 ∷ 0 ∷ 0 ∷ 0 ∷ 0 ∷ 0 ∷ 0 ∷ [])
      1000000
    ∷ []
answers _ = []

abbrev line : Line
line = record { write = λ actions. ok tt; arrivals = answers }

-- A monitor that is cancelled while the session owns a calibration.
abbrev cut : Run ℕ (Unit {0})
cut w =
    (err cancelled, record w { shared = with_magnetic w.shared (λ m. record m { owned = true }) })

stops_calibration : (run_connection line cut wire (λ e. "error") 3 4 5).0 ≡ err cancelled
unfolding run_connection finish cleanup_calibration execute execute_from ◌>>=◌ read_values read_loop
    search_frames receive_bytes receive push push_byte drain scan scan_header header_length
    frame_length announced finish_switch operation verified change delay lift return wait_loop
    write_bytes to_u16 observe_frame observe_frames next_phase observe_calsw command_register decode
    register_values to_i16
stops_calibration = refl

run_connection-IsSafe_example :
    IsSafe line (cut (monitoring line wire)) (run_connection line cut wire (λ e. "error") 3 4 5)
run_connection-IsSafe_example = run_connection-IsSafe line cut wire (λ e. "error") 3 4 5
