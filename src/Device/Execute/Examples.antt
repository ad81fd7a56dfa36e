-- ===== src/Device/Execute/Examples.antt =====
-- A device that answers every read with the settings 20 Hz and 0x61, and the laws against it.
use pose_bridge.Prelude.{◌≡◌, refl, none, List, [], ◌∷◌, is_some, false, ◌==◌, if◌then◌else◌, arith}
use pose_bridge.Model.{ok, is_ok}
use pose_bridge.Model.Command.{save, output, experimental_full_inertial_20hz}
use pose_bridge.Protocol.Parser.Reply.{reply}
use pose_bridge.Configuration.{Settings, observed_rate}
use pose_bridge.Configuration.Writes.{perform}
use pose_bridge.Device.Registers.{Arrival, bytes}
use pose_bridge.Device.Registers.Laws.{read_registers-reply}
use pose_bridge.Device.Exec.{Environment, Event, read}
use pose_bridge.Device.Execute.{check_guards, execute}
use pose_bridge.Device.Execute.Order.{KeepsOrder, execute-KeepsOrder}
use pose_bridge.Device.Execute.Guards.{IsTruthful, check_guards-perform}

abbrev settings : Settings
settings = record { rate_hz = 20; format = 0x61; six_axis_mode = false }

-- The reply to the read that was asked last.
abbrev reply_to : List Event → List Arrival
reply_to (read a v ∷ h) = bytes (reply a (if a == 3 then 7 else 0x61) 0 0 0 0 0 0 0) ∷ []
reply_to _ = []

abbrev env : Environment
env = record {
  request = λ h. ok tt;
  arrivals = reply_to;
  write = λ h. ok tt;
  delay = λ h. ok tt;
  unix_ms = λ h. 0;
  polls = λ h. 80;
}

env-IsTruthful : IsTruthful env settings
env-IsTruthful = record {
  rate_known = λ h. (
    7 ∷ 0 ∷ 0 ∷ 0 ∷ 0 ∷ 0 ∷ 0 ∷ 0 ∷ [],
    read_registers-reply 3 7 0 0 0 0 0 0 0 none [] [] (omega arith) (omega arith) (omega arith)
        (omega arith) (omega arith) (omega arith) (omega arith) (omega arith) (omega arith) tt tt,
    unfold observed_rate in refl,
  );
  format_known = λ h. (
    0x61 ∷ 0 ∷ 0 ∷ 0 ∷ 0 ∷ 0 ∷ 0 ∷ 0 ∷ [],
    read_registers-reply 0x0e 0x61 0 0 0 0 0 0 0 none [] [] (omega arith) (omega arith)
        (omega arith) (omega arith) (omega arith) (omega arith) (omega arith) (omega arith)
        (omega arith) tt tt,
    refl,
  );
}

execute-KeepsOrder_example : KeepsOrder (execute env save)
execute-KeepsOrder_example = execute-KeepsOrder env save

check_guards-perform_example :
    is_ok (check_guards env (output experimental_full_inertial_20hz) []).0
    ≡ is_some (perform settings (output experimental_full_inertial_20hz))
check_guards-perform_example =
    check_guards-perform env settings (output experimental_full_inertial_20hz) [] env-IsTruthful
      refl
