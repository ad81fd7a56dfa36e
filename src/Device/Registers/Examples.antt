-- ===== src/Device/Registers/Examples.antt =====
-- A read of the register 0x03 that expects 6, past a repetition and another register's reply.
use pose_bridge.Prelude.{ℕ, ◌≡◌, refl, some, List, [], ◌∷◌, ◌++◌, arith}
use pose_bridge.Model.{ok}
use pose_bridge.Protocol.Parser.Reply.{reply}
use pose_bridge.Device.Registers.{Arrival, bytes, repeat, read_registers}
use pose_bridge.Device.Registers.Laws.{read_registers-reply}

abbrev repeats : List Arrival
repeats = repeat (ok tt) ∷ []

abbrev values : List ℕ
values = 6 ∷ 0 ∷ 0 ∷ 0 ∷ 0 ∷ 0 ∷ 0 ∷ 65535 ∷ []

read_registers-reply_example :
    read_registers 3 (some 6) (ok tt) (repeats ++ bytes (reply 3 6 0 0 0 0 0 0 65535) ∷ [])
    ≡ ok (6 ∷ 0 ∷ 0 ∷ 0 ∷ 0 ∷ 0 ∷ 0 ∷ 65535 ∷ [])
read_registers-reply_example =
    read_registers-reply 3 6 0 0 0 0 0 0 65535 (some 6) repeats [] (omega arith) (omega arith)
      (omega arith) (omega arith) (omega arith) (omega arith) (omega arith) (omega arith)
      (omega arith) tt refl
