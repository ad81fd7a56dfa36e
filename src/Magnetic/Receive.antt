-- ===== src/Magnetic/Receive.antt =====
-- `Io::receive` of crates/posebridge-core/src/magnetic.rs: one read of a magnetic session, through the
-- parser into the counters of the status and the state of the session.
pub mod Account
use pose_bridge.Prelude.{
  ℕ, ◌+◌, ◌-◌, ◌≡◌, refl, Bool, List, [], ◌∷◌, ◌++◌, arith, length, get_or, ◌==◌, if◌then◌else◌,
}
use pose_bridge.Prelude.Int.{ℤ, pos}
use pose_bridge.Protocol.Frame.{Frame, registers, motion, stream}
use pose_bridge.Protocol.Parser.{Parser, push}
use pose_bridge.Protocol.Parser.Laws.{total_length, total_length-append, bytes_of, push-bytes_of}
use pose_bridge.Device.Registers.{to_u16}
use pose_bridge.Magnetic.{Counts}
use pose_bridge.Magnetic.State.{State, observe, observe_calsw}

-- The fields of `StatusSnapshot` that a read changes.
pub record Counters : Type 0 where
  pub bytes_received : ℕ
  pub frames_received : ℕ
  pub discarded_bytes : ℕ
  pub invalid_frames : ℕ

pub record Io : Type 0 where
  pub parser : Parser
  pub status : Counters
  pub magnetic : State
  pub start : ℕ

abbrev counts_of : List ℤ → Counts
counts_of values = record {
  x = get_or values 0 (pos 0);
  y = get_or values 1 (pos 0);
  z = get_or values 2 (pos 0);
}

-- The `match frame`.
unfoldable pub observe_frame : State → ℕ → ℕ → Frame → State
observe_frame s at_ns start (registers address values) =
    if address == 0x3a
    then observe s (counts_of values) at_ns start
    else if address == 1
    then observe_calsw s (to_u16 (get_or values 0 (pos 0))) at_ns
    else s
observe_frame s at_ns start f = s

unfoldable pub observe_frames : State → ℕ → ℕ → List Frame → State
observe_frames s at_ns start [] = s
observe_frames s at_ns start (f ∷ fs) =
    observe_frames (observe_frame s at_ns start f) at_ns start fs

unfoldable pub receive : Io → List ℕ → ℕ → Io × List Frame
receive io bytes at_ns =
    let pushed = push io.parser bytes in
    let parser = pushed.0 in
    let frames = pushed.1 in
    (
      record io {
        parser = parser;
        status = record {
          bytes_received = io.status.bytes_received + length bytes;
          frames_received = io.status.frames_received + length frames;
          discarded_bytes =
              io.status.discarded_bytes + (parser.discarded_bytes - io.parser.discarded_bytes);
          invalid_frames =
              io.status.invalid_frames + (parser.invalid_frames - io.parser.invalid_frames);
        };
        magnetic = observe_frames io.magnetic at_ns io.start frames;
      },
      frames,
    )

-- The reads in their order, each with its time, and the frames of all of them.
unfoldable pub run : Io → List (List ℕ × ℕ) → Io × List Frame
run io [] = (io, [])
run io ((bytes, at_ns) ∷ reads) =
    let first = receive io bytes at_ns in
    let rest = run first.0 reads in (rest.0, first.1 ++ rest.1)
