-- ===== src/Controller/Wire.antt =====
-- The register reads, writes and waits of `Io` in crates/posebridge-core/src/magnetic.rs. The connection
-- is an environment that is asked with what was done so far: it answers a write with its result, and a
-- read or a wait with what arrives until its end. Limits of time and a cancellation are among its answers.
use pose_bridge.Prelude.{ℕ, Option, none, List, [], ◌∷◌, ◌==◌, if◌then◌else◌}
use pose_bridge.Model.{Error, timeout, Result, ok, err}
use pose_bridge.Model.Command.{read_register}
use pose_bridge.Protocol.Frame.{Frame}
use pose_bridge.Protocol.Parser.{Parser}
use pose_bridge.Device.Registers.{Search, found, searching, search_frames}
use pose_bridge.Magnetic.Receive.{Io, receive}
use pose_bridge.Controller.{Shared}

pub data Action : Type 0 where
  -- address, expected
  asked : ℕ → Option ℕ → Action
  wrote : List ℕ → Action
  waited : ℕ → Action

-- Bytes at an instant, the write of a repeated request, or an error that ends the wait.
pub data Arrival : Type 0 where
  came : List ℕ → ℕ → Arrival
  repeated : Result (Unit {0}) → Arrival
  broken : Error → Arrival

pub record Line : Type 0 where
  pub write : List Action → Result (Unit {0})
  pub arrivals : List Action → List Arrival

-- `Io`, with the state that it shares and what it has done, newest first.
pub record Wire (F : Type 0) : Type 0 where
  pub parser : Parser
  pub start : ℕ
  pub shared : Shared F
  pub actions : List Action

abbrev pub Run : Type 0 → Type 0 → Type 0
Run F A = Wire F → Result A × Wire F

abbrev pub and_then : {F A B : Type 0} → Result A × Wire F → (A → Run F B) → Result B × Wire F
and_then (ok a, w) f = f a w
and_then (err e, w) f = (err e, w)

infixl 5 ◌>>=◌ ◌>>◌
unfoldable pub ◌>>=◌ : {F A B : Type 0} → Run F A → (A → Run F B) → Run F B
◌>>=◌ m f w = and_then (m w) f

abbrev pub ◌>>◌ : {F B : Type 0} → Run F (Unit {0}) → Run F B → Run F B
m >> k = m >>= λ _. k

unfoldable pub return : {F A : Type 0} → A → Run F A
return a w = (ok a, w)

unfoldable pub lift : {F A : Type 0} → Result A → Run F A
lift r w = (r, w)

-- A change of the shared state, under its lock.
unfoldable pub change : {F : Type 0} → (Shared F → Shared F) → Run F (Unit {0})
change f w = (ok tt, record w { shared = f w.shared })

module _ {F : Type 0} where
  -- The part of the shared state that `Io::receive` changes.
  abbrev pub io_of : Wire F → Io
  io_of w =
      let t = w.shared.status in
      record {
        parser = w.parser;
        status = record {
          bytes_received = t.bytes_received;
          frames_received = t.frames_received;
          discarded_bytes = t.discarded_bytes;
          invalid_frames = t.invalid_frames;
        };
        magnetic = w.shared.magnetic_state;
        start = w.start;
      }

  abbrev pub with_io : Wire F → Io → Wire F
  with_io w io = record w {
    parser = io.parser;
    shared = record (w.shared) {
      status = record (w.shared.status) {
        bytes_received = io.status.bytes_received;
        frames_received = io.status.frames_received;
        discarded_bytes = io.status.discarded_bytes;
        invalid_frames = io.status.invalid_frames;
      };
      magnetic_state = io.magnetic;
    };
  }

  unfoldable pub receive_bytes : Wire F → List ℕ → ℕ → Wire F × List Frame
  receive_bytes w bytes at_ns =
      let (io, frames) = receive (io_of w) bytes at_ns in (with_io w io, frames)

  abbrev pub acted : Wire F → Action → Wire F
  acted w action = record w { actions = action ∷ w.actions }

  abbrev pub after_frames :
      Search → Wire F → (Wire F → Result (List ℕ) × Wire F) → Result (List ℕ) × Wire F
  after_frames (found values) w rest = (ok values, w)
  after_frames (searching last) w rest = rest w

  abbrev pub after_repeat :
      Result (Unit {0}) → Wire F → (Wire F → Result (List ℕ) × Wire F) → Result (List ℕ) × Wire F
  after_repeat (ok u) w rest = rest w
  after_repeat (err e) w rest = (err e, w)

  -- The loop of `read_register`. A magnetic request is not repeated.
  unfoldable pub read_loop : List Arrival → ℕ → Option ℕ → Wire F → Result (List ℕ) × Wire F
  read_loop [] address expected w = (err timeout, w)
  read_loop (came bytes at_ns ∷ arrivals) address expected w =
      let (w', frames) = receive_bytes w bytes at_ns in
      after_frames (search_frames address expected none frames) w'
        (λ v. read_loop arrivals address expected v)
  read_loop (repeated r ∷ arrivals) address expected w =
      let rest = read_loop arrivals address expected w in
      if address == 0x3a
      then rest
      else after_repeat r w (λ v. read_loop arrivals address expected v)
  read_loop (broken e ∷ arrivals) address expected w = (err e, w)

  -- The frames of a wait, which ends on time unless the connection breaks.
  unfoldable pub wait_loop : List Arrival → Wire F → Result (Unit {0}) × Wire F
  wait_loop [] w = (ok tt, w)
  wait_loop (came bytes at_ns ∷ arrivals) w = wait_loop arrivals ((receive_bytes w bytes at_ns).0)
  wait_loop (repeated r ∷ arrivals) w = wait_loop arrivals w
  wait_loop (broken e ∷ arrivals) w = (err e, w)

  module _ (line : Line) where
    unfoldable pub write_bytes : List ℕ → Run F (Unit {0})
    write_bytes bytes w = let w' = acted w (wrote bytes) in (line.write w'.actions, w')

    abbrev pub read_after : Result (Unit {0}) → ℕ → Option ℕ → Wire F → Result (List ℕ) × Wire F
    read_after (err e) address expected w = (err e, w)
    read_after (ok u) address expected w = read_loop (line.arrivals w.actions) address expected w

    -- `Io::read_register`, with the write of its first request.
    unfoldable pub read_values : ℕ → Option ℕ → Run F (List ℕ)
    read_values address expected w =
        let w' = acted (acted w (wrote (read_register address))) (asked address expected) in
        read_after (line.write w'.actions) address expected w'

    unfoldable pub delay : ℕ → Run F (Unit {0})
    delay ms w = let w' = acted w (waited ms) in wait_loop (line.arrivals w'.actions) w'
