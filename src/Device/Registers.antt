-- ===== src/Device/Registers.antt =====
-- `read_registers` of crates/posebridge-core/src/device.rs: one request, its repetitions every 250 ms
-- and the replies, until three seconds are over. What the loop's `select!` meets before the deadline is
-- a list: bytes, repetitions with the result of their write, a failed read, or cancellation. At the
-- end of the list the deadline is reached.
pub mod Laws
mod Examples
use pose_bridge.Prelude.{
  ℕ, ◌-◌, Bool, true, false, Option, none, some, List, [], ◌∷◌, map, ◌==◌, if◌then◌else◌, get_or,
  is_none_or,
}
use pose_bridge.Prelude.Int.{ℤ, pos, negsuc}
use pose_bridge.Model.{Error, Result, ok, err, timeout, protocol, cancelled}
use pose_bridge.Protocol.Frame.{Frame, motion, stream, registers}
use pose_bridge.Protocol.Parser.{Parser, default, push}

pub data Arrival : Type 0 where
  bytes : List ℕ → Arrival
  repeat : Result (Unit {0}) → Arrival
  failed : Error → Arrival
  cancel : Arrival

-- `v as u16`.
unfoldable pub to_u16 : ℤ → ℕ
to_u16 (pos n) = n
to_u16 (negsuc n) = 65535 - n

-- What the frames of one read come to: the values looked for, or the last value seen.
pub data Search : Type 0 where
  found : List ℕ → Search
  searching : Option ℕ → Search

-- The body of the `for` loop at a register frame.
abbrev pub match_frame : ℕ → Option ℕ → ℕ → List ℕ → Option ℕ → Search → Search
match_frame address expected base values last rest =
    if base == address
    then if is_none_or expected (λ v. v == get_or values 0 0) then found values else rest
    else rest

unfoldable pub search_frames : ℕ → Option ℕ → Option ℕ → List Frame → Search
unfolding to_u16
search_frames address expected last [] = searching last
search_frames address expected last (registers base values ∷ frames) =
    let words = map to_u16 values in
    let last' = if base == address then some (get_or words 0 0) else last in
    let rest = search_frames address expected last' frames in
    match_frame address expected base words last rest
search_frames address expected last (motion a g e ∷ frames) =
    search_frames address expected last frames
search_frames address expected last (stream s ∷ frames) = search_frames address expected last frames

-- The error at the deadline: a protocol error if another value was read back.
abbrev pub deadline_error : Option ℕ → Option ℕ → Error
deadline_error (some wanted) (some seen) = protocol
deadline_error _ _ = timeout

-- `map_err` of the loop's errors.
abbrev pub explain : Option ℕ → Option ℕ → Error → Error
explain expected last timeout = deadline_error expected last
explain expected last e = e

-- Return, or go on with the loop.
abbrev pub after_search : Search → (Option ℕ → Result (List ℕ)) → Result (List ℕ)
after_search (found values) k = ok values
after_search (searching last) k = k last

unfoldable pub read_loop : ℕ → Option ℕ → Parser → Option ℕ → List Arrival → Result (List ℕ)
read_loop address expected p last [] = err (deadline_error expected last)
read_loop address expected p last (bytes b ∷ arrivals) =
    let (q, frames) = push p b in
    after_search (search_frames address expected last frames)
      (λ last'. read_loop address expected q last' arrivals)
read_loop address expected p last (repeat (ok u) ∷ arrivals) =
    read_loop address expected p last arrivals
read_loop address expected p last (repeat (err e) ∷ arrivals) = err (explain expected last e)
read_loop address expected p last (failed e ∷ arrivals) = err (explain expected last e)
read_loop address expected p last (cancel ∷ arrivals) = err cancelled

-- The first request, with the result of its write, and the loop.
unfoldable pub read_registers : ℕ → Option ℕ → Result (Unit {0}) → List Arrival → Result (List ℕ)
read_registers address expected (ok u) arrivals = read_loop address expected default none arrivals
read_registers address expected (err e) arrivals = err (explain expected none e)
