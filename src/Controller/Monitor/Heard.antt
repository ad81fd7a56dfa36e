-- ===== src/Controller/Monitor/Heard.antt =====
-- What a read of a register in magnetic.rs hears, and the steps of a session that go well.
use pose_bridge.Prelude.{
  ℕ, ◌≡◌, ◌⊎◌, refl, inl, inr, Option, some, none, List, [], ◌∷◌, map, get_or, arith,
}
use pose_bridge.Prelude.Int.{ℤ}
use pose_bridge.Model.{Result, ok, err}
use pose_bridge.Protocol.Frame.{Frame, motion, stream, registers}
use pose_bridge.Device.Registers.{Search, found, searching, search_frames, match_frame, to_u16}
use pose_bridge.Controller.Wire.{
  Wire, Run, Arrival, came, repeated, broken, ◌>>=◌, and_then, receive_bytes, read_loop, wait_loop,
  after_frames,
}

-- Among the frames is a register frame whose first value is `value`.
pub data HasValue (address value : ℕ) : List Frame → Type 0 where
  read :
      {base : ℕ} {values : List ℤ} {frames : List Frame}
      → base ≡ address
      → get_or (map to_u16 values) 0 0 ≡ value
      → HasValue address value (registers base values ∷ frames)
  after :
      {frame : Frame} {frames : List Frame}
      → HasValue address value frames
      → HasValue address value (frame ∷ frames)

match_found :
    (address value base : ℕ) (words : List ℕ) (last : Option ℕ) (rest : Search) (values : List ℕ)
    → match_frame address (some value) base words last rest ≡ found values
    → ((base ≡ address) × (get_or words 0 0 ≡ value)) ⊎ (rest ≡ found values)
match_found address value base words last rest values h = ground arith

search_frames-HasValue :
    (address value : ℕ) (frames : List Frame) (last : Option ℕ) (values : List ℕ)
    → search_frames address (some value) last frames ≡ found values
    → HasValue address value frames
unfolding search_frames
search_frames-HasValue address value [] last values h = absurd cc
search_frames-HasValue address value (registers base words ∷ frames) last values h =
    elim (match_found address value base (map to_u16 words) last _ values h) [
      | inl (e, f) ↦ read e f
      | inr e ↦ after (search_frames-HasValue address value frames _ values e)
    ]
search_frames-HasValue address value (motion a g e ∷ frames) last values h =
    after (search_frames-HasValue address value frames last values h)
search_frames-HasValue address value (stream s ∷ frames) last values h =
    after (search_frames-HasValue address value frames last values h)

module _ {F : Type 0} where
  -- Such a frame is among those that come in from one state of the wire to another.
  pub data Receives (address value : ℕ) : List Arrival → Wire F → Wire F → Type 0 where
    arrives :
        {bytes : List ℕ} {at_ns : ℕ} {arrivals : List Arrival} {w : Wire F}
        → HasValue address value (receive_bytes w bytes at_ns).1
        → Receives address value (came bytes at_ns ∷ arrivals) w (receive_bytes w bytes at_ns).0
    goes_on :
        {bytes : List ℕ} {at_ns : ℕ} {arrivals : List Arrival} {w w' : Wire F}
        → Receives address value arrivals (receive_bytes w bytes at_ns).0 w'
        → Receives address value (came bytes at_ns ∷ arrivals) w w'
    repeats :
        {arrivals : List Arrival} {w w' : Wire F}
        → Receives address value arrivals w w'
        → Receives address value (repeated (ok tt) ∷ arrivals) w w'

  -- The wire that a step ends with, if it goes well.
  abbrev pub Ended : {A : Type 0} → (Wire F → Type 0) → Result A × Wire F → Type 0
  Ended P (ok a, w) = P w
  Ended P (err e, w) = Unit {0}

  pub weaken-Ended :
      {A : Type 0} (P Q : Wire F → Type 0) (r : Result A × Wire F)
      → ((w : Wire F) → P w → Q w)
      → Ended P r
      → Ended Q r
  weaken-Ended P Q (ok a, w) k h = k w h
  weaken-Ended P Q (err e, w) k h = tt

  and_then-Ended :
      {A B : Type 0} (P Q : Wire F → Type 0) (r : Result A × Wire F) (f : A → Run F B)
      → Ended P r
      → ((a : A) (w : Wire F) → P w → Ended Q (f a w))
      → Ended Q (and_then r f)
  and_then-Ended P Q (ok a, w) f h k = k a w h
  and_then-Ended P Q (err e, w) f h k = tt

  pub bind-Ended :
      {A B : Type 0} (P Q : Wire F → Type 0) (m : Run F A) (f : A → Run F B) (w : Wire F)
      → Ended P (m w)
      → ((a : A) (w' : Wire F) → P w' → Ended Q (f a w'))
      → Ended Q ((m >>= f) w)
  unfolding ◌>>=◌
  bind-Ended P Q m f w h k = and_then-Ended P Q (m w) f h k

  came-Receives :
      (bytes : List ℕ) (at_ns : ℕ) (arrivals : List Arrival) (value : ℕ) (w : Wire F) (s : Search)
      → search_frames 1 (some value) none (receive_bytes w bytes at_ns).1 ≡ s
      → Ended
          (Receives 1 value arrivals (receive_bytes w bytes at_ns).0)
          (read_loop arrivals 1 (some value) (receive_bytes w bytes at_ns).0)
      → Ended (Receives 1 value (came bytes at_ns ∷ arrivals) w) (
          after_frames s (receive_bytes w bytes at_ns).0 (λ v. read_loop arrivals 1 (some value) v))
  came-Receives bytes at_ns arrivals value w (found values) e h =
      arrives (search_frames-HasValue 1 value _ none values e)
  came-Receives bytes at_ns arrivals value w (searching last) e h =
      weaken-Ended (Receives 1 value arrivals (receive_bytes w bytes at_ns).0)
        (Receives 1 value (came bytes at_ns ∷ arrivals) w)
        (read_loop arrivals 1 (some value) (receive_bytes w bytes at_ns).0) (λ w' r. goes_on r) h

  pub read_loop-Receives :
      (arrivals : List Arrival) (value : ℕ) (w : Wire F)
      → Ended (Receives 1 value arrivals w) (read_loop arrivals 1 (some value) w)
  unfolding read_loop
  read_loop-Receives [] value w = tt
  read_loop-Receives (came bytes at_ns ∷ arrivals) value w =
      came-Receives bytes at_ns arrivals value w _ refl
        (read_loop-Receives arrivals value (receive_bytes w bytes at_ns).0)
  read_loop-Receives (repeated (ok u) ∷ arrivals) value w =
      weaken-Ended (Receives 1 value arrivals w) (Receives 1 value (repeated (ok u) ∷ arrivals) w)
        (read_loop arrivals 1 (some value) w) (λ w' r. repeats r)
        (read_loop-Receives arrivals value w)
  read_loop-Receives (repeated (err e) ∷ arrivals) value w = tt
  read_loop-Receives (broken e ∷ arrivals) value w = tt

  pub wait_loop-actions :
      (arrivals : List Arrival) (w : Wire F)
      → Ended (λ w'. w'.actions ≡ w.actions) (wait_loop arrivals w)
  unfolding wait_loop receive_bytes
  wait_loop-actions [] w = refl
  wait_loop-actions (came bytes at_ns ∷ arrivals) w =
      wait_loop-actions arrivals (receive_bytes w bytes at_ns).0
  wait_loop-actions (repeated r ∷ arrivals) w = wait_loop-actions arrivals w
  wait_loop-actions (broken e ∷ arrivals) w = tt
