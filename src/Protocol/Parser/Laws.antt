-- ===== src/Protocol/Parser/Laws.antt =====
-- What the parser promises for any bytes: it stops only at an incomplete frame, keeps at most 29
-- bytes, and accounts for every byte.
use pose_bridge.Prelude.{
  ℕ, zero, suc, ◌+◌, ◌≤◌, ◌<◌, ◌≡◌, refl, Option, none, some, List, [], ◌∷◌, ◌++◌, arith, length,
  take, drop, ltb, length-append, length-drop, Bool-cases, inl, inr, ltb→lt, lt→ltb,
}
use mathlib.Core.Path.{subst}
use pose_bridge.Protocol.Frame.{Frame, frame_length, decode, byte_at}
use pose_bridge.Protocol.Frame.Laws.{wire_length, frame_length_bounds, decode-wire_length}
use pose_bridge.Protocol.Parser.{
  Parser, Scan, wait, skip, reject, deliver, header_length, decoded, scan_header, scan, drain,
  push_byte, push,
}

-- The bytes of the frames handed over.
abbrev pub total_length : List Frame → ℕ
total_length [] = 0
total_length (f ∷ fs) = wire_length f + total_length fs

pub total_length-append :
    (fs gs : List Frame) → total_length (fs ++ gs) ≡ total_length fs + total_length gs
total_length-append [] gs = omega arith
total_length-append (f ∷ fs) gs = omega (arith, total_length-append fs gs)

-- What the front of the buffer looks like in each case.
abbrev pub Found : List ℕ → Scan → Type 0
Found b wait = length b < 30
Found b skip = 2 ≤ length b
Found b reject = 2 ≤ length b
Found b (deliver f n) = (2 ≤ n) × (n ≤ length b) × (wire_length f ≡ n)

byte_at-take : (b : List ℕ) (n i : ℕ) → i < n → byte_at (take n b) i ≡ byte_at b i
byte_at-take b zero i h = elim h [ ]
byte_at-take [] (suc n) i h = refl
byte_at-take (x ∷ b) (suc n) zero h = refl
byte_at-take (x ∷ b) (suc n) (suc i) h = byte_at-take b n i (omega arith)

decoded-Found :
    (b : List ℕ) (n : ℕ) (o : Option Frame)
    → 2 ≤ n
    → n ≤ length b
    → decode (take n b) ≡ o
    → frame_length (byte_at (take n b) 1) ≡ some n
    → Found b (decoded n o)
decoded-Found b n none p q e h = omega arith
decoded-Found b n (some f) p q e h = (p, q, decode-wire_length (take n b) e h)

scan_header-Found :
    (x y : ℕ) (b : List ℕ) (o : Option ℕ)
    → header_length (x ∷ y ∷ b) ≡ o
    → Found (x ∷ y ∷ b) (scan_header (x ∷ y ∷ b) o)
unfolding scan_header header_length
scan_header-Found x y b none e = omega arith
scan_header-Found x y b (some n) e = elim (Bool-cases (ltb (length (x ∷ y ∷ b)) n)) [
  | inl short ↦ rw short (omega (arith, ltb→lt (length (x ∷ y ∷ b)) n short, bounds))
  | inr long ↦ rw long (
      decoded-Found (x ∷ y ∷ b) n _ (omega (arith, bounds)) (ground arith) refl
        (rw (byte_at-take (x ∷ y ∷ b) n 1 (omega (arith, bounds))) profile))
]
  where
    profile : frame_length y ≡ some n
    profile = ground arith

    bounds : (8 ≤ n) × (n ≤ 30)
    bounds = frame_length_bounds y profile

pub scan-Found : (b : List ℕ) → Found b (scan b)
unfolding scan
scan-Found [] = omega arith
scan-Found (x ∷ []) = omega arith
scan-Found (x ∷ y ∷ b) = ground (arith, scan_header-Found x y b (header_length (x ∷ y ∷ b)))

-- Where the loop stops, the front of the buffer is the beginning of a frame.
abbrev pub IsWaiting : Parser → Type 0
IsWaiting p = scan p.buffer ≡ wait

abbrev pub bytes_of : Parser → ℕ
bytes_of p = p.discarded_bytes + length p.buffer

-- One run of the loop, from the result of the next round.
abbrev pub Drained : Parser → Parser × List Frame → Type 0
Drained p r = (bytes_of r.0 + total_length r.1 ≡ bytes_of p) × IsWaiting r.0

pub scan-short : (b : List ℕ) → length b < 2 → scan b ≡ wait
unfolding scan
scan-short b h = rw (lt→ltb (length b) 2 h)

drain-round :
    (fuel : ℕ) (p : Parser) (s : Scan)
    → ((q : Parser) → length q.buffer ≤ fuel → Drained q (drain fuel q))
    → scan p.buffer ≡ s
    → Found p.buffer s
    → length p.buffer ≤ suc fuel
    → Drained p (drain (suc fuel) p)
unfolding drain
drain-round fuel p wait rec e found h = rw (e, drain) (omega arith, e)
drain-round fuel p skip rec e found h =
    let next : Parser = record p {
      buffer = drop 1 p.buffer;
      discarded_bytes = p.discarded_bytes + 1;
    } in
    let len = length-drop 1 p.buffer in
    let r = rec next (omega (arith, len)) in rw (e, drain) (omega (arith, r.0, len), r.1)
drain-round fuel p reject rec e found h =
    let next : Parser = record {
      buffer = drop 1 p.buffer;
      discarded_bytes = p.discarded_bytes + 1;
      invalid_frames = p.invalid_frames + 1;
    } in
    let len = length-drop 1 p.buffer in
    let r = rec next (omega (arith, len)) in rw (e, drain) (omega (arith, r.0, len), r.1)
drain-round fuel p (deliver f n) rec e found h =
    let next : Parser = record p { buffer = drop n p.buffer } in
    let len = length-drop n p.buffer in
    let r = rec next (omega (arith, len)) in rw (e, drain) (omega (arith, r.0, len), r.1)

pub drain-Drained : (fuel : ℕ) (p : Parser) → length p.buffer ≤ fuel → Drained p (drain fuel p)
drain-Drained zero p h = drain-empty p (scan-short p.buffer (omega arith))
  where
    drain-empty : (p : Parser) → scan p.buffer ≡ wait → Drained p (drain zero p)
    drain-empty p e = unfold drain in (omega arith, e)
drain-Drained (suc fuel) p h =
    drain-round fuel p (scan p.buffer) (drain-Drained fuel) refl (scan-Found p.buffer) h

push_byte-Drained :
    (p : Parser) (byte : ℕ)
    → (bytes_of (push_byte p byte).0 + total_length (push_byte p byte).1 ≡ bytes_of p + 1)
      × IsWaiting (push_byte p byte).0
unfolding push_byte
push_byte-Drained p byte =
    let buffer = p.buffer ++ byte ∷ [] in
    let r = drain-Drained (length buffer) (record p { buffer = buffer }) (omega arith) in
    (omega (arith, r.0, length-append p.buffer (byte ∷ [])), r.1)

-- Every byte is accounted for, whatever the bytes are: those that came in are discarded, belong to a
-- frame that was handed over, or wait in the buffer.
pub push-bytes_of :
    (p : Parser) (bytes : List ℕ)
    → bytes_of (push p bytes).0 + total_length (push p bytes).1 ≡ bytes_of p + length bytes
unfolding push
push-bytes_of p [] = omega arith
push-bytes_of p (byte ∷ bytes) =
    let step = push_byte p byte in
    omega (
      arith,
      (push_byte-Drained p byte).0,
      push-bytes_of step.0 bytes,
      total_length-append step.1 (push step.0 bytes).1,
    )

IsWaiting-length : (p : Parser) → IsWaiting p → length p.buffer < 30
IsWaiting-length p h = subst (Found p.buffer) h (scan-Found p.buffer)

push-IsWaiting : (p : Parser) (bytes : List ℕ) → IsWaiting p → IsWaiting (push p bytes).0
unfolding push
push-IsWaiting p [] h = h
push-IsWaiting p (byte ∷ bytes) h =
    push-IsWaiting (push_byte p byte).0 bytes (push_byte-Drained p byte).1

-- A parser that waits for the rest of a frame does so again after any bytes, so the loop was given
-- enough rounds, and its buffer stays below 30 bytes.
pub push_bounded :
    (p : Parser) (bytes : List ℕ)
    → IsWaiting p
    → IsWaiting (push p bytes).0 × (length (push p bytes).0.buffer < 30)
push_bounded p bytes h =
    let w = push-IsWaiting p bytes h in (w, IsWaiting-length (push p bytes).0 w)
