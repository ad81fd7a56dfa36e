-- ===== src/Magnetic/Receive/Account.antt =====
-- The counters of a magnetic session against the bytes that it read.
use pose_bridge.Prelude.{
  ℕ, zero, suc, ◌+◌, ◌≤◌, ◌≡◌, refl, List, [], ◌∷◌, ◌++◌, arith, length, drop, length-append,
}
use pose_bridge.Protocol.Parser.{
  Parser, Scan, wait, skip, reject, deliver, scan, drain, push_byte, push,
}
use pose_bridge.Protocol.Parser.Laws.{total_length, total_length-append, push-bytes_of}
use pose_bridge.Magnetic.Receive.{Io, receive, run}

-- The parser's counters only grow.
abbrev Grows : Parser → Parser → Type 0
Grows p q = (p.discarded_bytes ≤ q.discarded_bytes) × (p.invalid_frames ≤ q.invalid_frames)

drain_round-Grows :
    (fuel : ℕ) (p : Parser) (s : Scan)
    → ((q : Parser) → Grows q (drain fuel q).0)
    → scan p.buffer ≡ s
    → Grows p (drain (suc fuel) p).0
unfolding drain
drain_round-Grows fuel p wait rec e = rw (e, drain) (omega arith, omega arith)
drain_round-Grows fuel p skip rec e =
    let next : Parser = record p {
      buffer = drop 1 p.buffer;
      discarded_bytes = p.discarded_bytes + 1;
    } in
    let r = rec next in rw (e, drain) (omega (arith, r.0), omega (arith, r.1))
drain_round-Grows fuel p reject rec e =
    let next : Parser = record {
      buffer = drop 1 p.buffer;
      discarded_bytes = p.discarded_bytes + 1;
      invalid_frames = p.invalid_frames + 1;
    } in
    let r = rec next in rw (e, drain) (omega (arith, r.0), omega (arith, r.1))
drain_round-Grows fuel p (deliver f n) rec e =
    rw (e, drain) (rec (record p { buffer = drop n p.buffer }))

drain-Grows : (fuel : ℕ) (p : Parser) → Grows p (drain fuel p).0
drain-Grows zero p = unfold drain in (omega arith, omega arith)
drain-Grows (suc fuel) p = drain_round-Grows fuel p (scan p.buffer) (drain-Grows fuel) refl

push-Grows : (p : Parser) (bytes : List ℕ) → Grows p (push p bytes).0
unfolding push
push-Grows p [] = (omega arith, omega arith)
push-Grows p (byte ∷ bytes) =
    let first = push_byte-Grows p byte in
    let rest = push-Grows (push_byte p byte).0 bytes in
    (omega (arith, first.0, rest.0), omega (arith, first.1, rest.1))
  where
    push_byte-Grows : (p : Parser) (byte : ℕ) → Grows p (push_byte p byte).0
    push_byte-Grows p byte =
        unfold push_byte in
        drain-Grows (length (p.buffer ++ byte ∷ [])) (record p { buffer = p.buffer ++ byte ∷ [] })

receive_lem :
    (io : Io) (bytes : List ℕ) (at_ns : ℕ)
    → let r = receive io bytes at_ns in
      (r.0.status.bytes_received + io.status.discarded_bytes + length io.parser.buffer
        ≡ r.0.status.discarded_bytes
          + total_length r.1
          + length r.0.parser.buffer
          + io.status.bytes_received)
      × (r.0.status.frames_received ≡ io.status.frames_received + length r.1)
unfolding receive
receive_lem io bytes at_ns =
    (omega (arith, push-bytes_of io.parser bytes, (push-Grows io.parser bytes).0), refl)

-- Over any reads of a session, whatever they contain, no byte and no frame is lost to the counters: what
-- `bytes_received` has grown by is what `discarded_bytes` has grown by, the bytes of the frames, and
-- what the buffer has grown by (written without differences), and `frames_received` has grown by the
-- number of frames.
pub run-received :
    (io : Io) (reads : List (List ℕ × ℕ))
    → let r = run io reads in
      (r.0.status.bytes_received + io.status.discarded_bytes + length io.parser.buffer
        ≡ r.0.status.discarded_bytes
          + total_length r.1
          + length r.0.parser.buffer
          + io.status.bytes_received)
      × (r.0.status.frames_received ≡ io.status.frames_received + length r.1)
unfolding run
run-received io [] = (omega arith, omega arith)
run-received io ((bytes, at_ns) ∷ reads) =
    let first = receive_lem io bytes at_ns in
    let next = receive io bytes at_ns in
    let rest = run-received next.0 reads in
    (
      omega (arith, first.0, rest.0, total_length-append next.1 (run next.0 reads).1),
      omega (arith, first.1, rest.1, length-append next.1 (run next.0 reads).1),
    )
