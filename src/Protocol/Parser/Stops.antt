-- ===== src/Protocol/Parser/Stops.antt =====
-- The loop of the parser ends by its own test.
use pose_bridge.Prelude.{
  ℕ, zero, suc, ◌+◌, ◌≤◌, ◌≡◌, refl, sym, ap, ◌∙◌, List, [], ◌∷◌, arith, length, drop, length-drop,
}
use pose_bridge.Protocol.Frame.{Frame}
use pose_bridge.Protocol.Parser.{Parser, Scan, wait, skip, reject, deliver, scan, drain}
use pose_bridge.Protocol.Parser.Laws.{Found, scan-Found, scan-short, IsWaiting, drain-Drained}

drain_empty : (fuel : ℕ) (p : Parser) → scan p.buffer ≡ wait → drain fuel p ≡ (p, [])
unfolding drain
drain_empty zero p e = refl
drain_empty (suc fuel) p e = rw (e, drain) refl

-- One round each.
drain_round :
    (m n : ℕ) (p : Parser) (s : Scan)
    → ((q : Parser) → length q.buffer ≤ m → length q.buffer ≤ n → drain m q ≡ drain n q)
    → scan p.buffer ≡ s
    → Found p.buffer s
    → length p.buffer ≤ suc m
    → length p.buffer ≤ suc n
    → drain (suc m) p ≡ drain (suc n) p
unfolding drain
drain_round m n p wait rec e found h k = rw (e, drain) refl
drain_round m n p skip rec e found h k =
    let len = length-drop 1 p.buffer in
    rw (e, drain)
      (rec (record p { buffer = drop 1 p.buffer; discarded_bytes = p.discarded_bytes + 1 })
        (omega (arith, len)) (omega (arith, len)))
drain_round m n p reject rec e found h k =
    let len = length-drop 1 p.buffer in
    rw (e, drain)
      (rec
        (record {
          buffer = drop 1 p.buffer;
          discarded_bytes = p.discarded_bytes + 1;
          invalid_frames = p.invalid_frames + 1;
        })
        (omega (arith, len)) (omega (arith, len)))
drain_round m n p (deliver f l) rec e found h k =
    let len = length-drop l p.buffer in
    rw (e, drain)
      (ap (λ (r : Parser × List Frame). (r.0, f ∷ r.1))
        (rec (record p { buffer = drop l p.buffer }) (omega (arith, len)) (omega (arith, len))))

drain_alike :
    (m n : ℕ) (p : Parser) → length p.buffer ≤ m → length p.buffer ≤ n → drain m p ≡ drain n p
drain_alike zero n p h k =
    let e = scan-short p.buffer (omega arith) in drain_empty zero p e ∙ sym (drain_empty n p e)
drain_alike (suc m) zero p h k =
    let e = scan-short p.buffer (omega arith) in
    drain_empty (suc m) p e ∙ sym (drain_empty zero p e)
drain_alike (suc m) (suc n) p h k =
    drain_round m n p (scan p.buffer) (drain_alike m n) refl (scan-Found p.buffer) h k

-- With as many rounds as the buffer has bytes, the loop of the parser ends by its own test, before the
-- rest of a frame, and more rounds come to the same parser and the same frames.
pub drain-IsWaiting :
    (p : Parser) (more : ℕ)
    → IsWaiting (drain (length p.buffer) p).0
      × (drain (length p.buffer + more) p ≡ drain (length p.buffer) p)
drain-IsWaiting p more = (
  (drain-Drained (length p.buffer) p (omega arith)).1,
  drain_alike (length p.buffer + more) (length p.buffer) p (omega arith) (omega arith),
)
