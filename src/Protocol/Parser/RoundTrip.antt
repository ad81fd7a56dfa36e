-- ===== src/Protocol/Parser/RoundTrip.antt =====
-- Whole frames come out as they went in, however the bytes are cut into deliveries.
use mathlib.Core.List.{flatten, append_assoc}
use pose_bridge.Prelude.{
  ℕ, zero, suc, ◌≤◌, ◌<◌, ◌≡◌, refl, sym, ◌∙◌, some, List, [], ◌∷◌, ◌++◌, arith, length, take, drop,
  length-append, ap,
}
use pose_bridge.Protocol.Frame.{Frame, decode}
use pose_bridge.Protocol.Parser.{
  Parser, wait, deliver, header_length, scan_header, scan, drain, push_byte, push,
}

-- The cuts between deliveries do not matter: two deliveries give the frames and the state of one.
pub push-append :
    (p : Parser) (a b : List ℕ)
    → push p (a ++ b) ≡ (let (q, fs) = push p a in let (r, gs) = push q b in (r, fs ++ gs))
unfolding push
push-append p [] b = refl
push-append p (x ∷ a) b =
    rw (push-append (push_byte p x).0 a b)
      (rw (append_assoc (push_byte p x).1 (push (push_byte p x).0 a).1))

-- The bytes of one frame, by its header and its decoding.
pub record IsEncoding (bytes : List ℕ) (f : Frame) : Type 0 where
  pub header : header_length bytes ≡ some (length bytes)
  pub decodes : decode bytes ≡ some f

header_length-append :
    (x y : ℕ) (a b : List ℕ) → header_length (x ∷ y ∷ (a ++ b)) ≡ header_length (x ∷ y ∷ a)
unfolding header_length
header_length-append x y a b = refl

scan-prefix :
    (pre post : List ℕ)
    → header_length (pre ++ post) ≡ some (length (pre ++ post))
    → 0 < length post
    → scan pre ≡ wait
unfolding scan scan_header
scan-prefix [] post h lt = refl
scan-prefix (x ∷ []) post h lt = refl
scan-prefix (x ∷ y ∷ pre) post h lt =
    ground (arith, header_length-append x y pre post, length-append pre post)

take-length : (b : List ℕ) → take (length b) b ≡ b
take-length [] = refl
take-length (x ∷ b) = ap (λ l. x ∷ l) (take-length b)

drop-length : (b : List ℕ) → drop (length b) b ≡ []
drop-length [] = refl
drop-length (x ∷ b) = drop-length b

drain-nil : (fuel : ℕ) (p : Parser) → p.buffer ≡ [] → drain fuel p ≡ (p, [])
unfolding drain scan
drain-nil zero p e = refl
drain-nil (suc fuel) p e = rw (e, scan)

header_length-short : (b : List ℕ) {n : ℕ} → header_length b ≡ some n → 2 ≤ length b
unfolding header_length
header_length-short [] e = cc
header_length-short (x ∷ []) e = cc
header_length-short (x ∷ y ∷ b) e = omega arith

scan-whole :
    (bytes : List ℕ) (f : Frame) → IsEncoding bytes f → scan bytes ≡ deliver f (length bytes)
unfolding scan scan_header
scan-whole bytes f e = ground (arith, header_length-short bytes e.header, take-length bytes)

push_byte-wait :
    (p : Parser) (byte : ℕ)
    → scan (p.buffer ++ byte ∷ []) ≡ wait
    → push_byte p byte ≡ (record p { buffer = p.buffer ++ byte ∷ [] }, [])
unfolding push_byte
push_byte-wait p byte e = drain-wait (length (p.buffer ++ byte ∷ [])) _ e
  where
    drain-wait : (fuel : ℕ) (q : Parser) → scan q.buffer ≡ wait → drain fuel q ≡ (q, [])
    drain-wait zero q e = unfold drain in refl
    drain-wait (suc fuel) q e = unfold drain in rw (e, drain)

drain-deliver :
    (fuel : ℕ) (q : Parser) (f : Frame)
    → 0 < fuel
    → IsEncoding q.buffer f
    → drain fuel q ≡ (record q { buffer = [] }, f ∷ [])
drain-deliver zero q f h e = elim h [ ]
drain-deliver (suc fuel) q f h e =
    let empty : drain fuel (record q { buffer = [] }) ≡ (record q { buffer = [] }, []) =
      drain-nil fuel (record q { buffer = [] }) refl in
    unfold drain in rw (scan-whole q.buffer f e, drain) (rw (drop-length q.buffer) (rw empty))

push_byte-deliver :
    (p : Parser) (byte : ℕ) (f : Frame)
    → IsEncoding (p.buffer ++ byte ∷ []) f
    → push_byte p byte ≡ (record p { buffer = [] }, f ∷ [])
unfolding push_byte
push_byte-deliver p byte f e =
    drain-deliver (length (p.buffer ++ byte ∷ [])) (record p { buffer = p.buffer ++ byte ∷ [] }) f
      (omega (arith, length-append p.buffer (byte ∷ []))) e

-- The rest of a frame, whose beginning waits in the buffer.
push-rest :
    (p : Parser) (byte : ℕ) (rest : List ℕ) (f : Frame)
    → IsEncoding (p.buffer ++ byte ∷ rest) f
    → push p (byte ∷ rest) ≡ (record p { buffer = [] }, f ∷ [])
unfolding push
push-rest p byte [] f e = rw (push_byte-deliver p byte f e)
push-rest p byte (next ∷ rest) f e =
    let whole : (p.buffer ++ byte ∷ []) ++ next ∷ rest ≡ p.buffer ++ byte ∷ next ∷ rest =
      append_assoc p.buffer (byte ∷ []) (next ∷ rest) in
    let e' : IsEncoding ((p.buffer ++ byte ∷ []) ++ next ∷ rest) f = rw whole e in
    let waiting = scan-prefix (p.buffer ++ byte ∷ []) (next ∷ rest) e'.header (omega arith) in
    rw (push_byte-wait p byte waiting)
      (rw (push-rest (record p { buffer = p.buffer ++ byte ∷ [] }) next rest f e'))

-- Frames and their bytes, one after the other.
abbrev pub Encodings : List (List ℕ) → List Frame → Type 0
Encodings [] [] = Unit {0}
Encodings (b ∷ bs) (f ∷ fs) = IsEncoding b f × Encodings bs fs
Encodings _ _ = ⊥

pub push-whole :
    (p : Parser) (bytes : List ℕ) (f : Frame)
    → p.buffer ≡ []
    → IsEncoding bytes f
    → push p bytes ≡ (p, f ∷ [])
push-whole p [] f h e = absurd (omega (arith, header_length-short [] e.header))
push-whole p (byte ∷ rest) f h e =
    let e' : IsEncoding (p.buffer ++ byte ∷ rest) f = rw h e in
    rw (push-rest p byte rest f e') (λ i. (record p { buffer = sym h i }, f ∷ []))

-- Any sequence of whole frames, sent to a parser with an empty buffer in one stream, comes out as
-- those frames in order; nothing is discarded, and the buffer is empty again.
pub push-flatten :
    (p : Parser) (bs : List (List ℕ)) (fs : List Frame)
    → p.buffer ≡ []
    → Encodings bs fs
    → push p (flatten bs) ≡ (p, fs)
unfolding flatten
push-flatten p [] [] h e = unfold push in refl
push-flatten p [] (f ∷ fs) h e = absurd e
push-flatten p (b ∷ bs) [] h e = absurd e
push-flatten p (b ∷ bs) (f ∷ fs) h e =
    push-append p b (flatten bs) ∙ rw (push-whole p b f h e.0) (rw (push-flatten p bs fs h e.1))
