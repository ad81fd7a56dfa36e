-- ===== src/Device/Registers/Laws.antt =====
-- What a register read returns, and that a reply is found.
use pose_bridge.Prelude.{
  ℕ, ◌<◌, ◌≡◌, refl, ◌∙◌, ap, true, Option, none, some, List, [], ◌∷◌, ◌++◌, map, arith, ◌==◌,
  get_or, if◌then◌else◌, is_none_or,
}
use mathlib.Core.Path.{subst}
use pose_bridge.Prelude.Int.{ℤ}
use pose_bridge.Model.{Result, ok, err}
use pose_bridge.Protocol.Frame.{Frame, motion, stream, registers, to_i16}
use pose_bridge.Protocol.Parser.{Parser, default, push}
use pose_bridge.Protocol.Parser.Reply.{reply, push-reply, i16_list}
use pose_bridge.Device.Registers.{
  Arrival, bytes, repeat, failed, cancel, to_u16, Search, found, searching, after_search,
  search_frames, read_loop, read_registers,
}

-- The value that was asked for.
abbrev pub IsExpected : Option ℕ → List ℕ → Type 0
IsExpected none values = Unit {0}
IsExpected (some v) values = get_or values 0 0 ≡ v

abbrev FindsExpected : Option ℕ → Search → Type 0
FindsExpected expected (found values) = IsExpected expected values
FindsExpected expected (searching last) = Unit {0}

IsExpected-test :
    (expected : Option ℕ) (values : List ℕ)
    → is_none_or expected (λ v. v == get_or values 0 0) ≡ true
    → IsExpected expected values
IsExpected-test none values h = tt
IsExpected-test (some v) values h = ground arith

search_frames-FindsExpected :
    (address : ℕ) (expected last : Option ℕ) (frames : List Frame)
    → FindsExpected expected (search_frames address expected last frames)
unfolding search_frames
search_frames-FindsExpected address expected last [] = tt
search_frames-FindsExpected address expected last (registers base values ∷ frames) =
    let last' = if base == address then some (get_or (map to_u16 values) 0 0) else last in
    ground (
      arith,
      IsExpected-test expected (map to_u16 values),
      search_frames-FindsExpected address expected last' frames,
    )
search_frames-FindsExpected address expected last (motion a g e ∷ frames) =
    search_frames-FindsExpected address expected last frames
search_frames-FindsExpected address expected last (stream s ∷ frames) =
    search_frames-FindsExpected address expected last frames

abbrev OkIsExpected : Option ℕ → Result (List ℕ) → Type 0
OkIsExpected expected (ok values) = IsExpected expected values
OkIsExpected expected (err e) = Unit {0}

after_search-OkIsExpected :
    (expected : Option ℕ) (s : Search) (k : Option ℕ → Result (List ℕ))
    → FindsExpected expected s
    → ((last : Option ℕ) → OkIsExpected expected (k last))
    → OkIsExpected expected (after_search s k)
after_search-OkIsExpected expected (found values) k f h = f
after_search-OkIsExpected expected (searching last) k f h = h last

read_loop-OkIsExpected :
    (address : ℕ) (expected : Option ℕ) (p : Parser) (last : Option ℕ) (arrivals : List Arrival)
    → OkIsExpected expected (read_loop address expected p last arrivals)
unfolding read_loop
read_loop-OkIsExpected address expected p last [] = tt
read_loop-OkIsExpected address expected p last (bytes b ∷ arrivals) =
    after_search-OkIsExpected expected (search_frames address expected last (push p b).1)
      (λ last'. read_loop address expected (push p b).0 last' arrivals)
      (search_frames-FindsExpected address expected last (push p b).1)
      (λ last'. read_loop-OkIsExpected address expected (push p b).0 last' arrivals)
read_loop-OkIsExpected address expected p last (repeat (ok u) ∷ arrivals) =
    read_loop-OkIsExpected address expected p last arrivals
read_loop-OkIsExpected address expected p last (repeat (err e) ∷ arrivals) = tt
read_loop-OkIsExpected address expected p last (failed e ∷ arrivals) = tt
read_loop-OkIsExpected address expected p last (cancel ∷ arrivals) = tt

-- A register read that succeeds returns the value that was asked for, whatever frames came before.
pub read_registers-IsExpected :
    (address v : ℕ) (request : Result (Unit {0})) (arrivals : List Arrival) {values : List ℕ}
    → read_registers address (some v) request arrivals ≡ ok values
    → get_or values 0 0 ≡ v
unfolding read_registers
read_registers-IsExpected address v (ok u) arrivals h =
    subst (OkIsExpected (some v)) h (read_loop-OkIsExpected address (some v) default none arrivals)
read_registers-IsExpected address v (err e) arrivals h = cc

-- Repetitions of the request that were written.
abbrev pub AllRepeats : List Arrival → Type 0
AllRepeats [] = Unit {0}
AllRepeats (repeat (ok u) ∷ arrivals) = AllRepeats arrivals
AllRepeats _ = ⊥

to_u16-to_i16 : (n : ℕ) → n < 65536 → to_u16 (to_i16 n) ≡ n
unfolding to_u16 to_i16
to_u16-to_i16 n h = ground arith

IsExpected-test_complete :
    (expected : Option ℕ) (values : List ℕ)
    → IsExpected expected values
    → is_none_or expected (λ v. v == get_or values 0 0) ≡ true
IsExpected-test_complete none values h = refl
IsExpected-test_complete (some v) values h = ground arith

search_frames-hit :
    (n : ℕ) (expected last : Option ℕ) (values : List ℤ)
    → IsExpected expected (map to_u16 values)
    → search_frames n expected last (registers n values ∷ []) ≡ found (map to_u16 values)
unfolding search_frames
search_frames-hit n expected last values h =
    ground (arith, IsExpected-test_complete expected (map to_u16 values) h)

read_loop-repeats :
    (n : ℕ) (expected : Option ℕ) (p : Parser) (last : Option ℕ) (repeats rest : List Arrival)
    → AllRepeats repeats
    → read_loop n expected p last (repeats ++ rest) ≡ read_loop n expected p last rest
unfolding read_loop
read_loop-repeats n expected p last [] rest h = refl
read_loop-repeats n expected p last (repeat (ok u) ∷ repeats) rest h =
    read_loop-repeats n expected p last repeats rest h
read_loop-repeats n expected p last (repeat (err e) ∷ repeats) rest h = absurd h
read_loop-repeats n expected p last (bytes b ∷ repeats) rest h = absurd h
read_loop-repeats n expected p last (failed e ∷ repeats) rest h = absurd h
read_loop-repeats n expected p last (cancel ∷ repeats) rest h = absurd h

read_loop-bytes :
    (n : ℕ) (expected last : Option ℕ) (p q : Parser) (b : List ℕ) (fs : List Frame)
    (values : List ℕ) (rest : List Arrival)
    → push p b ≡ (q, fs)
    → search_frames n expected last fs ≡ found values
    → read_loop n expected p last (bytes b ∷ rest) ≡ ok values
unfolding read_loop
read_loop-bytes n expected last p q b fs values rest h k = rw (h, k)

words_lem :
    (a b c d e f g h : ℕ)
    → a < 65536
    → b < 65536
    → c < 65536
    → d < 65536
    → e < 65536
    → f < 65536
    → g < 65536
    → h < 65536
    → map to_u16 (i16_list a b c d e f g h) ≡ a ∷ b ∷ c ∷ d ∷ e ∷ f ∷ g ∷ h ∷ []
words_lem a b c d e f g h j k l o p q r s = rw (
  to_u16-to_i16 a j,
  to_u16-to_i16 b k,
  to_u16-to_i16 c l,
  to_u16-to_i16 d o,
  to_u16-to_i16 e p,
  to_u16-to_i16 f q,
  to_u16-to_i16 g r,
  to_u16-to_i16 h s,
)

IsExpected-head :
    (expected : Option ℕ) (a : ℕ) (values : List ℕ)
    → IsExpected expected (a ∷ [])
    → IsExpected expected (a ∷ values)
IsExpected-head none a values h = tt
IsExpected-head (some v) a values h = h

-- The reply to a read is found: after any number of repeated requests, the twenty bytes of the reply
-- give its eight words, whatever comes behind, if the first one is the value asked for (or none was).
pub read_registers-reply :
    (n a b c d e f g h : ℕ) (expected : Option ℕ) (repeats rest : List Arrival)
    → n < 65536
    → a < 65536
    → b < 65536
    → c < 65536
    → d < 65536
    → e < 65536
    → f < 65536
    → g < 65536
    → h < 65536
    → AllRepeats repeats
    → IsExpected expected (a ∷ [])
    → read_registers n expected (ok tt) (repeats ++ bytes (reply n a b c d e f g h) ∷ rest)
      ≡ ok (a ∷ b ∷ c ∷ d ∷ e ∷ f ∷ g ∷ h ∷ [])
unfolding read_registers
read_registers-reply n a b c d e f g h expected repeats rest m i j k l o p q r s t =
    let words = words_lem a b c d e f g h i j k l o p q r in
    let hit =
      search_frames-hit n expected none (i16_list a b c d e f g h)
        (rw words (IsExpected-head expected a _ t)) in
    read_loop-repeats n expected default none repeats _ s
    ∙ read_loop-bytes n expected none default default (reply n a b c d e f g h) _ _ rest
        (push-reply default n a b c d e f g h refl m i j k l o p q r) hit
    ∙ ap (λ v. ok v) words
