-- ===== src/Controller/Reconnect/Backoff.antt =====
-- The pauses between the attempts to connect.
use pose_bridge.Prelude.{
  ℕ, ◌*◌, ◌≡◌, refl, Bool, true, false, Option, none, some, List, [], ◌∷◌, arith, min, ltb,
  if◌then◌else◌, Bool-cases, inl, inr, ◌⊎◌, ◌||◌, ◌==◌,
}
use Prim.Native.String.{String}
use pose_bridge.Model.{Result, ok, err, cancelled}
use pose_bridge.Controller.{Shared}
use pose_bridge.Controller.Reconnect.{
  Round, Outcome, is_final, backoff_after, conclude, reconnect, connect, at_connecting,
  failed_round, with_pause, finish,
}

-- A pause of the loop: 1, 2, 4 or 8 seconds.
abbrev pub is_pause : ℕ → Bool
is_pause n = n == 1 || (n == 2 || (n == 4 || n == 8))

-- Pauses of 1, 2, 4 or 8 seconds that each are the shortest one, or twice the one before up to eight
-- seconds.
abbrev pub IsBackoff : ℕ → List ℕ → Type 0
IsBackoff expected [] = Unit {0}
IsBackoff expected (n ∷ ns) =
    ((n ≡ 1) ⊎ (n ≡ expected)) × (is_pause n ≡ true) × IsBackoff (min (n * 2) 8) ns

-- The loop ends with an error only if that is final.
abbrev pub IsEnd : Option (Result (Unit {0})) → Type 0
IsEnd none = Unit {0}
IsEnd (some (ok u)) = Unit {0}
IsEnd (some (err e)) = is_final e ≡ true

is_pause-next : (n : ℕ) → is_pause n ≡ true → is_pause (min (n * 2) 8) ≡ true
is_pause-next n h = ground arith

module _ {F : Type 0} where
  record IsRun (backoff : ℕ) (o : Outcome F) : Type 0 where
    pauses : IsBackoff backoff o.pauses
    end : IsEnd o.result

  conclude-IsRun :
      (r : Shared F × Result (Unit {0})) (is_cut : Bool) (backoff n : ℕ)
      (rest : Shared F → Outcome F)
      → (n ≡ 1) ⊎ (n ≡ backoff)
      → is_pause n ≡ true
      → ((t : Shared F) → IsRun (min (n * 2) 8) (rest t))
      → IsRun backoff (conclude r is_cut n rest)
  conclude-IsRun (s, ok u) is_cut backoff n rest c p k = record { pauses = tt; end = tt }
  conclude-IsRun (s, err e) is_cut backoff n rest c p k = elim (Bool-cases (is_final e)) [
    | inl final ↦ rw final (record { pauses = tt; end = final })
    | inr again ↦ rw again (go is_cut)
  ]
    where
      go :
          (b : Bool)
          → IsRun backoff (
              if b
              then with_pause n (finish (failed_round s e) (err cancelled))
              else with_pause n (rest (failed_round s e)))
      go true = record { pauses = (c, p, tt); end = refl }
      go false = record {
        pauses = (c, p, (k (failed_round s e)).pauses);
        end = (k (failed_round s e)).end;
      }

  backoff_after-cases :
      (opening : Result (Unit {0})) (backoff : ℕ) (s : Shared F)
      → (backoff_after opening backoff s ≡ 1) ⊎ (backoff_after opening backoff s ≡ backoff)
  backoff_after-cases (err e) backoff s = inr refl
  backoff_after-cases (ok u) backoff s = elim (Bool-cases (ltb 0 s.status.session_samples)) [
    | inl some_samples ↦ inl (rw some_samples refl)
    | inr no_samples ↦ inr (rw no_samples refl)
  ]

  round-IsRun :
      (opening : Result (Unit {0})) (s : Shared F) (r : Shared F × Result (Unit {0}))
      (is_cancelled is_cut : Bool) (backoff : ℕ) (rest : ℕ → Shared F → Outcome F)
      → is_pause backoff ≡ true
      → ((n : ℕ) → is_pause n ≡ true → (t : Shared F) → IsRun (min (n * 2) 8) (rest n t))
      → let n = backoff_after opening backoff r.0 in
        IsRun backoff
          (if is_cancelled then finish s (err cancelled) else conclude r is_cut n (rest n))
  round-IsRun opening s r true is_cut backoff rest h k = record { pauses = tt; end = refl }
  round-IsRun opening s r false is_cut backoff rest h k =
      let n = backoff_after opening backoff r.0 in
      let cases : (n ≡ 1) ⊎ (n ≡ backoff) = backoff_after-cases opening backoff r.0 in
      let valid : is_pause n ≡ true = elim cases [ inl e ↦ rw e refl | inr e ↦ rw e h ] in
      conclude-IsRun r is_cut backoff n (rest n) cases valid (k n valid)

  module _ (same_name : Option String → Option String → Bool) where
    reconnect-IsRun :
        (rounds : List (Round F)) (s : Shared F) (backoff : ℕ)
        → is_pause backoff ≡ true
        → IsRun backoff (reconnect same_name s backoff rounds)
    unfolding reconnect
    reconnect-IsRun [] s backoff h = record { pauses = tt; end = tt }
    reconnect-IsRun (round ∷ rounds) s backoff h =
        round-IsRun round.opening s (connect same_name round.opening round (at_connecting s))
          round.is_cancelled round.is_cut backoff
          (λ n t. reconnect same_name t (min (n * 2) 8) rounds) h
          (λ n valid t. reconnect-IsRun rounds t (min (n * 2) 8) (is_pause-next n valid))

    -- Whatever the connections come to, the loop pauses 1, 2, 4 or 8 seconds between its attempts, each
    -- time the shortest pause or twice the one before up to eight seconds, and ends with an error only
    -- when it is cancelled or the error is one of permission, of the protocol or of the configuration.
    pub reconnect-IsBackoff :
        (s : Shared F) (rounds : List (Round F))
        → let o = reconnect same_name s 1 rounds in IsBackoff 1 o.pauses × IsEnd o.result
    reconnect-IsBackoff s rounds =
        let run = reconnect-IsRun rounds s 1 refl in (run.pauses, run.end)
