-- ===== src/Controller/Reconnect.antt =====
-- The loop of `run` in crates/posebridge-core/src/controller.rs that connects, receives, and connects
-- again after a pause. What a connection comes to is an input of each round, and so is whether the
-- acquisition is cancelled before the round and during the pause.
pub mod Backoff
use Prim.Native.String.{String}
use pose_bridge.Prelude.{
  ℕ, ◌+◌, ◌*◌, Bool, true, false, ◌&&◌, Option, none, some, List, [], ◌∷◌, ltb, if◌then◌else◌, min,
}
use pose_bridge.Model.{
  Error, invalid, busy, unavailable, permission, io, protocol, timeout, cancelled, internal, Result,
  ok, err,
}
use pose_bridge.Controller.{Shared, connecting, reconnecting, from_work}
use pose_bridge.Controller.Publish.{begin_session}

-- The errors after which there is no other attempt.
abbrev pub is_final : Error → Bool
is_final cancelled = true
is_final permission = true
is_final protocol = true
is_final invalid = true
is_final _ = false

-- One round: whether the acquisition is cancelled before, what opening the connection comes to, the
-- identifiers that `new_id` draws, the name of the device, what `pump` does from the new session, and
-- whether the pause is cut off by a cancellation.
pub record Round (F : Type 0) : Type 0 where
  pub is_cancelled : Bool
  pub opening : Result (Unit {0})
  pub instance : ℕ
  pub session : ℕ
  pub name : Option String
  pub pump : Shared F → Shared F × Result (Unit {0})
  pub is_cut : Bool

-- What the loop comes to: its result, or `none` when there are no more rounds, and the pauses in
-- seconds.
pub record Outcome (F : Type 0) : Type 0 where
  pub shared : Shared F
  pub result : Option (Result (Unit {0}))
  pub pauses : List ℕ

module _ {F : Type 0} where
  -- The pause after a round: the shortest one again after a session with samples.
  abbrev pub backoff_after : Result (Unit {0}) → ℕ → Shared F → ℕ
  backoff_after (ok u) backoff s = if ltb 0 s.status.session_samples then 1 else backoff
  backoff_after (err e) backoff s = backoff

  -- A failure that is not final.
  abbrev pub failed_round : Shared F → Error → Shared F
  failed_round s e = record s {
    status = record (s.status) {
      last_error = some (from_work e);
      state = reconnecting;
      reconnect_count = s.status.reconnect_count + 1;
    };
  }

  abbrev pub at_connecting : Shared F → Shared F
  at_connecting s = record s { status = record (s.status) { state = connecting } }

  abbrev pub finish : Shared F → Result (Unit {0}) → Outcome F
  finish s r = record { shared = s; result = some r; pauses = [] }

  abbrev pub with_pause : ℕ → Outcome F → Outcome F
  with_pause n o = record o { pauses = n ∷ o.pauses }

  -- The end of a round, and the rest of the loop after a pause of `backoff`.
  abbrev pub conclude : Shared F × Result (Unit {0}) → Bool → ℕ → (Shared F → Outcome F) → Outcome F
  conclude (s, ok u) is_cut backoff rest = finish s (ok tt)
  conclude (s, err e) is_cut backoff rest =
      if is_final e
      then finish s (err e)
      else if is_cut
      then with_pause backoff (finish (failed_round s e) (err cancelled))
      else with_pause backoff (rest (failed_round s e))

module _ {F : Type 0} (same_name : Option String → Option String → Bool) where
  abbrev pub named : Shared F → Option String → Shared F
  named s name = if same_name s.descriptor.device_name name then s else record s {
    descriptor = record (s.descriptor) {
      device_name = name;
      metadata_revision = s.descriptor.metadata_revision + 1;
    };
  }

  -- The connection of a round, with whether there were samples.
  abbrev pub connect : Result (Unit {0}) → Round F → Shared F → Shared F × Result (Unit {0})
  connect (err e) round s = (s, err e)
  connect (ok u) round s =
      round.pump (named (begin_session s round.instance round.session) round.name)

  unfoldable pub reconnect : Shared F → ℕ → List (Round F) → Outcome F
  reconnect s backoff [] = record { shared = s; result = none; pauses = [] }
  reconnect s backoff (round ∷ rounds) =
      let r = connect round.opening round (at_connecting s) in
      let pause = backoff_after round.opening backoff r.0 in
      let rest : Shared F → Outcome F = λ t. reconnect t (min (pause * 2) 8) rounds in
      if round.is_cancelled then finish s (err cancelled) else conclude r round.is_cut pause rest
