-- ===== src/Battery/Laws.antt =====
-- The battery over a history of queries.
use pose_bridge.Prelude.{
  ℕ, ◌-◌, ◌≤◌, ◌≡◌, refl, Bool, true, false, ◌&&◌, Option, none, some, List, [], ◌∷◌, arith, leb,
  ltb, if◌then◌else◌, is_none, is_some_and, ap,
}
use pose_bridge.Battery.{
  Failure, Battery, default, level, estimate, fail, observe, age_at, snapshot, stale_after,
}

level_mono : (raw raw' : ℕ) → raw ≤ raw' → level raw ≤ level raw'
unfolding level
level_mono raw raw' h = ground arith

level-le : (raw : ℕ) → level raw ≤ 100
unfolding level
level-le raw = ground arith

-- Of two readings with an estimate, the higher voltage has no lower percentage, and it is at most 100.
pub estimate_mono :
    (raw raw' : ℕ) {p p' : ℕ}
    → raw ≤ raw'
    → estimate raw ≡ some p
    → estimate raw' ≡ some p'
    → (p ≤ p') × (p' ≤ 100)
unfolding estimate
estimate_mono raw raw' h e e' = ground (arith, level_mono raw raw' h, level-le raw')

-- What happens to the battery: replies with their time, and queries that fail.
pub data Event : Type 0 where
  reading : ℕ → ℕ → Event
  failure : Failure → Event

unfoldable pub apply : Battery → Event → Battery
apply b (reading raw now) = observe b raw now
apply b (failure e) = fail b e

unfoldable pub run : Battery → List Event → Battery
run b [] = b
run b (e ∷ es) = run (apply b e) es

-- A reply is valid from 2.00 V to 5.50 V.
abbrev pub is_valid : Event → Bool
is_valid (reading raw now) = leb 200 raw && leb raw 550
is_valid (failure e) = false

abbrev pub latest_of : Event → ℕ × ℕ
latest_of (reading raw now) = (raw, now)
latest_of (failure e) = (0, 0)

-- The last valid reply and its time.
abbrev pub latest_valid : Option (ℕ × ℕ) → List Event → Option (ℕ × ℕ)
latest_valid found [] = found
latest_valid found (e ∷ es) = latest_valid (if is_valid e then some (latest_of e) else found) es

-- Nothing went wrong since the last valid reply.
abbrev pub is_good : Bool → List Event → Bool
is_good good [] = good
is_good good (e ∷ es) = is_good (is_valid e) es

abbrev pub raw_of : Option (ℕ × ℕ) → Option ℕ
raw_of none = none
raw_of (some (raw, t)) = some raw

abbrev pub time_of : Option (ℕ × ℕ) → Option ℕ
time_of none = none
time_of (some (raw, t)) = some t

abbrev pub percent_of : Option (ℕ × ℕ) → Option ℕ
percent_of none = none
percent_of (some (raw, t)) = estimate raw

record Agrees (b : Battery) (found : Option (ℕ × ℕ)) (good : Bool) : Type 0 where
  raw_register : b.status.raw_register ≡ raw_of found
  voltage : b.status.voltage_centivolts ≡ raw_of found
  percent : b.status.estimated_percent ≡ percent_of found
  received : b.received ≡ time_of found
  good_lem : is_none b.status.last_error ≡ good

apply-Agrees :
    (b : Battery) (e : Event) (found : Option (ℕ × ℕ)) (good : Bool)
    → Agrees b found good
    → Agrees (apply b e) (if is_valid e then some (latest_of e) else found) (is_valid e)
unfolding apply observe fail
apply-Agrees b (reading raw now) found good a = ground arith
apply-Agrees b (failure x) found good a = ground arith

run-Agrees :
    (b : Battery) (es : List Event) (found : Option (ℕ × ℕ)) (good : Bool)
    → Agrees b found good
    → Agrees (run b es) (latest_valid found es) (is_good good es)
unfolding run
run-Agrees b [] found good a = a
run-Agrees b (e ∷ es) found good a = run-Agrees (apply b e) es _ _ (apply-Agrees b e found good a)

-- After any replies and failures, a query shows the last valid reply, whatever failed since: its
-- register, voltage, estimate and age. It is fresh exactly if acquisition is available, the last
-- event was a valid reply, and that reply is less than 90 seconds old.
pub snapshot-run :
    (es : List Event) (now : ℕ) (available : Bool)
    → let found = latest_valid none es in
      let s = snapshot (run default es) now available in
      (s.raw_register ≡ raw_of found)
      × (s.voltage_centivolts ≡ raw_of found)
      × (s.estimated_percent ≡ percent_of found)
      × (s.age_ns ≡ age_at (time_of found) now)
      × (s.fresh ≡ (
          available
          && (is_good true es && is_some_and (time_of found) (λ t. ltb (now - t) stale_after))))
unfolding snapshot
snapshot-run es now available =
    let a : Agrees (run default es) (latest_valid none es) (is_good true es) =
      run-Agrees default es none true (record {
        raw_register = refl;
        voltage = refl;
        percent = refl;
        received = refl;
        good_lem = refl;
      }) in
    (
      a.raw_register,
      a.voltage,
      a.percent,
      ap (λ t. age_at t now) a.received,
      λ i.
          available
          && (a.good_lem i && is_some_and (a.received i) (λ t. ltb (now - t) stale_after)),
    )
