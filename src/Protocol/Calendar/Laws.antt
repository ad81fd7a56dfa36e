-- ===== src/Protocol/Calendar/Laws.antt =====
-- The calendar decoder against the order of dates, and the fields that can be read back.
use pose_bridge.Prelude.{
  ℕ, ◌+◌, ◌-◌, ◌*◌, ◌/◌, ◌%◌, ◌≤◌, ◌<◌, ◌≡◌, refl, ◌⊎◌, Bool, true, false, some, List, [], ◌∷◌,
  arith, if◌then◌else◌, get_or, take, zero, suc, inl, inr,
}
use native.Mathlib.Decide.{ℕ_discrete}
use pose_bridge.Protocol.Calendar.{
  from_le_bytes, is_leap, days_in_month, sum, leap_before, is_invalid, days_since_2000,
  device_calendar_ms,
}

-- The time of day, in milliseconds.
abbrev pub day_ms : ℕ → ℕ → ℕ → ℕ → ℕ
day_ms hour minute second millis = ((hour * 60 + minute) * 60 + second) * 1000 + millis

pub record IsDate (table : List ℕ) (mo d h mi s ms : ℕ) : Type 0 where
  pub month_ge : 1 ≤ mo
  pub month_le : mo ≤ 12
  pub day_ge : 1 ≤ d
  pub day_le : d ≤ get_or table (mo - 1) 0
  pub hour_le : h ≤ 23
  pub minute_le : mi ≤ 59
  pub second_le : s ≤ 59
  pub millis_le : ms ≤ 999

is_invalid-IsDate :
    (table : List ℕ) (mo d h mi s ms : ℕ)
    → is_invalid table mo d h mi s ms ≡ false
    → IsDate table mo d h mi s ms
unfolding is_invalid
is_invalid-IsDate table mo d h mi s ms e = ground arith

-- What an accepted calendar returns, with the days shut.
pub device_calendar_ms_lem :
    (y mo d h mi s lo hi : ℕ) {t : ℕ}
    → device_calendar_ms y mo d h mi s lo hi ≡ some t
    → IsDate (days_in_month (is_leap (2000 + y))) mo d h mi s (from_le_bytes lo hi)
      × (t
          ≡ days_since_2000 (days_in_month (is_leap (2000 + y))) (2000 + y) mo d * 86400000
            + day_ms h mi s (from_le_bytes lo hi))
unfolding device_calendar_ms
device_calendar_ms_lem y mo d h mi s lo hi e =
    let table = days_in_month (is_leap (2000 + y)) in
    ground (arith, is_invalid-IsDate table mo d h mi s (from_le_bytes lo hi))

-- The days since 2000 of an accepted calendar, and the fields of its time of day.
pub device_calendar_ms-fields :
    (y mo d h mi s lo hi : ℕ) {t : ℕ}
    → device_calendar_ms y mo d h mi s lo hi ≡ some t
    → (t / 86400000 ≡ days_since_2000 (days_in_month (is_leap (2000 + y))) (2000 + y) mo d)
      × (t / 3600000 % 24 ≡ h)
      × (t / 60000 % 60 ≡ mi)
      × (t / 1000 % 60 ≡ s)
      × (t % 1000 ≡ from_le_bytes lo hi)
device_calendar_ms-fields y mo d h mi s lo hi e =
    omega (arith, device_calendar_ms_lem y mo d h mi s lo hi e)

-- The first of January of the next year is one year's days on.
pub leap_before-suc :
    (n : ℕ)
    → leap_before (2000 + suc n) ≡ leap_before (2000 + n) + (if is_leap (2000 + n) then 1 else 0)
unfolding leap_before is_leap
leap_before-suc n = ground arith

sum-take-get_or : (l : List ℕ) (i j : ℕ) → i < j → sum (take i l) + get_or l i 0 ≤ sum (take j l)
sum-take-get_or l i zero h = elim h [ ]
sum-take-get_or [] zero (suc j) h = omega arith
sum-take-get_or [] (suc i) (suc j) h = omega arith
sum-take-get_or (x ∷ l) zero (suc j) h = omega arith
sum-take-get_or (x ∷ l) (suc i) (suc j) h = omega (arith, sum-take-get_or l i j)

pub sum-days_in_month :
    (leap : Bool) → sum (take 12 (days_in_month leap)) ≡ 365 + (if leap then 1 else 0)
sum-days_in_month true = refl
sum-days_in_month false = refl

-- The days before the first of January.
abbrev year_start : ℕ → ℕ
year_start n = n * 365 + leap_before (2000 + n)

year_start-lt :
    (m n : ℕ)
    → n < suc m
    → year_start n + 365 + (if is_leap (2000 + n) then 1 else 0) ≤ year_start (suc m)
year_start-lt zero n h = let e : n ≡ 0 = omega arith in rw e (omega (arith, leap_before-suc 0))
year_start-lt (suc m) n h = elim (ℕ_discrete n (suc m)) [
  | yes e ↦ rw e (omega (arith, leap_before-suc (suc m)))
  | no ne ↦ omega (arith, year_start-lt m n, leap_before-suc (suc m))
]

-- One calendar date and time of day lies before another.
abbrev pub Earlier : ℕ → ℕ → ℕ → ℕ → ℕ → ℕ → ℕ → ℕ → Type 0
Earlier y mo d t y' mo' d' t' =
    (y < y')
    ⊎ ((y ≡ y') × (mo < mo'))
    ⊎ ((y ≡ y') × (mo ≡ mo') × (d < d'))
    ⊎ ((y ≡ y') × (mo ≡ mo') × (d ≡ d') × (t < t'))

-- A date's days, counted from the first of January of its year.
pub days_lem :
    (y mo d : ℕ)
    → 1 ≤ d
    → days_since_2000 (days_in_month (is_leap (2000 + y))) (2000 + y) mo d + 1 + leap_before 2000
      ≡ year_start y + sum (take (mo - 1) (days_in_month (is_leap (2000 + y)))) + d
unfolding days_since_2000 leap_before
days_lem y mo d p = omega arith

-- The first of January is the earliest date of its year.
pub leap_before-2000 : (y : ℕ) → leap_before 2000 ≤ leap_before (2000 + y)
unfolding leap_before
leap_before-2000 y = omega arith

-- The calendar order is the order of the days.
days-lt :
    (y mo d y' mo' d' : ℕ)
    → mo ≤ 12
    → 1 ≤ d
    → d ≤ get_or (days_in_month (is_leap (2000 + y))) (mo - 1) 0
    → 1 ≤ mo
    → 1 ≤ d'
    → (y < y') ⊎ ((y ≡ y') × (mo < mo')) ⊎ ((y ≡ y') × (mo ≡ mo') × (d < d'))
    → days_since_2000 (days_in_month (is_leap (2000 + y))) (2000 + y) mo d
      < days_since_2000 (days_in_month (is_leap (2000 + y'))) (2000 + y') mo' d'
days-lt y mo d zero mo' d' p q r u v (inl lt) = elim lt [ ]
days-lt y mo d (suc y') mo' d' p q r u v (inl lt) =
    let table = days_in_month (is_leap (2000 + y)) in
    omega (
      arith,
      days_lem y mo d q,
      days_lem (suc y') mo' d' v,
      year_start-lt y' y lt,
      sum-take-get_or table (mo - 1) 12 (omega arith),
      sum-days_in_month (is_leap (2000 + y)),
    )
days-lt y mo d y' mo' d' p q r u v (inr (inl (e, lt))) = rw (← e) (
    omega (
      arith,
      days_lem y mo d q,
      days_lem y mo' d' v,
      sum-take-get_or (days_in_month (is_leap (2000 + y))) (mo - 1) (mo' - 1) (omega arith),
    ))
days-lt y mo d y' mo' d' p q r u v (inr (inr (e, e', lt))) =
    rw (← e, ← e') (omega (arith, days_lem y mo d q, days_lem y mo d' v))

abbrev DateLt : ℕ → ℕ → ℕ → ℕ → ℕ → ℕ → Type 0
DateLt y mo d y' mo' d' = (y < y') ⊎ ((y ≡ y') × (mo < mo')) ⊎ ((y ≡ y') × (mo ≡ mo') × (d < d'))

Earlier-cases :
    (y mo d t y' mo' d' t' : ℕ)
    → Earlier y mo d t y' mo' d' t'
    → DateLt y mo d y' mo' d' ⊎ ((y ≡ y') × (mo ≡ mo') × (d ≡ d') × (t < t'))
Earlier-cases y mo d t y' mo' d' t' (inl a) = inl (inl a)
Earlier-cases y mo d t y' mo' d' t' (inr (inl b)) = inl (inr (inl b))
Earlier-cases y mo d t y' mo' d' t' (inr (inr (inl c))) = inl (inr (inr c))
Earlier-cases y mo d t y' mo' d' t' (inr (inr (inr e))) = inr e

-- Two accepted calendars are in the order of their dates and times of day: the earlier one, by year,
-- month, day and time of day, gives the smaller number of milliseconds.
pub device_calendar_ms-lt :
    (y mo d h mi s lo hi y' mo' d' h' mi' s' lo' hi' : ℕ) {t t' : ℕ}
    → device_calendar_ms y mo d h mi s lo hi ≡ some t
    → device_calendar_ms y' mo' d' h' mi' s' lo' hi' ≡ some t'
    → Earlier y mo d
        (day_ms h mi s (from_le_bytes lo hi))
        y'
        mo'
        d'
        (day_ms h' mi' s' (from_le_bytes lo' hi'))
    → t < t'
device_calendar_ms-lt y mo d h mi s lo hi y' mo' d' h' mi' s' lo' hi' e e' before =
    let (a, t_lem) = device_calendar_ms_lem y mo d h mi s lo hi e in
    let (b, t_lem') = device_calendar_ms_lem y' mo' d' h' mi' s' lo' hi' e' in
    elim (Earlier-cases y mo d _ y' mo' d' _ before) [
      | inl o ↦
          omega (arith, days-lt y mo d y' mo' d' a.month_le a.day_ge a.day_le a.month_ge b.day_ge o)
      | inr (p, q, r, lt) ↦ omega (
        arith,
        (let same : days_since_2000 (days_in_month (is_leap (2000 + y))) (2000 + y) mo d
                ≡ days_since_2000 (days_in_month (is_leap (2000 + y'))) (2000 + y') mo' d' =
              rw (p, q, r) in
            same),
      )
    ]
