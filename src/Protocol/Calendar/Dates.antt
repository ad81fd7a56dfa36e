-- ===== src/Protocol/Calendar/Dates.antt =====
-- The decoder of protocol.rs beside a calendar that goes from one day to the next.
use pose_bridge.Prelude.{
  ◌||◌, ℕ, zero, suc, ◌+◌, ◌-◌, ◌*◌, ◌/◌, ◌%◌, ◌≤◌, ◌<◌, ◌≡◌, refl, sym, ◌∙◌, Bool, true, false,
  some, arith, ap, if◌then◌else◌, ltb, ◌==◌, get_or, take, List, [], ◌∷◌,
}
use pose_bridge.Protocol.Calendar.{
  is_leap, days_in_month, sum, leap_before, days_since_2000, device_calendar_ms,
}
use pose_bridge.Protocol.Calendar.Laws.{
  device_calendar_ms_lem, device_calendar_ms-fields, leap_before-suc, sum-days_in_month,
  leap_before-2000, days_lem,
}

pub record Date : Type 0 where
  pub year : ℕ
  pub month : ℕ
  pub day : ℕ

-- The Gregorian leap years.
unfoldable pub has_29_february : ℕ → Bool
has_29_february year =
    if year % 400 == 0 then true else if year % 100 == 0 then false else year % 4 == 0

unfoldable pub month_days : Bool → ℕ → ℕ
month_days leap month =
    if month == 2
    then if leap then 29 else 28
    else if month == 4 || (month == 6 || (month == 9 || month == 11))
    then 30
    else 31

unfoldable pub tomorrow : Date → Date
tomorrow x =
    if ltb x.day (month_days (has_29_february x.year) x.month)
    then record x { day = x.day + 1 }
    else if ltb x.month 12
    then record x { month = x.month + 1; day = 1 }
    else record { year = x.year + 1; month = 1; day = 1 }

-- So many days later.
unfoldable pub later : ℕ → Date → Date
later zero x = x
later (suc n) x = tomorrow (later n x)

abbrev pub epoch : Date
epoch = record { year = 2000; month = 1; day = 1 }

leap-eq : (year : ℕ) → is_leap year ≡ has_29_february year
unfolding is_leap has_29_february
leap-eq year = ground arith

table_month :
    (leap : Bool) (i : ℕ) → i < 12 → get_or (days_in_month leap) i 0 ≡ month_days leap (suc i)
unfolding month_days
table_month leap zero h = refl
table_month leap (suc zero) h = refl
table_month leap (suc (suc zero)) h = refl
table_month leap (suc (suc (suc zero))) h = refl
table_month leap (suc (suc (suc (suc zero)))) h = refl
table_month leap (suc (suc (suc (suc (suc zero))))) h = refl
table_month leap (suc (suc (suc (suc (suc (suc zero)))))) h = refl
table_month leap (suc (suc (suc (suc (suc (suc (suc zero))))))) h = refl
table_month leap (suc (suc (suc (suc (suc (suc (suc (suc zero)))))))) h = refl
table_month leap (suc (suc (suc (suc (suc (suc (suc (suc (suc zero))))))))) h = refl
table_month leap (suc (suc (suc (suc (suc (suc (suc (suc (suc (suc zero)))))))))) h = refl
table_month leap (suc (suc (suc (suc (suc (suc (suc (suc (suc (suc (suc zero))))))))))) h = refl
table_month leap (suc (suc (suc (suc (suc (suc (suc (suc (suc (suc (suc (suc i)))))))))))) h =
    absurd (omega arith)

later_add : (a b : ℕ) (x : Date) → later (a + b) x ≡ later b (later a x)
unfolding later
later_add a zero x = ap (λ n. later n x) (omega arith)
later_add a (suc b) x =
    let next : a + suc b ≡ suc (a + b) = omega arith in
    ap (λ n. later n x) next ∙ ap tomorrow (later_add a b x)

sum-take : (l : List ℕ) (i : ℕ) → sum (take (suc i) l) ≡ sum (take i l) + get_or l i 0
sum-take [] zero = refl
sum-take [] (suc i) = refl
sum-take (x ∷ l) zero = omega arith
sum-take (x ∷ l) (suc i) = omega (arith, sum-take l i)

-- The days of a month, as `tomorrow` counts them.
abbrev days_of : ℕ → ℕ → ℕ
days_of year month = month_days (has_29_february year) month

abbrev date : ℕ → ℕ → ℕ → Date
date year month day = record { year = year; month = month; day = day }

tomorrow-within : (y mo d : ℕ) → d < days_of y mo → tomorrow (date y mo d) ≡ date y mo (d + 1)
unfolding tomorrow
tomorrow-within y mo d h = ground arith

tomorrow-month : (y mo : ℕ) → mo < 12 → tomorrow (date y mo (days_of y mo)) ≡ date y (mo + 1) 1
unfolding tomorrow
tomorrow-month y mo h = ground arith

tomorrow-year : (y : ℕ) → tomorrow (date y 12 31) ≡ date (y + 1) 1 1
unfolding tomorrow month_days
tomorrow-year y = ground arith

later-within : (y mo k : ℕ) → k < days_of y mo → later k (date y mo 1) ≡ date y mo (1 + k)
unfolding later
later-within y mo zero h = refl
later-within y mo (suc k) h =
    ap tomorrow (later-within y mo k (omega arith))
    ∙ (tomorrow-within y mo (1 + k) (omega arith) ∙ ap (date y mo) (omega arith))

-- The last day of a month, and one more.
later-end :
    (y mo k : ℕ)
    → suc k ≡ days_of y mo
    → later (suc k) (date y mo 1) ≡ tomorrow (date y mo (days_of y mo))
unfolding later
later-end y mo k h = ap tomorrow (later-within y mo k (omega arith) ∙ ap (date y mo) (omega arith))

month_days-positive : (leap : Bool) (mo : ℕ) → 1 ≤ month_days leap mo
unfolding month_days
month_days-positive leap mo = ground arith

-- The first of a month, counted from the first of January.
later-months :
    (y i : ℕ)
    → i < 12
    → later (sum (take i (days_in_month (is_leap y)))) (date y 1 1) ≡ date y (1 + i) 1
later-months y zero h = unfold later in refl
later-months y (suc i) h =
    let days = get_or (days_in_month (is_leap y)) i 0 in
    let table : days ≡ days_of y (suc i) =
      table_month (is_leap y) i (omega arith) ∙ ap (λ l. month_days l (suc i)) (leap-eq y) in
    let same : suc (days - 1) ≡ days_of y (suc i) =
      omega (arith, month_days-positive (has_29_february y) (suc i)) in
    let split : sum (take (suc i) (days_in_month (is_leap y)))
        ≡ sum (take i (days_in_month (is_leap y))) + suc (days - 1) =
      omega (arith, sum-take (days_in_month (is_leap y)) i) in
    ap (λ n. later n (date y 1 1)) split
    ∙ (later_add (sum (take i (days_in_month (is_leap y)))) (suc (days - 1)) (date y 1 1)
        ∙ (ap (later (suc (days - 1)))
              (later-months y i (omega arith) ∙ ap (λ m. date y m 1) (omega arith))
            ∙ (later-end y (suc i) (days - 1) same
                ∙ (tomorrow-month y (suc i) h ∙ ap (λ m. date y m 1) (omega arith)))))

december : (y : ℕ) → days_of y 12 ≡ 31
unfolding month_days
december y = refl

later-year : (y : ℕ) → later (365 + (if is_leap y then 1 else 0)) (date y 1 1) ≡ date (y + 1) 1 1
later-year y =
    let first = sum (take 11 (days_in_month (is_leap y))) in
    let split : 365 + (if is_leap y then 1 else 0) ≡ first + suc 30 =
      omega (arith, sum-days_in_month (is_leap y), sum-take (days_in_month (is_leap y)) 11) in
    ap (λ n. later n (date y 1 1)) split
    ∙ (later_add first (suc 30) (date y 1 1)
        ∙ (ap (later (suc 30)) (later-months y 11 (omega arith))
            ∙ (later-end y 12 30 (sym (december y))
                ∙ (ap (λ d. tomorrow (date y 12 d)) (december y) ∙ tomorrow-year y))))

abbrev years_of : ℕ → ℕ
years_of n = n * 365 + leap_before (2000 + n) - leap_before 2000

later-years : (n : ℕ) → later (years_of n) epoch ≡ date (2000 + n) 1 1
later-years zero = unfold later leap_before in refl
later-years (suc n) =
    let year = 365 + (if is_leap (2000 + n) then 1 else 0) in
    let split : years_of (suc n) ≡ years_of n + year =
      omega (arith, leap_before-suc n, leap_before-2000 n) in
    ap (λ k. later k epoch) split
    ∙ (later_add (years_of n) year epoch
        ∙ (ap (later year) (later-years n)
            ∙ (later-year (2000 + n) ∙ ap (λ y. date y 1 1) (omega arith))))

-- A date's days lead to it.
later-date :
    (y mo d : ℕ)
    → 1 ≤ mo
    → mo ≤ 12
    → 1 ≤ d
    → d ≤ get_or (days_in_month (is_leap (2000 + y))) (mo - 1) 0
    → later (days_since_2000 (days_in_month (is_leap (2000 + y))) (2000 + y) mo d) epoch
      ≡ date (2000 + y) mo d
later-date y mo d h k p q =
    let months = sum (take (mo - 1) (days_in_month (is_leap (2000 + y)))) in
    let month : suc (mo - 1) ≡ mo = omega arith in
    let table : get_or (days_in_month (is_leap (2000 + y))) (mo - 1) 0 ≡ days_of (2000 + y) mo =
      table_month (is_leap (2000 + y)) (mo - 1) (omega arith)
      ∙ (ap (λ l. month_days l (suc (mo - 1))) (leap-eq (2000 + y))
          ∙ ap (days_of (2000 + y)) month) in
    let split : days_since_2000 (days_in_month (is_leap (2000 + y))) (2000 + y) mo d
        ≡ years_of y + months + (d - 1) =
      omega (arith, days_lem y mo d p, leap_before-2000 y) in
    ap (λ n. later n epoch) split
    ∙ (later_add (years_of y + months) (d - 1) epoch
        ∙ (ap (later (d - 1)) (
              later_add (years_of y) months epoch
              ∙ (ap (later months) (later-years y)
                  ∙ (later-months (2000 + y) (mo - 1) (omega arith)
                      ∙ ap (λ m. date (2000 + y) m 1) (omega arith))))
            ∙ (later-within (2000 + y) mo (d - 1) (omega arith)
                ∙ ap (date (2000 + y) mo) (omega arith))))

-- A decoded calendar is read back from its milliseconds: the date is the one that many whole days
-- after 1 January 2000, one Gregorian day after another, and hour, minute, second and millisecond
-- are the fields.
pub device_calendar_ms-later :
    (y mo d h mi s lo hi : ℕ) {t : ℕ}
    → device_calendar_ms y mo d h mi s lo hi ≡ some t
    → (later (t / 86400000) epoch ≡ record { year = 2000 + y; month = mo; day = d })
      × (t / 3600000 % 24 ≡ h)
      × (t / 60000 % 60 ≡ mi)
      × (t / 1000 % 60 ≡ s)
      × (t % 1000 ≡ lo + 256 * hi)
device_calendar_ms-later y mo d h mi s lo hi e =
    let v = (device_calendar_ms_lem y mo d h mi s lo hi e).0 in
    let (days, hour, minute, second, millis) = device_calendar_ms-fields y mo d h mi s lo hi e in
    (
      ap (λ n. later n epoch) days ∙ later-date y mo d v.month_ge v.month_le v.day_ge v.day_le,
      hour,
      minute,
      second,
      millis,
    )
