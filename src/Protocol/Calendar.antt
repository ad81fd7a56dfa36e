-- ===== src/Protocol/Calendar.antt =====
-- `device_calendar_ms` of crates/posebridge-core/src/protocol.rs: the eight-byte RTC as milliseconds
-- since 2000-01-01. No u32 or u64 operation wraps: years are at most 2255.
pub mod Laws
pub mod Dates
mod Examples
use pose_bridge.Prelude.{
  ℕ, ◌+◌, ◌-◌, ◌*◌, ◌/◌, ◌%◌, Bool, not, ◌&&◌, ◌||◌, Option, none, some, List, [], ◌∷◌, ltb, leb,
  ◌==◌, if◌then◌else◌, get_or, take,
}

-- `u16::from_le_bytes`.
abbrev pub from_le_bytes : ℕ → ℕ → ℕ
from_le_bytes lo hi = lo + 256 * hi

unfoldable pub is_leap : ℕ → Bool
is_leap year = year % 4 == 0 && (not (year % 100 == 0) || year % 400 == 0)

abbrev pub days_in_month : Bool → List ℕ
days_in_month leap =
    31 ∷ (if leap then 29 else 28) ∷ 31 ∷ 30 ∷ 31 ∷ 30 ∷ 31 ∷ 31 ∷ 30 ∷ 31 ∷ 30 ∷ 31 ∷ []

-- `.iter().sum::<u32>()`.
abbrev pub sum : List ℕ → ℕ
sum [] = 0
sum (x ∷ xs) = x + sum xs

unfoldable pub leap_before : ℕ → ℕ
leap_before y = (y - 1) / 4 - (y - 1) / 100 + (y - 1) / 400

-- The test of the eight bytes, with the month's table given.
unfoldable pub is_invalid : List ℕ → ℕ → ℕ → ℕ → ℕ → ℕ → ℕ → Bool
is_invalid table month day hour minute second millis =
    not (leb 1 month && leb month 12)
    || (day == 0
        || (ltb (get_or table (month - 1) 0) day
            || (ltb 23 hour || (ltb 59 minute || (ltb 59 second || ltb 999 millis)))))

unfoldable pub days_since_2000 : List ℕ → ℕ → ℕ → ℕ → ℕ
unfolding leap_before
days_since_2000 table year month day =
    (year - 2000) * 365
    + leap_before year
    - leap_before 2000
    + sum (take (month - 1) table)
    + day
    - 1

-- The bytes b[0] to b[7].
unfoldable pub device_calendar_ms : ℕ → ℕ → ℕ → ℕ → ℕ → ℕ → ℕ → ℕ → Option ℕ
device_calendar_ms b0 b1 b2 b3 b4 b5 b6 b7 =
    let year = 2000 + b0 in
    let table = days_in_month (is_leap year) in
    let millis = from_le_bytes b6 b7 in
    if is_invalid table b1 b2 b3 b4 b5 millis
    then none
    else some ((((days_since_2000 table year b1 b2 * 24 + b3) * 60 + b4) * 60 + b5) * 1000 + millis)
