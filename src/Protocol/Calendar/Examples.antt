-- ===== src/Protocol/Calendar/Examples.antt =====
-- The calendar at concrete dates, and the laws there.
use pose_bridge.Prelude.{◌+◌, ◌*◌, ◌/◌, ◌%◌, ◌≡◌, refl, none, some}
use pose_bridge.Protocol.Calendar.{
  is_leap, is_invalid, days_since_2000, leap_before, device_calendar_ms,
}
use pose_bridge.Protocol.Calendar.Dates.{epoch, later, device_calendar_ms-later}

-- 2024-02-29 23:59:58.999.
leap_day : device_calendar_ms 24 2 29 23 59 58 0xe7 3 ≡ some 762566398999
unfolding device_calendar_ms is_invalid days_since_2000 is_leap leap_before
leap_day = refl

-- 2024-03-01 00:00:00.000.
next_day : device_calendar_ms 24 3 1 0 0 0 0 0 ≡ some 762566400000
unfolding device_calendar_ms is_invalid days_since_2000 is_leap leap_before
next_day = refl

-- 2023 has no 29 February.
no_leap_day : device_calendar_ms 23 2 29 23 59 58 0xe7 3 ≡ none
unfolding device_calendar_ms is_invalid days_since_2000 is_leap leap_before
no_leap_day = refl

device_calendar_ms-later_example :
    (later (762566398999 / 86400000) epoch ≡ record { year = 2000 + 24; month = 2; day = 29 })
    × (762566398999 / 3600000 % 24 ≡ 23)
    × (762566398999 / 60000 % 60 ≡ 59)
    × (762566398999 / 1000 % 60 ≡ 58)
    × (762566398999 % 1000 ≡ 0xe7 + 256 * 3)
device_calendar_ms-later_example = device_calendar_ms-later 24 2 29 23 59 58 0xe7 3 leap_day
