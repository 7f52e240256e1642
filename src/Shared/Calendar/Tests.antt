-- ===== src/Shared/Calendar/Tests.antt =====
-- The reset time at the end of a leap year's February.
use octg.Common.{◌≡◌, ◌+◌, ◌<>◌, refl, true, some, arith}
use octg.Shared.Calendar.{Day, is_real, parse_day, print_day, next_utc_midnight, day_number}
use octg.Shared.Calendar.Laws.{next_utc_midnight_lem}

abbrev leap_day : Day
leap_day = record { year = 2028; month = 2; day = 29 }

leap_day_parsed : parse_day "2028-02-29" ≡ some leap_day
unfolding parse_day octg.Shared.Calendar.days_in_month octg.Shared.Calendar.is_leap
leap_day_parsed = refl

next_utc_midnight_example :
    (e : Day) × (next_utc_midnight "2028-02-29" ≡ print_day e <> "T00:00:00Z")
    × (is_real e ≡ true)
    × (day_number e ≡ day_number leap_day + 1)
next_utc_midnight_example =
    next_utc_midnight_lem "2028-02-29" leap_day leap_day_parsed (omega arith)
