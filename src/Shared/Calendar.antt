-- ===== src/Shared/Calendar.antt =====
-- The proleptic Gregorian calendar behind JavaScript's `Date`, as packages/shared/src/pool.ts
-- (nextUtcMidnight) and the identity check of quota-controller.ts use it: the UTC day of a text
-- `YYYY-MM-DD`, the day after it, and its distance from 1970.
pub mod Laws
pub mod Tests
use octg.Common.{
  ℕ, zero, suc, ◌+◌, ◌-◌, ◌*◌, ◌/◌, ◌%◌, String, ◌≡◌, refl, Bool, not, ◌&&◌, ◌||◌, Option, none,
  some, List, [], ◌∷◌, ltb, leb, ◌==◌, if◌then◌else◌, codes, matches, Pattern, times, literal,
  is_digit, decimal, ◌<>◌,
}
use octg.Common.Int.{ℤ, pos, sub_ℕ}

pub record Day : Type 0 where
  pub year : ℕ
  pub month : ℕ
  pub day : ℕ

unfoldable pub is_leap : ℕ → Bool
is_leap y = (y % 4 == 0) && (not (y % 100 == 0) || (y % 400 == 0))

unfoldable pub days_in_month : Bool → ℕ → ℕ
days_in_month leap m =
    if m == 2
    then (if leap then 29 else 28)
    else if (m == 4) || (m == 6) || (m == 9) || (m == 11)
    then 30
    else 31

unfoldable pub is_real : Day → Bool
is_real d =
    leb 1 d.month
    && leb d.month 12
    && leb 1 d.day
    && leb d.day (days_in_month (is_leap d.year) d.month)

-- The day after a day of the calendar.
unfoldable pub next_day : Day → Day
next_day d =
    if ltb d.day (days_in_month (is_leap d.year) d.month)
    then record d { day = d.day + 1 }
    else if ltb d.month 12
    then record d { month = d.month + 1; day = 1 }
    else record { year = d.year + 1; month = 1; day = 1 }

-- `Date.UTC` reads a year up to 99 as one of the twentieth century.
unfoldable utc_year : ℕ → ℕ
utc_year y = if leb y 99 then 1900 + y else y

-- A day that is past the month's end by less than a month is carried into the next month or year.
unfoldable carry_day : Day → Day
carry_day d =
    if leb d.day (days_in_month (is_leap d.year) d.month)
    then d
    else if ltb d.month 12
    then record d { month = d.month + 1; day = d.day - days_in_month (is_leap d.year) d.month }
    else record {
      year = d.year + 1;
      month = 1;
      day = d.day - days_in_month (is_leap d.year) d.month;
    }

-- `Date.UTC(y, m, d + 1)`, as a day.
unfoldable pub next_utc_day : Day → Day
unfolding utc_year carry_day
next_utc_day d = carry_day (record { year = utc_year d.year; month = d.month; day = d.day + 1 })

abbrev two_digits : ℕ → ℕ → ℕ
two_digits a b = (a - b'0') * 10 + (b - b'0')

abbrev day_pattern : Pattern
day_pattern =
    times 4 is_digit
      (literal (b'-' ∷ []) (times 2 is_digit (literal (b'-' ∷ []) (times 2 is_digit []))))

read_day : List ℕ → Option Day
read_day (a ∷ b ∷ c ∷ d ∷ _ ∷ e ∷ f ∷ _ ∷ g ∷ h ∷ []) = some (record {
  year = two_digits a b * 100 + two_digits c d;
  month = two_digits e f;
  day = two_digits g h;
})
read_day _ = none

-- A text of the form `YYYY-MM-DD` that names a day of the calendar.
unfoldable pub parse_day : String → Option Day
unfolding read_day is_real codes matches is_digit
parse_day s =
    if matches day_pattern s
    then elim (read_day (codes s)) [ none ↦ none | some d ↦ if is_real d then some d else none ]
    else none

-- The date part of `toISOString()`: a year after 9999 has a sign and six digits.
unfoldable pub print_day : Day → String
unfolding decimal
print_day d =
    (if leb d.year 9999 then decimal 4 d.year else "+" <> decimal 6 d.year)
    <> "-"
    <> decimal 2 d.month
    <> "-"
    <> decimal 2 d.day

-- `nextUtcMidnight(new Date(day + "T00:00:00Z"))`; the identity check has parsed the day.
unfoldable pub next_utc_midnight : String → String
unfolding parse_day next_utc_day print_day
next_utc_midnight s = elim (parse_day s) [
  | none ↦ "Invalid Date"
  | some d ↦ print_day (next_utc_day d) <> "T00:00:00Z"
]

pub before_month : Bool → ℕ → ℕ
before_month leap zero = 0
before_month leap (suc zero) = 0
before_month leap (suc (suc m)) = days_in_month leap (suc m) + before_month leap (suc m)

pub before_year : ℕ → ℕ
before_year y = 365 * y + (y + 3) / 4 + (y + 399) / 400 - (y + 99) / 100

-- Days since 0000-01-01.
unfoldable pub day_number : Day → ℕ
day_number d = before_year d.year + before_month (is_leap d.year) d.month + d.day - 1

abbrev pub ms_per_day : ℕ
ms_per_day = 86400000

-- `Date.parse` of the midnight that begins the day: milliseconds since 1970, which is day 719528.
unfoldable pub day_start_ms : Day → ℤ
unfolding day_number
day_start_ms d = sub_ℕ (day_number d * ms_per_day) (719528 * ms_per_day)

midnight_test : next_utc_midnight "2028-02-28" ≡ "2028-02-29T00:00:00Z"
unfolding next_utc_midnight is_leap days_in_month
midnight_test = refl

year_end_test : next_utc_midnight "2026-12-31" ≡ "2027-01-01T00:00:00Z"
unfolding next_utc_midnight is_leap days_in_month
year_end_test = refl

-- A year up to 99 loses its century, and a day that the other year lacks is carried.
early_year_test : next_utc_midnight "0050-06-15" ≡ "1950-06-16T00:00:00Z"
unfolding next_utc_midnight is_leap days_in_month
early_year_test = refl

early_leap_test : next_utc_midnight "0000-02-29" ≡ "1900-03-02T00:00:00Z"
unfolding next_utc_midnight is_leap days_in_month
early_leap_test = refl

unreal_test : parse_day "2026-02-29" ≡ none
unfolding parse_day is_leap days_in_month
unreal_test = refl

epoch_test : day_start_ms (record { year = 2026; month = 11; day = 26 }) ≡ pos 1795651200000
unfolding day_start_ms before_year before_month days_in_month is_leap
epoch_test = refl
