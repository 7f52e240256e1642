-- ===== src/Shared/Calendar/Laws.antt =====
-- The day after a day of the calendar.
use octg.Common.{
  ℕ, zero, suc, ◌+◌, ◌≤◌, ◌≡◌, refl, Bool, true, false, inl, inr, arith, if◌then◌else◌, ltb,
  Bool-cases, String, Option, none, some, codes, matches, ◌<>◌,
}
use octg.Shared.Calendar.{
  Day, is_leap, days_in_month, is_real, next_day, utc_year, carry_day, next_utc_day, parse_day,
  read_day, day_pattern, print_day, next_utc_midnight, before_month, before_year, day_number,
}

before_year-suc : (y : ℕ) → before_year (y + 1) ≡ before_year y + (if is_leap y then 366 else 365)
unfolding before_year is_leap
before_year-suc y = ground arith

before_month-suc :
    (leap : Bool) (m : ℕ)
    → 1 ≤ m
    → before_month leap (m + 1) ≡ before_month leap m + days_in_month leap m
unfolding before_month
before_month-suc leap zero h = elim h [ ]
before_month-suc leap (suc m) h = ground arith

before_month_last : (leap : Bool) → before_month leap 12 + 31 ≡ (if leap then 366 else 365)
unfolding before_month days_in_month
before_month_last true = refl
before_month_last false = refl

days_in_month_bounds :
    (leap : Bool) (m : ℕ) → (28 ≤ days_in_month leap m) × (days_in_month leap m ≤ 31)
unfolding days_in_month
days_in_month_bounds leap m = ground arith

days_in_month_last : (leap : Bool) → days_in_month leap 12 ≡ 31
unfolding days_in_month
days_in_month_last leap = refl

before_month_first : (leap : Bool) → before_month leap 1 ≡ 0
unfolding before_month
before_month_first leap = refl

real_bounds :
    (d : Day)
    → is_real d ≡ true
    → (1 ≤ d.month)
      × (d.month ≤ 12)
      × (1 ≤ d.day)
      × (d.day ≤ days_in_month (is_leap d.year) d.month)
unfolding is_real
real_bounds d h = ground arith

module _ (d : Day) where
  abbrev leap : Bool
  leap = is_leap d.year

  abbrev span : ℕ
  span = days_in_month leap d.month

  next_day-is_real : is_real d ≡ true → is_real (next_day d) ≡ true
  unfolding is_real next_day
  next_day-is_real h = ground (
    arith,
    days_in_month_bounds leap (d.month + 1),
    days_in_month_bounds (is_leap (d.year + 1)) 1,
  )

  next_day-day_number : is_real d ≡ true → day_number (next_day d) ≡ day_number d + 1
  unfolding is_real next_day day_number
  next_day-day_number h =
      let (m1, m12, d1, dm) = real_bounds d h in
      elim (Bool-cases (ltb d.day span)) [
        | inl inside ↦ rw inside (omega arith)
        | inr over ↦ rw over (elim (Bool-cases (ltb d.month 12)) [
          | inl carry ↦ rw (carry, before_month-suc leap d.month m1) (ground arith)
          | inr last ↦
              rw (last, before_year-suc d.year, before_month_first (is_leap (d.year + 1)))
                (ground (arith, before_month_last leap, days_in_month_last leap))
        ])
      ]

  -- The day after a real day is real, and is the next in the count of days.
  pub next_day_lem :
      is_real d ≡ true
      → (is_real (next_day d) ≡ true) × (day_number (next_day d) ≡ day_number d + 1)
  next_day_lem h = (next_day-is_real h, next_day-day_number h)

  next_utc_day-next_day : is_real d ≡ true → 100 ≤ d.year → next_utc_day d ≡ next_day d
  unfolding next_utc_day utc_year carry_day next_day
  next_utc_day-next_day h late =
      let (m1, m12, d1, dm) = real_bounds d h in ground (arith, m1, m12, d1, dm)

checked-is_real :
    (b : Bool) (o : Option Day) (d : Day)
    → (if b then elim o [ none ↦ none | some e ↦ if is_real e then some e else none ] else none)
      ≡ some d
    → is_real d ≡ true
checked-is_real false o d h = absurd (ground arith)
checked-is_real true none d h = absurd (ground arith)
checked-is_real true (some e) d h = ground arith

parse_day-is_real : (s : String) (d : Day) → parse_day s ≡ some d → is_real d ≡ true
unfolding parse_day read_day matches codes
parse_day-is_real s d h = checked-is_real (matches day_pattern s) (read_day (codes s)) d h

-- The reset time of a day from the year 100 on is the midnight that begins a real day, which is the
-- next one in an independent count of days.
pub next_utc_midnight_lem :
    (s : String) (d : Day)
    → parse_day s ≡ some d
    → 100 ≤ d.year
    → (e : Day) × (next_utc_midnight s ≡ print_day e <> "T00:00:00Z")
      × (is_real e ≡ true)
      × (day_number e ≡ day_number d + 1)
unfolding next_utc_midnight
next_utc_midnight_lem s d h late =
    let real = parse_day-is_real s d h in
    let (real_next, count) = next_day_lem d real in
    (next_day d, ground (arith, next_utc_day-next_day d real late), real_next, count)

-- The day from which times count.
pub epoch_number : day_number (record { year = 1970; month = 1; day = 1 }) ≡ 719528
unfolding day_number before_year before_month days_in_month is_leap
epoch_number = refl
