-- ===== src/Relay/Routing/Laws.antt =====
-- What the routing of a request id rests on.
use octg.Common.{
  ℕ, zero, suc, ◌+◌, ◌*◌, ◌/◌, ◌≤◌, ◌<◌, ◌≡◌, ◌↔◌, refl, String, true, some, arith, Option-cases,
  Bool-cases, inl, inr, ltb,
}
use octg.Common.Bits.{bit_and_le}
use octg.Shared.Calendar.{
  Day, next_day, is_real, is_leap, days_in_month, day_number, print_day, ms_per_day,
}
use octg.Shared.Calendar.Laws.{next_day_lem, epoch_number}
use octg.Relay.Routing.Timestamp.{Carries, timestamp_of-Carries, Carries-timestamp_of}
use octg.Relay.Routing.{
  shard_number, timestamp_of, day_since, epoch_day, utc_day_of, relay_request_utc_day_of,
}

-- A request is on one of 64 shards.
pub shard_number_bound : (request_id : String) → shard_number request_id < 64
unfolding shard_number
shard_number_bound request_id = omega (arith, bit_and_le _ 63)

-- Days after a real day are real, and count on from it.
day_since_lem :
    (d : Day) (n : ℕ)
    → is_real d ≡ true
    → (is_real (day_since d n) ≡ true) × (day_number (day_since d n) ≡ day_number d + n)
unfolding day_since
day_since_lem d zero h = (h, omega arith)
day_since_lem d (suc n) h =
    let step = next_day_lem d h in
    let ih = day_since_lem (next_day d) n step.0 in (ih.0, omega (arith, ih.1, step.1))

epoch_is_real : is_real epoch_day ≡ true
unfolding is_real days_in_month is_leap
epoch_is_real = refl

-- The day that a time falls on: it is real, its midnight has come, and the next one has not.
pub record IsDayOf (t : ℕ) (d : Day) : Type 0 where
  pub real : is_real d ≡ true
  pub begun : day_number d * ms_per_day ≤ 719528 * ms_per_day + t
  pub not_over : 719528 * ms_per_day + t < (day_number d + 1) * ms_per_day

utc_day_of-IsDayOf : (t : ℕ) → IsDayOf t (utc_day_of t)
unfolding utc_day_of
utc_day_of-IsDayOf t =
    let h = day_since_lem epoch_day (t / ms_per_day) epoch_is_real in
    record {
      real = h.0;
      begun = omega (arith, h.1, epoch_number);
      not_over = omega (arith, h.1, epoch_number);
    }

-- The time that an id carries, whose day has four digits in the year and is printed as a date.
pub record CarriesDay (request_id text : String) : Type 0 where
  pub time : ℕ
  pub carried : Carries request_id time
  pub day_of_time : IsDayOf time (utc_day_of time)
  pub four_digits : (utc_day_of time).year ≤ 9999
  pub printed : text ≡ print_day (utc_day_of time)

-- A day is read from a request id exactly where it is the day of the time that the id carries, of
-- four digits in the year, printed as a date.
pub relay_request_utc_day_of_iff :
    (request_id text : String)
    → (relay_request_utc_day_of request_id ≡ some text) ↔ CarriesDay request_id text
unfolding relay_request_utc_day_of
relay_request_utc_day_of_iff request_id text = (read, carry)
  where
    read : relay_request_utc_day_of request_id ≡ some text → CarriesDay request_id text
    read h = elim (Option-cases (timestamp_of request_id)) [
      | inl n ↦ absurd (ground arith)
      | inr (t, e) ↦ elim (Bool-cases (ltb 9999 (utc_day_of t).year)) [
        | inl q ↦ absurd (ground arith)
        | inr q ↦ record {
          time = t;
          carried = timestamp_of-Carries request_id t e;
          day_of_time = utc_day_of-IsDayOf t;
          four_digits = ground arith;
          printed = ground arith;
        }
      ]
    ]

    carry : CarriesDay request_id text → relay_request_utc_day_of request_id ≡ some text
    carry c =
        let e = Carries-timestamp_of request_id c.time c.carried in
        ground (arith, e, c.four_digits, c.printed)
