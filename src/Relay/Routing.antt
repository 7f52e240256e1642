-- ===== src/Relay/Routing.antt =====
-- packages/shared/src/relay-routing.ts: the shard of a request id, and the UTC day in it.
pub mod Timestamp
pub mod Laws
mod Tests
use octg.Common.{
  ℕ, zero, suc, ◌+◌, ◌-◌, ◌*◌, ◌/◌, ◌%◌, ◌^◌, String, Option, none, some, List, [], ◌∷◌, ltb, leb,
  ◌==◌, if◌then◌else◌, codes, matches, decimal, ◌<>◌,
}
use Prim.Native.Nat.{bit_and, bit_xor}
use octg.Common.Encoding.{utf16}
use octg.Shared.Number.{max_safe_integer}
use octg.Shared.Calendar.{Day, next_day, print_day, ms_per_day}
use octg.Relay.Messages.{RelayEnvironment, relay_request_id_pattern}
use octg.Relay.Kinds.{environment_text}

-- `Math.imul(hash ^ unit, FNV_PRIME) >>> 0` over the UTF-16 units: the program splits a code point
-- above 0xffff into its two units.
unfoldable hash_units : ℕ → List ℕ → ℕ
hash_units hash [] = hash
hash_units hash (c ∷ cs) = hash_units (bit_xor hash c * 16777619 % 2 ^ 32) cs

unfoldable pub shard_number : String → ℕ
unfolding hash_units codes utf16
shard_number request_id = bit_and (hash_units 2166136261 (utf16 (codes request_id))) 63

-- `String(hash & SHARD_MASK).padStart(2, "0")`: at most two digits.
unfoldable pub relay_shard_index : String → String
unfolding shard_number decimal
relay_shard_index request_id = decimal 2 (shard_number request_id)

unfoldable pub relay_decision_shard_name : RelayEnvironment → String → String
unfolding relay_shard_index environment_text
relay_decision_shard_name environment request_id =
    "relay-decision:v1:" <> environment_text environment <> ":" <> relay_shard_index request_id

unfoldable pub relay_grant_lifecycle_shard_name : RelayEnvironment → String → String
unfolding relay_shard_index environment_text
relay_grant_lifecycle_shard_name environment request_id =
    "relay-grant-lifecycle:v1:"
    <> environment_text environment
    <> ":"
    <> relay_shard_index request_id

-- `CROCKFORD_BASE32.indexOf(character)`, none for -1.
position : ℕ → ℕ → List ℕ → Option ℕ
position i c [] = none
position i c (d ∷ ds) = let rest = position (i + 1) c ds in if c == d then some i else rest

unfoldable pub crockford_index : ℕ → Option ℕ
unfolding position codes
crockford_index c = position 0 c (codes "0123456789ABCDEFGHJKMNPQRSTVWXYZ")

-- The loop over the ten characters of the time.
unfoldable timestamp_loop : ℕ → List ℕ → Option ℕ
timestamp_loop timestamp [] = some timestamp
timestamp_loop timestamp (c ∷ cs) = elim (crockford_index c) [
  | none ↦ none
  | some digit ↦ timestamp_loop (timestamp * 32 + digit) cs
]

take : ℕ → List ℕ → List ℕ
take zero cs = []
take (suc n) [] = []
take (suc n) (c ∷ cs) = c ∷ take n cs

drop : ℕ → List ℕ → List ℕ
drop zero cs = cs
drop (suc n) [] = []
drop (suc n) (c ∷ cs) = drop n cs

-- `requestId.slice(4, 14)`.
unfoldable pub encoded_timestamp : String → List ℕ
unfolding take drop codes
encoded_timestamp request_id = take 10 (drop 4 (codes request_id))

first_digit_fits : List ℕ → Option (List ℕ)
first_digit_fits [] = none
first_digit_fits (c ∷ cs) = elim (crockford_index c) [
  | none ↦ some (c ∷ cs)
  | some digit ↦ if ltb 7 digit then none else some (c ∷ cs)
]

abbrev pub max_ulid_timestamp : ℕ
max_ulid_timestamp = 281474976710655

-- The milliseconds since 1970 that the id carries.
unfoldable pub timestamp_of : String → Option ℕ
unfolding first_digit_fits timestamp_loop
timestamp_of request_id =
    if matches relay_request_id_pattern request_id
    then elim (first_digit_fits (encoded_timestamp request_id)) [
      | none ↦ none
      | some encoded ↦ elim (timestamp_loop 0 encoded) [
        | none ↦ none
        | some t ↦
            if leb t max_safe_integer
            then (if ltb max_ulid_timestamp t then none else some t)
            else none
      ]
    ]
    else none

-- `new Date(timestamp)`: the day after as many days since 1970.
unfoldable pub day_since : Day → ℕ → Day
day_since d zero = d
day_since d (suc n) = day_since (next_day d) n

abbrev pub epoch_day : Day
epoch_day = record { year = 1970; month = 1; day = 1 }

unfoldable pub utc_day_of : ℕ → Day
unfolding day_since
utc_day_of t = day_since epoch_day (t / ms_per_day)

unfoldable pub relay_request_utc_day_of : String → Option String
relay_request_utc_day_of request_id = elim (timestamp_of request_id) [
  | none ↦ none
  | some t ↦ let d = utc_day_of t in if ltb 9999 d.year then none else some (print_day d)
]
