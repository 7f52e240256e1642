-- ===== src/Quota/Reserve.antt =====
-- `reserve` and `getState` of durable-objects/quota-controller/src/quota-controller.ts, and the
-- identity that every call asserts first.
pub mod Laws
pub mod Tests
use octg.Common.{
  ℕ, zero, suc, ◌+◌, String, ◌≡◌, refl, Bool, true, false, not, ◌&&◌, ◌||◌, Option, none, some,
  List, [], ◌∷◌, ltb, leb, ◌==◌, if◌then◌else◌, same, lookup, is_some, split_colon,
}
use octg.Common.Int.{ℤ, pos, ◌-ℤ◌, leb_ℤ}
use octg.Shared.Number.{Number, safe_non_negative}
use octg.Shared.Calendar.{parse_day, is_leap, days_in_month, next_utc_midnight}
use octg.Shared.Types.{
  PoolName, standard, mini, RequestState, reserved, released, PoolState, RequestEntry,
  ReserveResult, granted, insufficient_quota, duplicate_idempotency_key, QuotaView, no_results,
}
use octg.Shared.Pool.{remaining_of, tier_of, is_strict}
use octg.Shared.Idempotency.{
  ParsedIdempotencyKey, absent, invalid, valid, parse_idempotency_key, key_of,
}
use octg.Quota.Store.{
  Storage, Clock, QuotaEnv, QuotaIdentity, UnresolvedState, Result, ok, failed, type_error, ◌>>=◌,
  load_pool, save_pool, get_entry, put_entry, get_idempotency_request_id,
  put_idempotency_request_id, load_unresolved, save_unresolved, is_set,
}

-- The name `quota:{POOL}:{UTC_DAY}` of the durable object, or the TypeError of the source.
identity_of_parts : List String → Result QuotaIdentity
identity_of_parts (prefix ∷ pool ∷ day ∷ []) =
    if same prefix "quota" && is_some (parse_day day)
    then (if same pool "STANDARD"
        then ok (record { pool = standard; utc_day = day })
        else if same pool "MINI"
        then ok (record { pool = mini; utc_day = day })
        else failed type_error)
    else failed type_error
identity_of_parts _ = failed type_error

unfoldable pub identity_of : Option String → Result QuotaIdentity
unfolding identity_of_parts
identity_of none = failed type_error
identity_of (some name) = identity_of_parts (split_colon name)

pub record Reservation : Type 0 where
  pub request_id : String
  pub tokens : ℕ
  pub upper_bound : ℕ
  pub key : Option String
  pub client_id : Option String

-- The request that the idempotency key names, if it has one.
abbrev pub mapped_request_id : Option String → Option String → Storage → Option String
mapped_request_id none client s = none
mapped_request_id (some key) client s = get_idempotency_request_id key client s

abbrev pub is_released : RequestState → Bool
is_released released = true
is_released _ = false

-- `mappedEntry?.state === "released"`.
abbrev pub mapped_is_released : Option String → Storage → Bool
mapped_is_released none s = false
mapped_is_released (some id) s = elim (get_entry id s) [
  | none ↦ false
  | some e ↦ is_released e.state
]

abbrev pub id_or : Option String → String → String
id_or none id = id
id_or (some mapped) id = mapped

-- Where an earlier request with the key is released, the key is free again.
unfoldable pub entry_request_id : Reservation → Storage → String
entry_request_id r s =
    let mapped = mapped_request_id r.key r.client_id s in
    if mapped_is_released mapped s then r.request_id else id_or mapped r.request_id

-- A mapped entry that is not released and is another request.
abbrev pub is_duplicate : Option String → RequestState → String → Bool
is_duplicate none st id = false
is_duplicate (some mapped) st id = not (is_released st) && not (same mapped id)

abbrev pub strict_fails : ℤ → ℕ → ℕ → Bool
strict_fails remaining limit upper =
    is_strict (tier_of remaining limit) && not (leb_ℤ (pos upper) remaining)

abbrev pub lacks_quota : ℤ → ℕ → ℕ → ℕ → Bool
lacks_quota remaining limit tokens upper =
    not (leb_ℤ (pos tokens) remaining) || strict_fails remaining limit upper

module _ (clock : Clock) (env : QuotaEnv) (identity : QuotaIdentity) where
  abbrev pub reset_at : String
  reset_at = next_utc_midnight identity.utc_day

  -- The saved result, for a call that repeats a request with the same numbers.
  pub reserve_existing : Reservation → RequestEntry → Storage → Result (ReserveResult × Storage)
  reserve_existing r e s =
      if is_duplicate (mapped_request_id r.key r.client_id s) e.state r.request_id
      then ok (duplicate_idempotency_key (entry_request_id r s) reset_at, s)
      else if e.tokens == r.tokens && e.upper_bound_tokens == r.upper_bound
      then elim e.results.reserve [ none ↦ failed type_error | some saved ↦ ok (saved, s) ]
      else failed type_error

  abbrev pub reserved_pool : PoolState → ℕ → PoolState
  reserved_pool p n = record p {
    reserved_tokens = p.reserved_tokens + n;
    request_count = p.request_count + 1;
  }

  abbrev pub new_entry : Reservation → ReserveResult → RequestEntry
  new_entry r result = record {
    idempotency_key = r.key;
    state = reserved;
    tokens = r.tokens;
    upper_bound_tokens = r.upper_bound;
    reserved_tokens = r.tokens;
    requested_disposition = none;
    uncertainty_origin = none;
    actual_tokens = none;
    results = record no_results { reserve = some result };
    created_at = clock.now_iso;
    updated_at = clock.now_iso;
  }

  abbrev one_more_reserved : UnresolvedState → UnresolvedState
  one_more_reserved u = record u { reserved_count = u.reserved_count + 1 }

  abbrev pub remember_key : Option String → String → Option String → Storage → Storage
  remember_key none id client s = s
  remember_key (some key) id client s = put_idempotency_request_id key id client s

  abbrev pub take : Reservation → ReserveResult → PoolState → Storage → Storage
  take r result p s = remember_key r.key r.request_id r.client_id (
      save_unresolved (one_more_reserved (load_unresolved s)) (
        put_entry clock r.request_id (new_entry r result)
          (save_pool clock (reserved_pool p r.tokens) s)))

  -- The part of the transaction for a request that has no entry.
  pub reserve_new : Reservation → PoolState → Storage → ReserveResult × Storage
  reserve_new r p s =
      let remaining = remaining_of p in
      if is_set s.finalized
      then (insufficient_quota (pos 0) reset_at, s)
      else if lacks_quota remaining p.limit r.tokens r.upper_bound
      then (insufficient_quota remaining reset_at, s)
      else (
        granted (remaining -ℤ pos r.tokens) reset_at,
        take r (granted (remaining -ℤ pos r.tokens) reset_at) p s,
      )

  pub reserve_in_transaction : Reservation → Storage → Result (ReserveResult × Storage)
  reserve_in_transaction r s = elim (get_entry (entry_request_id r s) s) [
    | some e ↦ reserve_existing r e s
    | none ↦ ok (reserve_new r (load_pool clock env identity s) s)
  ]

  -- The checks before the transaction.
  pub reserve :
      String
      → Number
      → Number
      → Option String
      → Option String
      → Storage
      → Result (ReserveResult × Storage)
  reserve id tokens upper key client s = elim (safe_non_negative tokens) [
    | none ↦ failed type_error
    | some t ↦ elim (safe_non_negative upper) [
      | none ↦ failed type_error
      | some u ↦ if ltb u t then failed type_error else elim (parse_idempotency_key key) [
        | invalid ↦ failed type_error
        | other ↦
            reserve_in_transaction
              (record {
                request_id = id;
                tokens = t;
                upper_bound = u;
                key = key_of other;
                client_id = client;
              })
              s
      ]
    ]
  ]

  unfoldable pub get_state : Storage → QuotaView
  get_state s = record {
    state = load_pool clock env identity s;
    pool = identity.pool;
    remaining = remaining_of (load_pool clock env identity s);
  }

identity_test :
    identity_of (some "quota:MINI:2026-11-26") ≡ ok (record { pool = mini; utc_day = "2026-11-26" })
unfolding identity_of same parse_day is_leap days_in_month split_colon
identity_test = refl
