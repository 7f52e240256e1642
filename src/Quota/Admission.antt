-- ===== src/Quota/Admission.antt =====
-- durable-objects/quota-controller/src/relay-admission.ts: the admission of a relay request. The
-- digest and the text encoding of the platform are parameters.
pub mod Laws
pub mod Sound
pub mod Replay
pub mod Tests
use octg.Common.{
  ℕ, zero, suc, ◌+◌, ◌/◌, ◌%◌, String, Bool, true, false, not, ◌&&◌, ◌||◌, Option, none, some, List,
  [], ◌∷◌, ◌++◌, ltb, leb, ◌==◌, if◌then◌else◌, same, lookup, length, map, ◌<>◌,
}
use octg.Common.Int.{ℤ, pos, ◌-ℤ◌, leb_ℤ}
use octg.Shared.Number.{Number, safe_non_negative}
use octg.Shared.Calendar.{next_utc_midnight}
use octg.Shared.Types.{
  PoolName, RequestState, reserved, released, PoolState, RequestEntry, ReserveResult, granted,
  InFlightLease, no_results,
}
use octg.Shared.Pool.{remaining_of, used_of, tier_of, is_strict}
use octg.Shared.Idempotency.{
  ParsedIdempotencyKey, absent, invalid, valid, parse_idempotency_key, key_of,
}
use octg.Relay.Value.{Value}
use octg.Relay.Errors.{
  RelayErrorCode, invalid_request, invalid_context, environment_mismatch, internal_error,
  grant_terminalized, grant_replayed, RelayGrantState, authorized, attempted, settled, uncertain,
  reconciled_consumed, reconciled_unused,
}
use octg.Relay.Errors
use octg.Relay.Messages.{
  RelayEnvironment, preview, production, RelayContext, RelayRequestMeta,
  relay_grant_credential_ttl_ms,
}
use octg.Relay.Claims.{parse_relay_context}
use octg.Relay.Parse.{parse_relay_request_meta}
use octg.Quota.Store.{
  Storage, Clock, QuotaEnv, QuotaIdentity, UnresolvedState, RelayGrant, RelayGrantAdmission, Result,
  ok, failed, ◌>>=◌, load_pool, save_pool, get_entry, put_entry, get_idempotency_request_id,
  load_unresolved, save_unresolved, load_in_flight, save_in_flight, get_relay_grant,
  put_relay_grant, is_set, resolve_max_in_flight_requests,
}
use octg.Quota.Leases.{
  Normalized, normalize_in_flight_state, without_expired_leases, save_if_changed,
}
use octg.Quota.Reserve.{is_released, remember_key, reserved_pool, lacks_quota}
use octg.Quota.Grant.{
  AdmissionBudget, environment_eq, matches_relay_admission, is_terminal_grant_state,
  relay_lease_expiry, relay_grant_authorization_ttl_ms, relay_grant_retention_deadline_ms,
}

-- `TextEncoder.encode` and the SHA-256 digest, as bytes, of the platform.
pub record Platform : Type 0 where
  pub utf8 : String → List ℕ
  pub sha256 : List ℕ → List ℕ

pub record RelayAdmissionInput : Type 0 where
  pub context : Value
  pub metadata : Value
  pub raw_idempotency_key : Option String
  pub reserved_tokens : Number
  pub upper_bound_tokens : Number
  pub max_output_tokens : Number
  pub cache_enabled : Bool

pub record QuotaSnapshot : Type 0 where
  pub pool : PoolName
  pub limit : ℕ
  pub used : ℕ
  pub remaining : ℤ
  pub reset_at : String

pub data AdmissionResult : Type 0 where
  admitted : RelayGrant → QuotaSnapshot → AdmissionResult
  denied : RelayErrorCode → AdmissionResult

unfoldable pub resolve_relay_environment : Option String → Option RelayEnvironment
resolve_relay_environment none = none
resolve_relay_environment (some s) =
    if same s "preview" then some preview else if same s "production" then some production else none

abbrev pub build_quota_snapshot : QuotaIdentity → PoolState → QuotaSnapshot
build_quota_snapshot identity p = record {
  pool = identity.pool;
  limit = p.limit;
  used = used_of p;
  remaining = remaining_of p;
  reset_at = next_utc_midnight identity.utc_day;
}

-- `byte.toString(16).padStart(2, "0")` of each byte.
unfoldable pub hex_digit : ℕ → String
hex_digit n = elim n [
  | zero ↦ "0"
  | suc zero ↦ "1"
  | suc (suc zero) ↦ "2"
  | suc (suc (suc zero)) ↦ "3"
  | suc (suc (suc (suc zero))) ↦ "4"
  | suc (suc (suc (suc (suc zero)))) ↦ "5"
  | suc (suc (suc (suc (suc (suc zero))))) ↦ "6"
  | suc (suc (suc (suc (suc (suc (suc zero)))))) ↦ "7"
  | suc (suc (suc (suc (suc (suc (suc (suc zero))))))) ↦ "8"
  | suc (suc (suc (suc (suc (suc (suc (suc (suc zero)))))))) ↦ "9"
  | suc (suc (suc (suc (suc (suc (suc (suc (suc (suc zero))))))))) ↦ "a"
  | suc (suc (suc (suc (suc (suc (suc (suc (suc (suc (suc zero)))))))))) ↦ "b"
  | suc (suc (suc (suc (suc (suc (suc (suc (suc (suc (suc (suc zero))))))))))) ↦ "c"
  | suc (suc (suc (suc (suc (suc (suc (suc (suc (suc (suc (suc (suc zero)))))))))))) ↦ "d"
  | suc (suc (suc (suc (suc (suc (suc (suc (suc (suc (suc (suc (suc (suc zero))))))))))))) ↦ "e"
  | _ ↦ "f"
]

unfoldable pub hex : List ℕ → String
hex [] = ""
hex (b ∷ bs) = hex_digit (b / 16) <> hex_digit (b % 16) <> hex bs

module _ (platform : Platform) where
  -- SHA-256(clientId || NUL || rawKey) in hexadecimal.
  unfoldable pub idempotency_key_hash_of : String → String → String
  idempotency_key_hash_of client key =
      hex (platform.sha256 (platform.utf8 client ++ 0 ∷ platform.utf8 key))

  -- Presence must agree, and a key must hash to the signed value. The comparison in constant time
  -- gives the equality of the texts.
  unfoldable pub is_key_binding_consistent : RelayContext → Option String → Bool
  is_key_binding_consistent c key = elim c.idempotency_key_hash [
    | none ↦ elim key [ none ↦ true | some k ↦ false ]
    | some hash ↦ elim key [
      | none ↦ false
      | some k ↦ same (idempotency_key_hash_of c.client_id k) hash
    ]
  ]

-- What the guards before the storage is read leave.
pub record Admissible : Type 0 where
  pub context : RelayContext
  pub metadata : RelayRequestMeta
  pub budget : AdmissionBudget
  pub key : Option String

pub data Checked : Type 0 where
  pass : Admissible → Checked
  stop : RelayErrorCode → Checked

check_budget : RelayAdmissionInput → Option AdmissionBudget
check_budget input = elim (safe_non_negative input.reserved_tokens) [
  | none ↦ none
  | some r ↦ elim (safe_non_negative input.upper_bound_tokens) [
    | none ↦ none
    | some u ↦ if ltb u r then none else elim (safe_non_negative input.max_output_tokens) [
      | none ↦ none
      | some o ↦ some (record {
        reserved_tokens = r;
        upper_bound_tokens = u;
        max_output_tokens = o;
        cache_enabled = input.cache_enabled;
      })
    ]
  ]
]

check_environment :
    Platform
    → QuotaEnv
    → RelayContext
    → RelayRequestMeta
    → AdmissionBudget
    → Option String
    → Checked
check_environment platform env c m budget key =
    elim (resolve_relay_environment env.relay_environment) [
      | none ↦ stop internal_error
      | some e ↦
          if environment_eq c.environment e
          then (if is_key_binding_consistent platform c key
              then pass (record { context = c; metadata = m; budget = budget; key = key })
              else stop invalid_request)
          else stop environment_mismatch
    ]

check_key :
    Platform
    → QuotaEnv
    → RelayAdmissionInput
    → RelayContext
    → RelayRequestMeta
    → AdmissionBudget
    → Checked
check_key platform env input c m budget = elim (parse_idempotency_key input.raw_idempotency_key) [
  | invalid ↦ stop invalid_request
  | other ↦ check_environment platform env c m budget (key_of other)
]

-- The fence is looked up between the parsers and the other guards.
pub check_admission : Platform → QuotaEnv → RelayAdmissionInput → Storage → Checked
check_admission platform env input s = elim (parse_relay_context input.context) [
  | none ↦ stop invalid_request
  | some c ↦ elim (parse_relay_request_meta input.metadata) [
    | none ↦ stop invalid_request
    | some m ↦
        if is_set (lookup c.request_id s.fences)
        then stop invalid_context
        else elim (check_budget input) [
          | none ↦ stop internal_error
          | some budget ↦ check_key platform env input c m budget
        ]
  ]
]

-- The key names another request whose entry is missing or is not released.
abbrev pub key_is_taken : Admissible → Storage → Bool
key_is_taken a s = elim a.key [
  | none ↦ false
  | some key ↦ elim (get_idempotency_request_id key (some a.context.client_id) s) [
    | none ↦ false
    | some mapped ↦
        if same mapped a.context.request_id
        then false
        else elim (get_entry mapped s) [ none ↦ true | some e ↦ not (is_released e.state) ]
  ]
]

module _ (clock : Clock) (env : QuotaEnv) (identity : QuotaIdentity) (now : ℕ) where
  abbrev replayed_state : RelayGrantState → RelayGrant → PoolState → AdmissionResult
  replayed_state authorized g p = admitted g (build_quota_snapshot identity p)
  replayed_state attempted g p = denied grant_replayed
  replayed_state uncertain g p = denied grant_replayed
  replayed_state settled g p = denied grant_terminalized
  replayed_state Errors.released g p = denied grant_terminalized
  replayed_state reconciled_consumed g p = denied grant_terminalized
  replayed_state reconciled_unused g p = denied grant_terminalized

  -- The request has an entry: only an exact repetition of a live admission is answered with it.
  pub admit_existing : Admissible → Storage → AdmissionResult
  admit_existing a s = elim (get_relay_grant a.context.request_id s) [
    | none ↦ denied invalid_request
    | some g ↦
        if matches_relay_admission g a.context a.metadata a.budget
        then replayed_state g.state g (load_pool clock env identity s)
        else denied invalid_request
  ]

  abbrev pub admission_result : Admissible → PoolState → ReserveResult
  admission_result a p =
      granted (remaining_of p -ℤ pos a.budget.reserved_tokens) (next_utc_midnight identity.utc_day)

  -- `createdAt` is the text of the time of the call, as the clock gives it.
  abbrev pub admitted_entry : Admissible → PoolState → RequestEntry
  admitted_entry a p = record {
    idempotency_key = a.key;
    state = reserved;
    tokens = a.budget.reserved_tokens;
    upper_bound_tokens = a.budget.upper_bound_tokens;
    reserved_tokens = a.budget.reserved_tokens;
    requested_disposition = none;
    uncertainty_origin = none;
    actual_tokens = none;
    results = record no_results { reserve = some (admission_result a p) };
    created_at = clock.now_iso;
    updated_at = clock.now_iso;
  }

  abbrev pub admitted_grant : Admissible → RelayGrant
  admitted_grant a = record {
    request_id = a.context.request_id;
    grant_id = clock.grant_uuid;
    lease_generation = clock.lease_uuid;
    environment = a.context.environment;
    client_id = a.context.client_id;
    idempotency_key_hash = a.context.idempotency_key_hash;
    nonce = a.context.nonce;
    model = a.metadata.model;
    pool = identity.pool;
    admission_utc_day = identity.utc_day;
    state = authorized;
    issued_at_ms = now;
    authorization_expires_at_ms = now + relay_grant_authorization_ttl_ms;
    credential_expires_at_ms = now + relay_grant_credential_ttl_ms;
    retention_deadline_ms = relay_grant_retention_deadline_ms identity.utc_day;
    admission = record {
      context_issued_at_ms = a.context.issued_at_ms;
      context_expires_at_ms = a.context.expires_at_ms;
      metadata = a.metadata;
      reserved_tokens = a.budget.reserved_tokens;
      upper_bound_tokens = a.budget.upper_bound_tokens;
      max_output_tokens = a.budget.max_output_tokens;
      cache_enabled = a.budget.cache_enabled;
    };
    terminal_report = none;
    terminal_fingerprint = none;
  }

  abbrev one_more_reserved : UnresolvedState → UnresolvedState
  one_more_reserved u = record u { reserved_count = u.reserved_count + 1 }

  abbrev pub relay_lease : Admissible → ℕ → InFlightLease
  relay_lease a expires = record {
    request_id = a.context.request_id;
    generation = clock.lease_uuid;
    expires_at_ms = expires;
  }

  -- The six writes of an admission, over the pool that was loaded and the active leases.
  abbrev pub admit_writes : Admissible → PoolState → List InFlightLease → ℕ → Storage → Storage
  admit_writes a p active expires s = put_relay_grant (admitted_grant a) (
      save_in_flight (active ++ relay_lease a expires ∷ []) (
        remember_key clock env identity a.key a.context.request_id (some a.context.client_id) (
          save_unresolved (one_more_reserved (load_unresolved s)) (
            put_entry clock a.context.request_id (admitted_entry a p)
              (save_pool clock (reserved_pool clock env identity p a.budget.reserved_tokens) s)))))

  pub admit_leased :
      Admissible → PoolState → List InFlightLease → Storage → Result (AdmissionResult × Storage)
  admit_leased a p active s =
      if leb (resolve_max_in_flight_requests env.max_in_flight_requests) (length active)
      then ok (denied Errors.worker_concurrency_exceeded, s)
      else (relay_lease_expiry now >>= λ expires. ok (
        admitted (admitted_grant a) (
            build_quota_snapshot identity
              (reserved_pool clock env identity p a.budget.reserved_tokens)),
        admit_writes a p active expires s,
      ))

  pub admit_new : Admissible → PoolState → Storage → Result (AdmissionResult × Storage)
  unfolding admit_leased
  admit_new a p s =
      if is_set s.finalized
      then ok (denied Errors.insufficient_quota, s)
      else if lacks_quota (remaining_of p) p.limit a.budget.reserved_tokens
          a.budget.upper_bound_tokens
      then ok (denied Errors.insufficient_quota, s)
      else (normalize_in_flight_state (load_in_flight s) now >>= λ n.
          admit_leased a p (without_expired_leases now n.leases)
            (save_if_changed n (without_expired_leases now n.leases) s))

  pub admit_checked : Admissible → Storage → Result (AdmissionResult × Storage)
  admit_checked a s =
      if key_is_taken a s
      then ok (denied Errors.duplicate_idempotency_key, s)
      else elim (get_entry a.context.request_id s) [
        | some e ↦ ok (admit_existing a s, s)
        | none ↦ admit_new a (load_pool clock env identity s) s
      ]

  pub admit_relay_in_transaction :
      Platform → RelayAdmissionInput → Storage → Result (AdmissionResult × Storage)
  admit_relay_in_transaction platform input s = elim (check_admission platform env input s) [
    | stop code ↦ ok (denied code, s)
    | pass a ↦ admit_checked a s
  ]
