-- ===== src/Quota/Store.antt =====
-- durable-objects/quota-controller/src/store.ts and the record of relay-grant.ts: the storage of one
-- quota controller. The key prefixes of the source are disjoint, so the storage is a record with one
-- field for each fixed key and one dictionary for each prefix. A call that throws is a `failed`
-- result, after which the open transaction leaves the storage as it was.
use octg.Common.{
  ◌≡◌, refl, ◌⊎◌, inl, inr, ℕ, String, Bool, false, Option, none, some, List, [], Dict, lookup,
  insert, if◌then◌else◌, same, ◌<>◌,
}
use octg.Common.Int.{ℤ}
use octg.Shared.Number.{Number, safe_non_negative, safe_positive}
use octg.Shared.Types.{PoolName, standard, mini, PoolState, RequestEntry, InFlightLease}
use octg.Shared.Pool.{pool_limit}
use octg.Relay.Errors.{RelayGrantState}
use octg.Relay.Messages.{RelayEnvironment, RelayRequestMeta, RelayTerminal}

pub record UnresolvedState : Type 0 where
  pub uncertain_count : ℕ
  pub reserved_count : ℕ

-- The old format is the list of request ids alone.
pub data InFlightState : Type 0 where
  legacy : List String → InFlightState
  leased : List InFlightLease → InFlightState

pub record RelayGrantAdmission : Type 0 where
  pub context_issued_at_ms : ℕ
  pub context_expires_at_ms : ℕ
  pub metadata : RelayRequestMeta
  pub reserved_tokens : ℕ
  pub upper_bound_tokens : ℕ
  pub max_output_tokens : ℕ
  pub cache_enabled : Bool

pub record RelayGrant : Type 0 where
  pub request_id : String
  pub grant_id : String
  pub lease_generation : String
  pub environment : RelayEnvironment
  pub client_id : String
  pub idempotency_key_hash : Option String
  pub nonce : String
  pub model : String
  pub pool : PoolName
  pub admission_utc_day : String
  pub state : RelayGrantState
  pub issued_at_ms : ℕ
  pub authorization_expires_at_ms : ℕ
  pub credential_expires_at_ms : ℕ
  pub retention_deadline_ms : Option ℤ
  pub admission : RelayGrantAdmission
  pub terminal_report : Option RelayTerminal
  pub terminal_fingerprint : Option String

pub record Storage : Type 0 where
  pub pool : Option PoolState
  pub entries : Dict RequestEntry
  pub idempotency : Dict String
  pub unresolved : Option UnresolvedState
  pub finalized : Option Bool
  pub in_flight : Option InFlightState
  pub grants : Dict RelayGrant
  pub fences : Dict Bool

-- `new Date()`, `Date.now()` and `crypto.randomUUID()`, as one operation reads them.
pub record Clock : Type 0 where
  pub now_ms : ℕ
  pub now_iso : String
  pub lease_uuid : String
  pub grant_uuid : String

-- A variable of the environment, by what the code reads of its text: whether it is blank, and its
-- value as a number.
pub record Setting : Type 0 where
  pub blank : Bool
  pub value : Number

pub record QuotaEnv : Type 0 where
  pub quota_limit_standard : Option Setting
  pub quota_limit_mini : Option Setting
  pub max_in_flight_requests : Option Setting
  pub relay_environment : Option String
  pub fixture_standard_client_id : Option String
  pub fixture_standard_model : Option String
  pub fixture_mini_client_id : Option String
  pub fixture_mini_model : Option String

pub record QuotaIdentity : Type 0 where
  pub pool : PoolName
  pub utc_day : String

pub data Error : Type 0 where
  type_error : Error

pub data Result {ℓ} (A : Type ℓ) : Type ℓ where
  ok : A → Result A
  failed : Error → Result A

infixl 5 ◌>>=◌
abbrev pub ◌>>=◌ {ℓ κ} : {A : Type ℓ} {B : Type κ} → Result A → (A → Result B) → Result B
ok a >>= f = f a
failed e >>= f = failed e

pub Result-cases {ℓ} :
    {A : Type ℓ} (r : Result A) → ((a : A) × (r ≡ ok a)) ⊎ ((e : Error) × (r ≡ failed e))
Result-cases (ok a) = inl (a, refl)
Result-cases (failed e) = inr (e, refl)

abbrev setting_limit : Option Setting → PoolName → ℕ
setting_limit none pool = pool_limit pool
setting_limit (some s) pool =
    if s.blank
    then pool_limit pool
    else elim (safe_non_negative s.value) [ none ↦ pool_limit pool | some n ↦ n ]

unfoldable pub resolve_limit : QuotaEnv → PoolName → ℕ
resolve_limit env standard = setting_limit env.quota_limit_standard standard
resolve_limit env mini = setting_limit env.quota_limit_mini mini

module _ (clock : Clock) (env : QuotaEnv) (identity : QuotaIdentity) where
  abbrev pub fresh_pool : PoolState
  fresh_pool = record {
    utc_day = identity.utc_day;
    limit = resolve_limit env identity.pool;
    confirmed_tokens = 0;
    reserved_tokens = 0;
    uncertain_tokens = 0;
    request_count = 0;
    updated_at = clock.now_iso;
  }

  abbrev pub load_pool : Storage → PoolState
  load_pool s = elim s.pool [ none ↦ fresh_pool | some p ↦ p ]

abbrev pub save_pool : Clock → PoolState → Storage → Storage
save_pool clock p s = record s { pool = some (record p { updated_at = clock.now_iso }) }

abbrev pub get_entry : String → Storage → Option RequestEntry
get_entry id s = lookup id s.entries

abbrev pub put_entry : Clock → String → RequestEntry → Storage → Storage
put_entry clock id e s = record s {
  entries = insert id (record e { updated_at = clock.now_iso }) s.entries;
}

-- The key `${clientId ?? "legacy"}:${idempotencyKey}`.
unfoldable pub idempotency_slot : String → Option String → String
idempotency_slot key none = "legacy:" <> key
idempotency_slot key (some client) = client <> ":" <> key

abbrev pub get_idempotency_request_id : String → Option String → Storage → Option String
get_idempotency_request_id key client s = lookup (idempotency_slot key client) s.idempotency

abbrev pub put_idempotency_request_id : String → String → Option String → Storage → Storage
put_idempotency_request_id key id client s = record s {
  idempotency = insert (idempotency_slot key client) id s.idempotency;
}

abbrev pub load_unresolved : Storage → UnresolvedState
load_unresolved s = elim s.unresolved [
  | none ↦ record { uncertain_count = 0; reserved_count = 0 }
  | some u ↦ u
]

abbrev pub save_unresolved : UnresolvedState → Storage → Storage
save_unresolved u s = record s { unresolved = some u }

abbrev pub load_in_flight : Storage → InFlightState
load_in_flight s = elim s.in_flight [ none ↦ legacy [] | some f ↦ f ]

abbrev pub save_in_flight : List InFlightLease → Storage → Storage
save_in_flight leases s = record s { in_flight = some (leased leases) }

abbrev pub get_relay_grant : String → Storage → Option RelayGrant
get_relay_grant id s = lookup id s.grants

abbrev pub put_relay_grant : RelayGrant → Storage → Storage
put_relay_grant g s = record s { grants = insert g.request_id g s.grants }

abbrev pub is_set : Option Bool → Bool
is_set none = false
is_set (some b) = b

-- `resolveMaxInFlightRequests` of relay-config.ts, whose default is 2.
unfoldable pub resolve_max_in_flight_requests : Option Setting → ℕ
resolve_max_in_flight_requests none = 2
resolve_max_in_flight_requests (some s) = elim (safe_positive s.value) [ none ↦ 2 | some n ↦ n ]

pub record Fixture : Type 0 where
  pub client_id : String
  pub model : String

-- `clientId && model ? … : undefined`: an empty text is falsy.
fixture_of : Option String → Option String → Option Fixture
fixture_of (some c) (some m) =
    if same c ""
    then none
    else if same m ""
    then none
    else some (record { client_id = c; model = m })
fixture_of _ _ = none

unfoldable pub resolve_cpu_gate_fixture_identity : QuotaEnv → PoolName → Option Fixture
unfolding fixture_of
resolve_cpu_gate_fixture_identity env standard =
    fixture_of env.fixture_standard_client_id env.fixture_standard_model
resolve_cpu_gate_fixture_identity env mini =
    fixture_of env.fixture_mini_client_id env.fixture_mini_model

abbrev pub empty_storage : Storage
empty_storage = record {
  pool = none;
  entries = [];
  idempotency = [];
  unresolved = none;
  finalized = none;
  in_flight = none;
  grants = [];
  fences = [];
}
