-- ===== src/Relay/Claims.antt =====
-- packages/shared/src/relay-claims.ts: the validators of the signed context and grant claims.
pub mod Sound
pub mod Tests
use octg.Common.{
  ℕ, ◌+◌, ◌-◌, String, Bool, ◌&&◌, Option, none, some, List, [], ◌∷◌, ltb, leb, ◌==◌, if◌then◌else◌,
  same, matches, Pattern,
}
use octg.Shared.Types.{PoolName, standard, mini}
use octg.Relay.Value.{
  ◌>>=◌, ◌>>◌, Value, null, string, get, as_record, has_exact_keys, as_safe_non_negative,
  as_bounded_non_empty, is_text, is_number, guard,
}
use octg.Relay.Messages.{
  RelayEnvironment, preview, production, RelayContext, RelayGrantCredential,
  relay_max_context_lifetime_ms, relay_grant_credential_ttl_ms, relay_request_id_pattern,
  relay_uuid_pattern, relay_nonce_pattern, relay_key_hash_pattern, relay_utc_day_pattern,
}

abbrev relay_context_claim_keys : List String
relay_context_claim_keys =
    "version" ∷ "audience" ∷ "environment" ∷ "route" ∷ "requestId" ∷ "clientId"
    ∷ "idempotencyKeyHash" ∷ "nonce" ∷ "issuedAtMs" ∷ "expiresAtMs" ∷ []

abbrev relay_grant_claim_keys : List String
relay_grant_claim_keys =
    "version" ∷ "audience" ∷ "environment" ∷ "route" ∷ "requestId" ∷ "grantId" ∷ "nonce"
    ∷ "clientId" ∷ "idempotencyKeyHash" ∷ "model" ∷ "pool" ∷ "admissionUtcDay" ∷ "leaseGeneration"
    ∷ "issuedAtMs" ∷ "expiresAtMs" ∷ []

-- `typeof value === "string" && PATTERN.test(value)`.
unfoldable pub as_matching : Pattern → Value → Option String
as_matching p (string s) = if matches p s then some s else none
as_matching p _ = none

-- `isIdempotencyKeyHash`: null, or 64 lowercase hexadecimal digits.
unfoldable pub as_key_hash : Value → Option (Option String)
unfolding as_matching
as_key_hash null = some none
as_key_hash (string s) = if matches relay_key_hash_pattern s then some (some s) else none
as_key_hash _ = none

-- `isRelayEnvironment`.
unfoldable pub as_relay_environment : Value → Option RelayEnvironment
as_relay_environment (string s) =
    if same s "preview" then some preview else if same s "production" then some production else none
as_relay_environment _ = none

unfoldable pub as_pool_name : Value → Option PoolName
as_pool_name (string s) =
    if same s "STANDARD" then some standard else if same s "MINI" then some mini else none
as_pool_name _ = none

-- `0 < expires - issued ≤ bound`, on safe integers that are not negative.
abbrev pub lifetime_ok : ℕ → ℕ → ℕ → Bool
lifetime_ok bound issued expires = ltb issued expires && leb (expires - issued) bound

unfoldable pub parse_relay_context : Value → Option RelayContext
parse_relay_context value = do
  v ← as_record value
  guard (has_exact_keys v relay_context_claim_keys)
  guard (is_number 1 (get "version" v))
  guard (is_text "octg-deno-relay" (get "audience" v) && is_text "responses" (get "route" v))
  environment ← as_relay_environment (get "environment" v)
  request_id ← as_matching relay_request_id_pattern (get "requestId" v)
  client_id ← as_bounded_non_empty 128 (get "clientId" v)
  key_hash ← as_key_hash (get "idempotencyKeyHash" v)
  nonce ← as_matching relay_nonce_pattern (get "nonce" v)
  issued ← as_safe_non_negative (get "issuedAtMs" v)
  expires ← as_safe_non_negative (get "expiresAtMs" v)
  guard (lifetime_ok relay_max_context_lifetime_ms issued expires)
  some (record {
    environment = environment;
    request_id = request_id;
    client_id = client_id;
    idempotency_key_hash = key_hash;
    nonce = nonce;
    issued_at_ms = issued;
    expires_at_ms = expires;
  })

unfoldable pub parse_relay_grant_credential : Value → Option RelayGrantCredential
parse_relay_grant_credential value = do
  v ← as_record value
  guard (has_exact_keys v relay_grant_claim_keys)
  guard (is_number 1 (get "version" v))
  guard (is_text "octg-worker-relay" (get "audience" v) && is_text "responses" (get "route" v))
  environment ← as_relay_environment (get "environment" v)
  request_id ← as_matching relay_request_id_pattern (get "requestId" v)
  grant_id ← as_matching relay_uuid_pattern (get "grantId" v)
  nonce ← as_matching relay_nonce_pattern (get "nonce" v)
  client_id ← as_bounded_non_empty 128 (get "clientId" v)
  key_hash ← as_key_hash (get "idempotencyKeyHash" v)
  model ← as_bounded_non_empty 256 (get "model" v)
  pool ← as_pool_name (get "pool" v)
  day ← as_matching relay_utc_day_pattern (get "admissionUtcDay" v)
  generation ← as_matching relay_uuid_pattern (get "leaseGeneration" v)
  issued ← as_safe_non_negative (get "issuedAtMs" v)
  expires ← as_safe_non_negative (get "expiresAtMs" v)
  guard (expires == issued + relay_grant_credential_ttl_ms)
  some (record {
    environment = environment;
    request_id = request_id;
    grant_id = grant_id;
    nonce = nonce;
    client_id = client_id;
    idempotency_key_hash = key_hash;
    model = model;
    pool = pool;
    admission_utc_day = day;
    lease_generation = generation;
    issued_at_ms = issued;
    expires_at_ms = expires;
  })
