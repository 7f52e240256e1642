-- ===== src/Relay/Decision.antt =====
-- packages/shared/src/relay-parse.ts: the validators of the quota snapshot, of the decision on a
-- request and of the metadata of a response.
pub mod RoundTrip
mod Tests
use octg.Common.{
  ℕ, String, Bool, false, ◌&&◌, Option, none, some, List, [], ◌∷◌, ◌==◌, if◌then◌else◌, codes,
  times, literal, is_digit, Pattern,
}
use octg.Shared.Types.{PoolName}
use octg.Shared.Number.{Number}
use octg.Relay.Value.{
  ◌>>=◌, ◌>>◌, Value, string, get, as_record, as_boolean, has_exact_keys, as_safe_non_negative,
  as_safe_integer, is_number, is_text, guard,
}
use octg.Relay.Errors.{RelayErrorCode, relay_error_code_status}
use octg.Relay.Messages.{relay_uuid_pattern, relay_request_id_pattern}
use octg.Relay.Claims.{as_matching, as_pool_name}
use octg.Relay.Parse.{as_relay_error_code}

pub record RelayQuotaSnapshot : Type 0 where
  pub pool : PoolName
  pub limit : ℕ
  pub used : ℕ
  pub remaining : ℕ
  pub reset_at : String

pub data RelayDecision : Type 0 where
  reject : RelayErrorCode → ℕ → RelayDecision
  allow :
      (grant_id lease_generation : String) (max_output_tokens : ℕ) (cache_enabled : Bool)
      (quota : RelayQuotaSnapshot)
      → RelayDecision

pub record RelayResponseMeta : Type 0 where
  pub request_id : String
  pub pool : PoolName
  pub limit : Number
  pub used : Number
  pub remaining : Number
  pub reset_at : String

-- `RELAY_RESET_AT_PATTERN`: up to the seconds, then digits after a point, if any, then `Z`.
reset_at_time : Pattern
reset_at_time = times 4 is_digit (
    literal (b'-' ∷ []) (
      times 2 is_digit (
        literal (b'-' ∷ []) (
          times 2 is_digit (
            literal (b'T' ∷ []) (
              times 2 is_digit (
                literal (b':' ∷ [])
                  (times 2 is_digit (literal (b':' ∷ []) (times 2 is_digit []))))))))))

-- Digits up to the `Z` that ends the text.
digits_then_z : List ℕ → Bool
digits_then_z [] = false
digits_then_z (c ∷ []) = c == b'Z'
digits_then_z (c ∷ d ∷ cs) = let rest = digits_then_z (d ∷ cs) in is_digit c && rest

reset_at_end : List ℕ → Bool
unfolding digits_then_z
reset_at_end [] = false
reset_at_end (c ∷ []) = c == b'Z'
reset_at_end (c ∷ d ∷ cs) = (c == b'.') && is_digit d && digits_then_z (d ∷ cs)

-- A pattern at the start of a text, and a test on what is left.
starts_with : Pattern → (List ℕ → Bool) → List ℕ → Bool
starts_with [] test cs = test cs
starts_with (p ∷ ps) test (c ∷ cs) = let rest = starts_with ps test cs in p c && rest
starts_with (p ∷ ps) test [] = false

unfoldable pub is_reset_at : String → Bool
unfolding reset_at_time reset_at_end starts_with codes is_digit
is_reset_at s = starts_with reset_at_time reset_at_end (codes s)

unfoldable pub as_reset_at : Value → Option String
as_reset_at (string s) = if is_reset_at s then some s else none
as_reset_at _ = none

abbrev quota_snapshot_keys : List String
quota_snapshot_keys = "pool" ∷ "limit" ∷ "used" ∷ "remaining" ∷ "resetAt" ∷ []

unfoldable pub parse_relay_quota_snapshot : Value → Option RelayQuotaSnapshot
parse_relay_quota_snapshot value = do
  v ← as_record value
  guard (has_exact_keys v quota_snapshot_keys)
  pool ← as_pool_name (get "pool" v)
  limit ← as_safe_non_negative (get "limit" v)
  used ← as_safe_non_negative (get "used" v)
  remaining ← as_safe_non_negative (get "remaining" v)
  reset_at ← as_reset_at (get "resetAt" v)
  some (record {
    pool = pool;
    limit = limit;
    used = used;
    remaining = remaining;
    reset_at = reset_at;
  })

abbrev reject_keys : List String
reject_keys = "version" ∷ "kind" ∷ "code" ∷ "status" ∷ []

abbrev allow_keys : List String
allow_keys =
    "version" ∷ "kind" ∷ "grantId" ∷ "leaseGeneration" ∷ "maxOutputTokens" ∷ "cacheEnabled"
    ∷ "quota" ∷ []

parse_reject : Value → Option RelayDecision
parse_reject value = do
  v ← as_record value
  guard (has_exact_keys v reject_keys)
  code ← as_relay_error_code (get "code" v)
  guard (is_number (relay_error_code_status code) (get "status" v))
  some (reject code (relay_error_code_status code))

parse_allow : Value → Option RelayDecision
parse_allow value = do
  v ← as_record value
  guard (has_exact_keys v allow_keys)
  grant_id ← as_matching relay_uuid_pattern (get "grantId" v)
  generation ← as_matching relay_uuid_pattern (get "leaseGeneration" v)
  max_output ← as_safe_non_negative (get "maxOutputTokens" v)
  cache_enabled ← as_boolean (get "cacheEnabled" v)
  quota ← parse_relay_quota_snapshot (get "quota" v)
  some (allow grant_id generation max_output cache_enabled quota)

unfoldable pub parse_relay_decision : Value → Option RelayDecision
unfolding parse_reject parse_allow
parse_relay_decision value = do
  v ← as_record value
  guard (is_number 1 (get "version" v))
  if is_text "reject" (get "kind" v)
      then parse_reject value
      else if is_text "allow" (get "kind" v)
      then parse_allow value
      else none

abbrev relay_response_meta_keys : List String
relay_response_meta_keys =
    "version" ∷ "requestId" ∷ "pool" ∷ "limit" ∷ "used" ∷ "remaining" ∷ "resetAt" ∷ "route" ∷ []

unfoldable pub parse_relay_response_meta : Value → Option RelayResponseMeta
parse_relay_response_meta value = do
  v ← as_record value
  guard (has_exact_keys v relay_response_meta_keys)
  guard (is_number 1 (get "version" v) && is_text "responses" (get "route" v))
  request_id ← as_matching relay_request_id_pattern (get "requestId" v)
  pool ← as_pool_name (get "pool" v)
  limit ← as_safe_integer (get "limit" v)
  used ← as_safe_integer (get "used" v)
  remaining ← as_safe_integer (get "remaining" v)
  reset_at ← as_reset_at (get "resetAt" v)
  some (record {
    request_id = request_id;
    pool = pool;
    limit = limit;
    used = used;
    remaining = remaining;
    reset_at = reset_at;
  })
