-- ===== src/Relay/Decision/RoundTrip.antt =====
-- A decision that is sent and parsed.
use octg.Common.{ℕ, ◌≡◌, refl, String, Bool, true, some, subst, sym, matches, same, leb}
use octg.Shared.Number.{nat, max_safe_integer}
use octg.Shared.Types.{PoolName, standard, mini}
use octg.Relay.Value.{Value, string, number, boolean, object, end, property, get, has_exact_keys}
use octg.Relay.Errors
use octg.Relay.Errors.{RelayErrorCode, code_text, relay_error_code_status}
use octg.Relay.Messages.{relay_uuid_pattern}
use octg.Relay.Claims.{as_matching, as_pool_name}
use octg.Relay.Parse.{as_relay_error_code}
use octg.Shared.Pool.{pool_text}
use octg.Relay.Decision.{
  RelayDecision, RelayQuotaSnapshot, reject, allow, is_reset_at, as_reset_at,
  parse_relay_quota_snapshot, parse_relay_decision,
}

-- The body of a decision, as the decision controller sends it.
unfoldable pub quota_value : RelayQuotaSnapshot → Value
quota_value q = object (
    property "pool" (string (pool_text q.pool)) (
      property "limit" (number (nat q.limit)) (
        property "used" (number (nat q.used)) (
          property "remaining" (number (nat q.remaining))
            (property "resetAt" (string q.reset_at) end)))))

unfoldable pub decision_value : RelayDecision → Value
decision_value (reject code status) = object (
    property "version" (number (nat 1)) (
      property "kind" (string "reject")
        (property "code" (string (code_text code)) (property "status" (number (nat status)) end))))
decision_value (allow grant_id generation max_output cache_enabled quota) = object (
    property "version" (number (nat 1)) (
      property "kind" (string "allow") (
        property "grantId" (string grant_id) (
          property "leaseGeneration" (string generation) (
            property "maxOutputTokens" (number (nat max_output)) (
              property "cacheEnabled" (boolean cache_enabled)
                (property "quota" (quota_value quota) end)))))))

pub record IsSendableQuota (q : RelayQuotaSnapshot) : Type 0 where
  pub limit_safe : leb q.limit max_safe_integer ≡ true
  pub used_safe : leb q.used max_safe_integer ≡ true
  pub remaining_safe : leb q.remaining max_safe_integer ≡ true
  pub reset_form : is_reset_at q.reset_at ≡ true

-- What a decision that is sent has: the status of its code, or identifiers and numbers in form.
abbrev pub IsSendable : RelayDecision → Type 0
IsSendable (reject code status) = status ≡ relay_error_code_status code
IsSendable (allow grant_id generation max_output cache_enabled quota) =
    (matches relay_uuid_pattern grant_id ≡ true)
    × (matches relay_uuid_pattern generation ≡ true)
    × (leb max_output max_safe_integer ≡ true)
    × IsSendableQuota quota

pool_text-parses : (p : PoolName) → as_pool_name (string (pool_text p)) ≡ some p
unfolding as_pool_name same
pool_text-parses standard = refl
pool_text-parses mini = refl

parse-quota_value :
    (q : RelayQuotaSnapshot)
    → IsSendableQuota q
    → parse_relay_quota_snapshot (quota_value q) ≡ some q
unfolding parse_relay_quota_snapshot quota_value has_exact_keys get same as_reset_at
parse-quota_value q h =
    rw (pool_text-parses q.pool, h.limit_safe, h.used_safe, h.remaining_safe, h.reset_form)

parse-reject_value :
    (c : RelayErrorCode)
    → parse_relay_decision (decision_value (reject c (relay_error_code_status c)))
      ≡ some (reject c (relay_error_code_status c))
unfolding parse_relay_decision decision_value has_exact_keys get same as_relay_error_code
    relay_error_code_status
parse-reject_value Errors.invalid_request = refl
parse-reject_value _ = refl

parse-allow_value :
    (g l : String) (m : ℕ) (c : Bool) (q : RelayQuotaSnapshot)
    → IsSendable (allow g l m c q)
    → parse_relay_decision (decision_value (allow g l m c q)) ≡ some (allow g l m c q)
unfolding parse_relay_decision decision_value has_exact_keys get same as_matching
parse-allow_value g l m c q h = rw (h.0, h.1, h.2, parse-quota_value q h.3) refl

-- A decision that is sent is parsed to itself.
pub parse_relay_decision-decision_value :
    (d : RelayDecision) → IsSendable d → parse_relay_decision (decision_value d) ≡ some d
parse_relay_decision-decision_value (reject code status) h =
    subst (λ n. parse_relay_decision (decision_value (reject code n)) ≡ some (reject code n))
      (sym h) (parse-reject_value code)
parse_relay_decision-decision_value (allow g l m c q) h = parse-allow_value g l m c q h
