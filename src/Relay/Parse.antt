-- ===== src/Relay/Parse.antt =====
-- packages/shared/src/relay-parse.ts: the validators of the relay's body envelopes.
use octg.Common.{
  ℕ, String, Bool, true, false, not, Option, none, some, List, [], ◌∷◌, leb, if◌then◌else◌, same,
  lookup,
}
use octg.Relay.Value.{
  Value, null, string, get, as_record, as_boolean, has_exact_keys, is_null, as_safe_non_negative,
  as_bounded_non_empty, is_number, guard, ◌>>=◌, ◌>>◌,
}
use octg.Relay.Errors.{
  RelayErrorCode, invalid_request, invalid_context, unauthorized_service, environment_mismatch,
  client_disabled, model_requires_paid, model_not_allowed, request_too_large, insufficient_quota,
  worker_concurrency_exceeded, duplicate_idempotency_key, grant_not_found, grant_expired,
  grant_replayed, grant_terminalized, lease_lost, upstream_error, upstream_timeout,
  upstream_invalid_response, internal_error, RelayGrantState, authorized, attempted, settled,
  released, uncertain, reconciled_consumed, reconciled_unused, code_text,
}
use octg.Relay.Messages
use octg.Relay.Messages.{
  RelayTerminalOutcome, RelayRequestMeta, RelayTerminal, relay_max_ingress_body_bytes,
  relay_uuid_pattern, relay_request_id_pattern,
}
use octg.Relay.Claims.{as_matching}

abbrev relay_error_codes : List RelayErrorCode
relay_error_codes =
    invalid_request ∷ invalid_context ∷ unauthorized_service ∷ environment_mismatch
    ∷ client_disabled ∷ model_requires_paid ∷ model_not_allowed ∷ request_too_large
    ∷ insufficient_quota ∷ worker_concurrency_exceeded ∷ duplicate_idempotency_key ∷ grant_not_found
    ∷ grant_expired ∷ grant_replayed ∷ grant_terminalized ∷ lease_lost ∷ upstream_error
    ∷ upstream_timeout ∷ upstream_invalid_response ∷ internal_error ∷ []

abbrev activation_denial_codes : List RelayErrorCode
activation_denial_codes =
    environment_mismatch ∷ grant_not_found ∷ grant_expired ∷ grant_replayed ∷ grant_terminalized
    ∷ lease_lost ∷ []

-- `SET.has(value)`, with the member that the text names.
find_code : List RelayErrorCode → String → Option RelayErrorCode
find_code [] s = none
find_code (c ∷ cs) s = if same (code_text c) s then some c else find_code cs s

unfoldable pub as_relay_error_code : Value → Option RelayErrorCode
unfolding find_code
as_relay_error_code (string s) = find_code relay_error_codes s
as_relay_error_code _ = none

unfoldable pub as_activation_denial_code : Value → Option RelayErrorCode
unfolding find_code
as_activation_denial_code (string s) = find_code activation_denial_codes s
as_activation_denial_code _ = none

grant_states : List (String × RelayGrantState)
grant_states =
    ("authorized", authorized)
    ∷ ("attempted", attempted)
    ∷ ("settled", settled)
    ∷ ("released", released)
    ∷ ("uncertain", uncertain)
    ∷ ("reconciled_consumed", reconciled_consumed)
    ∷ ("reconciled_unused", reconciled_unused)
    ∷ []

unfoldable pub as_relay_grant_state : Value → Option RelayGrantState
unfolding grant_states
as_relay_grant_state (string s) = lookup s grant_states
as_relay_grant_state _ = none

abbrev relay_request_meta_keys : List String
relay_request_meta_keys =
    "model" ∷ "estimatedInputTokens" ∷ "maxOutputTokens" ∷ "inputBytes" ∷ "rawBodyBytes"
    ∷ "isToolUse" ∷ "stream" ∷ []

unfoldable pub parse_relay_request_meta : Value → Option RelayRequestMeta
parse_relay_request_meta value = do
  v ← as_record value
  guard (has_exact_keys v relay_request_meta_keys)
  model ← as_bounded_non_empty 256 (get "model" v)
  estimated ← as_safe_non_negative (get "estimatedInputTokens" v)
  max_output ← as_safe_non_negative (get "maxOutputTokens" v)
  input_bytes ← as_safe_non_negative (get "inputBytes" v)
  guard (leb input_bytes relay_max_ingress_body_bytes)
  raw_bytes ← as_safe_non_negative (get "rawBodyBytes" v)
  guard (leb raw_bytes relay_max_ingress_body_bytes)
  is_tool_use ← as_boolean (get "isToolUse" v)
  stream ← as_boolean (get "stream" v)
  some (record {
    model = model;
    estimated_input_tokens = estimated;
    max_output_tokens = max_output;
    input_bytes = input_bytes;
    raw_body_bytes = raw_bytes;
    is_tool_use = is_tool_use;
    stream = stream;
  })

pub record GrantReference : Type 0 where
  pub grant_id : String
  pub lease_generation : String

abbrev relay_grant_reference_keys : List String
relay_grant_reference_keys = "version" ∷ "grantId" ∷ "leaseGeneration" ∷ []

unfoldable pub parse_grant_reference : List String → Value → Option GrantReference
parse_grant_reference keys value = do
  v ← as_record value
  guard (has_exact_keys v keys)
  guard (is_number 1 (get "version" v))
  grant_id ← as_matching relay_uuid_pattern (get "grantId" v)
  generation ← as_matching relay_uuid_pattern (get "leaseGeneration" v)
  some (record { grant_id = grant_id; lease_generation = generation })

unfoldable pub parse_relay_activation : Value → Option GrantReference
unfolding parse_grant_reference
parse_relay_activation value = parse_grant_reference relay_grant_reference_keys value

unfoldable pub parse_relay_renewal : Value → Option GrantReference
unfolding parse_grant_reference
parse_relay_renewal value = parse_grant_reference relay_grant_reference_keys value

unfoldable pub parse_relay_decision_request : Value → Option RelayRequestMeta
parse_relay_decision_request value = do
  v ← as_record value
  guard (has_exact_keys v ("version" ∷ "metadata" ∷ []))
  guard (is_number 1 (get "version" v))
  parse_relay_request_meta (get "metadata" v)

-- `{ activated, code }`: a code exactly where it was not activated.
activation_code : Bool → Value → Option (Option RelayErrorCode)
activation_code true code = if is_null code then some none else none
activation_code false code = do c ← as_activation_denial_code code; some (some c)

unfoldable pub parse_relay_activation_response : Value → Option (Option RelayErrorCode)
unfolding activation_code
parse_relay_activation_response value = do
  v ← as_record value
  guard (has_exact_keys v ("version" ∷ "activated" ∷ "code" ∷ []))
  guard (is_number 1 (get "version" v))
  activated ← as_boolean (get "activated" v)
  activation_code activated (get "code" v)

renewal_code : Bool → Value → Option (Bool × Option RelayErrorCode)
renewal_code renewed null = some (renewed, none)
renewal_code renewed code = do c ← as_relay_error_code code; some (renewed, some c)

unfoldable pub parse_relay_renewal_response : Value → Option (Bool × Option RelayErrorCode)
unfolding renewal_code
parse_relay_renewal_response value = do
  v ← as_record value
  guard (has_exact_keys v ("version" ∷ "renewed" ∷ "code" ∷ []))
  guard (is_number 1 (get "version" v))
  renewed ← as_boolean (get "renewed" v)
  renewal_code renewed (get "code" v)

abbrev relay_terminal_keys : List String
relay_terminal_keys = "version" ∷ "grantId" ∷ "leaseGeneration" ∷ "outcome" ∷ "totalTokens" ∷ []

as_terminal_outcome : Value → Option RelayTerminalOutcome
as_terminal_outcome (string s) =
    if same s "settle"
    then some Messages.settle
    else if same s "uncertain"
    then some Messages.uncertain
    else if same s "release"
    then some Messages.release
    else none
as_terminal_outcome _ = none

-- Only a settlement carries a number of tokens, and it must.
terminal_tokens : RelayTerminalOutcome → Value → Option (Option ℕ)
terminal_tokens Messages.settle tokens = do n ← as_safe_non_negative tokens; some (some n)
terminal_tokens _ tokens = if is_null tokens then some none else none

unfoldable pub parse_relay_terminal : Value → Option RelayTerminal
unfolding as_terminal_outcome terminal_tokens
parse_relay_terminal value = do
  v ← as_record value
  guard (has_exact_keys v relay_terminal_keys)
  guard (is_number 1 (get "version" v))
  grant_id ← as_matching relay_uuid_pattern (get "grantId" v)
  generation ← as_matching relay_uuid_pattern (get "leaseGeneration" v)
  outcome ← as_terminal_outcome (get "outcome" v)
  tokens ← terminal_tokens outcome (get "totalTokens" v)
  some (record {
    grant_id = grant_id;
    lease_generation = generation;
    outcome = outcome;
    total_tokens = tokens;
  })

pub record TerminalResponse : Type 0 where
  pub accepted : Bool
  pub state : Option RelayGrantState
  pub code : Option RelayErrorCode

-- An accepted report has a state and no code; a refused one has a code, and may have a state.
terminal_response : Bool → Value → Value → Option TerminalResponse
terminal_response accepted state null = do
  guard accepted
  s ← as_relay_grant_state state
  some (record { accepted = true; state = some s; code = none })
terminal_response accepted null code = do
  c ← as_relay_error_code code
  guard (not accepted)
  some (record { accepted = accepted; state = none; code = some c })
terminal_response accepted state code = do
  c ← as_relay_error_code code
  guard (not accepted)
  s ← as_relay_grant_state state
  some (record { accepted = accepted; state = some s; code = some c })

unfoldable pub parse_relay_terminal_response : Value → Option TerminalResponse
unfolding terminal_response
parse_relay_terminal_response value = do
  v ← as_record value
  guard (has_exact_keys v ("version" ∷ "accepted" ∷ "state" ∷ "code" ∷ []))
  guard (is_number 1 (get "version" v))
  accepted ← as_boolean (get "accepted" v)
  terminal_response accepted (get "state" v) (get "code" v)

unfoldable pub parse_relay_internal_error : Value → Option RelayErrorCode
parse_relay_internal_error value = do
  v ← as_record value
  guard (has_exact_keys v ("version" ∷ "error" ∷ []))
  guard (is_number 1 (get "version" v))
  error ← as_record (get "error" v)
  guard (has_exact_keys error ("code" ∷ []))
  as_relay_error_code (get "code" error)
