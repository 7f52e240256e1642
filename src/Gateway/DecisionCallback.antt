-- ===== src/Gateway/DecisionCallback.antt =====
-- apps/gateway-worker/src/relay-callback.ts: the callback that asks for a decision. It reads a hint
-- of the request id from the context without a look at the signature, and dispatches one shard.
-- `atob` is the platform's and is a parameter; a call of the shard that throws is an internal error.
pub mod Laws
mod Tests
use octg.Common.{
  ℕ, zero, suc, ◌-◌, ◌%◌, String, Option, none, some, List, [], ◌∷◌, ◌++◌, length, ltb,
  if◌then◌else◌,
}
use octg.Shared.Idempotency.{invalid, parse_idempotency_key, key_of}
use octg.Relay.Value.{Value, object, get, ◌>>=◌}
use octg.Relay.Errors.{
  RelayErrorCode, invalid_request, invalid_context, internal_error, request_too_large,
}
use octg.Relay.Messages.{relay_request_id_pattern}
use octg.Relay.Claims.{as_matching}
use octg.Relay.Decision.{RelayDecision}
use octg.Relay.Base64.{replace_all}
use octg.Relay.Routing.{relay_decision_shard_name}
use octg.Relay.Credential.{Platform, split_dot, relay_max_context_header_bytes}
use octg.Quota.Store.{Clock, QuotaEnv}
use octg.Quota.Admission
use octg.Gateway.Auth.{EnabledRelayConfig, enabled}
use octg.Gateway.Callback.{Controllers, read_bounded_bytes, relay_max_callback_body_bytes}
use octg.Gateway.Decide.Guards.{
  AllowDecision, DispatchResult, allowed, rejected, protocol_error, internal, thrown,
}
use octg.Gateway.Decide.{World, Database, decide}

-- The first of two parts, where it has text.
unfoldable pub payload_part : List (List ℕ) → Option (List ℕ)
payload_part ((c ∷ cs) ∷ mac ∷ []) = some (c ∷ cs)
payload_part _ = none

equal_signs : ℕ → List ℕ
equal_signs zero = []
equal_signs (suc n) = b'=' ∷ equal_signs n

-- `normalized + "=".repeat((4 - (normalized.length % 4)) % 4)`.
unfoldable pub padded : List ℕ → List ℕ
unfolding equal_signs
padded part =
    let normalized = replace_all b'_' b'/' (replace_all b'-' b'+' part) in
    normalized ++ equal_signs ((4 - length normalized % 4) % 4)

unfoldable pub request_id_in : Value → Option String
request_id_in (object ps) = as_matching relay_request_id_pattern (get "requestId" ps)
request_id_in _ = none

pub record DecisionRequest : Type 0 where
  pub context_header : Option (List ℕ)
  pub key_header : Option String
  pub body : List (List ℕ)

-- The response: an allowed decision with its credential, a rejection, or an error with its status.
pub data DecisionAnswer : Type 0 where
  allow_envelope : AllowDecision → List ℕ → DecisionAnswer
  reject_envelope : RelayDecision → DecisionAnswer
  error_envelope : RelayErrorCode → ℕ → DecisionAnswer

unfoldable pub answer_of : DispatchResult → DecisionAnswer
answer_of (allowed d token) = allow_envelope d token
answer_of (rejected d) = reject_envelope d
answer_of (protocol_error code) = error_envelope code 400
answer_of internal = error_envelope internal_error 500
answer_of thrown = error_envelope internal_error 500

module _ (platform : Platform) (atob : List ℕ → Option (List ℕ)) where
  -- `extractRequestIdHint`.
  unfoldable pub extract_request_id_hint : List ℕ → Option String
  extract_request_id_hint token = do
    part ← payload_part (split_dot token)
    bytes ← atob (padded part)
    text ← platform.decode_utf8 bytes
    payload ← platform.parse_json text
    request_id_in payload

  module _ (digests : Admission.Platform) (clock : Clock) (env : QuotaEnv) (now : ℕ)
      (meanwhile : Controllers → Controllers) (config : EnabledRelayConfig) (db : Database) where
    -- The one call of the shard that the hint names.
    unfoldable pub dispatch_decision :
        String → List ℕ → Option String → List ℕ → World platform → DecisionAnswer × World platform
    dispatch_decision request_id token key body w =
        let result =
          decide platform digests clock env now meanwhile (enabled config)
            (some (relay_decision_shard_name config.environment request_id)) db
            (record { decision_body = body; context_token = token; raw_idempotency_key = key }) w in
        (answer_of result.0, result.1)

    unfoldable pub dispatch_hinted :
        List ℕ → Option String → List ℕ → World platform → DecisionAnswer × World platform
    dispatch_hinted token key body w = elim (extract_request_id_hint token) [
      | none ↦ (error_envelope invalid_context 400, w)
      | some request_id ↦ dispatch_decision request_id token key body w
    ]

    unfoldable pub read_and_dispatch :
        List ℕ → Option String → List (List ℕ) → World platform → DecisionAnswer × World platform
    read_and_dispatch token key body w =
        elim (read_bounded_bytes relay_max_callback_body_bytes body) [
          | none ↦ (error_envelope request_too_large 413, w)
          | some bytes ↦ dispatch_hinted token key bytes w
        ]

    unfoldable pub handle_token :
        List ℕ → DecisionRequest → World platform → DecisionAnswer × World platform
    handle_token token request w =
        if ltb relay_max_context_header_bytes (length token)
        then (error_envelope invalid_context 400, w)
        else elim (parse_idempotency_key request.key_header) [
          | invalid ↦ (error_envelope invalid_request 400, w)
          | other ↦ read_and_dispatch token (key_of other) request.body w
        ]

    -- `handleDecision`.
    unfoldable pub handle_decision :
        DecisionRequest → World platform → DecisionAnswer × World platform
    handle_decision request w = elim request.context_header [
      | none ↦ (error_envelope invalid_context 400, w)
      | some token ↦ handle_token token request w
    ]
