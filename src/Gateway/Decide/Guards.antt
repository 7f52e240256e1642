-- ===== src/Gateway/Decide/Guards.antt =====
-- apps/gateway-worker/src/relay-decision-controller.ts: the answers of the decision, and its guards
-- before the registry is read.
pub mod Passed
use octg.Common.{
  ℕ, String, Bool, ◌&&◌, Option, none, some, List, [], ◌∷◌, if◌then◌else◌, same, split_colon,
}
use octg.Shared.Number.{nat}
use octg.Shared.Idempotency.{invalid, parse_idempotency_key, key_of}
use octg.Relay.Value.{Value, number, string, boolean, object, property, end}
use octg.Relay.Errors.{
  RelayErrorCode, invalid_request, invalid_context, environment_mismatch, relay_error_code_status,
}
use octg.Relay.Messages.{RelayEnvironment, RelayContext, RelayRequestMeta}
use octg.Relay.Parse.{parse_relay_decision_request}
use octg.Relay.Decision.{RelayDecision, reject}
use octg.Relay.Kinds.{environment_text}
use octg.Relay.Body.{parse_relay_json_body}
use octg.Relay.Routing.{relay_shard_index}
use octg.Relay.Credential.{Platform}
use octg.Quota.Admission.{QuotaSnapshot, is_key_binding_consistent}
use octg.Quota.Admission
use octg.Gateway.Callback.{relay_max_callback_body_bytes}

pub record DecisionInput : Type 0 where
  pub decision_body : List ℕ
  pub context_token : List ℕ
  pub raw_idempotency_key : Option String

-- The decision that allows a request; its quota can be negative after a settlement.
pub record AllowDecision : Type 0 where
  pub grant_id : String
  pub lease_generation : String
  pub max_output_tokens : ℕ
  pub cache_enabled : Bool
  pub quota : QuotaSnapshot

-- `allowed` carries the grant credential; `thrown` is a call of the quota controller that throws.
pub data DispatchResult : Type 0 where
  allowed : AllowDecision → List ℕ → DispatchResult
  rejected : RelayDecision → DispatchResult
  protocol_error : RelayErrorCode → DispatchResult
  internal thrown : DispatchResult

unfoldable pub reject_decision : RelayErrorCode → DispatchResult
reject_decision code = rejected (reject code (relay_error_code_status code))

pub data ShardIdentityCheck : Type 0 where
  right_shard wrong_environment shard_mismatch invalid_name : ShardIdentityCheck

shard_of_parts : RelayEnvironment → String → List String → ShardIdentityCheck
shard_of_parts environment request_id (prefix ∷ version ∷ part ∷ shard ∷ []) =
    if same prefix "relay-decision" && same version "v1"
    then (if same part (environment_text environment)
        then (if same shard (relay_shard_index request_id) then right_shard else shard_mismatch)
        else wrong_environment)
    else invalid_name
shard_of_parts environment request_id _ = invalid_name

-- `checkShardIdentity`.
unfoldable pub check_shard_identity : Option String → RelayEnvironment → String → ShardIdentityCheck
unfolding shard_of_parts split_colon
check_shard_identity none environment request_id = invalid_name
check_shard_identity (some own_name) environment request_id =
    shard_of_parts environment request_id (split_colon own_name)

-- The parsed metadata as an object, as it is handed to the quota controller.
unfoldable pub metadata_value : RelayRequestMeta → Value
metadata_value m = object (
    property "model" (string m.model) (
      property "estimatedInputTokens" (number (nat m.estimated_input_tokens)) (
        property "maxOutputTokens" (number (nat m.max_output_tokens)) (
          property "inputBytes" (number (nat m.input_bytes)) (
            property "rawBodyBytes" (number (nat m.raw_body_bytes)) (
              property "isToolUse" (boolean m.is_tool_use)
                (property "stream" (boolean m.stream) end)))))))

-- What the guards before the registry is read leave, or their answer: a protocol error, or an internal
-- one.
pub record Request : Type 0 where
  pub context : RelayContext
  pub key : Option String
  pub metadata : RelayRequestMeta

pub data Guarded : Type 0 where
  stop : Option RelayErrorCode → Guarded
  pass : Request → Guarded

unfoldable pub guard_answer : Option RelayErrorCode → DispatchResult
guard_answer none = internal
guard_answer (some code) = protocol_error code

unfoldable pub shard_answer : ShardIdentityCheck → Option (Option RelayErrorCode)
shard_answer right_shard = none
shard_answer wrong_environment = some (some environment_mismatch)
shard_answer shard_mismatch = some (some invalid_request)
shard_answer invalid_name = some none

module _ (platform : Platform) (digests : Admission.Platform) where
  check_body : RelayContext → Option String → List ℕ → Guarded
  check_body context key body =
      elim (parse_relay_json_body platform body relay_max_callback_body_bytes) [
        | none ↦ stop (some invalid_request)
        | some value ↦ elim (parse_relay_decision_request value) [
          | none ↦ stop (some invalid_request)
          | some metadata ↦ pass (record { context = context; key = key; metadata = metadata })
        ]
      ]

  check_key : RelayContext → DecisionInput → Guarded
  check_key context input = elim (parse_idempotency_key input.raw_idempotency_key) [
    | invalid ↦ stop (some invalid_request)
    | other ↦
        if is_key_binding_consistent digests context (key_of other)
        then check_body context (key_of other) input.decision_body
        else stop (some invalid_request)
  ]

  -- The guards in their order, from the verified context.
  unfoldable pub guard_request :
      Option String → RelayEnvironment → Option RelayContext → DecisionInput → Guarded
  unfolding check_key check_body
  guard_request own_name environment none input = stop (some invalid_context)
  guard_request own_name environment (some context) input =
      elim (shard_answer (check_shard_identity own_name environment context.request_id)) [
        | some answer ↦ stop answer
        | none ↦ check_key context input
      ]
