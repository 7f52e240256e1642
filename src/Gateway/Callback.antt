-- ===== src/Gateway/Callback.antt =====
-- apps/gateway-worker/src/relay-callback.ts: the callbacks on a grant. The quota controllers are a
-- dictionary of storages by name; a name that is missing is an empty storage.
pub mod Laws
pub mod Activated
mod Tests
use octg.Common.{
  ℕ, ◌+◌, String, Bool, ◌&&◌, Option, none, some, List, [], ◌∷◌, ◌++◌, length, ltb, Dict, lookup,
  insert, if◌then◌else◌, same,
}
use octg.Shared.Pool.{quota_id_of}
use octg.Relay.Value.{Value}
use octg.Relay.Errors.{
  RelayErrorCode, RelayGrantState, invalid_request, invalid_context, request_too_large,
  internal_error,
}
use octg.Relay.Messages.{RelayGrantCredential, RelayTerminal}
use octg.Relay.Parse.{
  GrantReference, parse_relay_activation, parse_relay_renewal, parse_relay_terminal,
}
use octg.Relay.Body.{parse_relay_json_body, terminal_value, relay_terminal_fingerprint}
use octg.Relay.Credential.{Platform, Cache}
use octg.Quota.Store.{Storage, Clock, QuotaEnv, QuotaIdentity, Result, ok, failed, empty_storage}
use octg.Quota.Reserve.{identity_of}
use octg.Quota.GrantLifecycle.{
  ActivateResult, activated, RenewRelayResult, renewed, FinishResult, accepted,
  activate_relay_in_transaction, renew_relay_in_transaction, finish_relay_in_transaction,
}
use octg.Gateway.Claims.{binding_of}
use octg.Gateway.Auth.{EnabledRelayConfig, verify_relay_grant_header}

abbrev pub relay_max_callback_body_bytes : ℕ
relay_max_callback_body_bytes = 8192

-- `readBoundedBytes` from its state: the bytes read so far; none where the body is too large.
unfoldable pub read_chunks : ℕ → List ℕ → List (List ℕ) → Option (List ℕ)
read_chunks max_bytes bytes [] = some bytes
read_chunks max_bytes bytes (chunk ∷ chunks) =
    let rest = read_chunks max_bytes (bytes ++ chunk) chunks in
    if ltb max_bytes (length bytes + length chunk) then none else rest

unfoldable pub read_bounded_bytes : ℕ → List (List ℕ) → Option (List ℕ)
unfolding read_chunks
read_bounded_bytes max_bytes chunks = read_chunks max_bytes [] chunks

-- A relay callback on a grant, as far as the handler reads it.
pub data GrantAction : Type 0 where
  activation renewal terminal : GrantAction

pub record GrantRequest : Type 0 where
  pub action : GrantAction
  pub grant_header : Option (List ℕ)
  pub body : List (List ℕ)

-- The response: an error with its status, or the envelope of the action with its code.
pub data Answer : Type 0 where
  error_envelope : RelayErrorCode → ℕ → Answer
  activation_envelope renewal_envelope : Option RelayErrorCode → Answer
  terminal_envelope : Option RelayGrantState → Option RelayErrorCode → Answer

-- The storages of the quota controllers.
abbrev pub Controllers : Type 0
Controllers = Dict Storage

unfoldable pub controller : String → Controllers → Storage
controller name cs = elim (lookup name cs) [ none ↦ empty_storage | some s ↦ s ]

-- The call of the controller of one name, which takes its pool and day from the name; a call that
-- throws is answered with an internal error.
unfoldable pub dispatch :
    {A : Type 0}
    → (QuotaIdentity → Storage → Result (A × Storage))
    → (A → Answer)
    → String
    → Controllers
    → Answer × Controllers
dispatch call answer name cs = elim (identity_of (some name)) [
  | failed x ↦ (error_envelope internal_error 500, cs)
  | ok identity ↦ elim (call identity (controller name cs)) [
    | failed x ↦ (error_envelope internal_error 500, cs)
    | ok r ↦ (answer r.0, insert name r.1 cs)
  ]
]

abbrev pub activation_answer : ActivateResult → Answer
activation_answer (activated g) = activation_envelope none
activation_answer (ActivateResult.denied code) = activation_envelope (some code)

abbrev pub renewal_answer : RenewRelayResult → Answer
renewal_answer (renewed g expires) = renewal_envelope none
renewal_answer (RenewRelayResult.denied code) = renewal_envelope (some code)

abbrev pub terminal_answer : FinishResult → Answer
terminal_answer (accepted g entry) = terminal_envelope (some g.state) none
terminal_answer (FinishResult.denied code state) = terminal_envelope state (some code)

-- The body names the grant and the generation of the credential.
abbrev pub names_grant : GrantReference → RelayGrantCredential → Bool
names_grant r c = same r.grant_id c.grant_id && same r.lease_generation c.lease_generation

module _ (clock : Clock) (env : QuotaEnv) (now : ℕ) where
  unfoldable pub activate_with :
      Option GrantReference → RelayGrantCredential → Controllers → Answer × Controllers
  activate_with none claims cs = (error_envelope invalid_request 400, cs)
  activate_with (some reference) claims cs =
      if names_grant reference claims
      then dispatch
          (λ identity. activate_relay_in_transaction clock env identity now (binding_of claims))
          activation_answer (quota_id_of claims.pool claims.admission_utc_day) cs
      else (error_envelope invalid_request 400, cs)

  unfoldable pub renew_with :
      Option GrantReference → RelayGrantCredential → Controllers → Answer × Controllers
  renew_with none claims cs = (error_envelope invalid_request 400, cs)
  renew_with (some reference) claims cs =
      if names_grant reference claims
      then dispatch
          (λ identity. renew_relay_in_transaction clock env identity now (binding_of claims))
          renewal_answer (quota_id_of claims.pool claims.admission_utc_day) cs
      else (error_envelope invalid_request 400, cs)

  unfoldable pub finish_with :
      Option RelayTerminal → RelayGrantCredential → Controllers → Answer × Controllers
  finish_with none claims cs = (error_envelope invalid_request 400, cs)
  finish_with (some report) claims cs =
      dispatch
        (λ identity. finish_relay_in_transaction clock env identity now (record {
          binding = binding_of claims;
          report = terminal_value report;
          report_fingerprint = relay_terminal_fingerprint report;
        }))
        terminal_answer (quota_id_of claims.pool claims.admission_utc_day) cs

  unfoldable pub act :
      GrantAction → Value → RelayGrantCredential → Controllers → Answer × Controllers
  act activation body claims cs = activate_with (parse_relay_activation body) claims cs
  act renewal body claims cs = renew_with (parse_relay_renewal body) claims cs
  act terminal body claims cs = finish_with (parse_relay_terminal body) claims cs

  -- `handleGrantCallback`, with the handler's answer where a call throws.
  unfoldable pub handle_grant_callback :
      (platform : Platform)
      → GrantRequest
      → EnabledRelayConfig
      → Cache platform
      → Controllers
      → Answer × Controllers
  handle_grant_callback platform request config cache cs =
      elim (read_bounded_bytes relay_max_callback_body_bytes request.body) [
        | none ↦ (error_envelope request_too_large 413, cs)
        | some bytes ↦
            elim (verify_relay_grant_header platform request.grant_header config now cache).0 [
              | none ↦ (error_envelope invalid_context 400, cs)
              | some claims ↦
                  elim (parse_relay_json_body platform bytes relay_max_callback_body_bytes) [
                    | none ↦ (error_envelope invalid_request 400, cs)
                    | some body ↦ act request.action body claims cs
                  ]
            ]
      ]
