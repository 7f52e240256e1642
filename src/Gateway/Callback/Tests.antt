-- ===== src/Gateway/Callback/Tests.antt =====
-- An activation callback with a signed grant, and a body that is read in chunks.
use octg.Common.{
  ℕ, ◌∙◌, ◌+◌, ◌%◌, ◌≡◌, ◌⊎◌, refl, Option, none, some, List, [], ◌∷◌, ◌++◌, if◌then◌else◌, false,
  String, insert, ltb, length,
}
use octg.Shared.Number.{nat}
use octg.Shared.Pool.{quota_id_of}
use octg.Relay.Value.{Value, number, string, object, property, end, ◌>>=◌}
use octg.Relay.Messages.{preview, RelayGrantCredential}
use octg.Relay.Errors.{attempted}
use octg.Relay.Duplicates.{eq_text}
use octg.Relay.Canonical.{serialize_canonical_json}
use octg.Relay.Kinds.{grant_token, grant_value}
use octg.Relay.Credential.Samples.{total, or_empty, toy_platform}
use octg.Gateway.Auth.Samples.{config}
use octg.Relay.Credential.{Platform, Cache, sign_relay_token}
use octg.Relay.Credential.Sound.{IsCurrent}
use octg.Quota.Store.{Storage, ok}
use octg.Quota.Samples.{noon, preview_env, today, relay_grant, relay_storage}
use octg.Quota.GrantLifecycle.Tests.{relay_binding, relay_activated, relay_activation}
use octg.Quota.GrantLifecycle.{activate_relay_in_transaction, activated, with_state}
use octg.Quota.Reserve.{identity_of}
use octg.Gateway.Claims.{binding_of}
use octg.Relay.Body.{parse_relay_json_body}
use octg.Gateway.Auth.{verify_relay_grant_header}
use octg.Gateway.Callback.{
  GrantRequest, activation, Answer, activation_envelope, Controllers, handle_grant_callback, act,
  dispatch, controller, activation_answer, read_bounded_bytes,
}
use octg.Gateway.Callback.Laws.{
  read_bounded_bytes_lem, concat, handle_grant_callback-Confined, is_error, handle-act, dispatch-ok,
}
use octg.Gateway.Callback.Activated.{ControllerActivated, told-ControllerActivated}

abbrev claims : RelayGrantCredential
claims = relay_binding.claims

abbrev payload : List ℕ
payload = or_empty (serialize_canonical_json (grant_value claims))

abbrev body : List ℕ
body = b'{' ∷ b'}' ∷ []

abbrev body_value : Value
body_value = object (
    property "version" (number (nat 1)) (
      property "grantId" (string relay_binding.grant_id)
        (property "leaseGeneration" (string relay_binding.lease_generation) end)))

-- Two JSON texts are known.
abbrev platform : Platform
platform = toy_platform (λ t.
    if eq_text t payload
    then some (grant_value claims)
    else if eq_text t body
    then some body_value
    else none)

abbrev token : List ℕ
token =
    or_empty
      (sign_relay_token platform grant_token claims config.context_hmac_key none >>= λ r. some r.0)

abbrev request : GrantRequest
request = record {
  action = activation;
  grant_header = some token;
  body = (b'{' ∷ []) ∷ (b'}' ∷ []) ∷ [];
}

abbrev name : String
name = "quota:STANDARD:2026-11-26"

abbrev controllers : Controllers
controllers = (name, relay_storage) ∷ []

abbrev after : Controllers
after = insert name relay_activated controllers

header_verified :
    (verify_relay_grant_header platform (some token) config 1795694400000 none).0 ≡ some claims
unfolding verify_relay_grant_header octg.Relay.Credential.verify_relay_grant_credential
    octg.Relay.Credential.token_parts sign_relay_token serialize_canonical_json grant_value
    octg.Relay.Canonical.serialize_number octg.Relay.Base64.encode octg.Common.Encoding.utf8
    octg.Relay.Canonical.join_members octg.Relay.Canonical.sort_entries octg.Common.codes
    octg.Relay.Canonical.escape_canonical_json_string octg.Relay.Credential.compute_relay_mac total
    octg.Relay.Credential.relay_mac_key octg.Relay.Credential.mac_input octg.Common.Encoding.utf16
    octg.Common.same octg.Common.matches octg.Common.utf8_length octg.Relay.Base64.decode
    octg.Relay.Claims.as_key_hash octg.Relay.Claims.as_matching octg.Relay.Claims.as_pool_name
    octg.Relay.Claims.as_relay_environment octg.Relay.Claims.parse_relay_grant_credential
    octg.Relay.Credential.accept_claims octg.Relay.Credential.claims_of
    octg.Relay.Credential.constant_time_bytes_equal octg.Relay.Credential.is_current
    octg.Relay.Credential.split_dot octg.Relay.Credential.strict_json
    octg.Relay.Credential.two_parts octg.Relay.Credential.verify_relay_token
    octg.Relay.Duplicates.colon_follows octg.Relay.Duplicates.is_json_whitespace eq_text
    octg.Relay.Duplicates.has_duplicate_json_keys octg.Relay.Duplicates.pop
    octg.Relay.Kinds.environment_text octg.Relay.Messages.relay_key_hash_pattern
    octg.Relay.Messages.relay_nonce_pattern octg.Relay.Messages.relay_request_id_pattern
    octg.Relay.Messages.relay_utc_day_pattern octg.Relay.Messages.relay_uuid_pattern
    octg.Relay.Value.as_bounded_non_empty octg.Relay.Value.get octg.Relay.Value.has_exact_keys
    octg.Common.is_digit
header_verified = refl

body_read : read_bounded_bytes 8192 request.body ≡ some body
unfolding read_bounded_bytes
body_read = refl

body_parsed : parse_relay_json_body platform body 8192 ≡ some body_value
unfolding parse_relay_json_body octg.Relay.Duplicates.has_duplicate_json_keys
    octg.Common.Encoding.utf16 serialize_canonical_json grant_value
    octg.Relay.Canonical.serialize_number octg.Relay.Canonical.join_members
    octg.Relay.Canonical.sort_entries octg.Common.codes
    octg.Relay.Canonical.escape_canonical_json_string
body_parsed = refl

names_today : identity_of (some name) ≡ ok today
unfolding identity_of octg.Common.split_colon octg.Common.same octg.Shared.Calendar.parse_day
    octg.Shared.Calendar.days_in_month
names_today = refl

stored : controller name controllers ≡ relay_storage
unfolding controller octg.Common.lookup octg.Common.same
stored = refl

dispatched :
    dispatch
      (λ identity.
        activate_relay_in_transaction noon preview_env identity 1795694400000 (binding_of claims))
      activation_answer
      name
      controllers
    ≡ (activation_envelope none, insert name relay_activated controllers)
unfolding binding_of
dispatched =
    dispatch-ok _ activation_answer name controllers today
      (activated (with_state relay_grant attempted), relay_activated) names_today
      (rw (stored) relay_activation)

acted :
    act noon preview_env 1795694400000 activation body_value claims controllers
    ≡ (activation_envelope none, insert name relay_activated controllers)
unfolding act dispatch octg.Gateway.Callback.activate_with identity_of
    octg.Relay.Parse.parse_relay_activation octg.Common.split_colon octg.Relay.Value.has_exact_keys
    octg.Common.same octg.Relay.Value.get octg.Shared.Calendar.parse_day
    octg.Relay.Claims.as_matching octg.Shared.Calendar.days_in_month
    octg.Relay.Messages.relay_uuid_pattern quota_id_of
acted = dispatched

told :
    handle_grant_callback noon preview_env 1795694400000 platform request config none controllers
    ≡ (activation_envelope none, insert name relay_activated controllers)
told =
    handle-act noon preview_env 1795694400000 platform request config none controllers body claims
      body_value body_read header_verified body_parsed
    ∙ acted

told-ControllerActivated_example :
    (c : RelayGrantCredential) × (t : List ℕ) × (some token ≡ some t)
    × ((sign_relay_token platform grant_token c config.context_hmac_key none >>= λ r. some r.0)
        ≡ some t)
    × IsCurrent c.environment preview c.issued_at_ms c.expires_at_ms 1795694400000
    × ControllerActivated noon preview_env 1795694400000 c controllers after
told-ControllerActivated_example =
    told-ControllerActivated noon preview_env 1795694400000 platform request config none none tt tt
      controllers after told

handle_grant_callback-Confined_example :
    ((handle_grant_callback noon preview_env 1795694400000 platform request config none
        controllers).1
      ≡ controllers)
    ⊎ ((c : RelayGrantCredential) × (t : Storage) × ((verify_relay_grant_header platform
            (some token)
            config
            1795694400000
            none).0
          ≡ some c)
        × (is_error
              (handle_grant_callback noon preview_env 1795694400000 platform request config none
                controllers).0
            ≡ false)
        × ((handle_grant_callback noon preview_env 1795694400000 platform request config none
              controllers).1
            ≡ insert (quota_id_of c.pool c.admission_utc_day) t controllers))
handle_grant_callback-Confined_example =
    handle_grant_callback-Confined noon preview_env 1795694400000 platform request config none
      controllers

read_bounded_bytes_lem_example :
    read_bounded_bytes 1 request.body
    ≡ (if ltb 1 (length (concat request.body)) then none else some (concat request.body))
read_bounded_bytes_lem_example = read_bounded_bytes_lem 1 request.body
