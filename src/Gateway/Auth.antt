-- ===== src/Gateway/Auth.antt =====
-- apps/gateway-worker/src/relay-auth.ts: service tokens, bearer headers and the mode of the CPU gate.
-- A header is the list of its units. The relay's endpoint is a URL that the platform parses.
pub mod Samples
use octg.Common.{
  ℕ, Bool, false, ◌&&◌, ◌||◌, Option, none, some, List, [], ◌∷◌, length, all, ltb, ◌==◌, between,
  if◌then◌else◌,
}
use octg.Common.Encoding.{utf8}
use octg.Relay.Messages.{RelayEnvironment, preview, production, RelayGrantCredential}
use octg.Relay.Duplicates.{eq_text}
use octg.Relay.Credential.{
  Platform, Cache, compare_relay_bearer_constant_time, decode_relay_context_hmac_key,
  verify_relay_grant_credential,
}

pub record RelayEnvConfig : Type 0 where
  pub enabled : Option (List ℕ)
  pub environment : Option (List ℕ)
  pub ingress_endpoint : Option (List ℕ)
  pub ingress_auth_token : Option (List ℕ)
  pub service_auth_token : Option (List ℕ)
  pub cpu_gate_auth_token : Option (List ℕ)
  pub context_hmac_key : Option (List ℕ)

pub record EnabledRelayConfig : Type 0 where
  pub environment : RelayEnvironment
  pub ingress_endpoint : List ℕ
  pub ingress_auth_token : List ℕ
  pub service_auth_token : List ℕ
  pub context_hmac_key : List ℕ

pub data RelayConfig : Type 0 where
  disabled invalid : RelayConfig
  enabled : EnabledRelayConfig → RelayConfig

-- `isRelayServiceToken`: 32 to 256 printable ASCII bytes without whitespace.
unfoldable pub is_relay_service_token : List ℕ → Bool
is_relay_service_token value =
    between 32 256 (length (utf8 value)) && all (between 0x21 0x7e) (utf8 value)

-- A binding that is present and passes its test.
checked : (List ℕ → Bool) → Option (List ℕ) → Option (List ℕ)
checked test none = none
checked test (some value) = if test value then some value else none

abbrev true_text : List ℕ
true_text = b't' ∷ b'r' ∷ b'u' ∷ b'e' ∷ []

abbrev false_text : List ℕ
false_text = b'f' ∷ b'a' ∷ b'l' ∷ b's' ∷ b'e' ∷ []

abbrev preview_text : List ℕ
preview_text = b'p' ∷ b'r' ∷ b'e' ∷ b'v' ∷ b'i' ∷ b'e' ∷ b'w' ∷ []

abbrev production_text : List ℕ
production_text = b'p' ∷ b'r' ∷ b'o' ∷ b'd' ∷ b'u' ∷ b'c' ∷ b't' ∷ b'i' ∷ b'o' ∷ b'n' ∷ []

-- `parseRelayEnvironment`.
parse_relay_environment : Option (List ℕ) → Option RelayEnvironment
parse_relay_environment none = none
parse_relay_environment (some value) =
    if eq_text value preview_text
    then some preview
    else if eq_text value production_text
    then some production
    else none

key_of_binding : Option (List ℕ) → Option (List ℕ)
key_of_binding none = none
key_of_binding (some encoded) = decode_relay_context_hmac_key encoded

or_invalid {ℓ} : {A : Type ℓ} → Option A → (A → RelayConfig) → RelayConfig
or_invalid none k = invalid
or_invalid (some a) k = k a

-- `resolveRelayConfig`, with the test of the endpoint as a parameter: `new URL` is the platform's.
unfoldable pub resolve_relay_config : (List ℕ → Bool) → RelayEnvConfig → RelayConfig
unfolding checked parse_relay_environment key_of_binding or_invalid eq_text
resolve_relay_config is_relay_ingress_endpoint env = elim env.enabled [
  | none ↦ disabled
  | some flag ↦
      if eq_text flag false_text
      then disabled
      else if eq_text flag true_text
      then (or_invalid (parse_relay_environment env.environment) λ environment.
          or_invalid (checked is_relay_ingress_endpoint env.ingress_endpoint) λ endpoint.
            or_invalid (checked is_relay_service_token env.ingress_auth_token) λ ingress_token.
              or_invalid (checked is_relay_service_token env.service_auth_token) λ service_token.
                or_invalid (key_of_binding env.context_hmac_key) λ key. enabled (record {
                  environment = environment;
                  ingress_endpoint = endpoint;
                  ingress_auth_token = ingress_token;
                  service_auth_token = service_token;
                  context_hmac_key = key;
                }))
      else invalid
]

equals_binding : List ℕ → Option (List ℕ) → Bool
equals_binding token none = false
equals_binding token (some other) = eq_text token other

-- `resolveRelayCpuGateControl`: the token, where the control is enabled.
unfoldable pub resolve_relay_cpu_gate_control : RelayEnvConfig → Option (List ℕ)
unfolding equals_binding checked
resolve_relay_cpu_gate_control env = elim (checked is_relay_service_token env.cpu_gate_auth_token) [
  | none ↦ none
  | some token ↦
      if equals_binding token env.service_auth_token || equals_binding token env.ingress_auth_token
      then none
      else some token
]

-- `startsWith(prefix)`, with what follows the prefix.
unfoldable pub after_prefix : List ℕ → List ℕ → Option (List ℕ)
after_prefix [] cs = some cs
after_prefix (p ∷ ps) [] = none
after_prefix (p ∷ ps) (c ∷ cs) = let rest = after_prefix ps cs in if p == c then rest else none

abbrev bearer_prefix : List ℕ
bearer_prefix = b'B' ∷ b'e' ∷ b'a' ∷ b'r' ∷ b'e' ∷ b'r' ∷ 32 ∷ []

abbrev relay_max_authorization_header_bytes : ℕ
relay_max_authorization_header_bytes = 263

non_empty : Option (List ℕ) → Option (List ℕ)
non_empty none = none
non_empty (some []) = none
non_empty (some (c ∷ cs)) = some (c ∷ cs)

unfoldable pub parse_relay_bearer_authorization : Option (List ℕ) → Option (List ℕ)
unfolding non_empty after_prefix
parse_relay_bearer_authorization none = none
parse_relay_bearer_authorization (some header) =
    if ltb relay_max_authorization_header_bytes (length header)
    then none
    else non_empty (after_prefix bearer_prefix header)

-- `verifyRelayServiceAuth` and `verifyRelayCpuGateAuth`, with the token that is expected.
unfoldable pub verify_relay_service_auth : Option (List ℕ) → List ℕ → Bool
verify_relay_service_auth header expected = elim (parse_relay_bearer_authorization header) [
  | none ↦ false
  | some presented ↦ compare_relay_bearer_constant_time expected presented
]

-- `verifyRelayGrantHeader`.
unfoldable pub verify_relay_grant_header :
    (platform : Platform)
    → Option (List ℕ)
    → EnabledRelayConfig
    → ℕ
    → Cache platform
    → Option RelayGrantCredential × Cache platform
verify_relay_grant_header platform none config now cache = (none, cache)
verify_relay_grant_header platform (some header) config now cache =
    verify_relay_grant_credential platform header config.context_hmac_key config.environment now
      cache
