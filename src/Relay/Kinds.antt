-- ===== src/Relay/Kinds.antt =====
-- packages/shared/src/relay-credential.ts: the two kinds of token, and their claims as objects.
use octg.Common.{ℕ, String, Option, none, some, List, codes}
use octg.Common.Encoding.{utf8}
use octg.Shared.Number.{nat}
use octg.Shared.Pool.{pool_text}
use octg.Relay.Value.{Value, null, number, string, object, end, property}
use octg.Relay.Messages.{RelayEnvironment, preview, production, RelayContext, RelayGrantCredential}
use octg.Relay.Claims.{parse_relay_context, parse_relay_grant_credential}

abbrev pub relay_context_purpose : String
relay_context_purpose = "octg-relay-context-v1"

abbrev pub relay_grant_purpose : String
relay_grant_purpose = "octg-relay-grant-v1"

-- The claims as the objects that the parsers return.
unfoldable pub environment_text : RelayEnvironment → String
environment_text preview = "preview"
environment_text production = "production"

optional_text : Option String → Value
optional_text none = null
optional_text (some s) = string s

unfoldable pub context_value : RelayContext → Value
unfolding environment_text optional_text
context_value c = object (
    property "version" (number (nat 1)) (
      property "audience" (string "octg-deno-relay") (
        property "environment" (string (environment_text c.environment)) (
          property "route" (string "responses") (
            property "requestId" (string c.request_id) (
              property "clientId" (string c.client_id) (
                property "idempotencyKeyHash" (optional_text c.idempotency_key_hash) (
                  property "nonce" (string c.nonce) (
                    property "issuedAtMs" (number (nat c.issued_at_ms))
                      (property "expiresAtMs" (number (nat c.expires_at_ms)) end))))))))))

unfoldable pub grant_value : RelayGrantCredential → Value
unfolding environment_text optional_text
grant_value c = object (
    property "version" (number (nat 1)) (
      property "audience" (string "octg-worker-relay") (
        property "environment" (string (environment_text c.environment)) (
          property "route" (string "responses") (
            property "requestId" (string c.request_id) (
              property "grantId" (string c.grant_id) (
                property "nonce" (string c.nonce) (
                  property "clientId" (string c.client_id) (
                    property "idempotencyKeyHash" (optional_text c.idempotency_key_hash) (
                      property "model" (string c.model) (
                        property "pool" (string (pool_text c.pool)) (
                          property "admissionUtcDay" (string c.admission_utc_day) (
                            property "leaseGeneration" (string c.lease_generation) (
                              property "issuedAtMs" (number (nat c.issued_at_ms)) (
                                property "expiresAtMs" (number (nat c.expires_at_ms))
                                  end)))))))))))))))

-- `RelayTokenKind`, with the object that claims of the kind are.
pub record TokenKind (T : Type 0) : Type 0 where
  pub purpose : List ℕ
  pub parse_claims : Value → Option T
  pub claims_value : T → Value

abbrev pub context_token : TokenKind RelayContext
context_token = record {
  purpose = utf8 (codes relay_context_purpose);
  parse_claims = parse_relay_context;
  claims_value = context_value;
}

abbrev pub grant_token : TokenKind RelayGrantCredential
grant_token = record {
  purpose = utf8 (codes relay_grant_purpose);
  parse_claims = parse_relay_grant_credential;
  claims_value = grant_value;
}
