-- ===== src/Relay/Messages.antt =====
-- packages/shared/src/relay.ts: the claims, envelopes and bounds of the relay. A field whose type
-- admits one value only (`version`, `audience`, `route`) is checked by the parser and has no place
-- in the record.
use octg.Common.{
  ℕ, String, Bool, Option, [], ◌∷◌, ◌==◌, ◌||◌, between, Pattern, times, literal, is_digit,
}
use octg.Shared.Types.{PoolName}

pub data RelayEnvironment : Type 0 where
  preview production : RelayEnvironment

pub data RelayTerminalOutcome : Type 0 where
  settle uncertain release : RelayTerminalOutcome

pub record RelayContext : Type 0 where
  pub environment : RelayEnvironment
  pub request_id : String
  pub client_id : String
  pub idempotency_key_hash : Option String
  pub nonce : String
  pub issued_at_ms : ℕ
  pub expires_at_ms : ℕ

pub record RelayGrantCredential : Type 0 where
  pub environment : RelayEnvironment
  pub request_id : String
  pub grant_id : String
  pub nonce : String
  pub client_id : String
  pub idempotency_key_hash : Option String
  pub model : String
  pub pool : PoolName
  pub admission_utc_day : String
  pub lease_generation : String
  pub issued_at_ms : ℕ
  pub expires_at_ms : ℕ

pub record RelayRequestMeta : Type 0 where
  pub model : String
  pub estimated_input_tokens : ℕ
  pub max_output_tokens : ℕ
  pub input_bytes : ℕ
  pub raw_body_bytes : ℕ
  pub is_tool_use : Bool
  pub stream : Bool

pub record RelayTerminal : Type 0 where
  pub grant_id : String
  pub lease_generation : String
  pub outcome : RelayTerminalOutcome
  pub total_tokens : Option ℕ

abbrev pub relay_max_ingress_body_bytes : ℕ
relay_max_ingress_body_bytes = 1048576

abbrev pub relay_max_context_lifetime_ms : ℕ
relay_max_context_lifetime_ms = 60000

abbrev pub relay_grant_credential_ttl_ms : ℕ
relay_grant_credential_ttl_ms = 3900000

crockford : ℕ → Bool
crockford c =
    between b'0' b'9' c
    || between b'A' b'H' c
    || between b'J' b'K' c
    || between b'M' b'N' c
    || between b'P' b'T' c
    || between b'V' b'Z' c

lower_hex : ℕ → Bool
lower_hex c = between b'0' b'9' c || between b'a' b'f' c

url_safe : ℕ → Bool
url_safe c =
    between b'A' b'Z' c || between b'a' b'z' c || between b'0' b'9' c || c == b'_' || c == b'-'

dash : Pattern → Pattern
dash = literal (b'-' ∷ [])

unfoldable pub relay_request_id_pattern : Pattern
unfolding crockford
relay_request_id_pattern = literal (b'r' ∷ b'e' ∷ b'q' ∷ b'_' ∷ []) (times 26 crockford [])

unfoldable pub relay_uuid_pattern : Pattern
unfolding lower_hex dash
relay_uuid_pattern = times 8 lower_hex (
    dash (
      times 4 lower_hex
        (dash (times 4 lower_hex (dash (times 4 lower_hex (dash (times 12 lower_hex []))))))))

unfoldable pub relay_nonce_pattern : Pattern
unfolding url_safe
relay_nonce_pattern = times 43 url_safe []

unfoldable pub relay_key_hash_pattern : Pattern
unfolding lower_hex
relay_key_hash_pattern = times 64 lower_hex []

unfoldable pub relay_utc_day_pattern : Pattern
unfolding dash
relay_utc_day_pattern = times 4 is_digit (dash (times 2 is_digit (dash (times 2 is_digit []))))
