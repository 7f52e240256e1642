-- ===== src/Relay/Body.antt =====
-- packages/shared/src/relay-json.ts and relay-decision-controller.ts: a bounded JSON body, and the
-- report of a terminal callback as an object and as a fingerprint.
use octg.Common.{
  ℕ, zero, suc, ◌/◌, String, Option, none, some, List, length, ltb, if◌then◌else◌, ◌<>◌, decimal,
  ◌≡◌, refl,
}
use octg.Common.Encoding.{utf16}
use octg.Shared.Number.{nat}
use octg.Relay.Value.{Value, null, number, string, object, property, end}
use octg.Relay.Messages
use octg.Relay.Messages.{RelayTerminal, RelayTerminalOutcome}
use octg.Relay.Duplicates.{has_duplicate_json_keys}
use octg.Relay.Credential.{Platform}

-- `parseRelayJsonBody`, none where it throws the protocol error.
unfoldable pub parse_relay_json_body : Platform → List ℕ → ℕ → Option Value
parse_relay_json_body platform bytes max_bytes =
    if ltb max_bytes (length bytes) then none else elim (platform.decode_utf8 bytes) [
      | none ↦ none
      | some text ↦ elim (has_duplicate_json_keys (utf16 text)) [
        | none ↦ none
        | some duplicate ↦ if duplicate then none else platform.parse_json text
      ]
    ]

unfoldable pub outcome_text : RelayTerminalOutcome → String
outcome_text Messages.settle = "settle"
outcome_text Messages.uncertain = "uncertain"
outcome_text Messages.release = "release"

-- `String(n)` of a number of at most `fuel` digits; a safe integer has 16.
digits_text : ℕ → ℕ → String
digits_text zero n = ""
digits_text (suc fuel) n =
    let front = digits_text fuel (n / 10) in (if ltb n 10 then "" else front) <> decimal 1 n

tokens_text : Option ℕ → String
unfolding digits_text
tokens_text none = "null"
tokens_text (some n) = digits_text 16 n

-- `relayTerminalFingerprint`.
unfoldable pub relay_terminal_fingerprint : RelayTerminal → String
unfolding outcome_text tokens_text
relay_terminal_fingerprint report =
    outcome_text report.outcome <> ":" <> tokens_text report.total_tokens

tokens_value : Option ℕ → Value
tokens_value none = null
tokens_value (some n) = number (nat n)

-- The report as the object that the parser returned.
unfoldable pub terminal_value : RelayTerminal → Value
unfolding outcome_text tokens_value
terminal_value report = object (
    property "version" (number (nat 1)) (
      property "grantId" (string report.grant_id) (
        property "leaseGeneration" (string report.lease_generation) (
          property "outcome" (string (outcome_text report.outcome))
            (property "totalTokens" (tokens_value report.total_tokens) end)))))

fingerprint_test :
    relay_terminal_fingerprint (record {
      grant_id = "g";
      lease_generation = "l";
      outcome = Messages.settle;
      total_tokens = some 1043;
    })
    ≡ "settle:1043"
unfolding relay_terminal_fingerprint decimal
fingerprint_test = refl
