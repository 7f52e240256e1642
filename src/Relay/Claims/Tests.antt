-- ===== src/Relay/Claims/Tests.antt =====
-- The context parser at one signed context.
use octg.Common.{◌≡◌, refl, none, some, Option, String}
use octg.Shared.Number.{nat}
use octg.Relay.Value.{Value, null, number, string, object, Properties, end, property}
use octg.Relay.Messages.{RelayContext, preview}
use octg.Relay.Claims.{parse_relay_context}
use octg.Relay.Claims.Sound.{IsWellFormed, parse_relay_context-IsWellFormed}

abbrev pub context_value : Value
context_value = object (
    property "version" (number (nat 1)) (
      property "audience" (string "octg-deno-relay") (
        property "environment" (string "preview") (
          property "route" (string "responses") (
            property "requestId" (string "req_01ARZ3NDEKTSV4RRFFQ69G5FAV") (
              property "clientId" (string "client") (
                property "idempotencyKeyHash" null (
                  property "nonce" (string "AAAAAAAAAAAAAAAAAAAAAAAAAAAAAAAAAAAAAAAAAAA") (
                    property "issuedAtMs" (number (nat 1795694390000))
                      (property "expiresAtMs" (number (nat 1795694450000)) end))))))))))

abbrev pub context : RelayContext
context = record {
  environment = preview;
  request_id = "req_01ARZ3NDEKTSV4RRFFQ69G5FAV";
  client_id = "client";
  idempotency_key_hash = none;
  nonce = "AAAAAAAAAAAAAAAAAAAAAAAAAAAAAAAAAAAAAAAAAAA";
  issued_at_ms = 1795694390000;
  expires_at_ms = 1795694450000;
}

pub context_parses : parse_relay_context context_value ≡ some context
unfolding parse_relay_context octg.Relay.Value.has_exact_keys octg.Common.same octg.Relay.Value.get
    octg.Relay.Claims.as_relay_environment octg.Relay.Claims.as_matching octg.Common.matches
    octg.Relay.Messages.relay_request_id_pattern octg.Relay.Value.as_bounded_non_empty
    octg.Common.utf8_length octg.Relay.Claims.as_key_hash octg.Relay.Messages.relay_nonce_pattern
context_parses = refl

parse_relay_context-IsWellFormed_example : IsWellFormed context
parse_relay_context-IsWellFormed_example =
    parse_relay_context-IsWellFormed context_value context context_parses
