-- ===== src/Relay/Credential/Tests.antt =====
-- A context that is signed and verified, with a toy signature.
use octg.Common.{
  ℕ, ◌+◌, ◌%◌, ◌≡◌, ◌≢◌, ◌↔◌, true, refl, Option, none, some, List, [], ◌∷◌, ◌++◌, if◌then◌else◌,
  arith,
}
use octg.Relay.Value.{Value, ◌>>=◌}
use octg.Relay.Messages.{preview}
use octg.Relay.Claims.Tests.{context, context_value as parsed_context}
use octg.Relay.Claims.Sound.{IsWellFormed}
use octg.Relay.Duplicates.{eq_text}
use octg.Relay.Canonical.{serialize_canonical_json}
use octg.Relay.Kinds.{context_token, context_value}
use octg.Relay.Credential.Samples.{total, or_empty, toy_platform, toy_key}
use octg.Relay.Credential.{
  Platform, Cache, sign_relay_token, verify_relay_context, mac_input, constant_time_bytes_equal,
}
use octg.Relay.Credential.Sound.{IsCurrent, verify_relay_context-IsSigned}
use octg.Relay.Credential.Compare.{constant_time_bytes_equal_iff}

abbrev payload : List ℕ
payload = or_empty (serialize_canonical_json (context_value context))

-- One JSON text is known.
abbrev platform : Platform
platform = toy_platform (λ t. if eq_text t payload then some parsed_context else none)

abbrev key : List ℕ
key = toy_key

abbrev token : List ℕ
token = or_empty (sign_relay_token platform context_token context key none >>= λ r. some r.0)

verified : (verify_relay_context platform token key preview 1795694400000 none).0 ≡ some context
unfolding verify_relay_context octg.Relay.Credential.token_parts sign_relay_token
    serialize_canonical_json context_value octg.Relay.Canonical.serialize_number
    octg.Relay.Base64.encode octg.Common.Encoding.utf8 octg.Relay.Canonical.join_members
    octg.Relay.Canonical.sort_entries octg.Common.codes
    octg.Relay.Canonical.escape_canonical_json_string octg.Relay.Credential.compute_relay_mac total
    octg.Relay.Credential.relay_mac_key octg.Relay.Credential.mac_input
    octg.Relay.Credential.two_parts octg.Common.Encoding.utf16 octg.Common.same octg.Common.fits
    octg.Common.matches octg.Common.utf8_length octg.Relay.Base64.decode
    octg.Relay.Claims.as_key_hash octg.Relay.Claims.as_matching
    octg.Relay.Claims.as_relay_environment octg.Relay.Claims.parse_relay_context
    octg.Relay.Credential.accept_claims octg.Relay.Credential.claims_of
    octg.Relay.Credential.constant_time_bytes_equal octg.Relay.Credential.is_current
    octg.Relay.Credential.split_dot octg.Relay.Credential.strict_json
    octg.Relay.Credential.verify_relay_token eq_text octg.Relay.Duplicates.has_duplicate_json_keys
    octg.Relay.Duplicates.is_json_whitespace octg.Relay.Duplicates.colon_follows
    octg.Relay.Duplicates.pop octg.Relay.Messages.relay_key_hash_pattern
    octg.Relay.Messages.relay_nonce_pattern octg.Relay.Messages.relay_request_id_pattern
    octg.Relay.Value.as_bounded_non_empty octg.Relay.Value.get octg.Relay.Value.has_exact_keys
    octg.Relay.Value.has_own octg.Relay.Value.keys octg.Relay.Value.as_bounded_utf8
verified = refl

verify_relay_context-IsSigned_example :
    ((sign_relay_token platform context_token context key none >>= λ r. some r.0) ≡ some token)
    × IsCurrent preview preview 1795694390000 1795694450000 1795694400000
    × IsWellFormed context
verify_relay_context-IsSigned_example =
    verify_relay_context-IsSigned platform token key preview 1795694400000 none none tt tt context
      verified

abbrev padded_key : List ℕ
padded_key = key ++ (0 ∷ [])

constant_time_bytes_equal_iff_example :
    (constant_time_bytes_equal key padded_key ≡ true) ↔ (key ≡ padded_key)
constant_time_bytes_equal_iff_example = constant_time_bytes_equal_iff key padded_key
