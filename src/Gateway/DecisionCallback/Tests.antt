-- ===== src/Gateway/DecisionCallback/Tests.antt =====
-- A callback on an allowed decision, whose body comes in two chunks.
use octg.Common.{
  ℕ, ◌≡◌, refl, false, ltb, length, String, Option, none, some, List, [], ◌∷◌, if◌then◌else◌,
}
use octg.Relay.Value.{◌>>=◌}
use octg.Relay.Messages.{preview}
use octg.Relay.Duplicates.{eq_text}
use octg.Relay.Base64.{encode}
use octg.Relay.Kinds.{context_token}
use octg.Relay.Routing.{relay_decision_shard_name}
use octg.Relay.Claims.Sound.{IsWellFormed}
use octg.Relay.Credential.{sign_relay_token, relay_max_context_header_bytes}
use octg.Relay.Credential.Sound.{IsCurrent}
use octg.Quota.Samples.{noon, preview_env}
use octg.Quota.Admission.Tests.{test_platform, early_context}
use octg.Gateway.Callback.{read_bounded_bytes}
use octg.Shared.Idempotency.{absent, parse_idempotency_key}
use octg.Gateway.Auth.Samples.{config}
use octg.Gateway.Decide.Guards.{Request, check_shard_identity, right_shard}
use octg.Gateway.Decide.Admitted.{Allowed}
use octg.Gateway.Decide.Tests.{
  payload, platform, input, database, world, shard, undisturbed, decision, credential,
  credential_or_empty, decided_world, decided,
}
use octg.Gateway.DecisionCallback.{
  DecisionRequest, allow_envelope, answer_of, padded, extract_request_id_hint, handle_decision,
}
use octg.Gateway.DecisionCallback.Laws.{handle_decision-Allowed, handle_decision-decide}

-- One text is known.
abbrev atob : List ℕ → Option (List ℕ)
atob text = if eq_text text (padded (encode payload)) then some payload else none

abbrev request : DecisionRequest
request = record {
  context_header = some input.context_token;
  key_header = none;
  body = (b'{' ∷ []) ∷ (b'}' ∷ []) ∷ [];
}

short : ltb relay_max_context_header_bytes (length input.context_token) ≡ false
unfolding sign_relay_token octg.Relay.Canonical.serialize_canonical_json
    octg.Relay.Kinds.context_value octg.Relay.Canonical.serialize_number encode
    octg.Common.Encoding.utf8 octg.Relay.Canonical.join_members octg.Relay.Canonical.sort_entries
    octg.Common.codes octg.Relay.Canonical.escape_canonical_json_string
    octg.Relay.Credential.compute_relay_mac octg.Relay.Credential.Samples.total
    octg.Relay.Credential.relay_mac_key octg.Relay.Credential.mac_input
short = refl

body_read : read_bounded_bytes 8192 request.body ≡ some input.decision_body
unfolding read_bounded_bytes
body_read = refl

hinted : extract_request_id_hint platform atob input.context_token ≡ some early_context.request_id
unfolding extract_request_id_hint octg.Gateway.DecisionCallback.payload_part
    octg.Relay.Credential.split_dot sign_relay_token octg.Relay.Canonical.serialize_canonical_json
    octg.Relay.Kinds.context_value octg.Relay.Canonical.serialize_number encode
    octg.Common.Encoding.utf8 octg.Relay.Canonical.join_members octg.Relay.Canonical.sort_entries
    octg.Common.codes octg.Relay.Canonical.escape_canonical_json_string
    octg.Relay.Credential.compute_relay_mac octg.Relay.Credential.Samples.total
    octg.Relay.Credential.relay_mac_key octg.Relay.Credential.mac_input eq_text padded
    octg.Gateway.DecisionCallback.request_id_in octg.Common.same octg.Common.matches
    octg.Relay.Value.get octg.Relay.Claims.as_matching octg.Relay.Messages.relay_request_id_pattern
hinted = refl

named : relay_decision_shard_name preview early_context.request_id ≡ shard
unfolding relay_decision_shard_name
named = refl

no_key : parse_idempotency_key none ≡ absent
unfolding parse_idempotency_key
no_key = refl

handled :
    handle_decision platform atob test_platform noon preview_env 259205000 undisturbed config
      database request world
    ≡ (allow_envelope decision (credential_or_empty credential).0, decided_world)
unfolding answer_of
handled =
    handle_decision-decide platform atob test_platform noon preview_env 259205000 undisturbed config
      database request input.context_token input.decision_body early_context.request_id shard world
      refl short no_key body_read hinted named _ decided

handle_decision-Allowed_example :
    (token : List ℕ) × (hint : String) × (r : Request) × (request.context_header ≡ some token)
    × (extract_request_id_hint platform atob token ≡ some hint)
    × ((sign_relay_token platform context_token r.context config.context_hmac_key none >>= λ s.
          some s.0)
        ≡ some token)
    × IsCurrent r.context.environment preview r.context.issued_at_ms r.context.expires_at_ms
        259205000
    × IsWellFormed r.context
    × (check_shard_identity
          (some (relay_decision_shard_name preview hint))
          preview
          r.context.request_id
        ≡ right_shard)
    × Allowed platform test_platform noon preview_env 259205000 undisturbed config database
        world.caches r [] decision
        (credential_or_empty credential).0
        decided_world.controllers
handle_decision-Allowed_example =
    handle_decision-Allowed platform atob test_platform noon preview_env 259205000 undisturbed
      config database request decision (credential_or_empty credential).0 world decided_world none
      tt tt handled
