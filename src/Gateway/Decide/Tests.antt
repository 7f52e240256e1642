-- ===== src/Gateway/Decide/Tests.antt =====
-- A decision that allows a request, with a toy signature.
use octg.Common.{
  ℕ, ◌+◌, ◌%◌, ◌≡◌, ◌∙◌, refl, String, Option, none, some, List, [], ◌∷◌, ◌++◌, if◌then◌else◌, true,
  false, Dict, insert, arith,
}
use octg.Shared.Number.{nat}
use octg.Shared.Types.{standard}
use octg.Shared.Classify.{RegistryEntry}
use octg.Shared.Budget.{Resolved, resolved, clamp}
use octg.Shared.Pool.{quota_id_of}
use octg.Shared.Calendar.{print_day}
use octg.Relay.Routing.{utc_day_of}
use octg.Quota.Reserve.{identity_of}
use octg.Relay.Value.{Value, number, object, property, end, ◌>>=◌}
use octg.Relay.Messages.{preview}
use octg.Relay.Claims.Sound.{IsWellFormed}
use octg.Relay.Duplicates.{eq_text}
use octg.Relay.Canonical.{serialize_canonical_json}
use octg.Relay.Kinds.{context_token, grant_token, context_value}
use octg.Relay.Credential.Samples.{total, or_empty, toy_platform}
use octg.Gateway.Auth.Samples.{config}
use octg.Relay.Credential.{Platform, Cache, sign_relay_token, verify_relay_context}
use octg.Relay.Credential.Sound.{IsCurrent}
use octg.Quota.Store.{ok, empty_storage}
use octg.Quota.Samples.{noon, preview_env}
use octg.Quota.Admission.Tests.{
  test_platform, meta_value, early_day, early_context, early_input, early_run, early_grant,
  early_snapshot, early_admitted,
}
use octg.Gateway.Claims.{relay_grant_claims_of}
use octg.Gateway.Auth.{enabled}
use octg.Gateway.Policy.{
  PolicyRow, ClientPolicy, load_policy, load_registry, allow_tools, reject_overflow,
}
use octg.Gateway.Callback.{Controllers, controller}
use octg.Gateway.Decide.Guards.{
  DecisionInput, AllowDecision, allowed, Request, pass, guard_request, check_shard_identity,
  right_shard,
}
use octg.Gateway.Decide.{
  World, Database, budget_for, decide, decide_request, decide_budget, admission_input,
}
use octg.Gateway.Decide.Admitted.{Allowed}
use octg.Gateway.Decide.Forward.{
  admit_request-allowed, decide_budget-admit_request, decide-decide_request,
}
use octg.Gateway.Decide.Allowed.{decide-Allowed}

abbrev pub payload : List ℕ
payload = or_empty (serialize_canonical_json (context_value early_context))

abbrev body : List ℕ
body = b'{' ∷ b'}' ∷ []

abbrev body_value : Value
body_value = object (property "version" (number (nat 1)) (property "metadata" meta_value end))

-- Two JSON texts are known.
abbrev pub platform : Platform
platform = toy_platform (λ t.
    if eq_text t payload
    then some (context_value early_context)
    else if eq_text t body
    then some body_value
    else none)

abbrev pub input : DecisionInput
input = record {
  decision_body = body;
  context_token = or_empty (
      sign_relay_token platform context_token early_context config.context_hmac_key none >>= λ r.
      some r.0);
  raw_idempotency_key = none;
}

abbrev pub database : Database
database = record {
  registry_rows =
      record { model = "gpt-test"; complimentary_pool = some standard; enabled = true } ∷ [];
  policy_row = λ client. some (record {
    overflow_mode = "REJECT";
    output_limit_mode = "CLAMP";
    max_paid_usd_day = nat 0;
    cache_enabled = 1;
    tools_mode = "ALLOW";
  });
}

abbrev pub world : World platform
world = record {
  controllers = [];
  mac_cache = none;
  caches = record { registry = none; policies = [] };
}

-- No other call comes between.
abbrev pub undisturbed : Controllers → Controllers
undisturbed cs = cs

abbrev pub shard : String
shard = "relay-decision:v1:preview:37"

abbrev request : Request
request = record {
  context = early_context;
  key = none;
  metadata = record {
    model = "gpt-test";
    estimated_input_tokens = 40;
    max_output_tokens = 50;
    input_bytes = 300;
    raw_body_bytes = 400;
    is_tool_use = true;
    stream = true;
  };
}

abbrev budget : Resolved
budget = record { margin = 256; upper_bound = 602; max_output_tokens = 50; reservation = 346 }

verified :
    verify_relay_context platform input.context_token config.context_hmac_key preview 259205000 none
    ≡ (some early_context, some (config.context_hmac_key, config.context_hmac_key))
unfolding verify_relay_context octg.Relay.Credential.token_parts sign_relay_token
    serialize_canonical_json context_value octg.Relay.Canonical.serialize_number
    octg.Relay.Base64.encode octg.Common.Encoding.utf8 octg.Relay.Canonical.join_members
    octg.Relay.Canonical.sort_entries octg.Common.codes
    octg.Relay.Canonical.escape_canonical_json_string octg.Relay.Credential.compute_relay_mac total
    octg.Relay.Credential.relay_mac_key octg.Relay.Credential.mac_input
    octg.Relay.Credential.two_parts octg.Common.Encoding.utf16 octg.Common.same octg.Common.fits
    octg.Common.matches octg.Common.utf8_length octg.Relay.Base64.decode
    octg.Relay.Claims.as_key_hash octg.Relay.Claims.as_matching
    octg.Relay.Claims.as_relay_environment octg.Relay.Claims.parse_relay_context
    octg.Relay.Credential.accept_claims octg.Relay.Credential.claims_of
    octg.Relay.Credential.constant_time_bytes_equal octg.Relay.Credential.is_current
    octg.Relay.Credential.split_dot octg.Relay.Credential.strict_json
    octg.Relay.Credential.verify_relay_token eq_text octg.Relay.Duplicates.has_duplicate_json_keys
    octg.Relay.Duplicates.is_json_whitespace octg.Relay.Duplicates.colon_follows
    octg.Relay.Duplicates.pop octg.Relay.Messages.relay_key_hash_pattern
    octg.Relay.Messages.relay_nonce_pattern octg.Relay.Messages.relay_request_id_pattern
    octg.Relay.Value.as_bounded_non_empty octg.Relay.Value.get octg.Relay.Value.has_exact_keys
    octg.Relay.Value.has_own octg.Relay.Value.keys octg.Relay.Value.as_bounded_utf8
verified = refl

guarded :
    guard_request platform test_platform (some shard) preview (some early_context) input
    ≡ pass request
unfolding guard_request octg.Gateway.Decide.Guards.shard_answer check_shard_identity
    octg.Common.same octg.Relay.Kinds.environment_text octg.Relay.Routing.relay_shard_index
    octg.Shared.Idempotency.parse_idempotency_key octg.Quota.Admission.is_key_binding_consistent
    octg.Relay.Body.parse_relay_json_body octg.Relay.Duplicates.has_duplicate_json_keys
    octg.Common.Encoding.utf16 octg.Relay.Parse.parse_relay_decision_request
    octg.Relay.Parse.parse_relay_request_meta octg.Relay.Value.has_exact_keys octg.Relay.Value.get
    octg.Relay.Value.as_bounded_non_empty octg.Common.utf8_length eq_text octg.Relay.Duplicates.pop
    serialize_canonical_json context_value octg.Relay.Canonical.serialize_number
    octg.Relay.Canonical.join_members octg.Relay.Canonical.sort_entries
    octg.Relay.Canonical.escape_canonical_json_string
guarded = refl

abbrev policy : ClientPolicy
policy = record {
  overflow_mode = reject_overflow;
  output_limit_mode = clamp;
  max_paid_usd_day = nat 0;
  cache_enabled = true;
  tools_mode = allow_tools;
}

budgeted :
    budget_for platform test_platform noon preview_env 259205000 undisturbed early_day empty_storage
      request policy
    ≡ resolved budget
unfolding budget_for octg.Gateway.Budget.resolve_token_budget octg.Shared.Budget.valid_arguments
    octg.Quota.Reserve.get_state octg.Shared.Pool.remaining_of octg.Quota.Store.resolve_limit
    octg.Shared.Budget.budget_of octg.Shared.Budget.safety_margin octg.Shared.Budget.upper_bound_of
    octg.Shared.Budget.decide_output
budgeted = refl

abbrev name : String
name = "quota:STANDARD:1970-01-04"

early_name : quota_id_of standard (print_day (utc_day_of 259205000)) ≡ name
unfolding quota_id_of print_day utc_day_of octg.Shared.Calendar.next_day
    octg.Shared.Calendar.days_in_month
early_name = refl

early_named : identity_of (some name) ≡ ok early_day
unfolding identity_of octg.Common.split_colon octg.Common.same octg.Shared.Calendar.parse_day
    octg.Shared.Calendar.days_in_month
early_named = refl

abbrev key_cached : World platform
key_cached = record world { mac_cache = some (config.context_hmac_key, config.context_hmac_key) }

abbrev policies_cached : World platform
policies_cached = record key_cached {
  caches =
      (load_policy 259205000 (database.policy_row "client") "client"
        (load_registry 259205000 database.registry_rows world.caches).1).1;
}

to_budget :
    decide_request platform test_platform noon preview_env 259205000 undisturbed config database
      request key_cached
    ≡ decide_budget platform test_platform noon preview_env 259205000 undisturbed config early_day
        name request policy policies_cached
unfolding decide_request octg.Gateway.Decide.decide_pool load_registry
    octg.Gateway.Policy.registry_of octg.Shared.Classify.classify_model load_policy
    octg.Gateway.Policy.policy_of octg.Gateway.Decide.tools_allowed octg.Common.lookup
    octg.Common.insert octg.Common.same identity_of octg.Common.split_colon quota_id_of print_day
    utc_day_of octg.Shared.Calendar.next_day octg.Shared.Calendar.is_leap
    octg.Shared.Calendar.days_in_month octg.Shared.Calendar.parse_day
to_budget = refl

abbrev pub credential : Option (List ℕ × Cache platform)
credential =
    sign_relay_token platform grant_token (relay_grant_claims_of early_grant)
      config.context_hmac_key policies_cached.mac_cache

abbrev pub credential_or_empty : Option (List ℕ × Cache platform) → List ℕ × Cache platform
credential_or_empty none = ([], none)
credential_or_empty (some r) = r

credential_signed : credential ≡ some (credential_or_empty credential)
unfolding sign_relay_token octg.Relay.Kinds.grant_value relay_grant_claims_of
    serialize_canonical_json octg.Relay.Canonical.serialize_number
credential_signed = refl

abbrev pub decision : AllowDecision
decision = record {
  grant_id = early_grant.grant_id;
  lease_generation = early_grant.lease_generation;
  max_output_tokens = 50;
  cache_enabled = true;
  quota = early_snapshot;
}

abbrev pub decided_world : World platform
decided_world = record policies_cached {
  controllers = insert name early_run.1 [];
  mac_cache = (credential_or_empty credential).1;
}

requested : admission_input request budget policy ≡ early_input
unfolding admission_input octg.Relay.Kinds.context_value octg.Gateway.Decide.Guards.metadata_value
    octg.Relay.Kinds.environment_text
requested = refl

no_storage : controller name [] ≡ empty_storage
unfolding controller octg.Common.lookup
no_storage = refl

pub decided :
    decide platform test_platform noon preview_env 259205000 undisturbed
      (enabled config)
      (some shard)
      database
      input
      world
    ≡ (allowed decision (credential_or_empty credential).0, decided_world)
decided =
    decide-decide_request platform test_platform noon preview_env 259205000 undisturbed config
      (some shard) database input world
      (some early_context, some (config.context_hmac_key, config.context_hmac_key)) request verified
      guarded
    ∙ to_budget
    ∙ decide_budget-admit_request platform test_platform noon preview_env 259205000 undisturbed
        config early_day name request budget policy policies_cached (rw (no_storage) budgeted)
    ∙ admit_request-allowed platform test_platform noon preview_env 259205000 undisturbed config
        early_day name request budget policy policies_cached early_grant early_snapshot early_run.1
        (credential_or_empty credential) (rw (requested, no_storage) early_admitted)
        credential_signed

decide-Allowed_example :
    (r : Request) × ((sign_relay_token platform context_token r.context config.context_hmac_key none
        >>= λ s. some s.0)
      ≡ some input.context_token)
    × IsCurrent r.context.environment preview r.context.issued_at_ms r.context.expires_at_ms
        259205000
    × IsWellFormed r.context
    × (check_shard_identity (some shard) preview r.context.request_id ≡ right_shard)
    × Allowed platform test_platform noon preview_env 259205000 undisturbed config database
        world.caches r [] decision
        (credential_or_empty credential).0
        decided_world.controllers
decide-Allowed_example =
    decide-Allowed platform test_platform noon preview_env 259205000 undisturbed config (some shard)
      database input world decided_world none decision (credential_or_empty credential).0 tt tt
      decided
