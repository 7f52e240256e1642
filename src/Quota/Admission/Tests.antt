-- ===== src/Quota/Admission/Tests.antt =====
-- The laws of an admission at one signed context.
use octg.Common.{ℕ, ◌≡◌, refl, true, Bool, Option, some, none, lookup, String, List, []}
use octg.Common.Int.{pos}
use octg.Shared.Number.{nat}
use octg.Relay.Value.{Value, null, number, string, boolean, object, property, end}
use octg.Relay.Claims.{parse_relay_context}
use octg.Relay.Claims.Tests.{context_value, context, context_parses}
use octg.Relay.Errors
use octg.Relay.Errors.{RelayErrorCode, internal_error}
use octg.Relay.Messages.{RelayRequestMeta, RelayContext}
use octg.Quota.Store.{QuotaIdentity}
use octg.Shared.Types
use octg.Quota.Store.{Storage, RelayGrant, ok, Result, failed, empty_storage, load_pool}
use octg.Quota.Samples.{noon, preview_env, today, one_reserved, returned}
use octg.Quota.Leases.Laws.{with_in_flight}
use octg.Quota.CpuGate.Tests.{fence_run}
use octg.Quota.CpuGate.{set_fence}
use octg.Quota.Admission.{
  Platform, RelayAdmissionInput, AdmissionResult, admitted, denied, Admissible, pass,
  check_admission, QuotaSnapshot, admit_relay_in_transaction, admitted_grant, build_quota_snapshot,
}
use octg.Quota.Admission.Replay.{admit_replay}
use octg.Quota.Admission.Laws.{Room, admit-Room, denied-Unchanged, fenced_never_admitted}

-- A platform for the tests; no key is hashed in them.
abbrev pub test_platform : Platform
test_platform = record { utf8 = λ s. []; sha256 = λ bytes. bytes }

abbrev pub meta_value : Value
meta_value = object (
    property "model" (string "gpt-test") (
      property "estimatedInputTokens" (number (nat 40)) (
        property "maxOutputTokens" (number (nat 50)) (
          property "inputBytes" (number (nat 300)) (
            property "rawBodyBytes" (number (nat 400))
              (property "isToolUse" (boolean true) (property "stream" (boolean true) end)))))))

abbrev pub input : RelayAdmissionInput
input = record {
  context = context_value;
  metadata = meta_value;
  raw_idempotency_key = none;
  reserved_tokens = nat 100;
  upper_bound_tokens = nat 120;
  max_output_tokens = nat 50;
  cache_enabled = true;
}

abbrev pub admissible : Admissible
admissible = record {
  context = context;
  metadata = record {
    model = "gpt-test";
    estimated_input_tokens = 40;
    max_output_tokens = 50;
    input_bytes = 300;
    raw_body_bytes = 400;
    is_tool_use = true;
    stream = true;
  };
  budget = record {
    reserved_tokens = 100;
    upper_bound_tokens = 120;
    max_output_tokens = 50;
    cache_enabled = true;
  };
  key = none;
}

pub input_passes : check_admission test_platform preview_env input one_reserved ≡ pass admissible
unfolding check_admission parse_relay_context octg.Relay.Value.has_exact_keys octg.Common.same
    octg.Relay.Value.get octg.Relay.Claims.as_relay_environment octg.Relay.Claims.as_matching
    octg.Common.matches octg.Relay.Messages.relay_request_id_pattern
    octg.Relay.Value.as_bounded_non_empty octg.Common.utf8_length octg.Relay.Claims.as_key_hash
    octg.Relay.Messages.relay_nonce_pattern octg.Relay.Parse.parse_relay_request_meta lookup
    octg.Quota.Admission.check_budget octg.Quota.Admission.check_key
    octg.Shared.Idempotency.parse_idempotency_key octg.Quota.Admission.check_environment
    octg.Quota.Admission.is_key_binding_consistent octg.Quota.Admission.resolve_relay_environment
input_passes = refl

is_new : lookup context.request_id one_reserved.entries ≡ none
unfolding lookup octg.Common.same
is_new = refl

abbrev pub admitted_run : AdmissionResult × Storage
admitted_run =
    returned (denied internal_error, one_reserved)
      (admit_relay_in_transaction noon preview_env today 1795694400000 test_platform input
        one_reserved)

abbrev pub grant : RelayGrant
grant = admitted_grant noon preview_env today 1795694400000 admissible

abbrev snapshot : QuotaSnapshot
snapshot = build_quota_snapshot today (load_pool noon preview_env today admitted_run.1)

pub input_admitted :
    admit_relay_in_transaction noon preview_env today 1795694400000 test_platform input one_reserved
    ≡ ok (admitted grant snapshot, admitted_run.1)
unfolding admit_relay_in_transaction octg.Quota.Admission.admit_checked
    octg.Quota.Admission.admit_leased octg.Quota.Admission.admit_new octg.Common.Int.◌-ℤ◌
    octg.Common.insert octg.Quota.Grant.relay_grant_retention_deadline_ms
    octg.Quota.Grant.relay_lease_expiry octg.Quota.Leases.normalize_in_flight_state
    octg.Quota.Leases.without_expired_leases octg.Quota.Store.resolve_limit
    octg.Quota.Store.resolve_max_in_flight_requests octg.Shared.Calendar.next_utc_midnight
    octg.Shared.Pool.remaining_of octg.Shared.Pool.tier_of check_admission parse_relay_context
    octg.Relay.Value.has_exact_keys octg.Common.same octg.Relay.Value.get
    octg.Relay.Claims.as_relay_environment octg.Relay.Claims.as_matching octg.Common.matches
    octg.Relay.Messages.relay_request_id_pattern octg.Relay.Value.as_bounded_non_empty
    octg.Common.utf8_length octg.Relay.Claims.as_key_hash octg.Relay.Messages.relay_nonce_pattern
    octg.Relay.Parse.parse_relay_request_meta lookup octg.Quota.Admission.check_budget
    octg.Quota.Admission.check_key octg.Shared.Idempotency.parse_idempotency_key
    octg.Quota.Admission.check_environment octg.Quota.Admission.is_key_binding_consistent
    octg.Quota.Admission.resolve_relay_environment
input_admitted = refl

admit-Room_example :
    Room noon preview_env today 1795694400000 admissible one_reserved admitted_run.1
admit-Room_example =
    admit-Room noon preview_env today 1795694400000 test_platform input admissible one_reserved
      admitted_run.1 grant snapshot input_passes is_new input_admitted

fenced_never_admitted_example :
    (code : RelayErrorCode) × (admit_relay_in_transaction noon preview_env today 1795694400000
        test_platform input
        (set_fence context.request_id one_reserved)
      ≡ ok (denied code, set_fence context.request_id one_reserved))
fenced_never_admitted_example =
    fenced_never_admitted noon preview_env today 1795694400000 test_platform input context noon
      1795694400000 one_reserved (set_fence context.request_id one_reserved) fence_run
      context_parses

abbrev large_input : RelayAdmissionInput
large_input = record input { reserved_tokens = nat 901; upper_bound_tokens = nat 901 }

abbrev denied_run : Storage
denied_run =
    (returned (denied internal_error, empty_storage)
      (admit_relay_in_transaction noon preview_env today 1795694400000 test_platform large_input
        one_reserved)).1

large_denied :
    admit_relay_in_transaction noon preview_env today 1795694400000 test_platform large_input
      one_reserved
    ≡ ok (denied Errors.insufficient_quota, denied_run)
unfolding admit_relay_in_transaction octg.Quota.Admission.admit_checked
    octg.Quota.Admission.admit_leased octg.Quota.Admission.admit_new octg.Common.Int.◌-ℤ◌
    octg.Common.insert octg.Quota.Grant.relay_grant_retention_deadline_ms
    octg.Quota.Grant.relay_lease_expiry octg.Quota.Leases.normalize_in_flight_state
    octg.Quota.Leases.without_expired_leases octg.Quota.Store.resolve_limit
    octg.Quota.Store.resolve_max_in_flight_requests octg.Shared.Calendar.next_utc_midnight
    octg.Shared.Pool.remaining_of octg.Shared.Pool.tier_of check_admission parse_relay_context
    octg.Relay.Value.has_exact_keys octg.Common.same octg.Relay.Value.get
    octg.Relay.Claims.as_relay_environment octg.Relay.Claims.as_matching octg.Common.matches
    octg.Relay.Messages.relay_request_id_pattern octg.Relay.Value.as_bounded_non_empty
    octg.Common.utf8_length octg.Relay.Claims.as_key_hash octg.Relay.Messages.relay_nonce_pattern
    octg.Relay.Parse.parse_relay_request_meta lookup octg.Quota.Admission.check_budget
    octg.Quota.Admission.check_key octg.Shared.Idempotency.parse_idempotency_key
    octg.Quota.Admission.check_environment octg.Quota.Admission.is_key_binding_consistent
    octg.Quota.Admission.resolve_relay_environment
large_denied = refl

denied-Unchanged_example : denied_run ≡ with_in_flight denied_run.in_flight one_reserved
denied-Unchanged_example =
    denied-Unchanged noon preview_env today 1795694400000 test_platform large_input one_reserved
      denied_run Errors.insufficient_quota large_denied

admit_replay_example :
    admit_relay_in_transaction noon preview_env today 1795694401000 test_platform input
      admitted_run.1
    ≡ ok (admitted grant snapshot, admitted_run.1)
admit_replay_example =
    admit_replay noon noon preview_env today 1795694400000 1795694401000 test_platform input
      admissible one_reserved admitted_run.1 grant snapshot input_passes is_new input_admitted

-- An admission on the fourth day of 1970, as the decision controller asks for it.
abbrev pub early_day : QuotaIdentity
early_day = record { pool = Types.standard; utc_day = "1970-01-04" }

abbrev pub early_context : RelayContext
early_context = record context { issued_at_ms = 259200000; expires_at_ms = 259260000 }

abbrev pub early_input : RelayAdmissionInput
early_input = record input {
  context = object (
      property "version" (number (nat 1)) (
        property "audience" (string "octg-deno-relay") (
          property "environment" (string "preview") (
            property "route" (string "responses") (
              property "requestId" (string context.request_id) (
                property "clientId" (string "client") (
                  property "idempotencyKeyHash" null (
                    property "nonce" (string context.nonce) (
                      property "issuedAtMs" (number (nat 259200000))
                        (property "expiresAtMs" (number (nat 259260000)) end))))))))));
  reserved_tokens = nat 346;
  upper_bound_tokens = nat 602;
}

abbrev pub early_run : AdmissionResult × Storage
early_run =
    returned (denied internal_error, empty_storage)
      (admit_relay_in_transaction noon preview_env early_day 259205000 test_platform early_input
        empty_storage)

abbrev pub early_admissible : Admissible
early_admissible = record admissible {
  context = early_context;
  budget = record admissible.budget { reserved_tokens = 346; upper_bound_tokens = 602 };
}

abbrev pub early_grant : RelayGrant
early_grant = admitted_grant noon preview_env early_day 259205000 early_admissible

abbrev pub early_snapshot : QuotaSnapshot
early_snapshot = build_quota_snapshot early_day (load_pool noon preview_env early_day early_run.1)

pub early_admitted :
    admit_relay_in_transaction noon preview_env early_day 259205000 test_platform early_input
      empty_storage
    ≡ ok (admitted early_grant early_snapshot, early_run.1)
unfolding admit_relay_in_transaction octg.Quota.Admission.admit_checked
    octg.Quota.Admission.admit_leased octg.Quota.Admission.admit_new octg.Common.Int.◌-ℤ◌
    octg.Common.insert octg.Quota.Grant.relay_grant_retention_deadline_ms
    octg.Quota.Grant.relay_lease_expiry octg.Quota.Leases.normalize_in_flight_state
    octg.Quota.Leases.without_expired_leases octg.Quota.Store.resolve_limit
    octg.Quota.Store.resolve_max_in_flight_requests octg.Shared.Calendar.next_utc_midnight
    octg.Shared.Pool.remaining_of octg.Shared.Pool.tier_of check_admission parse_relay_context
    octg.Relay.Value.has_exact_keys octg.Common.same octg.Relay.Value.get
    octg.Relay.Claims.as_relay_environment octg.Relay.Claims.as_matching octg.Common.matches
    octg.Relay.Messages.relay_request_id_pattern octg.Relay.Value.as_bounded_non_empty
    octg.Common.utf8_length octg.Relay.Claims.as_key_hash octg.Relay.Messages.relay_nonce_pattern
    octg.Relay.Parse.parse_relay_request_meta lookup octg.Quota.Admission.check_budget
    octg.Quota.Admission.check_key octg.Shared.Idempotency.parse_idempotency_key
    octg.Quota.Admission.check_environment octg.Quota.Admission.is_key_binding_consistent
    octg.Quota.Admission.resolve_relay_environment
early_admitted = refl
