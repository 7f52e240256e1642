-- ===== src/Quota/Samples.antt =====
-- The clock, the environment and the storages that the tests of the quota controller share.
use octg.Common.{true, none, some, [], ◌∷◌}
use octg.Common.Int.{pos}
use octg.Shared.Types.{standard, reserved, RequestEntry, granted, no_results}
use octg.Shared.Types.{InFlightLease}
use octg.Relay.Errors.{authorized}
use octg.Relay.Messages.{preview}
use octg.Quota.Store.{
  RelayGrant, leased, Storage, Clock, QuotaEnv, QuotaIdentity, Result, ok, failed, empty_storage,
}

abbrev pub noon : Clock
noon = record {
  now_ms = 1795694400000;
  now_iso = "2026-11-26T12:00:00.000Z";
  lease_uuid = "11111111-1111-4111-8111-111111111111";
  grant_uuid = "22222222-2222-4222-8222-222222222222";
}

abbrev pub preview_env : QuotaEnv
preview_env = record {
  quota_limit_standard = none;
  quota_limit_mini = none;
  max_in_flight_requests = none;
  relay_environment = some "preview";
  fixture_standard_client_id = none;
  fixture_standard_model = none;
  fixture_mini_client_id = none;
  fixture_mini_model = none;
}

abbrev pub today : QuotaIdentity
today = record { pool = standard; utc_day = "2026-11-26" }

abbrev pub one_entry : RequestEntry
one_entry = record {
  idempotency_key = none;
  state = reserved;
  tokens = 100;
  upper_bound_tokens = 120;
  reserved_tokens = 100;
  requested_disposition = none;
  uncertainty_origin = none;
  actual_tokens = none;
  results = record no_results { reserve = some (granted (pos 900) "2026-11-27T00:00:00Z") };
  created_at = "2026-11-26T12:00:00.000Z";
  updated_at = "2026-11-26T12:00:00.000Z";
}

-- One request of 100 tokens is reserved.
abbrev pub one_reserved : Storage
one_reserved = record empty_storage {
  pool = some (record {
    utc_day = "2026-11-26";
    limit = 1000;
    confirmed_tokens = 0;
    reserved_tokens = 100;
    uncertain_tokens = 0;
    request_count = 1;
    updated_at = "2026-11-26T12:00:00.000Z";
  });
  entries = ("req_one", one_entry) ∷ [];
  unresolved = some (record { uncertain_count = 0; reserved_count = 1 });
}

-- The value of a call that returns.
abbrev pub returned {ℓ} : {A : Type ℓ} → A → Result A → A
returned d (ok a) = a
returned d (failed x) = d

abbrev pub one_grant : RelayGrant
one_grant = record {
  request_id = "req_one";
  grant_id = noon.grant_uuid;
  lease_generation = noon.lease_uuid;
  environment = preview;
  client_id = "client";
  idempotency_key_hash = none;
  nonce = "n";
  model = "gpt-test";
  pool = standard;
  admission_utc_day = "2026-11-26";
  state = authorized;
  issued_at_ms = 1795694400000;
  authorization_expires_at_ms = 1795698000000;
  credential_expires_at_ms = 1795698300000;
  retention_deadline_ms = none;
  admission = record {
    context_issued_at_ms = 1795694390000;
    context_expires_at_ms = 1795694450000;
    metadata = record {
      model = "gpt-test";
      estimated_input_tokens = 40;
      max_output_tokens = 50;
      input_bytes = 300;
      raw_body_bytes = 400;
      is_tool_use = true;
      stream = true;
    };
    reserved_tokens = 100;
    upper_bound_tokens = 120;
    max_output_tokens = 50;
    cache_enabled = true;
  };
  terminal_report = none;
  terminal_fingerprint = none;
}

abbrev pub one_lease : InFlightLease
one_lease = record {
  request_id = "req_one";
  generation = noon.lease_uuid;
  expires_at_ms = 1795694520000;
}

abbrev pub granted_storage : Storage
granted_storage = record one_reserved {
  grants = ("req_one", one_grant) ∷ [];
  in_flight = some (leased (one_lease ∷ []));
}

-- A grant whose identifiers have the forms that the relay's parsers ask for.
abbrev pub relay_grant : RelayGrant
relay_grant = record one_grant {
  request_id = "req_01ARZ3NDEKTSV4RRFFQ69G5FAV";
  nonce = "AAAAAAAAAAAAAAAAAAAAAAAAAAAAAAAAAAAAAAAAAAA";
}

abbrev pub relay_storage : Storage
relay_storage = record one_reserved {
  entries = ("req_01ARZ3NDEKTSV4RRFFQ69G5FAV", one_entry) ∷ [];
  grants = ("req_01ARZ3NDEKTSV4RRFFQ69G5FAV", relay_grant) ∷ [];
  in_flight =
      some (leased (record one_lease { request_id = "req_01ARZ3NDEKTSV4RRFFQ69G5FAV" } ∷ []));
}
