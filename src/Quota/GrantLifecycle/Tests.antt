-- ===== src/Quota/GrantLifecycle/Tests.antt =====
-- The grant laws at one authorized grant.
use octg.Common.{ℕ, ◌≡◌, ◌⊎◌, refl, true, Option, some, none, String, List, [], ◌∷◌, arith, ◌<◌}
use octg.Shared.Number.{nat}
use octg.Shared.Types.{standard}
use octg.Relay.Value.{Value, number, string, null, object, property, end}
use octg.Relay.Errors.{authorized, grant_replayed, grant_expired, internal_error}
use octg.Relay.Messages
use octg.Relay.Messages.{preview}
use octg.Quota.Store.{Storage, RelayGrant, ok, leased}
use octg.Quota.Samples.{
  noon, preview_env, today, one_reserved, one_grant, granted_storage, returned, relay_grant,
  relay_storage,
}
use octg.Quota.Lifecycle.Tests.{released_entry, released_storage, release_returns}
use octg.Quota.Grant.{RelayGrantBinding, is_terminal_grant_state}
use octg.Quota.GrantLifecycle.{
  ActivateResult, activated, FinishResult, accepted, FinishRelayInput, with_state,
  activate_relay_in_transaction, finish_relay_in_transaction,
}
use octg.Quota.GrantLifecycle.Laws.{Activation, activate-Activation, activate_once}
use octg.Quota.GrantLifecycle.Replay.{finish_replay}
use octg.Relay.Errors

abbrev binding : RelayGrantBinding
binding = record {
  request_id = "req_one";
  grant_id = noon.grant_uuid;
  lease_generation = noon.lease_uuid;
  claims = record {
    environment = preview;
    request_id = "req_one";
    grant_id = noon.grant_uuid;
    nonce = "n";
    client_id = "client";
    idempotency_key_hash = none;
    model = "gpt-test";
    pool = standard;
    admission_utc_day = "2026-11-26";
    lease_generation = noon.lease_uuid;
    issued_at_ms = 1795694400000;
    expires_at_ms = 1795698300000;
  };
}

abbrev activated_storage : Storage
activated_storage =
    (returned (ActivateResult.denied internal_error, one_reserved)
      (activate_relay_in_transaction noon preview_env today 1795694400000 binding
        granted_storage)).1

first_activation :
    activate_relay_in_transaction noon preview_env today 1795694400000 binding granted_storage
    ≡ ok (activated (with_state one_grant Errors.attempted), activated_storage)
unfolding activate_relay_in_transaction octg.Quota.GrantLifecycle.bound_grant octg.Common.lookup
    octg.Common.same octg.Quota.Grant.grant_binding_mismatch octg.Quota.Grant.grant_binding_agrees
    octg.Quota.GrantLifecycle.activate_by_state octg.Quota.GrantLifecycle.activate_authorized
    octg.Quota.GrantLifecycle.activate_leased octg.Quota.Leases.normalize_in_flight_state
    octg.Quota.Leases.find_lease octg.Quota.Leases.without_expired_leases
first_activation = refl

abbrev pub relay_binding : RelayGrantBinding
relay_binding = record {
  request_id = relay_grant.request_id;
  grant_id = noon.grant_uuid;
  lease_generation = noon.lease_uuid;
  claims = record binding.claims { request_id = relay_grant.request_id; nonce = relay_grant.nonce };
}

abbrev pub relay_activated : Storage
relay_activated = record relay_storage {
  grants = (relay_grant.request_id, with_state relay_grant Errors.attempted) ∷ [];
}

pub relay_activation :
    activate_relay_in_transaction noon preview_env today 1795694400000 relay_binding relay_storage
    ≡ ok (activated (with_state relay_grant Errors.attempted), relay_activated)
unfolding activate_relay_in_transaction octg.Quota.GrantLifecycle.bound_grant octg.Common.lookup
    octg.Common.insert octg.Common.same octg.Quota.Grant.grant_binding_mismatch
    octg.Quota.Grant.grant_binding_agrees octg.Quota.GrantLifecycle.activate_by_state
    octg.Quota.GrantLifecycle.activate_authorized octg.Quota.GrantLifecycle.activate_leased
    octg.Quota.Leases.normalize_in_flight_state octg.Quota.Leases.find_lease
    octg.Quota.Leases.without_expired_leases
relay_activation = refl

activate-Activation_example :
    Activation noon preview_env today 1795694400000 binding granted_storage
      (with_state one_grant Errors.attempted)
      activated_storage
activate-Activation_example =
    activate-Activation noon preview_env today 1795694400000 binding
      (with_state one_grant Errors.attempted) granted_storage activated_storage first_activation

activate_once_example :
    (activate_relay_in_transaction noon preview_env today 1795694401000 binding activated_storage
      ≡ ok (ActivateResult.denied grant_replayed, activated_storage))
    ⊎ (activate_relay_in_transaction noon preview_env today 1795694401000 binding activated_storage
        ≡ ok (ActivateResult.denied grant_expired, activated_storage))
activate_once_example =
    activate_once noon preview_env today 1795694400000 1795694401000 binding
      (with_state one_grant Errors.attempted) granted_storage activated_storage first_activation

abbrev report : Value
report = object (
    property "version" (number (nat 1)) (
      property "grantId" (string noon.grant_uuid) (
        property "leaseGeneration" (string noon.lease_uuid)
          (property "outcome" (string "release") (property "totalTokens" null end)))))

abbrev finish_input : FinishRelayInput
finish_input = record { binding = binding; report = report; report_fingerprint = "f" }

abbrev finished : RelayGrant
finished = record one_grant {
  state = Errors.released;
  terminal_report = some (record {
    grant_id = noon.grant_uuid;
    lease_generation = noon.lease_uuid;
    outcome = Messages.release;
    total_tokens = none;
  });
  terminal_fingerprint = some "f";
}

abbrev finished_storage : Storage
finished_storage = record released_storage {
  in_flight = some (leased []);
  grants = ("req_one", finished) ∷ [];
}

release_accepted :
    finish_relay_in_transaction noon preview_env today 1795694400000 finish_input granted_storage
    ≡ ok (accepted finished released_entry, finished_storage)
unfolding finish_relay_in_transaction octg.Relay.Parse.parse_relay_terminal
    octg.Relay.Value.has_exact_keys octg.Common.same octg.Relay.Value.get
    octg.Relay.Claims.as_matching octg.Common.matches octg.Relay.Messages.relay_uuid_pattern
    octg.Common.utf16_length octg.Quota.GrantLifecycle.bound_grant octg.Common.lookup
    octg.Quota.Grant.grant_binding_mismatch octg.Quota.Grant.grant_binding_agrees
    octg.Quota.GrantLifecycle.finish_bound octg.Quota.GrantLifecycle.finish_live
    octg.Quota.GrantLifecycle.finish_apply octg.Quota.GrantLifecycle.finish_accept
    octg.Quota.Leases.release_in_flight_lease octg.Quota.Leases.normalize_in_flight_state
    octg.Quota.Leases.without_expired_leases octg.Quota.Leases.find_lease
    octg.Quota.Leases.remove_found octg.Common.insert
release_accepted = rw release_returns refl

credential_alive : 1795694401000 < finished.credential_expires_at_ms
credential_alive = ground arith

finish_replay_example :
    finish_relay_in_transaction noon preview_env today 1795694401000 finish_input finished_storage
    ≡ ok (accepted finished released_entry, finished_storage)
finish_replay_example =
    finish_replay noon preview_env today 1795694400000 1795694401000 finish_input finished
      released_entry granted_storage finished_storage release_accepted refl credential_alive
