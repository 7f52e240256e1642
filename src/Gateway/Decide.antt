-- ===== src/Gateway/Decide.antt =====
-- apps/gateway-worker/src/relay-decision-controller.ts: the decision on a relay request. The quota
-- controllers are storages by name, as the callbacks have them; the caches of the policies and of the
-- signing key are state. The clock gives one time in one decision. `meanwhile` is what other calls do
-- to the controllers between the reading of the state and the admission.
pub mod Guards
pub mod Forward
pub mod Admitted
pub mod Allowed
pub mod Tests
use octg.Common.{
  ℕ, String, Bool, true, false, not, ◌&&◌, Option, none, some, List, insert, if◌then◌else◌,
}
use octg.Shared.Number.{nat, int}
use octg.Shared.Types.{PoolName}
use octg.Shared.Pool.{quota_id_of}
use octg.Shared.Calendar.{print_day}
use octg.Shared.Classify.{RegistryEntry, classify_model}
use octg.Shared.Budget.{
  Resolved, BudgetOutcome, resolved, quota_exceeded, arithmetic_error, resolve_relay_token_budget,
}
use octg.Shared.Budget
use octg.Relay.Errors.{
  model_requires_paid, model_not_allowed, request_too_large, insufficient_quota,
}
use octg.Relay.Messages
use octg.Relay.Messages.{RelayTerminal}
use octg.Relay.Kinds.{context_value, grant_token}
use octg.Relay.Body.{terminal_value, relay_terminal_fingerprint}
use octg.Relay.Routing.{utc_day_of}
use octg.Relay.Credential.{Platform, Cache, sign_relay_token, verify_relay_context}
use octg.Quota.Store.{Storage, Clock, QuotaEnv, QuotaIdentity, RelayGrant, Result, ok, failed}
use octg.Quota.Reserve.{identity_of, get_state}
use octg.Quota.Admission.{
  RelayAdmissionInput, AdmissionResult, admitted, QuotaSnapshot, admit_relay_in_transaction,
}
use octg.Quota.Admission
use octg.Quota.GrantLifecycle.{FinishResult, finish_relay_in_transaction}
use octg.Gateway.Budget.{resolve_token_budget}
use octg.Gateway.Claims.{relay_grant_claims_of, binding_of}
use octg.Gateway.Auth.{RelayConfig, enabled, EnabledRelayConfig}
use octg.Gateway.Policy.{
  ClientPolicy, PolicyRow, Caches, allow_tools, reject_tools, ToolsMode, load_policy, load_registry,
}
use octg.Gateway.Callback.{Controllers, controller}
use octg.Gateway.Decide.Guards.{
  metadata_value, DecisionInput, DispatchResult, allowed, internal, thrown, reject_decision,
  Request, stop, pass, guard_answer, guard_request,
}

-- What the controller changes: the quota controllers, the cached signing key, and the caches of the
-- registry and the policies.
pub record World (platform : Platform) : Type 0 where
  pub controllers : Controllers
  pub mac_cache : Cache platform
  pub caches : Caches

-- The rows of the database at the time of the call.
pub record Database : Type 0 where
  pub registry_rows : List RegistryEntry
  pub policy_row : String → Option PolicyRow

unfoldable pub tools_allowed : ToolsMode → Bool
tools_allowed allow_tools = true
tools_allowed reject_tools = false

-- The input of `admitRelay`.
unfoldable pub admission_input : Request → Resolved → ClientPolicy → RelayAdmissionInput
admission_input r b policy = record {
  context = context_value r.context;
  metadata = metadata_value r.metadata;
  raw_idempotency_key = r.key;
  reserved_tokens = nat b.reservation;
  upper_bound_tokens = nat b.upper_bound;
  max_output_tokens = nat b.max_output_tokens;
  cache_enabled = policy.cache_enabled;
}

abbrev release_report : RelayGrant → RelayTerminal
release_report g = record {
  grant_id = g.grant_id;
  lease_generation = g.lease_generation;
  outcome = Messages.release;
  total_tokens = none;
}

module _ (platform : Platform) (digests : Admission.Platform) (clock : Clock) (env : QuotaEnv)
    (now : ℕ) (meanwhile : Controllers → Controllers) where
  -- The controller of a name after a call.
  unfoldable pub stored : String → World platform → Storage → World platform
  stored name w t = record w { controllers = insert name t w.controllers }

  unfoldable pub after_release :
      Result (FinishResult × Storage)
      → Storage
      → (Storage → World platform)
      → DispatchResult × World platform
  after_release (failed x) s put = (thrown, put s)
  after_release (ok r) s put = (internal, put r.1)

  -- A signature that fails releases the grant before it is known to anyone.
  unfoldable pub release_unsigned :
      QuotaIdentity
      → RelayGrant
      → Storage
      → (Storage → World platform)
      → DispatchResult × World platform
  release_unsigned identity g s put =
      after_release
        (finish_relay_in_transaction clock env identity now
          (record {
            binding = binding_of (relay_grant_claims_of g);
            report = terminal_value (release_report g);
            report_fingerprint = relay_terminal_fingerprint (release_report g);
          })
          s)
        s put

  unfoldable pub sign_admitted :
      EnabledRelayConfig
      → QuotaIdentity
      → String
      → Resolved
      → ClientPolicy
      → RelayGrant
      → QuotaSnapshot
      → Storage
      → World platform
      → DispatchResult × World platform
  sign_admitted config identity name b policy g q s w =
      elim (sign_relay_token platform grant_token (relay_grant_claims_of g) config.context_hmac_key
        w.mac_cache) [
          | none ↦ release_unsigned identity g s (stored name w)
          | some signed ↦ (
            allowed
                (record {
                  grant_id = g.grant_id;
                  lease_generation = g.lease_generation;
                  max_output_tokens = b.max_output_tokens;
                  cache_enabled = policy.cache_enabled;
                  quota = q;
                })
                signed.0,
            record w { controllers = insert name s w.controllers; mac_cache = signed.1 },
          )
        ]

  -- The one call that reserves quota, and what follows its answer.
  unfoldable pub admit_request :
      EnabledRelayConfig
      → QuotaIdentity
      → String
      → Request
      → Resolved
      → ClientPolicy
      → World platform
      → DispatchResult × World platform
  admit_request config identity name r b policy w =
      elim (admit_relay_in_transaction clock env identity now digests (admission_input r b policy)
        (controller name w.controllers)) [
          | failed x ↦ (thrown, w)
          | ok a ↦ elim a.0 [
            | AdmissionResult.denied code ↦ (reject_decision code, stored name w a.1)
            | admitted g q ↦ sign_admitted config identity name b policy g q a.1 w
          ]
        ]

  unfoldable pub budget_for : QuotaIdentity → Storage → Request → ClientPolicy → BudgetOutcome
  budget_for identity s r policy = resolve_token_budget (record {
    estimated_input = nat r.metadata.estimated_input_tokens;
    max_output_tokens = nat r.metadata.max_output_tokens;
    remaining = int (get_state clock env identity s).remaining;
    limit = nat (get_state clock env identity s).state.limit;
    output_limit_mode = policy.output_limit_mode;
  })

  unfoldable pub decide_budget :
      EnabledRelayConfig
      → QuotaIdentity
      → String
      → Request
      → ClientPolicy
      → World platform
      → DispatchResult × World platform
  decide_budget config identity name r policy w =
      elim (budget_for identity (controller name w.controllers) r policy) [
        | Budget.request_too_large ↦ (reject_decision request_too_large, w)
        | quota_exceeded ↦ (reject_decision insufficient_quota, w)
        | arithmetic_error ↦ (internal, w)
        | resolved b ↦
            admit_request config identity name r b policy
              (record w { controllers = meanwhile w.controllers })
      ]

  -- From the pool of the model: the policy of the client, and the controller of the pool's day.
  unfoldable pub decide_pool :
      EnabledRelayConfig
      → Database
      → Request
      → PoolName
      → World platform
      → DispatchResult × World platform
  decide_pool config db r pool w =
      let loaded =
        load_policy now (db.policy_row r.context.client_id) r.context.client_id w.caches in
      let w' = record w { caches = loaded.1 } in
      let name = quota_id_of pool (print_day (utc_day_of now)) in
      if r.metadata.is_tool_use && not (tools_allowed loaded.0.tools_mode)
      then (reject_decision model_not_allowed, w')
      else elim (identity_of (some name)) [
        | failed x ↦ (thrown, w')
        | ok identity ↦ decide_budget config identity name r loaded.0 w'
      ]

  unfoldable pub decide_request :
      EnabledRelayConfig → Database → Request → World platform → DispatchResult × World platform
  decide_request config db r w =
      let loaded = load_registry now db.registry_rows w.caches in
      let w' = record w { caches = loaded.1 } in
      elim (classify_model r.metadata.model loaded.0) [
        | none ↦ (reject_decision model_requires_paid, w')
        | some pool ↦ decide_pool config db r pool w'
      ]

  unfoldable pub decide_enabled :
      EnabledRelayConfig
      → Option String
      → Database
      → DecisionInput
      → World platform
      → DispatchResult × World platform
  decide_enabled config own_name db input w =
      let verified =
        verify_relay_context platform input.context_token config.context_hmac_key config.environment
          now w.mac_cache in
      let w' = record w { mac_cache = verified.1 } in
      elim (guard_request platform digests own_name config.environment verified.0 input) [
        | stop answer ↦ (guard_answer answer, w')
        | pass r ↦ decide_request config db r w'
      ]

  -- `RelayDecisionController.decide`.
  unfoldable pub decide :
      RelayConfig
      → Option String
      → Database
      → DecisionInput
      → World platform
      → DispatchResult × World platform
  decide (enabled config) own_name db input w = decide_enabled config own_name db input w
  decide _ own_name db input w = (internal, w)
