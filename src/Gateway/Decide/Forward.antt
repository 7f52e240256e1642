-- ===== src/Gateway/Decide/Forward.antt =====
-- What an admission, a budget and the guards lead to.
use octg.Common.{ℕ, ◌≡◌, String, Option, some, List, arith, insert}
use octg.Shared.Budget.{Resolved, resolved}
use octg.Relay.Messages.{RelayContext}
use octg.Relay.Kinds.{grant_token}
use octg.Relay.Credential.{Platform, Cache, sign_relay_token, verify_relay_context}
use octg.Quota.Store.{Storage, Clock, QuotaEnv, QuotaIdentity, RelayGrant, ok}
use octg.Quota.Admission.{AdmissionResult, admitted, QuotaSnapshot, admit_relay_in_transaction}
use octg.Quota.Admission
use octg.Gateway.Claims.{relay_grant_claims_of}
use octg.Gateway.Auth.{enabled, EnabledRelayConfig}
use octg.Gateway.Policy.{ClientPolicy}
use octg.Gateway.Callback.{Controllers, controller}
use octg.Gateway.Decide.Guards.{DecisionInput, allowed, Request, pass, guard_request}
use octg.Gateway.Decide.{
  World, Database, admission_input, sign_admitted, admit_request, budget_for, decide_budget,
  decide_request, decide_enabled, decide,
}

module _ (platform : Platform) (digests : Admission.Platform) (clock : Clock) (env : QuotaEnv)
    (now : ℕ) (meanwhile : Controllers → Controllers) (config : EnabledRelayConfig) where
  pub admit_request-allowed :
      (identity : QuotaIdentity) (name : String) (r : Request) (b : Resolved)
      (policy : ClientPolicy) (w : World platform) (g : RelayGrant) (q : QuotaSnapshot)
      (s : Storage) (signed : List ℕ × Cache platform)
      → admit_relay_in_transaction clock env identity now digests
          (admission_input r b policy)
          (controller name w.controllers)
        ≡ ok (admitted g q, s)
      → sign_relay_token platform grant_token
          (relay_grant_claims_of g)
          config.context_hmac_key
          w.mac_cache
        ≡ some signed
      → admit_request platform digests clock env now meanwhile config identity name r b policy w ≡ (
        allowed
            (record {
              grant_id = g.grant_id;
              lease_generation = g.lease_generation;
              max_output_tokens = b.max_output_tokens;
              cache_enabled = policy.cache_enabled;
              quota = q;
            })
            signed.0,
        record w { controllers = insert name s w.controllers; mac_cache = signed.1 },
      )
  unfolding admit_request sign_admitted
  admit_request-allowed identity name r b policy w g q s signed h k = ground arith

  pub decide_budget-admit_request :
      (identity : QuotaIdentity) (name : String) (r : Request) (b : Resolved)
      (policy : ClientPolicy) (w : World platform)
      → budget_for platform digests clock env now meanwhile identity
          (controller name w.controllers)
          r
          policy
        ≡ resolved b
      → decide_budget platform digests clock env now meanwhile config identity name r policy w
        ≡ admit_request platform digests clock env now meanwhile config identity name r b policy
            (record w { controllers = meanwhile w.controllers })
  unfolding decide_budget
  decide_budget-admit_request identity name r b policy w h = ground arith

  pub decide-decide_request :
      (own_name : Option String) (db : Database) (input : DecisionInput) (w : World platform)
      (verified : Option RelayContext × Cache platform) (r : Request)
      → verify_relay_context platform input.context_token config.context_hmac_key config.environment
          now w.mac_cache
        ≡ verified
      → guard_request platform digests own_name config.environment verified.0 input ≡ pass r
      → decide platform digests clock env now meanwhile (enabled config) own_name db input w
        ≡ decide_request platform digests clock env now meanwhile config db r
            (record w { mac_cache = verified.1 })
  unfolding decide decide_enabled
  decide-decide_request own_name db input w verified r h k = ground arith
