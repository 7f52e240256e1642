-- ===== src/Gateway/Decide/Admitted.antt =====
-- What stands behind an admission, and behind a budget that leads to one.
use octg.Common.{
  ℕ, ◌≡◌, ◌≢◌, refl, inl, inr, String, false, not, ◌&&◌, none, some, List, Option-cases, Bool-cases,
  arith, insert,
}
use octg.Shared.Types.{PoolName}
use octg.Shared.Pool.{quota_id_of}
use octg.Shared.Calendar.{print_day}
use octg.Shared.Classify.{classify_model}
use octg.Shared.Budget
use octg.Shared.Budget.{Resolved, BudgetOutcome, resolved, quota_exceeded, arithmetic_error}
use octg.Relay.Kinds.{grant_token}
use octg.Relay.Routing.{utc_day_of}
use octg.Relay.Credential.{Platform, Cache, sign_relay_token}
use octg.Quota.Store.{
  Storage, Clock, QuotaEnv, QuotaIdentity, RelayGrant, Result, ok, failed, Result-cases,
}
use octg.Quota.Reserve.{identity_of}
use octg.Quota.Admission.{AdmissionResult, admitted, QuotaSnapshot, admit_relay_in_transaction}
use octg.Quota.Admission
use octg.Quota.GrantLifecycle.{FinishResult}
use octg.Gateway.Claims.{relay_grant_claims_of}
use octg.Gateway.Auth.{EnabledRelayConfig}
use octg.Gateway.Policy.{ClientPolicy, Caches, load_policy, load_registry}
use octg.Gateway.Callback.{Controllers, controller}
use octg.Gateway.Decide.Guards.{AllowDecision, DispatchResult, allowed, reject_decision, Request}
use octg.Gateway.Decide.{
  World, Database, admission_input, after_release, release_unsigned, stored, sign_admitted,
  admit_request, budget_for, decide_budget, decide_pool, decide_request, tools_allowed,
}

module _ (platform : Platform) (digests : Admission.Platform) (clock : Clock) (env : QuotaEnv)
    (now : ℕ) (meanwhile : Controllers → Controllers) (config : EnabledRelayConfig) where
  -- The controller admitted the request, and the credential is the signature of the claims of the
  -- grant that it stored and that is told.
  pub record Admitted (identity : QuotaIdentity) (name : String) (r : Request) (b : Resolved)
      (policy : ClientPolicy) (cs : Controllers) (d : AllowDecision) (token : List ℕ)
      (cs' : Controllers) : Type 0 where
    pub grant : RelayGrant
    pub quota : QuotaSnapshot
    pub storage : Storage
    pub cache : Cache platform
    pub later : Cache platform
    pub admission :
        admit_relay_in_transaction clock env identity now digests
          (admission_input r b policy)
          (controller name cs)
        ≡ ok (admitted grant quota, storage)
    pub signed :
        sign_relay_token platform grant_token
          (relay_grant_claims_of grant)
          config.context_hmac_key
          cache
        ≡ some (token, later)
    pub told : d ≡ record {
      grant_id = grant.grant_id;
      lease_generation = grant.lease_generation;
      max_output_tokens = b.max_output_tokens;
      cache_enabled = policy.cache_enabled;
      quota = quota;
    }
    pub written : cs' ≡ insert name storage cs

  -- The policy that a client is given in this call, once the registry is loaded.
  abbrev pub policy_given : Database → Caches → String → ClientPolicy
  policy_given db c client =
      (load_policy now (db.policy_row client) client (load_registry now db.registry_rows c).1).0

  -- The pool is the one of the model in the registry, the policy the one that the client is given, and
  -- the controller that of the pool and of the day of the call; the budget resolved on what it had
  -- left before other calls came between.
  pub record Allowed (db : Database) (c : Caches) (r : Request) (cs : Controllers)
      (d : AllowDecision) (token : List ℕ) (cs' : Controllers) : Type 0 where
    pub pool : PoolName
    pub identity : QuotaIdentity
    pub policy : ClientPolicy
    pub budget : Resolved
    pub classified :
        classify_model r.metadata.model (load_registry now db.registry_rows c).0 ≡ some pool
    pub given : policy ≡ policy_given db c r.context.client_id
    pub named : identity_of (some (quota_id_of pool (print_day (utc_day_of now)))) ≡ ok identity
    pub budgeted :
        budget_for platform digests clock env now meanwhile identity
          (controller (quota_id_of pool (print_day (utc_day_of now))) cs)
          r
          policy
        ≡ resolved budget
    pub tools : (r.metadata.is_tool_use && not (tools_allowed policy.tools_mode)) ≡ false
    pub was_admitted :
        Admitted identity
          (quota_id_of pool (print_day (utc_day_of now)))
          r
          budget
          policy
          (meanwhile cs)
          d
          token
          cs'

  module _ (d : AllowDecision) (token : List ℕ) (w' : World platform) where
    abbrev answer : DispatchResult × World platform
    answer = (allowed d token, w')

    release_never_allows :
        (x : Result (FinishResult × Storage)) (s : Storage) (put : Storage → World platform)
        → after_release platform digests clock env now meanwhile x s put ≢ answer
    unfolding after_release
    release_never_allows (failed x) s put h = ground arith
    release_never_allows (ok r) s put h = ground arith

    sign_admitted-Admitted :
        (identity : QuotaIdentity) (name : String) (r : Request) (b : Resolved)
        (policy : ClientPolicy) (g : RelayGrant) (q : QuotaSnapshot) (s : Storage)
        (w : World platform)
        → admit_relay_in_transaction clock env identity now digests
            (admission_input r b policy)
            (controller name w.controllers)
          ≡ ok (admitted g q, s)
        → sign_admitted platform digests clock env now meanwhile config identity name b policy g q s
            w
          ≡ answer
        → Admitted identity name r b policy w.controllers d token w'.controllers
    unfolding sign_admitted release_unsigned
    sign_admitted-Admitted identity name r b policy g q s w admission h =
        elim (Option-cases (
          sign_relay_token platform grant_token (relay_grant_claims_of g) config.context_hmac_key
            w.mac_cache)) [
              | inl n ↦ absurd (
                  release_never_allows _ s (stored platform digests clock env now meanwhile name w)
                    (unsigned n))
              | inr (signed, e) ↦ record {
                grant = g;
                quota = q;
                storage = s;
                cache = w.mac_cache;
                later = signed.1;
                admission = admission;
                signed = ground arith;
                told = ground arith;
                written = ground arith;
              }
            ]
      where
        unsigned :
            sign_relay_token platform grant_token
                (relay_grant_claims_of g)
                config.context_hmac_key
                w.mac_cache
              ≡ none
            → release_unsigned platform digests clock env now meanwhile identity g s
                (stored platform digests clock env now meanwhile name w)
              ≡ answer
        unsigned n = ground arith

    admit_request-Admitted :
        (identity : QuotaIdentity) (name : String) (r : Request) (b : Resolved)
        (policy : ClientPolicy) (w : World platform)
        → admit_request platform digests clock env now meanwhile config identity name r b policy w
          ≡ answer
        → Admitted identity name r b policy w.controllers d token w'.controllers
    unfolding admit_request reject_decision
    admit_request-Admitted identity name r b policy w h =
        go
          (admit_relay_in_transaction clock env identity now digests (admission_input r b policy)
            (controller name w.controllers))
          refl
      where
        go :
            (a : Result (AdmissionResult × Storage))
            → admit_relay_in_transaction clock env identity now digests
                (admission_input r b policy)
                (controller name w.controllers)
              ≡ a
            → Admitted identity name r b policy w.controllers d token w'.controllers
        go (failed x) e = absurd (ground arith)
        go (ok (AdmissionResult.denied code, s)) e = absurd (ground arith)
        go (ok (admitted g q, s)) e =
            sign_admitted-Admitted identity name r b policy g q s w e (ground arith)

    abbrev day_name : PoolName → String
    day_name pool = quota_id_of pool (print_day (utc_day_of now))

    decide_budget-Admitted :
        (identity : QuotaIdentity) (name : String) (r : Request) (policy : ClientPolicy)
        (w : World platform)
        → decide_budget platform digests clock env now meanwhile config identity name r policy w
          ≡ answer
        → (b : Resolved) × (budget_for platform digests clock env now meanwhile identity
              (controller name w.controllers)
              r
              policy
            ≡ resolved b)
          × Admitted identity name r b policy (meanwhile w.controllers) d token w'.controllers
    unfolding decide_budget reject_decision
    decide_budget-Admitted identity name r policy w h =
        go
          (budget_for platform digests clock env now meanwhile identity
            (controller name w.controllers) r policy)
          refl
      where
        disturbed : World platform
        disturbed = record w { controllers = meanwhile w.controllers }

        go :
            (o : BudgetOutcome)
            → budget_for platform digests clock env now meanwhile identity
                (controller name w.controllers)
                r
                policy
              ≡ o
            → (b : Resolved) × (budget_for platform digests clock env now meanwhile identity
                  (controller name w.controllers)
                  r
                  policy
                ≡ resolved b)
              × Admitted identity name r b policy (meanwhile w.controllers) d token w'.controllers
        go (resolved b) e =
            (b, e, admit_request-Admitted identity name r b policy disturbed (ground arith))
        go Budget.request_too_large e = absurd (ground arith)
        go quota_exceeded e = absurd (ground arith)
        go arithmetic_error e = absurd (ground arith)

    decide_pool-Allowed :
        (db : Database) (r : Request) (pool : PoolName) (w : World platform)
        → classify_model r.metadata.model (load_registry now db.registry_rows w.caches).0
          ≡ some pool
        → decide_pool platform digests clock env now meanwhile config db r pool
            (record w { caches = (load_registry now db.registry_rows w.caches).1 })
          ≡ answer
        → Allowed db w.caches r w.controllers d token w'.controllers
    unfolding decide_pool reject_decision
    decide_pool-Allowed db r pool w of_pool h =
        elim (Bool-cases (r.metadata.is_tool_use && not (tools_allowed policy.tools_mode))) [
          | inl q ↦ absurd (ground arith)
          | inr q ↦ elim (Result-cases (identity_of (some (day_name pool)))) [
            | inr (x, e) ↦ absurd (ground arith)
            | inl (identity, e) ↦
                let (b, budgeted, was) =
                  decide_budget-Admitted identity (day_name pool) r policy w1 (ground arith) in
                record {
                  pool = pool;
                  identity = identity;
                  policy = policy;
                  budget = b;
                  classified = of_pool;
                  given = refl;
                  named = e;
                  budgeted = budgeted;
                  tools = q;
                  was_admitted = was;
                }
          ]
        ]
      where
        loaded : ClientPolicy × Caches
        loaded =
            load_policy now (db.policy_row r.context.client_id) r.context.client_id
              (load_registry now db.registry_rows w.caches).1

        policy : ClientPolicy
        policy = loaded.0

        w1 : World platform
        w1 = record w { caches = loaded.1 }

    pub decide_request-Allowed :
        (db : Database) (r : Request) (w : World platform)
        → decide_request platform digests clock env now meanwhile config db r w ≡ answer
        → Allowed db w.caches r w.controllers d token w'.controllers
    unfolding decide_request reject_decision
    decide_request-Allowed db r w h =
        elim (Option-cases
          (classify_model r.metadata.model (load_registry now db.registry_rows w.caches).0)) [
            | inl n ↦ absurd (ground arith)
            | inr (pool, e) ↦ decide_pool-Allowed db r pool w e (ground arith)
          ]
