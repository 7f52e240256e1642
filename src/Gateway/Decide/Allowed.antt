-- ===== src/Gateway/Decide/Allowed.antt =====
-- What stands behind a decision that allows a request.
use octg.Common.{ℕ, ◌≡◌, refl, String, Option, none, some, List, arith}
use octg.Relay.Messages.{RelayContext}
use octg.Relay.Value.{◌>>=◌}
use octg.Relay.Kinds.{context_token}
use octg.Relay.Claims.Sound.{IsWellFormed}
use octg.Relay.Credential.{Platform, Cache, sign_relay_token, verify_relay_context}
use octg.Relay.Credential.Verified.{IsFresh}
use octg.Relay.Credential.Sound.{IsCurrent, verify_relay_context-IsSigned}
use octg.Quota.Store.{Clock, QuotaEnv}
use octg.Quota.Admission.{AdmissionResult, admitted, QuotaSnapshot, admit_relay_in_transaction}
use octg.Quota.Admission
use octg.Gateway.Auth.{enabled, EnabledRelayConfig}
use octg.Gateway.Callback.{Controllers}
use octg.Gateway.Decide.Guards.{
  DecisionInput, AllowDecision, allowed, Request, Guarded, stop, pass, guard_request,
  check_shard_identity, guard_answer, right_shard,
}
use octg.Gateway.Decide.{World, Database, decide_enabled, decide}
use octg.Gateway.Decide.Guards.Passed.{guard_request-pass}
use octg.Gateway.Decide.Admitted.{Allowed, decide_request-Allowed}

module _ (platform : Platform) (digests : Admission.Platform) (clock : Clock) (env : QuotaEnv)
    (now : ℕ) (meanwhile : Controllers → Controllers) where
  -- Where a decision allows a request, and a cached key is the one that its bytes import to, its
  -- context token is, to the letter, what the key signs for a well formed context of the environment
  -- that has not expired, and the controller is the shard of that request. The quota controller of the
  -- current day and of the pool that the registry gives the model admitted the request, after whatever
  -- other calls came between, on a budget that resolved on what it had left before them, under the
  -- policy that the client is given, tools only where that policy allows them. The grant that it
  -- stored is the one told, and the credential is the signature of that grant's claims.
  pub decide-Allowed :
      (config : EnabledRelayConfig) (own_name : Option String) (db : Database)
      (input : DecisionInput) (w w' : World platform) (later : Cache platform) (d : AllowDecision)
      (token : List ℕ)
      → IsFresh platform w.mac_cache
      → IsFresh platform later
      → decide platform digests clock env now meanwhile (enabled config) own_name db input w
        ≡ (allowed d token, w')
      → (r : Request) × ((sign_relay_token platform context_token r.context config.context_hmac_key
              later
            >>= λ s. some s.0)
          ≡ some input.context_token)
        × IsCurrent r.context.environment config.environment r.context.issued_at_ms
            r.context.expires_at_ms now
        × IsWellFormed r.context
        × (check_shard_identity own_name config.environment r.context.request_id ≡ right_shard)
        × Allowed platform digests clock env now meanwhile config db w.caches r w.controllers d
            token w'.controllers
  unfolding decide decide_enabled guard_answer
  decide-Allowed config own_name db input w w' later d token fresh fresh_later h =
      go (guard_request platform digests own_name config.environment verified.0 input) refl
    where
      verified : Option RelayContext × Cache platform
      verified =
          verify_relay_context platform input.context_token config.context_hmac_key
            config.environment now w.mac_cache

      go :
          (g : Guarded)
          → guard_request platform digests own_name config.environment verified.0 input ≡ g
          → (r : Request) × ((sign_relay_token platform context_token r.context
                  config.context_hmac_key later
                >>= λ s. some s.0)
              ≡ some input.context_token)
            × IsCurrent r.context.environment config.environment r.context.issued_at_ms
                r.context.expires_at_ms now
            × IsWellFormed r.context
            × (check_shard_identity own_name config.environment r.context.request_id ≡ right_shard)
            × Allowed platform digests clock env now meanwhile config db w.caches r w.controllers d
                token w'.controllers
      go (stop none) e = absurd (ground arith)
      go (stop (some code)) e = absurd (ground arith)
      go (pass r) e =
          let (context, shard) =
            guard_request-pass platform digests own_name config.environment verified.0 input r e in
          let (signed, current, formed) =
            verify_relay_context-IsSigned platform input.context_token config.context_hmac_key
              config.environment now w.mac_cache later fresh fresh_later r.context context in
          (
            r,
            signed,
            current,
            formed,
            shard,
            decide_request-Allowed platform digests clock env now meanwhile config d token w' db r
                (record w { mac_cache = verified.1 }) (ground arith),
          )
