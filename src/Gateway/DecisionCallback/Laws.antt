-- ===== src/Gateway/DecisionCallback/Laws.antt =====
-- What stands behind a decision that a callback passes on.
use octg.Common.{
  ℕ, ◌≡◌, inl, inr, refl, String, Option, none, some, List, length, ltb, false, Option-cases,
  Bool-cases, arith,
}
use octg.Shared.Idempotency.{ParsedIdempotencyKey, parse_idempotency_key}
use octg.Relay.Value.{◌>>=◌}
use octg.Relay.Kinds.{context_token}
use octg.Relay.Claims.Sound.{IsWellFormed}
use octg.Relay.Routing.{relay_decision_shard_name}
use octg.Relay.Credential.{Platform, Cache, sign_relay_token, relay_max_context_header_bytes}
use octg.Relay.Credential.Verified.{IsFresh}
use octg.Relay.Credential.Sound.{IsCurrent}
use octg.Quota.Store.{Clock, QuotaEnv}
use octg.Quota.Admission
use octg.Gateway.Auth.{EnabledRelayConfig, enabled}
use octg.Gateway.Callback.{Controllers, read_bounded_bytes, relay_max_callback_body_bytes}
use octg.Gateway.Decide.Guards.{
  AllowDecision, DispatchResult, allowed, rejected, protocol_error, internal, thrown, Request,
  check_shard_identity, right_shard,
}
use octg.Gateway.Decide.{World, Database, decide}
use octg.Gateway.Decide.Admitted.{Allowed}
use octg.Gateway.Decide.Allowed.{decide-Allowed}
use octg.Gateway.DecisionCallback.{
  DecisionRequest, DecisionAnswer, allow_envelope, answer_of, extract_request_id_hint,
  dispatch_decision, dispatch_hinted, read_and_dispatch, handle_token, handle_decision,
}

answer_of-allow :
    (r : DispatchResult) (d : AllowDecision) (t : List ℕ)
    → answer_of r ≡ allow_envelope d t
    → r ≡ allowed d t
unfolding answer_of
answer_of-allow (allowed e u) d t h = ground arith
answer_of-allow (rejected e) d t h = absurd (ground arith)
answer_of-allow (protocol_error code) d t h = absurd (ground arith)
answer_of-allow internal d t h = absurd (ground arith)
answer_of-allow thrown d t h = absurd (ground arith)

module _ (platform : Platform) (atob : List ℕ → Option (List ℕ)) (digests : Admission.Platform)
    (clock : Clock) (env : QuotaEnv) (now : ℕ) (meanwhile : Controllers → Controllers)
    (config : EnabledRelayConfig) (db : Database) where
  module _ (d : AllowDecision) (granted : List ℕ) (w w' : World platform) where
    abbrev answer : DecisionAnswer × World platform
    answer = (allow_envelope d granted, w')

    -- The shard of the hint decided on the token, and allowed.
    abbrev pub WasDecided : List ℕ → Type 0
    WasDecided token =
        (request_id : String) × (key : Option String) × (body : List ℕ) × (extract_request_id_hint
            platform atob token
          ≡ some request_id)
        × (decide platform digests clock env now meanwhile (enabled config)
              (some (relay_decision_shard_name config.environment request_id)) db
              (record { decision_body = body; context_token = token; raw_idempotency_key = key }) w
            ≡ (allowed d granted, w'))

    hinted-WasDecided :
        (token : List ℕ) (key : Option String) (body : List ℕ)
        → dispatch_hinted platform atob digests clock env now meanwhile config db token key body w
          ≡ answer
        → WasDecided token
    unfolding dispatch_hinted dispatch_decision
    hinted-WasDecided token key body h =
        elim (Option-cases (extract_request_id_hint platform atob token)) [
          | inl n ↦ absurd (ground arith)
          | inr (request_id, e) ↦
              let same_answer : answer_of
                    (decide platform digests clock env now meanwhile (enabled config)
                      (some (relay_decision_shard_name config.environment request_id)) db
                      (record {
                        decision_body = body;
                        context_token = token;
                        raw_idempotency_key = key;
                      })
                      w).0
                  ≡ allow_envelope d granted =
                ground arith in
              let told = answer_of-allow _ d granted same_answer in
              (request_id, key, body, e, ground arith)
        ]

    read-WasDecided :
        (token : List ℕ) (key : Option String) (body : List (List ℕ))
        → read_and_dispatch platform atob digests clock env now meanwhile config db token key body w
          ≡ answer
        → WasDecided token
    unfolding read_and_dispatch
    read-WasDecided token key body h =
        elim (Option-cases (read_bounded_bytes relay_max_callback_body_bytes body)) [
          | inl n ↦ absurd (ground arith)
          | inr (bytes, e) ↦ hinted-WasDecided token key bytes (ground arith)
        ]

    token-WasDecided :
        (token : List ℕ) (request : DecisionRequest)
        → handle_token platform atob digests clock env now meanwhile config db token request w
          ≡ answer
        → WasDecided token
    unfolding handle_token
    token-WasDecided token request h =
        elim (Bool-cases (ltb relay_max_context_header_bytes (length token))) [
          | inl q ↦ absurd (ground arith)
          | inr q ↦ go (parse_idempotency_key request.key_header) refl
        ]
      where
        go :
            (k : ParsedIdempotencyKey)
            → parse_idempotency_key request.key_header ≡ k
            → WasDecided token
        go ParsedIdempotencyKey.invalid e = absurd (ground arith)
        go ParsedIdempotencyKey.absent e = read-WasDecided token none request.body (ground arith)
        go (ParsedIdempotencyKey.valid k) e =
            read-WasDecided token (some k) request.body (ground arith)

  -- What the guards let through is the answer of the shard.
  pub handle_decision-decide :
      (request : DecisionRequest) (token bytes : List ℕ) (hint name : String) (w : World platform)
      → request.context_header ≡ some token
      → ltb relay_max_context_header_bytes (length token) ≡ false
      → parse_idempotency_key request.key_header ≡ ParsedIdempotencyKey.absent
      → read_bounded_bytes relay_max_callback_body_bytes request.body ≡ some bytes
      → extract_request_id_hint platform atob token ≡ some hint
      → relay_decision_shard_name config.environment hint ≡ name
      → (r : DispatchResult × World platform)
      → decide platform digests clock env now meanwhile
          (enabled config)
          (some name)
          db
          (record { decision_body = bytes; context_token = token; raw_idempotency_key = none })
          w
        ≡ r
      → handle_decision platform atob digests clock env now meanwhile config db request w
        ≡ (answer_of r.0, r.1)
  unfolding handle_decision handle_token read_and_dispatch dispatch_hinted dispatch_decision
  handle_decision-decide request token bytes hint name w c l k b e n r h = ground arith

  -- Where a callback is answered with an allowed decision, and a cached key is the one that its bytes
  -- import to, its header carries a token that names a request id without a signature, and the shard
  -- of that id decided: the token is, to the letter, what the key signs for a well formed context of
  -- the environment that has not expired, the shard is that of the request in the context too, and
  -- what is told is what the quota controller admitted for it.
  pub handle_decision-Allowed :
      (request : DecisionRequest) (d : AllowDecision) (granted : List ℕ) (w w' : World platform)
      (later : Cache platform)
      → IsFresh platform w.mac_cache
      → IsFresh platform later
      → handle_decision platform atob digests clock env now meanwhile config db request w
        ≡ (allow_envelope d granted, w')
      → (token : List ℕ) × (hint : String) × (r : Request) × (request.context_header ≡ some token)
        × (extract_request_id_hint platform atob token ≡ some hint)
        × ((sign_relay_token platform context_token r.context config.context_hmac_key later >>= λ s.
              some s.0)
            ≡ some token)
        × IsCurrent r.context.environment config.environment r.context.issued_at_ms
            r.context.expires_at_ms now
        × IsWellFormed r.context
        × (check_shard_identity
              (some (relay_decision_shard_name config.environment hint))
              config.environment
              r.context.request_id
            ≡ right_shard)
        × Allowed platform digests clock env now meanwhile config db w.caches r w.controllers d
            granted w'.controllers
  unfolding handle_decision
  handle_decision-Allowed request d granted w w' later fresh fresh_later h =
      elim (Option-cases request.context_header) [
        | inl n ↦ absurd (ground arith)
        | inr (token, e) ↦
            let (hint, key, body, hinted, decided) =
              token-WasDecided d granted w w' token request (ground arith) in
            let (r, signed, current, formed, shard, was) =
              decide-Allowed platform digests clock env now meanwhile config
                (some (relay_decision_shard_name config.environment hint)) db
                (record { decision_body = body; context_token = token; raw_idempotency_key = key })
                w w' later d granted fresh fresh_later decided in
            (token, hint, r, e, hinted, signed, current, formed, shard, was)
      ]
