-- ===== src/Gateway/Decide/Guards/Passed.antt =====
-- What the guards let through.
use octg.Common.{
  ℕ, ◌≡◌, refl, sym, ap, subst, inl, inr, String, Option, none, some, List, Option-cases, arith,
}
use octg.Relay.Messages.{RelayContext, RelayEnvironment}
use octg.Relay.Body.{parse_relay_json_body}
use octg.Relay.Parse.{parse_relay_decision_request}
use octg.Shared.Idempotency.{ParsedIdempotencyKey, parse_idempotency_key}
use octg.Relay.Credential.{Platform}
use octg.Quota.Admission.{AdmissionResult, admitted, QuotaSnapshot, admit_relay_in_transaction}
use octg.Quota.Admission
use octg.Gateway.Callback.{relay_max_callback_body_bytes}
use octg.Gateway.Decide.Guards.{
  DecisionInput, Request, pass, guard_request, check_body, check_key, check_shard_identity,
  shard_answer, ShardIdentityCheck, right_shard, wrong_environment, shard_mismatch, invalid_name,
}

shard_answer-none : (c : ShardIdentityCheck) → shard_answer c ≡ none → c ≡ right_shard
unfolding shard_answer
shard_answer-none right_shard h = refl
shard_answer-none wrong_environment h = absurd (ground arith)
shard_answer-none shard_mismatch h = absurd (ground arith)
shard_answer-none invalid_name h = absurd (ground arith)

module _ (platform : Platform) (digests : Admission.Platform) where
  check_body-context :
      (context : RelayContext) (key : Option String) (body : List ℕ) (r : Request)
      → check_body platform digests context key body ≡ pass r
      → r.context ≡ context
  unfolding check_body
  check_body-context context key body r h =
      elim (Option-cases (parse_relay_json_body platform body relay_max_callback_body_bytes)) [
        | inl n ↦ absurd (ground arith)
        | inr (value, e) ↦ elim (Option-cases (parse_relay_decision_request value)) [
          | inl n ↦ absurd (ground arith)
          | inr (m, f) ↦ ground arith
        ]
      ]

  check_key-context :
      (context : RelayContext) (input : DecisionInput) (r : Request)
      → check_key platform digests context input ≡ pass r
      → r.context ≡ context
  unfolding check_key
  check_key-context context input r h = go (parse_idempotency_key input.raw_idempotency_key) refl
    where
      go :
          (k : ParsedIdempotencyKey)
          → parse_idempotency_key input.raw_idempotency_key ≡ k
          → r.context ≡ context
      go ParsedIdempotencyKey.invalid e = absurd (ground arith)
      go ParsedIdempotencyKey.absent e =
          check_body-context context none input.decision_body r (ground arith)
      go (ParsedIdempotencyKey.valid k) e =
          check_body-context context (some k) input.decision_body r (ground arith)

  -- The guards pass the verified context, at the shard of its request.
  pub guard_request-pass :
      (own_name : Option String) (environment : RelayEnvironment) (v : Option RelayContext)
      (input : DecisionInput) (r : Request)
      → guard_request platform digests own_name environment v input ≡ pass r
      → (v ≡ some r.context)
        × (check_shard_identity own_name environment r.context.request_id ≡ right_shard)
  unfolding guard_request
  guard_request-pass own_name environment none input r h = absurd (ground arith)
  guard_request-pass own_name environment (some c) input r h =
      elim (Option-cases (shard_answer (check_shard_identity own_name environment c.request_id))) [
        | inr (a, e) ↦ absurd (ground arith)
        | inl n ↦
            let same_context = check_key-context c input r (ground arith) in
            (
              ap some (sym same_context),
              subst
                  (λ (x : RelayContext).
                    check_shard_identity own_name environment x.request_id ≡ right_shard)
                  (sym same_context) (shard_answer-none _ n),
            )
      ]
