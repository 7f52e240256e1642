-- ===== src/Relay/Credential/Sound.antt =====
-- Contexts and grant credentials that are verified.
use octg.Common.{
  ℕ, zero, suc, ◌≤◌, ◌<◌, ◌≡◌, ◌≢◌, refl, ap, some, List, [], ◌∷◌, arith, Option-cases, Bool-cases,
  inl, inr, true, codes, same,
}
use octg.Common.Encoding.{utf8}
use octg.Relay.Value.{◌>>=◌}
use octg.Relay.Messages.{RelayEnvironment, preview, production, RelayContext, RelayGrantCredential}
use octg.Relay.Claims.Sound.{IsWellFormed, parse_relay_context-IsWellFormed}
use octg.Relay.Kinds.{context_token, grant_token, environment_text}
use octg.Relay.Credential.{
  Platform, Cache, is_current, mac_input, sign_relay_token, verify_relay_token,
  verify_relay_context, verify_relay_grant_credential,
}
use octg.Relay.Credential.Verified.{IsFresh, verified_token}

-- The claims name the environment that is expected, and the time is in their window.
pub record IsCurrent (environment expected : RelayEnvironment) (issued expires now : ℕ)
    : Type 0 where
  pub environment_eq : environment ≡ expected
  pub issued_le : issued ≤ now
  pub alive : now < expires

environment_text-injective :
    (a b : RelayEnvironment) → same (environment_text a) (environment_text b) ≡ true → a ≡ b
unfolding environment_text same
environment_text-injective preview preview h = refl
environment_text-injective production production h = refl
environment_text-injective preview production h = ground arith
environment_text-injective production preview h = ground arith

is_current-IsCurrent :
    (environment expected : RelayEnvironment) (issued expires now : ℕ)
    → is_current environment expected issued expires now ≡ true
    → IsCurrent environment expected issued expires now
unfolding is_current
is_current-IsCurrent environment expected issued expires now h = record {
  environment_eq = environment_text-injective environment expected (ground arith);
  issued_le = ground arith;
  alive = ground arith;
}

module _ (platform : Platform) (token key : List ℕ) (expected : RelayEnvironment) (now : ℕ)
    (cache later : Cache platform) (fresh : IsFresh platform cache)
    (fresh_later : IsFresh platform later) where
  context_checks :
      (c : RelayContext)
      → (verify_relay_context platform token key expected now cache).0 ≡ some c
      → ((verify_relay_token platform context_token token key cache).0 ≡ some c)
        × (is_current c.environment expected c.issued_at_ms c.expires_at_ms now ≡ true)
  unfolding verify_relay_context
  context_checks c h =
      elim (Option-cases (verify_relay_token platform context_token token key cache).0) [
        | inl n ↦ ground arith
        | inr (d, e) ↦
            elim (Bool-cases
              (is_current d.environment expected d.issued_at_ms d.expires_at_ms now)) [
                | inl q ↦ ground arith
                | inr q ↦ ground arith
              ]
      ]

  -- Where a cached key is the one that its bytes import to, a context that is verified is signed by
  -- the key: the token is, to the letter, the one that signing the claims gives. The claims are of
  -- the expected environment, well formed, issued by now and not expired.
  pub verify_relay_context-IsSigned :
      (c : RelayContext)
      → (verify_relay_context platform token key expected now cache).0 ≡ some c
      → ((sign_relay_token platform context_token c key later >>= λ r. some r.0) ≡ some token)
        × IsCurrent c.environment expected c.issued_at_ms c.expires_at_ms now
        × IsWellFormed c
  verify_relay_context-IsSigned c h =
      let (verified, current) = context_checks c h in
      let (signed, (v, parsed)) =
        verified_token platform context_token token key cache later c fresh fresh_later verified in
      (signed, is_current-IsCurrent _ _ _ _ _ current, parse_relay_context-IsWellFormed v c parsed)

  grant_checks :
      (c : RelayGrantCredential)
      → (verify_relay_grant_credential platform token key expected now cache).0 ≡ some c
      → ((verify_relay_token platform grant_token token key cache).0 ≡ some c)
        × (is_current c.environment expected c.issued_at_ms c.expires_at_ms now ≡ true)
  unfolding verify_relay_grant_credential
  grant_checks c h =
      elim (Option-cases (verify_relay_token platform grant_token token key cache).0) [
        | inl n ↦ ground arith
        | inr (d, e) ↦
            elim (Bool-cases
              (is_current d.environment expected d.issued_at_ms d.expires_at_ms now)) [
                | inl q ↦ ground arith
                | inr q ↦ ground arith
              ]
      ]

  pub verify_relay_grant_credential-IsSigned :
      (c : RelayGrantCredential)
      → (verify_relay_grant_credential platform token key expected now cache).0 ≡ some c
      → ((sign_relay_token platform grant_token c key later >>= λ r. some r.0) ≡ some token)
        × IsCurrent c.environment expected c.issued_at_ms c.expires_at_ms now
  verify_relay_grant_credential-IsSigned c h =
      let (verified, current) = grant_checks c h in
      let (signed, (v, parsed)) =
        verified_token platform grant_token token key cache later c fresh fresh_later verified in
      (signed, is_current-IsCurrent _ _ _ _ _ current)

apart : (a b : ℕ) → a ≡ 99 → b ≡ 103 → a ≢ b
apart a b p q h = absurd (omega arith)

unit_at : ℕ → List ℕ → ℕ
unit_at n [] = 0
unit_at zero (c ∷ cs) = c
unit_at (suc n) (c ∷ cs) = unit_at n cs

-- No context's signature has the input of a grant's, whatever their payloads are.
pub mac_input_separate :
    (p q : List ℕ) → mac_input context_token.purpose p ≢ mac_input grant_token.purpose q
unfolding mac_input codes utf8 unit_at
mac_input_separate p q h = apart _ _ refl refl (ap (unit_at 11) h)
