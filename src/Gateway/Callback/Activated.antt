-- ===== src/Gateway/Callback/Activated.antt =====
-- A callback that is told that its grant was activated.
use octg.Common.{
  ℕ, ◌≡◌, refl, sym, ap, subst, ◌∙◌, inl, inr, String, Bool, true, false, Option, none, some, List,
  Bool-cases, arith, insert,
}
use octg.Relay.Value.{Value, ◌>>=◌}
use octg.Relay.Messages.{RelayGrantCredential, RelayTerminal}
use octg.Relay.Parse.{
  GrantReference, parse_relay_activation, parse_relay_renewal, parse_relay_terminal,
}
use octg.Relay.Kinds.{grant_token}
use octg.Relay.Credential.{Platform, Cache, sign_relay_token}
use octg.Relay.Credential.Verified.{IsFresh}
use octg.Relay.Credential.Sound.{IsCurrent, verify_relay_grant_credential-IsSigned}
use octg.Shared.Pool.{quota_id_of}
use octg.Quota.Store.{Storage, Clock, QuotaEnv, QuotaIdentity, RelayGrant, Result, ok}
use octg.Quota.Reserve.{identity_of}
use octg.Quota.GrantLifecycle.{
  ActivateResult, activated, RenewRelayResult, renewed, FinishResult, accepted,
  activate_relay_in_transaction,
}
use octg.Quota.GrantLifecycle.Laws.{Activation, activate-Activation}
use octg.Gateway.Claims.{binding_of}
use octg.Gateway.Auth.{EnabledRelayConfig, verify_relay_grant_header}
use octg.Gateway.Callback.{
  GrantRequest, GrantAction, activation, renewal, terminal, Answer, activation_envelope,
  activation_answer, renewal_answer, terminal_answer, Controllers, controller, dispatch,
  names_grant, activate_with, renew_with, finish_with, act, handle_grant_callback,
}
use octg.Gateway.Callback.Laws.{is_error, dispatch-Cases, handle-Cases}

abbrev tells_activated : Answer → Bool
tells_activated (activation_envelope none) = true
tells_activated _ = false

-- A dispatch whose answers never tell an activation tells none.
dispatch_tells_none :
    {A : Type 0} (call : QuotaIdentity → Storage → Result (A × Storage)) (answer : A → Answer)
    (name : String) (cs : Controllers)
    → ((a : A) → tells_activated (answer a) ≡ false)
    → tells_activated (dispatch call answer name cs).0 ≡ false
dispatch_tells_none call answer name cs h = elim (dispatch-Cases call answer name cs) [
  | inl e ↦ ap (λ r. tells_activated r.0) e
  | inr (identity, r, i, c, e) ↦ ap (λ x. tells_activated x.0) e ∙ h r.0
]

renewal_tells_none : (r : RenewRelayResult) → tells_activated (renewal_answer r) ≡ false
renewal_tells_none (renewed g e) = refl
renewal_tells_none (RenewRelayResult.denied code) = refl

terminal_tells_none : (r : FinishResult) → tells_activated (terminal_answer r) ≡ false
terminal_tells_none (accepted g e) = refl
terminal_tells_none (FinishResult.denied code state) = refl

module _ (clock : Clock) (env : QuotaEnv) (now : ℕ) where
  abbrev pub name_of : RelayGrantCredential → String
  name_of c = quota_id_of c.pool c.admission_utc_day

  -- The controller of the claims' day activated the grant that the claims name.
  pub record ControllerActivated (c : RelayGrantCredential) (cs cs' : Controllers) : Type 0 where
    pub identity : QuotaIdentity
    pub grant : RelayGrant
    pub storage : Storage
    pub named : identity_of (some (name_of c)) ≡ ok identity
    pub activation :
        Activation clock env identity now (binding_of c) (controller (name_of c) cs) grant storage
    pub written : cs' ≡ insert (name_of c) storage cs

  result_activated :
      (c : RelayGrantCredential) (cs cs' : Controllers) (identity : QuotaIdentity)
      (r : ActivateResult) (t : Storage)
      → identity_of (some (name_of c)) ≡ ok identity
      → activate_relay_in_transaction clock env identity now
          (binding_of c)
          (controller (name_of c) cs)
        ≡ ok (r, t)
      → tells_activated (activation_answer r) ≡ true
      → cs' ≡ insert (name_of c) t cs
      → ControllerActivated c cs cs'
  result_activated c cs cs' identity (activated g) t i h a w = record {
    identity = identity;
    grant = g;
    storage = t;
    named = i;
    activation =
        activate-Activation clock env identity now (binding_of c) g (controller (name_of c) cs) t h;
    written = w;
  }
  result_activated c cs cs' identity (ActivateResult.denied code) t i h a w = absurd (ground arith)

  abbrev activation_call :
      RelayGrantCredential → QuotaIdentity → Storage → Result (ActivateResult × Storage)
  activation_call c identity = activate_relay_in_transaction clock env identity now (binding_of c)

  abbrev activation_dispatch : RelayGrantCredential → Controllers → Answer × Controllers
  activation_dispatch c cs = dispatch (activation_call c) activation_answer (name_of c) cs

  dispatch-ControllerActivated :
      (c : RelayGrantCredential) (cs : Controllers)
      → tells_activated (activation_dispatch c cs).0 ≡ true
      → ControllerActivated c cs (activation_dispatch c cs).1
  dispatch-ControllerActivated c cs told =
      elim (dispatch-Cases (activation_call c) activation_answer (name_of c) cs) [
        | inl e ↦ absurd (ground (arith, ap (λ x. tells_activated x.0) e))
        | inr (identity, r, i, k, e) ↦
            result_activated c cs _ identity r.0 r.1 i k
              (sym (ap (λ x. tells_activated x.0) e) ∙ told) (ap (λ x. x.1) e)
      ]

  activate_with-dispatch :
      (r : GrantReference) (c : RelayGrantCredential) (cs : Controllers)
      → names_grant r c ≡ true
      → activate_with clock env now (some r) c cs ≡ activation_dispatch c cs
  unfolding activate_with
  activate_with-dispatch r c cs q = rw (q) refl

  activate_with-ControllerActivated :
      (r : Option GrantReference) (c : RelayGrantCredential) (cs : Controllers)
      → tells_activated (activate_with clock env now r c cs).0 ≡ true
      → ControllerActivated c cs (activate_with clock env now r c cs).1
  unfolding activate_with
  activate_with-ControllerActivated none c cs h = absurd (ground arith)
  activate_with-ControllerActivated (some r) c cs h = elim (Bool-cases (names_grant r c)) [
    | inr q ↦ absurd (ground arith)
    | inl q ↦
        let e = activate_with-dispatch r c cs q in
        subst (λ x. ControllerActivated c cs x.1) (sym e)
          (dispatch-ControllerActivated c cs (sym (ap (λ x. tells_activated x.0) e) ∙ h))
  ]

  renew_tells_none :
      (r : Option GrantReference) (c : RelayGrantCredential) (cs : Controllers)
      → tells_activated (renew_with clock env now r c cs).0 ≡ false
  unfolding renew_with
  renew_tells_none none c cs = refl
  renew_tells_none (some r) c cs = elim (Bool-cases (names_grant r c)) [
    | inr q ↦ ground arith
    | inl q ↦ rw (q) (dispatch_tells_none _ renewal_answer (name_of c) cs renewal_tells_none)
  ]

  finish_tells_none :
      (r : Option RelayTerminal) (c : RelayGrantCredential) (cs : Controllers)
      → tells_activated (finish_with clock env now r c cs).0 ≡ false
  unfolding finish_with
  finish_tells_none none c cs = refl
  finish_tells_none (some r) c cs =
      dispatch_tells_none _ terminal_answer (name_of c) cs terminal_tells_none

  act-ControllerActivated :
      (a : GrantAction) (body : Value) (c : RelayGrantCredential) (cs : Controllers)
      → tells_activated (act clock env now a body c cs).0 ≡ true
      → ControllerActivated c cs (act clock env now a body c cs).1
  unfolding act
  act-ControllerActivated activation body c cs h =
      activate_with-ControllerActivated (parse_relay_activation body) c cs h
  act-ControllerActivated renewal body c cs h =
      absurd (ground (arith, renew_tells_none (parse_relay_renewal body) c cs))
  act-ControllerActivated terminal body c cs h =
      absurd (ground (arith, finish_tells_none (parse_relay_terminal body) c cs))

  module _ (platform : Platform) (request : GrantRequest) (config : EnabledRelayConfig)
      (cache later : Cache platform) (fresh : IsFresh platform cache)
      (fresh_later : IsFresh platform later) where
    header-IsSigned :
        (header : Option (List ℕ)) (c : RelayGrantCredential)
        → (verify_relay_grant_header platform header config now cache).0 ≡ some c
        → (token : List ℕ) × (header ≡ some token)
          × ((sign_relay_token platform grant_token c config.context_hmac_key later >>= λ r.
                some r.0)
              ≡ some token)
          × IsCurrent c.environment config.environment c.issued_at_ms c.expires_at_ms now
    unfolding verify_relay_grant_header
    header-IsSigned none c h = absurd (ground arith)
    header-IsSigned (some token) c h =
        let (signed, current) =
          verify_relay_grant_credential-IsSigned platform token config.context_hmac_key
            config.environment now cache later fresh fresh_later c h in
        (token, refl, signed, current)

    -- Where a callback is told that its grant was activated, and a cached key is the one that its
    -- bytes import to, its header is, to the letter, the token that the worker's key signs for claims
    -- of the worker's environment that are issued and not expired; and the controller of the claims'
    -- pool and day activated the grant that the claims name.
    pub told-ControllerActivated :
        (cs cs' : Controllers)
        → handle_grant_callback clock env now platform request config cache cs
          ≡ (activation_envelope none, cs')
        → (c : RelayGrantCredential) × (token : List ℕ) × (request.grant_header ≡ some token)
          × ((sign_relay_token platform grant_token c config.context_hmac_key later >>= λ r.
                some r.0)
              ≡ some token)
          × IsCurrent c.environment config.environment c.issued_at_ms c.expires_at_ms now
          × ControllerActivated c cs cs'
    told-ControllerActivated cs cs' h =
        elim (handle-Cases clock env now platform request config cache cs) [
          | inl k ↦ absurd (ground (arith, k.1, ap (λ x. is_error x.0) h))
          | inr (c, body, v, e) ↦
              let (token, present, signed, current) = header-IsSigned request.grant_header c v in
              let done = sym e ∙ h in
              (
                c,
                token,
                present,
                signed,
                current,
                subst (λ x. ControllerActivated c cs x.1) done
                    (act-ControllerActivated request.action body c cs
                      (ap (λ x. tells_activated x.0) done)),
              )
        ]
