-- ===== src/Gateway/Callback/Laws.antt =====
-- What a callback on a grant needs, and what it changes.
use octg.Common.{
  ℕ, ◌+◌, ◌≤◌, ◌≡◌, refl, ap, ◌∙◌, ◌⊎◌, inl, inr, String, Bool, true, false, Option, none, some,
  List, [], ◌∷◌, ◌++◌, length, length-append, ltb, if◌then◌else◌, Option-cases, Bool-cases, arith,
  insert,
}
use mathlib.Core.List.{append_assoc, append-nil}
use octg.Relay.Value.{Value}
use octg.Relay.Errors.{internal_error}
use octg.Relay.Messages.{RelayGrantCredential, RelayTerminal}
use octg.Relay.Parse.{
  GrantReference, parse_relay_activation, parse_relay_renewal, parse_relay_terminal,
}
use octg.Relay.Body.{parse_relay_json_body}
use octg.Relay.Credential.{Platform, Cache}
use octg.Shared.Pool.{quota_id_of}
use octg.Quota.Store.{Storage, Clock, QuotaEnv, QuotaIdentity, Result, ok, Result-cases}
use octg.Quota.Reserve.{identity_of}
use octg.Quota.GrantLifecycle.{
  ActivateResult, activated, RenewRelayResult, renewed, FinishResult, accepted,
}
use octg.Gateway.Auth.{EnabledRelayConfig, verify_relay_grant_header}
use octg.Gateway.Callback.{
  read_chunks, read_bounded_bytes, relay_max_callback_body_bytes, GrantRequest, GrantAction,
  activation, renewal, terminal, Answer, error_envelope, activation_envelope, renewal_envelope,
  terminal_envelope, activation_answer, renewal_answer, terminal_answer, Controllers, controller,
  dispatch, names_grant, activate_with, renew_with, finish_with, act, handle_grant_callback,
}

abbrev pub concat : List (List ℕ) → List ℕ
concat [] = []
concat (x ∷ xs) = x ++ concat xs

abbrev bounded : ℕ → List ℕ → Option (List ℕ)
bounded max_bytes bytes = if ltb max_bytes (length bytes) then none else some bytes

read_chunks-bounded :
    (max_bytes : ℕ) (bytes : List ℕ) (chunks : List (List ℕ))
    → length bytes ≤ max_bytes
    → read_chunks max_bytes bytes chunks ≡ bounded max_bytes (bytes ++ concat chunks)
unfolding read_chunks
read_chunks-bounded m bytes [] h = rw (append-nil bytes) (ground arith)
read_chunks-bounded m bytes (chunk ∷ chunks) h =
    elim (Bool-cases (ltb m (length bytes + length chunk))) [
      | inl q ↦ ground (
        arith,
        append_assoc bytes chunk (concat chunks),
        length-append (bytes ++ chunk) (concat chunks),
        length-append bytes chunk,
      )
      | inr q ↦ ground (
        arith,
        append_assoc bytes chunk (concat chunks),
        length-append bytes chunk,
        read_chunks-bounded m (bytes ++ chunk) chunks,
      )
    ]

-- However a body is cut into chunks, it is read whole where it is within the bound, and refused
-- where it is not.
pub read_bounded_bytes_lem :
    (max_bytes : ℕ) (chunks : List (List ℕ))
    → read_bounded_bytes max_bytes chunks
      ≡ (if ltb max_bytes (length (concat chunks)) then none else some (concat chunks))
unfolding read_bounded_bytes
read_bounded_bytes_lem m chunks = read_chunks-bounded m [] chunks (omega arith)

pub dispatch-ok :
    {A : Type 0} (call : QuotaIdentity → Storage → Result (A × Storage)) (answer : A → Answer)
    (name : String) (cs : Controllers) (identity : QuotaIdentity) (r : A × Storage)
    → identity_of (some name) ≡ ok identity
    → call identity (controller name cs) ≡ ok r
    → dispatch call answer name cs ≡ (answer r.0, insert name r.1 cs)
unfolding dispatch
dispatch-ok call answer name cs identity r e f = ground arith

-- What a dispatched call did: it ran on the controller of the name, or an error left everything.
pub dispatch-Cases :
    {A : Type 0} (call : QuotaIdentity → Storage → Result (A × Storage)) (answer : A → Answer)
    (name : String) (cs : Controllers)
    → (dispatch call answer name cs ≡ (error_envelope internal_error 500, cs))
      ⊎ ((identity : QuotaIdentity) × (r : A × Storage) × (identity_of (some name) ≡ ok identity)
          × (call identity (controller name cs) ≡ ok r)
          × (dispatch call answer name cs ≡ (answer r.0, insert name r.1 cs)))
unfolding dispatch
dispatch-Cases call answer name cs = elim (Result-cases (identity_of (some name))) [
  | inr (x, e) ↦ inl (ground arith)
  | inl (identity, e) ↦ elim (Result-cases (call identity (controller name cs))) [
    | inr (x, f) ↦ inl (ground arith)
    | inl (r, f) ↦ inr (identity, r, e, f, dispatch-ok call answer name cs identity r e f)
  ]
]

abbrev pub is_error : Answer → Bool
is_error (error_envelope code status) = true
is_error (activation_envelope code) = false
is_error (renewal_envelope code) = false
is_error (terminal_envelope state code) = false

-- An error left every controller; any other answer came with a write to one.
abbrev Confined : String → Controllers → Answer × Controllers → Type 0
Confined name cs r =
    (r.1 ≡ cs) ⊎ ((t : Storage) × (is_error r.0 ≡ false) × (r.1 ≡ insert name t cs))

dispatch-Confined :
    {A : Type 0} (call : QuotaIdentity → Storage → Result (A × Storage)) (answer : A → Answer)
    (name : String) (cs : Controllers)
    → ((a : A) → is_error (answer a) ≡ false)
    → Confined name cs (dispatch call answer name cs)
dispatch-Confined call answer name cs h = elim (dispatch-Cases call answer name cs) [
  | inl e ↦ inl (ap (λ r. r.1) e)
  | inr (identity, r, i, c, e) ↦ inr (r.1, ap (λ x. is_error x.0) e ∙ h r.0, ap (λ x. x.1) e)
]

activation_answer-is_error : (r : ActivateResult) → is_error (activation_answer r) ≡ false
activation_answer-is_error (activated g) = refl
activation_answer-is_error (ActivateResult.denied code) = refl

renewal_answer-is_error : (r : RenewRelayResult) → is_error (renewal_answer r) ≡ false
renewal_answer-is_error (renewed g e) = refl
renewal_answer-is_error (RenewRelayResult.denied code) = refl

terminal_answer-is_error : (r : FinishResult) → is_error (terminal_answer r) ≡ false
terminal_answer-is_error (accepted g e) = refl
terminal_answer-is_error (FinishResult.denied code state) = refl

module _ (clock : Clock) (env : QuotaEnv) (now : ℕ) where
  abbrev name_of : RelayGrantCredential → String
  name_of c = quota_id_of c.pool c.admission_utc_day

  activate_with-Confined :
      (r : Option GrantReference) (c : RelayGrantCredential) (cs : Controllers)
      → Confined (name_of c) cs (activate_with clock env now r c cs)
  unfolding activate_with
  activate_with-Confined none c cs = inl refl
  activate_with-Confined (some r) c cs = elim (Bool-cases (names_grant r c)) [
    | inr q ↦ inl (ground arith)
    | inl q ↦
        rw (q) (dispatch-Confined _ activation_answer (name_of c) cs activation_answer-is_error)
  ]

  renew_with-Confined :
      (r : Option GrantReference) (c : RelayGrantCredential) (cs : Controllers)
      → Confined (name_of c) cs (renew_with clock env now r c cs)
  unfolding renew_with
  renew_with-Confined none c cs = inl refl
  renew_with-Confined (some r) c cs = elim (Bool-cases (names_grant r c)) [
    | inr q ↦ inl (ground arith)
    | inl q ↦ rw (q) (dispatch-Confined _ renewal_answer (name_of c) cs renewal_answer-is_error)
  ]

  finish_with-Confined :
      (r : Option RelayTerminal) (c : RelayGrantCredential) (cs : Controllers)
      → Confined (name_of c) cs (finish_with clock env now r c cs)
  unfolding finish_with
  finish_with-Confined none c cs = inl refl
  finish_with-Confined (some r) c cs =
      dispatch-Confined _ terminal_answer (name_of c) cs terminal_answer-is_error

  act-Confined :
      (a : GrantAction) (body : Value) (c : RelayGrantCredential) (cs : Controllers)
      → Confined (name_of c) cs (act clock env now a body c cs)
  unfolding act
  act-Confined activation body c cs = activate_with-Confined (parse_relay_activation body) c cs
  act-Confined renewal body c cs = renew_with-Confined (parse_relay_renewal body) c cs
  act-Confined terminal body c cs = finish_with-Confined (parse_relay_terminal body) c cs

  module _ (platform : Platform) (request : GrantRequest) (config : EnabledRelayConfig)
      (cache : Cache platform) (cs : Controllers) where
    abbrev answered : Answer × Controllers
    answered = handle_grant_callback clock env now platform request config cache cs

    abbrev verified : Option RelayGrantCredential
    verified = (verify_relay_grant_header platform request.grant_header config now cache).0

    pub handle-act :
        (bytes : List ℕ) (c : RelayGrantCredential) (body : Value)
        → read_bounded_bytes relay_max_callback_body_bytes request.body ≡ some bytes
        → verified ≡ some c
        → parse_relay_json_body platform bytes relay_max_callback_body_bytes ≡ some body
        → answered ≡ act clock env now request.action body c cs
    unfolding handle_grant_callback
    handle-act bytes c body e v p = ground arith

    -- The handler refused before it acted, or acted on verified claims.
    pub handle-Cases :
        ((answered.1 ≡ cs) × (is_error answered.0 ≡ true))
        ⊎ ((c : RelayGrantCredential) × (body : Value) × (verified ≡ some c)
            × (answered ≡ act clock env now request.action body c cs))
    unfolding handle_grant_callback
    handle-Cases =
        elim (Option-cases (read_bounded_bytes relay_max_callback_body_bytes request.body)) [
          | inl n ↦ inl (ground arith)
          | inr (bytes, e) ↦ elim (Option-cases verified) [
            | inl n ↦ inl (ground arith)
            | inr (c, v) ↦
                elim (Option-cases
                  (parse_relay_json_body platform bytes relay_max_callback_body_bytes)) [
                    | inl n ↦ inl (ground arith)
                    | inr (body, p) ↦ inr (c, body, v, handle-act bytes c body e v p)
                  ]
          ]
        ]

    -- A callback on a grant leaves every controller as it was, or it carried verified claims, was
    -- not answered with an error, and wrote to the controller of the claims' pool and day alone.
    pub handle_grant_callback-Confined :
        (answered.1 ≡ cs)
        ⊎ ((c : RelayGrantCredential) × (t : Storage) × (verified ≡ some c)
            × (is_error answered.0 ≡ false)
            × (answered.1 ≡ insert (quota_id_of c.pool c.admission_utc_day) t cs))
    handle_grant_callback-Confined = elim handle-Cases [
      | inl h ↦ inl h.0
      | inr (c, body, v, e) ↦ elim (act-Confined request.action body c cs) [
        | inl k ↦ inl (ap (λ r. r.1) e ∙ k)
        | inr (t, n, w) ↦ inr (c, t, v, ap (λ r. is_error r.0) e ∙ n, ap (λ r. r.1) e ∙ w)
      ]
    ]
