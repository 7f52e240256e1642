-- ===== src/Quota/Lifecycle/Machine.antt =====
-- The state machine of a request, and the lifecycle as a refinement of it.
use octg.Common.{
  ℕ, ◌≡◌, refl, String, Bool, true, false, Option, none, some, Dict, arith, lookup, insert,
  insert-lookup, subst, sym, inl, inr, Option-cases,
}
use octg.Shared.Types.{
  RequestState, reserved, settled, uncertain, reconciled, released, RequestEntry, Disposition,
  ReconcileResult,
}
use octg.Quota.Store.{
  Storage, Clock, QuotaEnv, QuotaIdentity, ok, Result-cases, InFlightState, RelayGrant,
}
use octg.Quota.Grant.{terminalize_grant_on_reconcile}
use octg.Quota.Grant.Laws.{
  with_grants, terminalize_frame, GrantsStep, kept, put, terminalize-GrantsStep,
}
use octg.Quota.Lifecycle.Ledger.Preserved.{Holds, or_else}
use octg.Quota.Lifecycle.{
  Transition, settle, mark_uncertain, release, reconcile, TransitionResult, settle_fresh,
  settle_entry, mark_fresh, mark_entry, release_fresh, release_entry, reconcile_fresh,
  finish_reconcile, reconcile_entry, transition_entry, apply_quota_lifecycle_transition,
  mark_unknown_fresh, mark_unknown_entry, mark_reserve_outcome_unknown,
}

-- A reserved request can go anywhere, an uncertain one is never reserved again, and a settled,
-- reconciled or released one stays as it is.
abbrev pub edge : RequestState → RequestState → Bool
edge reserved b = true
edge uncertain reserved = false
edge uncertain b = true
edge settled settled = true
edge settled b = false
edge reconciled reconciled = true
edge reconciled b = false
edge released released = true
edge released b = false

abbrev pub not_reserved : RequestState → Bool
not_reserved reserved = false
not_reserved _ = true

abbrev answered_right {ℓ} : {A : Type ℓ} → Option A → RequestState → Bool
answered_right none st = true
answered_right (some a) st = not_reserved st

-- A request that has an answer of a transition is no longer reserved.
pub record IsCoherent (e : RequestEntry) : Type 0 where
  pub settle_ok : answered_right e.results.settle e.state ≡ true
  pub mark_ok : answered_right e.results.mark_uncertain e.state ≡ true
  pub unknown_ok : answered_right e.results.mark_reserve_outcome_unknown e.state ≡ true
  pub release_ok : answered_right e.results.release e.state ≡ true
  pub reconcile_ok : answered_right e.results.reconcile e.state ≡ true

-- An entry takes an edge and keeps the amounts, the key and the answer that it was admitted with.
pub record Keeps (e e' : RequestEntry) : Type 0 where
  pub edge_taken : edge e.state e'.state ≡ true
  pub same_tokens : e'.tokens ≡ e.tokens
  pub same_upper_bound : e'.upper_bound_tokens ≡ e.upper_bound_tokens
  pub same_reserved : e'.reserved_tokens ≡ e.reserved_tokens
  pub same_key : e'.idempotency_key ≡ e.idempotency_key
  pub same_reserve_result : e'.results.reserve ≡ e.results.reserve
  pub coherent : IsCoherent e → IsCoherent e'

pub record SameRest (s t : Storage) : Type 0 where
  pub same_idempotency : t.idempotency ≡ s.idempotency
  pub same_mark : t.finalized ≡ s.finalized
  pub same_fences : t.fences ≡ s.fences

-- What every transition of one request does: it exchanges its entry, and no other entry, no key,
-- no fence and no mark of the storage changes.
pub record Moves (id : String) (e e' : RequestEntry) (s t : Storage) : Type 0 where
  pub entries_moved : t.entries ≡ insert id e' s.entries
  pub keeps : Keeps e e'
  pub rest : SameRest s t

abbrev pub Moved : String → RequestEntry → Storage → Storage → Type 0
Moved id e s t = (e' : RequestEntry) × Moves id e e' s t

moved :
    (id : String) (e e' : RequestEntry) (s t : Storage)
    → t.entries ≡ insert id e' s.entries
    → Keeps e e'
    → SameRest s t
    → Moved id e s t
moved id e e' s t m k r = (e', record { entries_moved = m; keeps = k; rest = r })

pub stay :
    (id : String) (e : RequestEntry) (s : Storage) → lookup id s.entries ≡ some e → Moved id e s s
stay id e s found =
    moved id e e s s (sym (insert-lookup id e s.entries found)) (ground arith) (ground arith)

-- Leases and grants may change beside.
Moved-with_grants :
    (f : Option InFlightState) (g : Dict RelayGrant) (id : String) (e : RequestEntry)
    (s t : Storage)
    → Moved id e s t
    → Moved id e s (with_grants f g t)
Moved-with_grants f g id e s t (e', m) =
    moved id e e' s (with_grants f g t) m.entries_moved m.keeps (ground arith)

module _ (clock : Clock) (env : QuotaEnv) (identity : QuotaIdentity) (id : String) where
  settle_fresh-Moved :
      (st : RequestState) (n : ℕ) (e : RequestEntry) (s : Storage)
      → e.state ≡ st
      → Moved id e s (settle_fresh clock env identity st id n e s)
  unfolding settle_fresh
  settle_fresh-Moved reserved n e s st =
      moved id e _ s (settle_fresh clock env identity reserved id n e s) refl (ground arith)
        (ground arith)
  settle_fresh-Moved other n e s st =
      moved id e _ s (settle_fresh clock env identity other id n e s) refl (ground arith)
        (ground arith)

  mark_fresh-Moved :
      (st : RequestState) (e : RequestEntry) (s : Storage)
      → e.state ≡ st
      → Moved id e s (mark_fresh clock env identity st id e s)
  unfolding mark_fresh
  mark_fresh-Moved reserved e s st =
      moved id e _ s (mark_fresh clock env identity reserved id e s) refl (ground arith)
        (ground arith)
  mark_fresh-Moved other e s st =
      moved id e _ s (mark_fresh clock env identity other id e s) refl (ground arith) (ground arith)

  release_fresh-Moved :
      (st : RequestState) (e : RequestEntry) (s : Storage)
      → e.state ≡ st
      → Moved id e s (release_fresh clock env identity st id e s)
  unfolding release_fresh
  release_fresh-Moved reserved e s st =
      moved id e _ s (release_fresh clock env identity reserved id e s) refl (ground arith)
        (ground arith)
  release_fresh-Moved other e s st =
      moved id e _ s (release_fresh clock env identity other id e s) refl (ground arith)
        (ground arith)

  mark_unknown_fresh-Moved :
      (st : RequestState) (e : RequestEntry) (s : Storage)
      → e.state ≡ st
      → Moved id e s (mark_unknown_fresh clock env identity st id e s).1
  unfolding mark_unknown_fresh
  mark_unknown_fresh-Moved reserved e s st =
      moved id e _ s (mark_unknown_fresh clock env identity reserved id e s).1 refl (ground arith)
        (ground arith)
  mark_unknown_fresh-Moved other e s st =
      moved id e _ s (mark_unknown_fresh clock env identity other id e s).1 refl (ground arith)
        (ground arith)

  abbrev after : RequestState → Disposition → RequestEntry → Storage → Storage
  after st d e s = or_else s (reconcile_fresh clock env identity st id d e s)

  reconcile_fresh-Moved :
      (st : RequestState) (d : Disposition) (e : RequestEntry) (s : Storage)
      → e.state ≡ st
      → Holds (Moved id e s) (reconcile_fresh clock env identity st id d e s)
  unfolding reconcile_fresh
  reconcile_fresh-Moved reserved d e s st =
      moved id e _ s (after reserved d e s) refl (ground arith) (ground arith)
  reconcile_fresh-Moved uncertain d e s st =
      moved id e _ s (after uncertain d e s) refl (ground arith) (ground arith)
  reconcile_fresh-Moved _ d e s st = tt

  finish_reconcile-Moved :
      (d : Disposition) (e : RequestEntry) (s : Storage) (o : Option Storage)
      (r : ReconcileResult × Storage)
      → lookup id s.entries ≡ some e
      → Holds (Moved id e s) o
      → finish_reconcile clock env identity id d s o ≡ ok r
      → Moved id e s r.1
  unfolding finish_reconcile
  finish_reconcile-Moved d e s none r found m h =
      subst (Moved id e s) (ground arith) (stay id e s found)
  finish_reconcile-Moved d e s (some t) r found m h =
      elim (Result-cases (terminalize_grant_on_reconcile clock id d t)) [
        | inl (t', eq) ↦
            subst (Moved id e s) {x = with_grants t'.in_flight t'.grants t} {y = r.1}
              (ground (arith, terminalize_frame clock id d t t' eq))
              (Moved-with_grants t'.in_flight t'.grants id e s t m)
        | inr (x, eq) ↦ absurd (ground arith)
      ]

  reconcile_entry-Moved :
      (d : Disposition) (e : RequestEntry) (s : Storage) (r : ReconcileResult × Storage)
      → lookup id s.entries ≡ some e
      → reconcile_entry clock env identity id d e s ≡ ok r
      → Moved id e s r.1
  unfolding reconcile_entry
  reconcile_entry-Moved d e s r found h = elim (Option-cases e.results.reconcile) [
    | inl x ↦
        finish_reconcile-Moved d e s _ r found (reconcile_fresh-Moved e.state d e s refl)
          (ground arith)
    | inr (x, eq) ↦ subst (Moved id e s) {y = r.1} (ground arith) (stay id e s found)
  ]

  -- The answer and the storage of a transition of an existing entry.
  transition_entry-Moved :
      (t : Transition) (e : RequestEntry) (s : Storage) (r : TransitionResult × Storage)
      → lookup id s.entries ≡ some e
      → transition_entry clock env identity t id e s ≡ ok r
      → Moved id e s r.1
  unfolding transition_entry settle_entry mark_entry release_entry
  transition_entry-Moved (settle n) e s r found h = elim (Option-cases e.results.settle) [
    | inl x ↦ subst (Moved id e s) {y = r.1} (ground arith) (settle_fresh-Moved e.state n e s refl)
    | inr (x, eq) ↦ subst (Moved id e s) {y = r.1} (ground arith) (stay id e s found)
  ]
  transition_entry-Moved mark_uncertain e s r found h =
      elim (Option-cases e.results.mark_uncertain) [
        | inl x ↦ subst (Moved id e s) {y = r.1} (ground arith) (mark_fresh-Moved e.state e s refl)
        | inr (x, eq) ↦ subst (Moved id e s) {y = r.1} (ground arith) (stay id e s found)
      ]
  transition_entry-Moved release e s r found h = elim (Option-cases e.results.release) [
    | inl x ↦ subst (Moved id e s) {y = r.1} (ground arith) (release_fresh-Moved e.state e s refl)
    | inr (x, eq) ↦ subst (Moved id e s) {y = r.1} (ground arith) (stay id e s found)
  ]
  transition_entry-Moved (reconcile d) e s r found h =
      elim (Result-cases (reconcile_entry clock env identity id d e s)) [
        | inl (x, eq) ↦
            subst (Moved id e s) {x = x.1} {y = r.1} (ground arith)
              (reconcile_entry-Moved d e s x found eq)
        | inr (x, eq) ↦ absurd (ground arith)
      ]

  -- Every transition of a request that has an entry refines the state machine: the entry takes an
  -- edge, keeps what it was admitted with, and all other entries stay.
  pub apply-Moved :
      (t : Transition) (e : RequestEntry) (s : Storage) (r : TransitionResult × Storage)
      → lookup id s.entries ≡ some e
      → apply_quota_lifecycle_transition clock env identity t id s ≡ ok r
      → Moved id e s r.1
  unfolding apply_quota_lifecycle_transition
  apply-Moved t e s r found h = transition_entry-Moved t e s r found (ground arith)

  -- A transition of a request that has no entry changes nothing.
  pub apply_missing :
      (t : Transition) (s : Storage) (r : TransitionResult × Storage)
      → lookup id s.entries ≡ none
      → apply_quota_lifecycle_transition clock env identity t id s ≡ ok r
      → r.1 ≡ s
  unfolding apply_quota_lifecycle_transition
  apply_missing t s r absent h = ground arith

  pub mark_unknown-Moved :
      (e : RequestEntry) (s : Storage)
      → lookup id s.entries ≡ some e
      → Moved id e s (mark_reserve_outcome_unknown clock env identity id s).1
  unfolding mark_reserve_outcome_unknown mark_unknown_entry
  mark_unknown-Moved e s found = elim (Option-cases e.results.mark_reserve_outcome_unknown) [
    | inl x ↦
        subst (Moved id e s) {y = (mark_reserve_outcome_unknown clock env identity id s).1}
          (ground arith) (mark_unknown_fresh-Moved e.state e s refl)
    | inr (x, eq) ↦
        subst (Moved id e s) {y = (mark_reserve_outcome_unknown clock env identity id s).1}
          (ground arith) (stay id e s found)
  ]

  finish_reconcile-GrantsStep :
      (d : Disposition) (s : Storage) (o : Option Storage) (r : ReconcileResult × Storage)
      → Holds (λ t. t.grants ≡ s.grants) o
      → finish_reconcile clock env identity id d s o ≡ ok r
      → GrantsStep id s r.1
  unfolding finish_reconcile
  finish_reconcile-GrantsStep d s none r same_grants h = kept (ground arith)
  finish_reconcile-GrantsStep d s (some t) r same_grants h =
      elim (Result-cases (terminalize_grant_on_reconcile clock id d t)) [
        | inr (x, eq) ↦ absurd (ground arith)
        | inl (t', eq) ↦ elim (terminalize-GrantsStep clock id d t t' eq) [
          | kept same ↦ kept (ground arith)
          | put g g' found own written ↦ put g g' (ground arith) own (ground arith)
        ]
      ]

  reconcile_fresh-grants :
      (st : RequestState) (d : Disposition) (e : RequestEntry) (s : Storage)
      → Holds (λ t. t.grants ≡ s.grants) (reconcile_fresh clock env identity st id d e s)
  unfolding reconcile_fresh
  reconcile_fresh-grants reserved d e s = refl
  reconcile_fresh-grants uncertain d e s = refl
  reconcile_fresh-grants _ d e s = tt

  reconcile_entry-GrantsStep :
      (d : Disposition) (e : RequestEntry) (s : Storage) (r : ReconcileResult × Storage)
      → reconcile_entry clock env identity id d e s ≡ ok r
      → GrantsStep id s r.1
  unfolding reconcile_entry
  reconcile_entry-GrantsStep d e s r h = elim (Option-cases e.results.reconcile) [
    | inl x ↦
        finish_reconcile-GrantsStep d s _ r (reconcile_fresh-grants e.state d e s) (ground arith)
    | inr (x, eq) ↦ kept (ground arith)
  ]

  settle_fresh-grants :
      (st : RequestState) (n : ℕ) (e : RequestEntry) (s : Storage)
      → (settle_fresh clock env identity st id n e s).grants ≡ s.grants
  unfolding settle_fresh
  settle_fresh-grants reserved n e s = refl
  settle_fresh-grants _ n e s = refl

  mark_fresh-grants :
      (st : RequestState) (e : RequestEntry) (s : Storage)
      → (mark_fresh clock env identity st id e s).grants ≡ s.grants
  unfolding mark_fresh
  mark_fresh-grants reserved e s = refl
  mark_fresh-grants _ e s = refl

  release_fresh-grants :
      (st : RequestState) (e : RequestEntry) (s : Storage)
      → (release_fresh clock env identity st id e s).grants ≡ s.grants
  unfolding release_fresh
  release_fresh-grants reserved e s = refl
  release_fresh-grants _ e s = refl

  pub mark_unknown_missing :
      (s : Storage)
      → lookup id s.entries ≡ none
      → (mark_reserve_outcome_unknown clock env identity id s).1 ≡ s
  unfolding mark_reserve_outcome_unknown
  mark_unknown_missing s absent = ground arith

  pub mark_unknown-grants :
      (s : Storage) → (mark_reserve_outcome_unknown clock env identity id s).1.grants ≡ s.grants
  unfolding mark_reserve_outcome_unknown mark_unknown_entry mark_unknown_fresh
  mark_unknown-grants s = ground arith

  -- Only a reconciliation changes grants, and only the grant of its request.
  pub apply-GrantsStep :
      (t : Transition) (s : Storage) (r : TransitionResult × Storage)
      → apply_quota_lifecycle_transition clock env identity t id s ≡ ok r
      → GrantsStep id s r.1
  unfolding apply_quota_lifecycle_transition transition_entry settle_entry mark_entry release_entry
  apply-GrantsStep t s r h = elim (Option-cases (lookup id s.entries)) [
    | inl e ↦ kept (ground arith)
    | inr (e, found) ↦ by_kind t e found h
  ]
    where
      by_kind :
          (t : Transition) (e : RequestEntry)
          → lookup id s.entries ≡ some e
          → apply_quota_lifecycle_transition clock env identity t id s ≡ ok r
          → GrantsStep id s r.1
      by_kind (settle n) e found h = kept (ground (arith, settle_fresh-grants e.state n e s))
      by_kind mark_uncertain e found h = kept (ground (arith, mark_fresh-grants e.state e s))
      by_kind release e found h = kept (ground (arith, release_fresh-grants e.state e s))
      by_kind (reconcile d) e found h =
          elim (Result-cases (reconcile_entry clock env identity id d e s)) [
            | inr (x, eq) ↦ absurd (ground arith)
            | inl (x, eq) ↦ elim (reconcile_entry-GrantsStep d e s x eq) [
              | kept same ↦ kept (ground arith)
              | put g g' f own written ↦ put g g' f own (ground arith)
            ]
          ]
