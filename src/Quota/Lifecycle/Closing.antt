-- ===== src/Quota/Lifecycle/Closing.antt =====
-- After a transition that returns, its request is no longer reserved.
use octg.Common.{
  ℕ, ◌≡◌, refl, String, Bool, true, Option, none, some, arith, lookup, lookup-insert_self, subst,
  inl, inr, Option-cases,
}
use octg.Shared.Types.{
  RequestState, reserved, uncertain, RequestEntry, Disposition, ReconcileResult, deleted,
}
use octg.Quota.Store.{Storage, Clock, QuotaEnv, QuotaIdentity, ok, Result-cases, load_unresolved}
use octg.Quota.Grant.{terminalize_grant_on_reconcile}
use octg.Quota.Grant.Laws.{terminalize_frame}
use octg.Quota.Lifecycle.Ledger.Preserved.{Holds}
use octg.Quota.Lifecycle.Machine.{IsCoherent, not_reserved}
use octg.Quota.Lifecycle.{
  Transition, settle, mark_uncertain, release, reconcile, TransitionResult, settle_fresh,
  settle_entry, mark_fresh, mark_entry, release_fresh, release_entry, reconcile_fresh,
  finish_reconcile, reconcile_entry, transition_entry, apply_quota_lifecycle_transition,
  finalize_mark,
}

abbrev pub ClosedAt : String → Storage → Type 0
ClosedAt id t = (e : RequestEntry) × (lookup id t.entries ≡ some e) × (not_reserved e.state ≡ true)

module _ (clock : Clock) (env : QuotaEnv) (identity : QuotaIdentity) (id : String) where
  settle_fresh-ClosedAt :
      (st : RequestState) (n : ℕ) (e : RequestEntry) (s : Storage)
      → e.state ≡ st
      → ClosedAt id (settle_fresh clock env identity st id n e s)
  unfolding settle_fresh
  settle_fresh-ClosedAt reserved n e s h = (_, lookup-insert_self id _ s.entries, refl)
  settle_fresh-ClosedAt uncertain n e s h = (_, lookup-insert_self id _ s.entries, refl)
  settle_fresh-ClosedAt _ n e s h = (_, lookup-insert_self id _ s.entries, ground arith)

  mark_fresh-ClosedAt :
      (st : RequestState) (e : RequestEntry) (s : Storage)
      → e.state ≡ st
      → ClosedAt id (mark_fresh clock env identity st id e s)
  unfolding mark_fresh
  mark_fresh-ClosedAt reserved e s h = (_, lookup-insert_self id _ s.entries, refl)
  mark_fresh-ClosedAt _ e s h = (_, lookup-insert_self id _ s.entries, ground arith)

  release_fresh-ClosedAt :
      (st : RequestState) (e : RequestEntry) (s : Storage)
      → e.state ≡ st
      → ClosedAt id (release_fresh clock env identity st id e s)
  unfolding release_fresh
  release_fresh-ClosedAt reserved e s h = (_, lookup-insert_self id _ s.entries, refl)
  release_fresh-ClosedAt _ e s h = (_, lookup-insert_self id _ s.entries, ground arith)

  reconcile_fresh-ClosedAt :
      (st : RequestState) (d : Disposition) (e : RequestEntry) (s : Storage)
      → Holds (ClosedAt id) (reconcile_fresh clock env identity st id d e s)
  unfolding reconcile_fresh
  reconcile_fresh-ClosedAt reserved d e s = (_, lookup-insert_self id _ s.entries, ground arith)
  reconcile_fresh-ClosedAt uncertain d e s = (_, lookup-insert_self id _ s.entries, ground arith)
  reconcile_fresh-ClosedAt _ d e s = tt

  reconcile_fresh-none :
      (st : RequestState) (d : Disposition) (e : RequestEntry) (s : Storage)
      → reconcile_fresh clock env identity st id d e s ≡ none
      → not_reserved st ≡ true
  unfolding reconcile_fresh
  reconcile_fresh-none reserved d e s h = ground arith
  reconcile_fresh-none _ d e s h = refl

  finish_reconcile-ClosedAt :
      (d : Disposition) (e : RequestEntry) (s : Storage) (o : Option Storage)
      (r : ReconcileResult × Storage)
      → lookup id s.entries ≡ some e
      → Holds (ClosedAt id) o
      → (o ≡ none → not_reserved e.state ≡ true)
      → finish_reconcile clock env identity id d s o ≡ ok r
      → ClosedAt id r.1
  unfolding finish_reconcile
  finish_reconcile-ClosedAt d e s none r found c n h = (e, ground arith, n refl)
  finish_reconcile-ClosedAt d e s (some t) r found (e', f, c) n h =
      elim (Result-cases (terminalize_grant_on_reconcile clock id d t)) [
        | inl (t', eq) ↦ (e', ground (arith, terminalize_frame clock id d t t' eq), c)
        | inr (x, eq) ↦ absurd (ground arith)
      ]

  reconcile_entry-ClosedAt :
      (d : Disposition) (e : RequestEntry) (s : Storage) (r : ReconcileResult × Storage)
      → lookup id s.entries ≡ some e
      → IsCoherent e
      → reconcile_entry clock env identity id d e s ≡ ok r
      → ClosedAt id r.1
  unfolding reconcile_entry
  reconcile_entry-ClosedAt d e s r found c h = elim (Option-cases e.results.reconcile) [
    | inr (x, eq) ↦ (e, ground arith, ground arith)
    | inl x ↦
        finish_reconcile-ClosedAt d e s _ r found (reconcile_fresh-ClosedAt e.state d e s)
          (reconcile_fresh-none e.state d e s) (ground arith)
  ]

  transition_entry-ClosedAt :
      (t : Transition) (e : RequestEntry) (s : Storage) (r : TransitionResult × Storage)
      → lookup id s.entries ≡ some e
      → IsCoherent e
      → transition_entry clock env identity t id e s ≡ ok r
      → ClosedAt id r.1
  unfolding transition_entry settle_entry mark_entry release_entry
  transition_entry-ClosedAt (settle n) e s r found c h = elim (Option-cases e.results.settle) [
    | inr (x, eq) ↦ (e, ground arith, ground arith)
    | inl x ↦
        subst (ClosedAt id) {x = settle_fresh clock env identity e.state id n e s} {y = r.1}
          (ground arith) (settle_fresh-ClosedAt e.state n e s refl)
  ]
  transition_entry-ClosedAt mark_uncertain e s r found c h =
      elim (Option-cases e.results.mark_uncertain) [
        | inr (x, eq) ↦ (e, ground arith, ground arith)
        | inl x ↦
            subst (ClosedAt id) {x = mark_fresh clock env identity e.state id e s} {y = r.1}
              (ground arith) (mark_fresh-ClosedAt e.state e s refl)
      ]
  transition_entry-ClosedAt release e s r found c h = elim (Option-cases e.results.release) [
    | inr (x, eq) ↦ (e, ground arith, ground arith)
    | inl x ↦
        subst (ClosedAt id) {x = release_fresh clock env identity e.state id e s} {y = r.1}
          (ground arith) (release_fresh-ClosedAt e.state e s refl)
  ]
  transition_entry-ClosedAt (reconcile d) e s r found c h =
      elim (Result-cases (reconcile_entry clock env identity id d e s)) [
        | inl (x, eq) ↦
            subst (ClosedAt id) {x = x.1} {y = r.1} (ground arith)
              (reconcile_entry-ClosedAt d e s x found c eq)
        | inr (x, eq) ↦ absurd (ground arith)
      ]

  pub apply-ClosedAt :
      (t : Transition) (e : RequestEntry) (s : Storage) (r : TransitionResult × Storage)
      → lookup id s.entries ≡ some e
      → IsCoherent e
      → apply_quota_lifecycle_transition clock env identity t id s ≡ ok r
      → ClosedAt id r.1
  unfolding apply_quota_lifecycle_transition
  apply-ClosedAt t e s r found c h = transition_entry-ClosedAt t e s r found c (ground arith)

-- `s` with another mark.
abbrev pub with_mark : Option Bool → Storage → Storage
with_mark m s = record s { finalized = m }

-- The mark of a final day is all that the transaction of `finalizeDay` writes.
pub finalize_mark_frame :
    (s : Storage) → (finalize_mark s).1 ≡ with_mark (finalize_mark s).1.finalized s
unfolding finalize_mark
finalize_mark_frame s = ground arith

pub finalize_mark_cases :
    (s : Storage)
    → (finalize_mark s).0 ≡ deleted
    → ((finalize_mark s).1.finalized ≡ some true)
      × ((load_unresolved s).uncertain_count ≡ 0)
      × ((load_unresolved s).reserved_count ≡ 0)
unfolding finalize_mark
finalize_mark_cases s h = ground arith
