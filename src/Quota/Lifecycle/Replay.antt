-- ===== src/Quota/Lifecycle/Replay.antt =====
-- Calls that repeat: a transition that has run is answered from the entry, and writes nothing.
use octg.Common.{
  ℕ, Bool, true, false, ◌≡◌, refl, String, Option, none, some, arith, lookup, lookup-insert_self,
  ◌⊎◌, inl, inr, Option-cases,
}
use octg.Shared.Types.{
  RequestState, reserved, uncertain, RequestEntry, done, Disposition, ReconcileResult,
}
use octg.Quota.Store.{Storage, Clock, QuotaEnv, QuotaIdentity, ok, Result-cases}
use octg.Quota.Grant.{terminalize_grant_on_reconcile}
use octg.Quota.Grant.Laws.{terminalize_frame}
use octg.Quota.Lifecycle.Ledger.Preserved.{Holds}
use octg.Quota.Lifecycle.{
  Transition, settle, mark_uncertain, release, reconcile, TransitionResult, settle_fresh,
  settle_entry, mark_fresh, mark_entry, release_fresh, release_entry, reconcile_fresh,
  finish_reconcile, reconcile_entry, transition_entry, missing, apply_quota_lifecycle_transition,
}

abbrev pub same_kind : Transition → Transition → Bool
same_kind (settle m) (settle n) = true
same_kind mark_uncertain mark_uncertain = true
same_kind release release = true
same_kind (reconcile c) (reconcile d) = true
same_kind _ _ = false

module _ (clock later : Clock) (env : QuotaEnv) (identity : QuotaIdentity) (id : String) where
  settle_fresh_saved :
      (st : RequestState) (n : ℕ) (e : RequestEntry) (s : Storage)
      → (e' : RequestEntry) × (lookup id (settle_fresh clock env identity st id n e s).entries
          ≡ some e')
        × (e'.results.settle ≡ some done)
  unfolding settle_fresh
  settle_fresh_saved reserved n e s = (_, lookup-insert_self id _ s.entries, refl)
  settle_fresh_saved _ n e s = (_, lookup-insert_self id _ s.entries, refl)

  mark_fresh_saved :
      (st : RequestState) (e : RequestEntry) (s : Storage)
      → (e' : RequestEntry) × (lookup id (mark_fresh clock env identity st id e s).entries
          ≡ some e')
        × (e'.results.mark_uncertain ≡ some done)
  unfolding mark_fresh
  mark_fresh_saved reserved e s = (_, lookup-insert_self id _ s.entries, refl)
  mark_fresh_saved _ e s = (_, lookup-insert_self id _ s.entries, refl)

  release_fresh_saved :
      (st : RequestState) (e : RequestEntry) (s : Storage)
      → (e' : RequestEntry) × (lookup id (release_fresh clock env identity st id e s).entries
          ≡ some e')
        × (e'.results.release ≡ some done)
  unfolding release_fresh
  release_fresh_saved reserved e s = (_, lookup-insert_self id _ s.entries, refl)
  release_fresh_saved _ e s = (_, lookup-insert_self id _ s.entries, refl)

  abbrev SavedReconcile : Storage → Type 0
  SavedReconcile t =
      (e' : RequestEntry) × (lookup id t.entries ≡ some e')
      × (e'.results.reconcile ≡ some (record { applied = true }))

  reconcile_fresh_saved :
      (st : RequestState) (d : Disposition) (e : RequestEntry) (s : Storage)
      → Holds SavedReconcile (reconcile_fresh clock env identity st id d e s)
  unfolding reconcile_fresh
  reconcile_fresh_saved reserved d e s = (_, lookup-insert_self id _ s.entries, refl)
  reconcile_fresh_saved uncertain d e s = (_, lookup-insert_self id _ s.entries, refl)
  reconcile_fresh_saved _ d e s = tt

  -- A reconciliation that applied left its answer in the entry; one that did not changed nothing
  -- and met a closed request.
  finish_reconcile_saved :
      (d : Disposition) (s : Storage) (o : Option Storage) (r : ReconcileResult × Storage)
      → Holds SavedReconcile o
      → finish_reconcile clock env identity id d s o ≡ ok r
      → (SavedReconcile r.1 × (r.0 ≡ record { applied = true }))
        ⊎ ((o ≡ none) × (r ≡ (record { applied = false }, s)))
  unfolding finish_reconcile
  finish_reconcile_saved d s none r saved h = inr (refl, ground arith)
  finish_reconcile_saved d s (some t) r (e', found, answer) h =
      elim (Result-cases (terminalize_grant_on_reconcile clock id d t)) [
        | inl (t', eq) ↦
            inl ((e', ground (arith, terminalize_frame clock id d t t' eq), answer), ground arith)
        | inr (x, eq) ↦ absurd (ground arith)
      ]

  reconcile_none :
      (st : RequestState) (d d' : Disposition) (e : RequestEntry) (s : Storage)
      → reconcile_fresh clock env identity st id d e s ≡ none
      → reconcile_fresh later env identity st id d' e s ≡ none
  unfolding reconcile_fresh
  reconcile_none reserved d d' e s h = ground arith
  reconcile_none uncertain d d' e s h = ground arith
  reconcile_none _ d d' e s h = refl

  replay_reconcile :
      (d d' : Disposition) (e : RequestEntry) (s : Storage) (r : ReconcileResult × Storage)
      → lookup id s.entries ≡ some e
      → reconcile_entry clock env identity id d e s ≡ ok r
      → (e' : RequestEntry) × (lookup id (r.1).entries ≡ some e')
        × (reconcile_entry later env identity id d' e' r.1 ≡ ok r)
  unfolding reconcile_entry finish_reconcile
  replay_reconcile d d' e s r found h = elim (Option-cases e.results.reconcile) [
    | inr (x, eq) ↦ (e, ground arith, ground arith)
    | inl x ↦
        elim (finish_reconcile_saved d s _ r (reconcile_fresh_saved e.state d e s) (ground arith)) [
          | inl ((e', f, a), b) ↦ (e', f, ground arith)
          | inr (n, eq) ↦ (e, ground arith, ground (arith, reconcile_none e.state d d' e s n))
        ]
  ]

  replay_entry :
      (t t' : Transition) (e : RequestEntry) (s : Storage) (r : TransitionResult × Storage)
      → same_kind t t' ≡ true
      → lookup id s.entries ≡ some e
      → transition_entry clock env identity t id e s ≡ ok r
      → (e' : RequestEntry) × (lookup id (r.1).entries ≡ some e')
        × (transition_entry later env identity t' id e' r.1 ≡ ok r)
  unfolding transition_entry settle_entry mark_entry release_entry
  replay_entry (settle m) (settle n) e s r k found h = elim (Option-cases e.results.settle) [
    | inr (x, eq) ↦ (e, ground arith, ground arith)
    | inl x ↦ let (e', f, a) = settle_fresh_saved e.state m e s in (e', ground arith, ground arith)
  ]
  replay_entry mark_uncertain mark_uncertain e s r k found h =
      elim (Option-cases e.results.mark_uncertain) [
        | inr (x, eq) ↦ (e, ground arith, ground arith)
        | inl x ↦ let (e', f, a) = mark_fresh_saved e.state e s in (e', ground arith, ground arith)
      ]
  replay_entry release release e s r k found h = elim (Option-cases e.results.release) [
    | inr (x, eq) ↦ (e, ground arith, ground arith)
    | inl x ↦ let (e', f, a) = release_fresh_saved e.state e s in (e', ground arith, ground arith)
  ]
  replay_entry (reconcile c) (reconcile d) e s r k found h =
      elim (Result-cases (reconcile_entry clock env identity id c e s)) [
        | inr (x, eq) ↦ absurd (ground arith)
        | inl (x, eq) ↦
            let (e', f, a) = replay_reconcile c d e s x found eq in (e', ground arith, ground arith)
      ]
  replay_entry _ _ e s r k found h = absurd (ground arith)

  missing-same_kind :
      (t t' : Transition)
      → same_kind t t' ≡ true
      → missing later env identity t' ≡ missing clock env identity t
  missing-same_kind (settle m) t' k = ground arith
  missing-same_kind _ t' k = ground arith

  -- A call that repeats a transition that returned, of the same kind, at a later time and perhaps with
  -- other numbers, gets the first answer and writes nothing.
  pub apply_replay :
      (t t' : Transition) (s : Storage) (r : TransitionResult × Storage)
      → same_kind t t' ≡ true
      → apply_quota_lifecycle_transition clock env identity t id s ≡ ok r
      → apply_quota_lifecycle_transition later env identity t' id r.1 ≡ ok r
  unfolding apply_quota_lifecycle_transition
  apply_replay t t' s r k h = elim (Option-cases (lookup id s.entries)) [
    | inl absent ↦ ground (arith, missing-same_kind t t' k)
    | inr (e, found) ↦
        let (e', f, a) = replay_entry t t' e s r k found (ground arith) in ground arith
  ]
