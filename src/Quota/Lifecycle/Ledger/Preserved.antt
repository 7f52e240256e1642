-- ===== src/Quota/Lifecycle/Ledger/Preserved.antt =====
-- Every lifecycle transition keeps the storage balanced.
use octg.Common.{
  Dict, subst, ℕ, ◌≡◌, refl, String, Option, none, some, arith, lookup, inl, inr, Option-cases,
}
use octg.Shared.Types.{
  RequestState, reserved, uncertain, RequestEntry, Disposition, ReconcileResult,
}
use octg.Quota.Store.{
  Storage, Clock, QuotaEnv, QuotaIdentity, InFlightState, RelayGrant, ok, Result-cases,
}
use octg.Quota.Grant.{terminalize_grant_on_reconcile}
use octg.Quota.Grant.Laws.{with_grants, terminalize_frame}
use octg.Quota.Lifecycle.{
  Transition, settle, mark_uncertain, release, reconcile, TransitionResult, finish_reconcile,
  reconcile_entry, transition_entry, apply_quota_lifecycle_transition, settle_fresh, settle_entry,
  mark_fresh, mark_entry, release_fresh, release_entry, reconcile_fresh, mark_unknown_fresh,
  mark_unknown_entry, mark_reserve_outcome_unknown,
}
use octg.Quota.Lifecycle.Ledger.{IsBalanced, exchange, tally-Covers}

abbrev pub Holds : (Storage → Type 0) → Option Storage → Type 0
Holds P none = Unit
Holds P (some t) = P t

abbrev pub or_else : Storage → Option Storage → Storage
or_else s none = s
or_else s (some t) = t

module _ (clock : Clock) (env : QuotaEnv) (identity : QuotaIdentity) (id : String) where
  abbrev after : RequestState → Disposition → RequestEntry → Storage → Storage
  after st d e s = or_else s (reconcile_fresh clock env identity st id d e s)

  settle_fresh-IsBalanced :
      (st : RequestState) (actual : ℕ) (e : RequestEntry) (s : Storage)
      → e.state ≡ st
      → lookup id s.entries ≡ some e
      → IsBalanced s
      → IsBalanced (settle_fresh clock env identity st id actual e s)
  unfolding settle_fresh
  settle_fresh-IsBalanced reserved actual e s st found b =
      exchange id e _ s (settle_fresh clock env identity reserved id actual e s) found b refl
        (ground (arith, tally-Covers id e s.entries found))
  settle_fresh-IsBalanced other actual e s st found b =
      exchange id e _ s (settle_fresh clock env identity other id actual e s) found b refl
        (ground (arith, tally-Covers id e s.entries found))

  mark_fresh-IsBalanced :
      (st : RequestState) (e : RequestEntry) (s : Storage)
      → e.state ≡ st
      → lookup id s.entries ≡ some e
      → IsBalanced s
      → IsBalanced (mark_fresh clock env identity st id e s)
  unfolding mark_fresh
  mark_fresh-IsBalanced reserved e s st found b =
      exchange id e _ s (mark_fresh clock env identity reserved id e s) found b refl
        (ground (arith, tally-Covers id e s.entries found))
  mark_fresh-IsBalanced other e s st found b =
      exchange id e _ s (mark_fresh clock env identity other id e s) found b refl
        (ground (arith, tally-Covers id e s.entries found))

  release_fresh-IsBalanced :
      (st : RequestState) (e : RequestEntry) (s : Storage)
      → e.state ≡ st
      → lookup id s.entries ≡ some e
      → IsBalanced s
      → IsBalanced (release_fresh clock env identity st id e s)
  unfolding release_fresh
  release_fresh-IsBalanced reserved e s st found b =
      exchange id e _ s (release_fresh clock env identity reserved id e s) found b refl
        (ground (arith, tally-Covers id e s.entries found))
  release_fresh-IsBalanced other e s st found b =
      exchange id e _ s (release_fresh clock env identity other id e s) found b refl
        (ground (arith, tally-Covers id e s.entries found))

  reconcile_fresh-IsBalanced :
      (st : RequestState) (d : Disposition) (e : RequestEntry) (s : Storage)
      → e.state ≡ st
      → lookup id s.entries ≡ some e
      → IsBalanced s
      → Holds IsBalanced (reconcile_fresh clock env identity st id d e s)
  unfolding reconcile_fresh
  reconcile_fresh-IsBalanced reserved d e s st found b =
      exchange id e _ s (after reserved d e s) found b refl
        (ground (arith, tally-Covers id e s.entries found))
  reconcile_fresh-IsBalanced uncertain d e s st found b =
      exchange id e _ s (after uncertain d e s) found b refl
        (ground (arith, tally-Covers id e s.entries found))
  reconcile_fresh-IsBalanced _ d e s st found b = tt

  mark_unknown_fresh-IsBalanced :
      (st : RequestState) (e : RequestEntry) (s : Storage)
      → e.state ≡ st
      → lookup id s.entries ≡ some e
      → IsBalanced s
      → IsBalanced (mark_unknown_fresh clock env identity st id e s).1
  unfolding mark_unknown_fresh
  mark_unknown_fresh-IsBalanced reserved e s st found b =
      exchange id e _ s (mark_unknown_fresh clock env identity reserved id e s).1 found b refl
        (ground (arith, tally-Covers id e s.entries found))
  mark_unknown_fresh-IsBalanced other e s st found b =
      exchange id e _ s (mark_unknown_fresh clock env identity other id e s).1 found b refl
        (ground (arith, tally-Covers id e s.entries found))

-- What a transition does to the ledger fields decides whether it keeps them balanced.
with_grants-IsBalanced :
    (f : Option InFlightState) (g : Dict RelayGrant) (s : Storage)
    → IsBalanced s
    → IsBalanced (with_grants f g s)
with_grants-IsBalanced f g s b = omega arith

module _ (clock : Clock) (env : QuotaEnv) (identity : QuotaIdentity) (id : String) (s : Storage)
    (b : IsBalanced s) where
  finish_reconcile-IsBalanced :
      (d : Disposition) (o : Option Storage) (r : ReconcileResult × Storage)
      → Holds IsBalanced o
      → finish_reconcile clock env identity id d s o ≡ ok r
      → IsBalanced r.1
  unfolding finish_reconcile
  finish_reconcile-IsBalanced d none r keep h = ground arith
  finish_reconcile-IsBalanced d (some t) r keep h =
      elim (Result-cases (terminalize_grant_on_reconcile clock id d t)) [
        | inl (t', e) ↦
            subst (λ z. IsBalanced z) {x = with_grants t'.in_flight t'.grants t} {y = r.1}
              (ground (arith, terminalize_frame clock id d t t' e))
              (with_grants-IsBalanced t'.in_flight t'.grants t keep)
        | inr (x, e) ↦ absurd (ground arith)
      ]

  reconcile_entry-IsBalanced :
      (d : Disposition) (e : RequestEntry) (r : ReconcileResult × Storage)
      → lookup id s.entries ≡ some e
      → reconcile_entry clock env identity id d e s ≡ ok r
      → IsBalanced r.1
  unfolding reconcile_entry
  reconcile_entry-IsBalanced d e r found h = elim (Option-cases e.results.reconcile) [
    | inl x ↦
        finish_reconcile-IsBalanced d _ r
          (reconcile_fresh-IsBalanced clock env identity id e.state d e s refl found b)
          (ground arith)
    | inr (x, eq) ↦ ground arith
  ]

  transition_entry-IsBalanced :
      (t : Transition) (e : RequestEntry) (r : TransitionResult × Storage)
      → lookup id s.entries ≡ some e
      → transition_entry clock env identity t id e s ≡ ok r
      → IsBalanced r.1
  unfolding transition_entry settle_entry mark_entry release_entry
  transition_entry-IsBalanced (settle n) e r found h =
      ground (arith, settle_fresh-IsBalanced clock env identity id e.state n e s refl found b)
  transition_entry-IsBalanced mark_uncertain e r found h =
      ground (arith, mark_fresh-IsBalanced clock env identity id e.state e s refl found b)
  transition_entry-IsBalanced release e r found h =
      ground (arith, release_fresh-IsBalanced clock env identity id e.state e s refl found b)
  transition_entry-IsBalanced (reconcile d) e r found h =
      elim (Result-cases (reconcile_entry clock env identity id d e s)) [
        | inl (x, eq) ↦ ground (arith, reconcile_entry-IsBalanced d e x found eq)
        | inr (x, eq) ↦ absurd (ground arith)
      ]

  -- Each transition of the lifecycle that returns leaves a balanced storage balanced: the totals of
  -- the pool and of the unresolved requests are again the sums over the entries.
  pub apply-IsBalanced :
      (t : Transition) (r : TransitionResult × Storage)
      → apply_quota_lifecycle_transition clock env identity t id s ≡ ok r
      → IsBalanced r.1
  unfolding apply_quota_lifecycle_transition
  apply-IsBalanced t r h = elim (Option-cases (lookup id s.entries)) [
    | inl e ↦ ground arith
    | inr (x, e) ↦ transition_entry-IsBalanced t x r e (ground arith)
  ]

  pub mark_unknown-IsBalanced : IsBalanced (mark_reserve_outcome_unknown clock env identity id s).1
  unfolding mark_reserve_outcome_unknown mark_unknown_entry
  mark_unknown-IsBalanced = elim (Option-cases (lookup id s.entries)) [
    | inl x ↦ ground arith
    | inr (e, found) ↦
        ground (
          arith,
          found,
          mark_unknown_fresh-IsBalanced clock env identity id e.state e s refl found b,
        )
  ]
