-- ===== src/Quota/Lifecycle.antt =====
-- durable-objects/quota-controller/src/quota-lifecycle.ts: the transitions of a request, each inside
-- one transaction. Console warnings are left out. `Math.max(0, a - b)` on counts is `a - b` on ℕ.
pub mod Ledger
pub mod Machine
pub mod Replay
pub mod Advances
pub mod Tests
pub mod Closing
use octg.Common.{
  ℕ, zero, suc, ◌+◌, ◌-◌, ◌<◌, String, Bool, true, false, ◌&&◌, ◌||◌, Option, none, some, List, [],
  ◌∷◌, ltb, leb, if◌then◌else◌, Dict, lookup, insert,
}
use octg.Shared.Types.{
  RequestState, reserved, settled, uncertain, reconciled, released, UncertaintyOrigin,
  upstream_uncertain, reserve_unknown, PoolState, RequestEntry, RpcResults, Ack, done,
  UnknownOutcomeResult, marked, Disposition, consumed, unused, ReconcileResult, UncertainRequest,
  ReconcileRequestView, FinalizeResult, deleted, uncertain_remaining, reserved_remaining,
}
use octg.Quota.Store.{
  UnresolvedState, Storage, Clock, QuotaEnv, QuotaIdentity, Result, ok, failed, ◌>>=◌, load_pool,
  save_pool, get_entry, put_entry, load_unresolved, save_unresolved, empty_storage,
}
use octg.Quota.Grant.{terminalize_grant_on_reconcile}

pub data Transition : Type 0 where
  settle : (actual_tokens : ℕ) → Transition
  mark_uncertain release : Transition
  reconcile : Disposition → Transition

pub data TransitionResult : Type 0 where
  ack : Ack → TransitionResult
  reconciliation : ReconcileResult → TransitionResult

-- Taking an entry's tokens out of the reserved or of the uncertain tokens of the pool.
abbrev pub without_reserved : PoolState → ℕ → PoolState
without_reserved p n = record p { reserved_tokens = p.reserved_tokens - n }

abbrev pub without_uncertain : PoolState → ℕ → PoolState
without_uncertain p n = record p { uncertain_tokens = p.uncertain_tokens - n }

abbrev confirm : PoolState → ℕ → PoolState
confirm p n = record p { confirmed_tokens = p.confirmed_tokens + n }

abbrev one_less_reserved : UnresolvedState → UnresolvedState
one_less_reserved u = record u { reserved_count = u.reserved_count - 1 }

abbrev one_less_uncertain : UnresolvedState → UnresolvedState
one_less_uncertain u = record u { uncertain_count = u.uncertain_count - 1 }

abbrev to_uncertain : PoolState → ℕ → PoolState
to_uncertain p n = record p {
  reserved_tokens = p.reserved_tokens - n;
  uncertain_tokens = p.uncertain_tokens + n;
}

abbrev reserved_to_uncertain : UnresolvedState → UnresolvedState
reserved_to_uncertain u = record u {
  uncertain_count = u.uncertain_count + 1;
  reserved_count = u.reserved_count - 1;
}

abbrev origin_or : Option UncertaintyOrigin → UncertaintyOrigin → UncertaintyOrigin
origin_or none o = o
origin_or (some o) _ = o

module _ (clock : Clock) (env : QuotaEnv) (identity : QuotaIdentity) where
  -- The three writes of a transition: pool, entry, unresolved counters.
  abbrev commit : String → PoolState → RequestEntry → UnresolvedState → Storage → Storage
  commit id p e u s = save_unresolved u (put_entry clock id e (save_pool clock p s))

  abbrev pool_of : Storage → PoolState
  pool_of = load_pool clock env identity

  abbrev settled_entry : ℕ → RequestEntry → RequestEntry
  settled_entry actual e = record e {
    state = settled;
    actual_tokens = some actual;
    results = record (e.results) { settle = some done };
  }

  settle_fresh : RequestState → String → ℕ → RequestEntry → Storage → Storage
  settle_fresh reserved id actual e s =
      commit id (confirm (without_reserved (pool_of s) e.reserved_tokens) actual)
        (settled_entry actual e) (one_less_reserved (load_unresolved s)) s
  settle_fresh uncertain id actual e s =
      commit id (confirm (without_uncertain (pool_of s) e.reserved_tokens) actual)
        (settled_entry actual e) (one_less_uncertain (load_unresolved s)) s
  settle_fresh _ id actual e s =
      put_entry clock id (record e { results = record (e.results) { settle = some done } }) s

  pub settle_entry : String → ℕ → RequestEntry → Storage → Ack × Storage
  settle_entry id actual e s = elim e.results.settle [
    | some r ↦ (r, s)
    | none ↦ (done, settle_fresh e.state id actual e s)
  ]

  mark_fresh : RequestState → String → RequestEntry → Storage → Storage
  mark_fresh reserved id e s =
      commit id (to_uncertain (pool_of s) e.reserved_tokens)
        (record e {
          state = uncertain;
          uncertainty_origin = some (origin_or e.uncertainty_origin upstream_uncertain);
          results = record (e.results) { mark_uncertain = some done };
        })
        (reserved_to_uncertain (load_unresolved s)) s
  mark_fresh _ id e s =
      put_entry clock id (record e { results = record (e.results) { mark_uncertain = some done } })
        s

  pub mark_entry : String → RequestEntry → Storage → Ack × Storage
  mark_entry id e s = elim e.results.mark_uncertain [
    | some r ↦ (r, s)
    | none ↦ (done, mark_fresh e.state id e s)
  ]

  release_fresh : RequestState → String → RequestEntry → Storage → Storage
  release_fresh reserved id e s =
      commit id (without_reserved (pool_of s) e.reserved_tokens)
        (record e { state = released; results = record (e.results) { release = some done } })
        (one_less_reserved (load_unresolved s)) s
  release_fresh _ id e s =
      put_entry clock id (record e { results = record (e.results) { release = some done } }) s

  pub release_entry : String → RequestEntry → Storage → Ack × Storage
  release_entry id e s = elim e.results.release [
    | some r ↦ (r, s)
    | none ↦ (done, release_fresh e.state id e s)
  ]

  abbrev charge : Disposition → PoolState → ℕ → PoolState
  charge consumed p n = confirm p n
  charge unused p n = p

  abbrev reconciled_entry : Disposition → RequestEntry → RequestEntry
  reconciled_entry d e = record e {
    state = elim d [ consumed ↦ reconciled | unused ↦ released ];
    requested_disposition = some d;
    results = record (e.results) { reconcile = some (record { applied = true }) };
  }

  -- The storage before the grant is terminalized; `none` where the state is no open one.
  pub reconcile_fresh :
      RequestState → String → Disposition → RequestEntry → Storage → Option Storage
  reconcile_fresh reserved id d e s = some (
      commit id (charge d (without_reserved (pool_of s) e.reserved_tokens) e.reserved_tokens)
        (reconciled_entry d e) (one_less_reserved (load_unresolved s)) s)
  reconcile_fresh uncertain id d e s = some (
      commit id (charge d (without_uncertain (pool_of s) e.reserved_tokens) e.reserved_tokens)
        (reconciled_entry d e) (one_less_uncertain (load_unresolved s)) s)
  reconcile_fresh _ id d e s = none

  pub finish_reconcile :
      String → Disposition → Storage → Option Storage → Result (ReconcileResult × Storage)
  finish_reconcile id d s none = ok (record { applied = false }, s)
  finish_reconcile id d s (some t) =
      terminalize_grant_on_reconcile clock id d t >>= λ t'. ok (record { applied = true }, t')

  pub reconcile_entry :
      String → Disposition → RequestEntry → Storage → Result (ReconcileResult × Storage)
  reconcile_entry id d e s = elim e.results.reconcile [
    | some r ↦ ok (r, s)
    | none ↦ finish_reconcile id d s (reconcile_fresh e.state id d e s)
  ]

  abbrev acked : Ack × Storage → Result (TransitionResult × Storage)
  acked r = ok (ack r.0, r.1)

  -- An existing entry, by the kind of the transition.
  pub transition_entry :
      Transition → String → RequestEntry → Storage → Result (TransitionResult × Storage)
  transition_entry (settle actual) id e s = acked (settle_entry id actual e s)
  transition_entry mark_uncertain id e s = acked (mark_entry id e s)
  transition_entry release id e s = acked (release_entry id e s)
  transition_entry (reconcile d) id e s =
      reconcile_entry id d e s >>= λ r. ok (reconciliation r.0, r.1)

  abbrev missing : Transition → TransitionResult
  missing (reconcile d) = reconciliation (record { applied = false })
  missing (settle n) = ack Ack.unknown_request
  missing mark_uncertain = ack Ack.unknown_request
  missing release = ack Ack.unknown_request

  pub apply_quota_lifecycle_transition :
      Transition → String → Storage → Result (TransitionResult × Storage)
  apply_quota_lifecycle_transition t id s = elim (get_entry id s) [
    | none ↦ ok (missing t, s)
    | some e ↦ transition_entry t id e s
  ]

  mark_unknown_fresh : RequestState → String → RequestEntry → Storage → Bool × Storage
  mark_unknown_fresh reserved id e s = (
    true,
    commit id (to_uncertain (pool_of s) e.reserved_tokens)
        (record e {
          state = uncertain;
          uncertainty_origin = some reserve_unknown;
          results = record (e.results) { mark_reserve_outcome_unknown = some (marked true) };
        })
        (reserved_to_uncertain (load_unresolved s)) s,
  )
  mark_unknown_fresh _ id e s = (
    false,
    put_entry clock id
        (record e {
          results = record (e.results) { mark_reserve_outcome_unknown = some (marked false) };
        })
        s,
  )

  pub mark_unknown_entry : String → RequestEntry → Storage → UnknownOutcomeResult × Storage
  mark_unknown_entry id e s = elim e.results.mark_reserve_outcome_unknown [
    | some r ↦ (r, s)
    | none ↦ (marked (mark_unknown_fresh e.state id e s).0, (mark_unknown_fresh e.state id e s).1)
  ]

  pub mark_reserve_outcome_unknown : String → Storage → UnknownOutcomeResult × Storage
  mark_reserve_outcome_unknown id s = elim (get_entry id s) [
    | none ↦ (UnknownOutcomeResult.unknown_request, s)
    | some e ↦ mark_unknown_entry id e s
  ]

abbrev is_open : RequestState → Bool
is_open reserved = true
is_open uncertain = true
is_open settled = false
is_open reconciled = false
is_open released = false

-- The entries in the order of the dictionary; the storage of the platform sorts them by key.
pub reconcile_requests : Dict RequestEntry → List UncertainRequest
reconcile_requests [] = []
reconcile_requests ((id, e) ∷ es) =
    let rest = reconcile_requests es in
    if is_open e.state
    then record {
      request_id = id;
      reserved_tokens = e.reserved_tokens;
      state = e.state;
      uncertainty_origin = e.uncertainty_origin;
    }
      ∷ rest
    else rest

pub get_reconcile_snapshot : Storage → List UncertainRequest
unfolding reconcile_requests
get_reconcile_snapshot s = reconcile_requests s.entries

pub get_reconcile_request : String → Storage → Option ReconcileRequestView
get_reconcile_request id s = elim (get_entry id s) [
  | none ↦ none
  | some e ↦ some (record {
    request_id = id;
    reserved_tokens = e.reserved_tokens;
    state = e.state;
    requested_disposition = e.requested_disposition;
    uncertainty_origin = e.uncertainty_origin;
  })
]

-- The transaction of `finalizeDay`: with both counters at 0 the day is marked final.
pub finalize_mark : Storage → FinalizeResult × Storage
finalize_mark s =
    if ltb 0 (load_unresolved s).uncertain_count
    then (
      uncertain_remaining (load_unresolved s).uncertain_count (load_unresolved s).reserved_count,
      s,
    )
    else if ltb 0 (load_unresolved s).reserved_count
    then (
      reserved_remaining (load_unresolved s).uncertain_count (load_unresolved s).reserved_count,
      s,
    )
    else (deleted, record s { finalized = some true })

abbrev delete_all : FinalizeResult × Storage → FinalizeResult × Storage
delete_all (deleted, s) = (deleted, empty_storage)
delete_all (r, s) = (r, s)

-- Then the storage is deleted, the mark included.
pub finalize_day : Storage → FinalizeResult × Storage
unfolding finalize_mark
finalize_day s = delete_all (finalize_mark s)
