-- ===== src/Quota/Invariant.antt =====
-- The invariant of a quota controller's storage, and its preservation by the request lifecycle.
pub mod Entering
use octg.Common.{
  ℕ, ◌≡◌, refl, sym, String, Bool, true, false, Option, none, some, arith, Dict, lookup, insert,
  lookup-insert, is_some, is_some-lookup-insert, same, same_iff, same_sound, subst, inl, inr,
  Option-cases, Bool-cases,
}
use mathlib.Core.Path.{subst₂}
use octg.Shared.Types.{RequestState, reserved, RequestEntry}
use octg.Relay.Errors.{RelayGrantState, authorized, attempted}
use octg.Quota.Store.{
  Storage, Clock, QuotaEnv, QuotaIdentity, RelayGrant, Result, ok, failed, Result-cases,
}
use octg.Quota.Lifecycle.Ledger.{IsBalanced}
use octg.Quota.Lifecycle.Machine.{IsCoherent, not_reserved, Moves, Moved, Keeps, edge}
use octg.Quota.Lifecycle.Closing.{ClosedAt}
use octg.Quota.Grant.Laws.{GrantsStep, kept, put}
use octg.Quota.Lifecycle.{
  Transition, TransitionResult, apply_quota_lifecycle_transition, mark_reserve_outcome_unknown,
}
use octg.Quota.Lifecycle.Ledger.Preserved.{apply-IsBalanced, mark_unknown-IsBalanced}
use octg.Quota.Lifecycle.Machine.{
  apply-Moved, apply_missing, apply-GrantsStep, mark_unknown-Moved, mark_unknown-grants,
  mark_unknown_missing,
}
use octg.Quota.Lifecycle.Closing.{apply-ClosedAt}
use octg.Quota.Reserve.Laws.{IsLinked, entry-IsLinked}

-- A grant that can still be used: it alone may have a reserved request.
abbrev pub is_live : RelayGrantState → Bool
is_live authorized = true
is_live attempted = true
is_live _ = false

-- A grant stands under its own request id, its request has an entry, and the request of a grant that
-- is not live is not reserved.
pub record IsBacked (entries : Dict RequestEntry) (id : String) (g : RelayGrant) : Type 0 where
  pub own_id : g.request_id ≡ id
  pub has_request : is_some (lookup id entries) ≡ true
  pub no_leak :
      (e : RequestEntry)
      → lookup id entries ≡ some e
      → is_live g.state ≡ false
      → not_reserved e.state ≡ true

pub record IsSound (s : Storage) : Type 0 where
  pub balanced : IsBalanced s
  pub linked : IsLinked s
  pub coherent : (id : String) (e : RequestEntry) → lookup id s.entries ≡ some e → IsCoherent e
  pub backed :
      (id : String) (g : RelayGrant) → lookup id s.grants ≡ some g → IsBacked s.entries id g

-- An edge never leads back to reserved.
edge-not_reserved :
    (a b : RequestState) → edge a b ≡ true → not_reserved a ≡ true → not_reserved b ≡ true
edge-not_reserved reserved b h n = ground arith
edge-not_reserved _ b h n = ground arith

-- The exchange of one entry by an edge keeps grants backed and entries coherent.
pub insert-IsBacked :
    (id : String) (e e' : RequestEntry) (es : Dict RequestEntry) (j : String) (g : RelayGrant)
    → lookup id es ≡ some e
    → Keeps e e'
    → IsBacked es j g
    → IsBacked (insert id e' es) j g
insert-IsBacked id e e' es j g found k b = record {
  own_id = b.own_id;
  has_request = is_some-lookup-insert id j e' es b.has_request;
  no_leak = leak;
}
  where
    leak :
        (x : RequestEntry)
        → lookup j (insert id e' es) ≡ some x
        → is_live g.state ≡ false
        → not_reserved x.state ≡ true
    leak x h dead = elim (Bool-cases (same id j)) [
      | inl hit ↦ ground (
        arith,
        lookup-insert id j e' es,
        same_iff id j,
        b.no_leak e,
        edge-not_reserved e.state e'.state k.edge_taken,
      )
      | inr miss ↦ ground (arith, lookup-insert id j e' es, b.no_leak x)
    ]

-- What `IsSound` reads of a storage.
pub record SameCore (s t : Storage) : Type 0 where
  pub same_pool : t.pool ≡ s.pool
  pub same_entries : t.entries ≡ s.entries
  pub same_unresolved : t.unresolved ≡ s.unresolved
  pub same_idempotency : t.idempotency ≡ s.idempotency

-- One entry takes an edge.
pub move-IsSound :
    (id : String) (e : RequestEntry) (s t : Storage)
    → IsSound s
    → lookup id s.entries ≡ some e
    → Moved id e s t
    → IsBalanced t
    → t.grants ≡ s.grants
    → IsSound t
move-IsSound id e s t sound found (e', m) b same_grants = record {
  balanced = b;
  linked = entry-IsLinked id e' s t m.entries_moved m.rest.same_idempotency sound.linked;
  coherent = λ j x h. ground (
    arith,
    lookup-insert id j e' s.entries,
    m.entries_moved,
    sound.coherent j x,
    m.keeps.coherent (sound.coherent id e found),
  );
  backed = λ j g h. rw m.entries_moved (
      insert-IsBacked id e e' s.entries j g found m.keeps
        (sound.backed j g (rw (← same_grants) h)));
}

-- A grant of a request is written anew; it is live, or its request is closed.
pub put-IsSound :
    (id : String) (g : RelayGrant) (s t : Storage)
    → IsSound s
    → SameCore s t
    → t.grants ≡ insert id g s.grants
    → g.request_id ≡ id
    → is_some (lookup id s.entries) ≡ true
    → (is_live g.state ≡ false → ClosedAt id s)
    → IsSound t
put-IsSound id g s t sound core grants own present closed = record {
  balanced = ground (arith, sound.balanced, core);
  linked = record { has_entry = ground (arith, sound.linked.has_entry) };
  coherent = λ j x h. sound.coherent j x (rw (← core.same_entries) h);
  backed = λ j x h. rw core.same_entries (back j x h);
}
  where
    leak :
        (e : RequestEntry)
        → lookup id s.entries ≡ some e
        → is_live g.state ≡ false
        → not_reserved e.state ≡ true
    leak e f dead = let (e', f', c) = closed dead in ground arith

    self : IsBacked s.entries id g
    self = record { own_id = own; has_request = present; no_leak = leak }

    back : (j : String) (x : RelayGrant) → lookup j t.grants ≡ some x → IsBacked s.entries j x
    back j x h = elim (Bool-cases (same id j)) [
      | inl hit ↦
          subst₂ (IsBacked s.entries) (same_sound id j hit)
            (ground (arith, same_sound id j hit, lookup-insert id j g s.grants)) self
      | inr miss ↦ sound.backed j x (ground (arith, lookup-insert id j g s.grants))
    ]

-- Nothing that the invariant reads has changed.
pub same-IsSound : (s t : Storage) → IsSound s → SameCore s t → t.grants ≡ s.grants → IsSound t
same-IsSound s t sound core grants = record {
  balanced = ground (arith, sound.balanced, core);
  linked = record { has_entry = ground (arith, sound.linked.has_entry) };
  coherent = λ j x h. sound.coherent j x (rw (← core.same_entries) h);
  backed = λ j x h. rw core.same_entries (sound.backed j x (rw (← grants) h));
}

-- An exchange of an entry together with a step of its grant.
pub step-IsSound :
    (id : String) (e : RequestEntry) (s t : Storage)
    → IsSound s
    → lookup id s.entries ≡ some e
    → Moved id e s t
    → IsBalanced t
    → GrantsStep id s t
    → ClosedAt id t
    → IsSound t
step-IsSound id e s t sound found m b (kept same_grants) c =
    move-IsSound id e s t sound found m b same_grants
step-IsSound id e s t sound found m b (put g g' held own written) c =
    put-IsSound id g' before t
      (move-IsSound id e s before sound found
        (m.0, record { entries_moved = m.1.entries_moved; keeps = m.1.keeps; rest = ground arith })
        (ground arith) refl)
      (ground arith) (ground (arith, (sound.backed id g held).own_id))
      (ground (arith, (sound.backed id g held).own_id)) (ground arith) (λ _. c)
  where
    before : Storage
    before = record t { grants = s.grants }

module _ (clock : Clock) (env : QuotaEnv) (identity : QuotaIdentity) where
  -- Every transition of the lifecycle that returns keeps the invariant.
  pub apply-IsSound :
      (t : Transition) (id : String) (s : Storage) (r : TransitionResult × Storage)
      → IsSound s
      → apply_quota_lifecycle_transition clock env identity t id s ≡ ok r
      → IsSound r.1
  apply-IsSound t id s r sound h = elim (Option-cases (lookup id s.entries)) [
    | inl absent ↦ rw (apply_missing clock env identity id t s r absent h) sound
    | inr (e, found) ↦
        step-IsSound id e s r.1 sound found (apply-Moved clock env identity id t e s r found h)
          (apply-IsBalanced clock env identity id s sound.balanced t r h)
          (apply-GrantsStep clock env identity id t s r h)
          (apply-ClosedAt clock env identity id t e s r found (sound.coherent id e found) h)
  ]

  pub mark_unknown-IsSound :
      (id : String) (s : Storage)
      → IsSound s
      → IsSound (mark_reserve_outcome_unknown clock env identity id s).1
  mark_unknown-IsSound id s sound = elim (Option-cases (lookup id s.entries)) [
    | inl absent ↦ rw (mark_unknown_missing clock env identity id s absent) sound
    | inr (e, found) ↦
        move-IsSound id e s _ sound found (mark_unknown-Moved clock env identity id e s found)
          (mark_unknown-IsBalanced clock env identity id s sound.balanced)
          (mark_unknown-grants clock env identity id s)
  ]
