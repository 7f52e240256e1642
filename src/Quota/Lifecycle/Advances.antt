-- ===== src/Quota/Lifecycle/Advances.antt =====
-- From one storage to a later one: every request keeps its place in the state machine.
use octg.Common.{
  ◌≡◌, refl, String, true, false, none, some, arith, lookup, insert, lookup-insert, is_some,
  is_some-lookup-insert, same, same_sound, inl, inr, Option-cases, Bool-cases,
}
use octg.Shared.Types.{
  RequestState, reserved, settled, uncertain, reconciled, released, RequestEntry,
}
use octg.Quota.Store.{Storage, Clock, QuotaEnv, QuotaIdentity, ok, is_set}
use octg.Quota.Lifecycle.{
  Transition, TransitionResult, apply_quota_lifecycle_transition, mark_reserve_outcome_unknown,
}
use octg.Quota.Lifecycle.Machine.{
  edge, Moved, apply-Moved, apply_missing, mark_unknown-Moved, mark_unknown_missing,
}

-- Where an entry comes from: it took an edge, or it is a new reservation of a running day.
pub data Origin (id : String) (e' : RequestEntry) (s : Storage) : Type 0 where
  grown :
      (e : RequestEntry)
      → lookup id s.entries ≡ some e
      → edge e.state e'.state ≡ true
      → e'.tokens ≡ e.tokens
      → Origin id e' s
  fresh :
      lookup id s.entries ≡ none → is_set s.finalized ≡ false → e'.state ≡ reserved → Origin id e' s

pub record Advances (s t : Storage) : Type 0 where
  pub same_mark : t.finalized ≡ s.finalized
  pub every : (id : String) (e' : RequestEntry) → lookup id t.entries ≡ some e' → Origin id e' s
  pub none_lost :
      (id : String) → is_some (lookup id s.entries) ≡ true → is_some (lookup id t.entries) ≡ true

edge_refl : (a : RequestState) → edge a a ≡ true
edge_refl reserved = refl
edge_refl settled = refl
edge_refl uncertain = refl
edge_refl reconciled = refl
edge_refl released = refl

-- The requests and the mark of the day are as they were.
pub idle : (s t : Storage) → t.entries ≡ s.entries → t.finalized ≡ s.finalized → Advances s t
idle s t es mark = record {
  same_mark = mark;
  every = λ id e h. grown e (rw (← es) h) (edge_refl e.state) refl;
  none_lost = λ id h. rw es h;
}

-- Later writes of leases, grants and fences change nothing of it.
pub then_idle :
    (s t u : Storage)
    → Advances s t
    → u.entries ≡ t.entries
    → u.finalized ≡ t.finalized
    → Advances s u
then_idle s t u a es mark = record {
  same_mark = ground (arith, a.same_mark);
  every = λ id e h. a.every id e (rw (← es) h);
  none_lost = λ id h. rw es (a.none_lost id h);
}

pub moved-Advances :
    (id : String) (e : RequestEntry) (s t : Storage)
    → lookup id s.entries ≡ some e
    → Moved id e s t
    → Advances s t
moved-Advances id e s t found (e', m) = record {
  same_mark = m.rest.same_mark;
  every = λ j x h. back j x (rw (← m.entries_moved) h);
  none_lost = λ j h. rw m.entries_moved (is_some-lookup-insert id j e' s.entries h);
}
  where
    back :
        (j : String) (x : RequestEntry) → lookup j (insert id e' s.entries) ≡ some x → Origin j x s
    back j x h = elim (Bool-cases (same id j)) [
      | inl hit ↦
          grown e (ground (arith, same_sound id j hit))
            (ground (arith, lookup-insert id j e' s.entries, m.keeps.edge_taken))
            (ground (arith, lookup-insert id j e' s.entries, m.keeps.same_tokens))
      | inr miss ↦
          grown x (ground (arith, lookup-insert id j e' s.entries)) (edge_refl x.state) refl
    ]

pub entered-Advances :
    (id : String) (e : RequestEntry) (s t : Storage)
    → lookup id s.entries ≡ none
    → is_set s.finalized ≡ false
    → e.state ≡ reserved
    → t.entries ≡ insert id e s.entries
    → t.finalized ≡ s.finalized
    → Advances s t
entered-Advances id e s t unknown running st es mark = record {
  same_mark = mark;
  every = λ j x h. back j x (rw (← es) h);
  none_lost = λ j h. rw es (is_some-lookup-insert id j e s.entries h);
}
  where
    back :
        (j : String) (x : RequestEntry) → lookup j (insert id e s.entries) ≡ some x → Origin j x s
    back j x h = elim (Bool-cases (same id j)) [
      | inl hit ↦
          fresh (ground (arith, same_sound id j hit)) running
            (ground (arith, lookup-insert id j e s.entries))
      | inr miss ↦ grown x (ground (arith, lookup-insert id j e s.entries)) (edge_refl x.state) refl
    ]

module _ (clock : Clock) (env : QuotaEnv) (identity : QuotaIdentity) where
  pub apply-Advances :
      (t : Transition) (id : String) (s : Storage) (r : TransitionResult × Storage)
      → apply_quota_lifecycle_transition clock env identity t id s ≡ ok r
      → Advances s r.1
  apply-Advances t id s r h = elim (Option-cases (lookup id s.entries)) [
    | inl missing ↦
        let e : r.1 ≡ s = apply_missing clock env identity id t s r missing h in
        idle s r.1 (ground arith) (ground arith)
    | inr (e, found) ↦
        moved-Advances id e s r.1 found (apply-Moved clock env identity id t e s r found h)
  ]

  pub mark_unknown-Advances :
      (id : String) (s : Storage)
      → Advances s (mark_reserve_outcome_unknown clock env identity id s).1
  mark_unknown-Advances id s = elim (Option-cases (lookup id s.entries)) [
    | inl missing ↦
        let e = mark_unknown_missing clock env identity id s missing in
        idle s (mark_reserve_outcome_unknown clock env identity id s).1 (ground arith)
          (ground arith)
    | inr (e, found) ↦
        moved-Advances id e s (mark_reserve_outcome_unknown clock env identity id s).1 found
          (mark_unknown-Moved clock env identity id e s found)
  ]
