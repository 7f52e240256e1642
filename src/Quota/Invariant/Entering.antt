-- ===== src/Quota/Invariant/Entering.antt =====
-- New requests keep the invariant: the entry of a request that had none, and `reserve`.
use octg.Common.{
  ◌≡◌, String, true, false, none, some, arith, lookup, insert, lookup-insert, is_some-lookup-insert,
  same, same_sound, inl, inr, Bool-cases,
}
use octg.Shared.Types.{RequestEntry, ReserveResult}
use octg.Quota.Store.{Storage, Clock, QuotaEnv, QuotaIdentity, RelayGrant, ok, load_pool}
use octg.Quota.Lifecycle.Ledger.{IsBalanced}
use octg.Quota.Lifecycle.Machine.{IsCoherent, not_reserved}
use octg.Quota.Reserve.{Reservation, reserve_in_transaction, new_entry}
use octg.Quota.Reserve.Laws.{IsLinked, reserve-Cases, take-IsBalanced, take-IsLinked}
use octg.Quota.Invariant.{IsSound, IsBacked, is_live}

-- A request that had no entry gets one, and the grants stay.
pub enter-IsSound :
    (id : String) (e : RequestEntry) (s t : Storage)
    → IsSound s
    → lookup id s.entries ≡ none
    → t.entries ≡ insert id e s.entries
    → IsCoherent e
    → IsBalanced t
    → IsLinked t
    → t.grants ≡ s.grants
    → IsSound t
enter-IsSound id e s t sound absent entries c b l grants = record {
  balanced = b;
  linked = l;
  coherent = λ j x h. ground (arith, lookup-insert id j e s.entries, entries, sound.coherent j x);
  backed = λ j g h. rw entries (back j g (sound.backed j g (rw (← grants) h)));
}
  where
    leak :
        (j : String) (g : RelayGrant) (x : RequestEntry)
        → IsBacked s.entries j g
        → lookup j (insert id e s.entries) ≡ some x
        → is_live g.state ≡ false
        → not_reserved x.state ≡ true
    leak j g x k h dead = elim (Bool-cases (same id j)) [
      | inl hit ↦ absurd (ground (arith, k.has_request, same_sound id j hit))
      | inr miss ↦ ground (arith, lookup-insert id j e s.entries, k.no_leak x)
    ]

    back :
        (j : String) (g : RelayGrant)
        → IsBacked s.entries j g
        → IsBacked (insert id e s.entries) j g
    back j g k = record {
      own_id = k.own_id;
      has_request = is_some-lookup-insert id j e s.entries k.has_request;
      no_leak = λ x. leak j g x k;
    }

module _ (clock : Clock) (env : QuotaEnv) (identity : QuotaIdentity) where
  pub reserve-IsSound :
      (r : Reservation) (s : Storage) (a : ReserveResult × Storage)
      → IsSound s
      → reserve_in_transaction clock env identity r s ≡ ok a
      → IsSound a.1
  reserve-IsSound r s a sound h = elim (reserve-Cases clock env identity r s a sound.linked h) [
    | inl e ↦ rw e sound
    | inr (result, absent, running, e) ↦ rw e (
        enter-IsSound r.request_id (new_entry clock env identity r result) s _ sound absent
          (ground arith) (ground arith)
          (take-IsBalanced clock env identity r s result sound.balanced absent)
          (take-IsLinked clock env identity r s result (load_pool clock env identity s)
            sound.linked)
          (ground arith))
  ]
