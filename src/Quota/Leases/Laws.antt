-- ===== src/Quota/Leases/Laws.antt =====
-- What the lease operations leave alone, and whom they serve.
use octg.Common.{
  ℕ, ◌≤◌, ◌<◌, ◌≡◌, refl, inl, inr, String, Bool, Option, none, some, List, [], ◌∷◌, ◌++◌, arith,
  length, length-append, Option-cases, same_refl,
}
use octg.Shared.Number.{Number, safe_positive}
use octg.Shared.Types.{InFlightLease, AcquireResult, acquired, RenewResult}
use octg.Quota.Store.{Storage, Clock, Result-cases, ok, InFlightState, leased, load_in_flight}
use octg.Quota.Leases.{
  Normalized, expires_at_ms, normalize_in_flight_state, without_expired_leases, find_lease,
  new_lease, acquire_active, acquire_in_flight_lease, renew_in_flight_lease,
  release_in_flight_lease,
}

-- `s` with other leases.
abbrev pub with_in_flight : Option InFlightState → Storage → Storage
with_in_flight f s = record s { in_flight = f }

pub release_in_flight_lease_frame :
    (clock : Clock) (id : String) (g : Option String) (s : Storage) (r : Bool × Storage)
    → release_in_flight_lease clock id g s ≡ ok r
    → r.1 ≡ with_in_flight (r.1).in_flight s
unfolding release_in_flight_lease
release_in_flight_lease_frame clock id g s r h = ground arith

pub acquire_in_flight_lease_frame :
    (clock : Clock) (id : String) (limit ttl : Number) (s : Storage) (r : AcquireResult × Storage)
    → acquire_in_flight_lease clock id limit ttl s ≡ ok r
    → r.1 ≡ with_in_flight (r.1).in_flight s
unfolding acquire_in_flight_lease
acquire_in_flight_lease_frame clock id limit ttl s r h = ground arith

pub renew_in_flight_lease_frame :
    (clock : Clock) (id g : String) (ttl : Number) (s : Storage) (r : RenewResult × Storage)
    → renew_in_flight_lease clock id g ttl s ≡ ok r
    → r.1 ≡ with_in_flight (r.1).in_flight s
unfolding renew_in_flight_lease
renew_in_flight_lease_frame clock id g ttl s r h = ground arith

module _ (id : String) (now : ℕ) where
  -- An active lease stays active at the same time, however often the expired ones are dropped.
  without_expired-twice :
      (ls : List InFlightLease)
      → without_expired_leases now (without_expired_leases now ls) ≡ without_expired_leases now ls
  unfolding without_expired_leases
  without_expired-twice [] = refl
  without_expired-twice (l ∷ ls) = ground (arith, without_expired-twice ls)

  without_expired-append :
      (xs : List InFlightLease) (l : InFlightLease)
      → now < l.expires_at_ms
      → without_expired_leases now (xs ++ l ∷ []) ≡ without_expired_leases now xs ++ l ∷ []
  unfolding without_expired_leases
  without_expired-append [] l h = ground arith
  without_expired-append (x ∷ xs) l h = ground (arith, without_expired-append xs l h)

  find_lease-append :
      (xs : List InFlightLease) (l : InFlightLease)
      → l.request_id ≡ id
      → find_lease id xs ≡ none
      → find_lease id (xs ++ l ∷ []) ≡ some l
  unfolding find_lease
  find_lease-append [] l own h = ground (arith, same_refl id)
  find_lease-append (x ∷ xs) l own h = ground (arith, find_lease-append xs l own)

-- What a lease that was just taken looks like in the storage.
pub record Leased (id : String) (limit : Number) (l : InFlightLease) (t : Storage) : Type 0 where
  pub bound : ℕ
  pub is_limit : safe_positive limit ≡ some bound
  pub leases : List InFlightLease
  pub stored : t.in_flight ≡ some (leased leases)
  pub in_limit : length leases ≤ bound
  pub found : find_lease id leases ≡ some l

-- A request without an active lease that gets one is found under it, and with it there are no more
-- leases than the limit.
pub acquire-Leased :
    (clock : Clock) (id : String) (limit ttl : Number) (s t : Storage) (n : Normalized)
    (l : InFlightLease)
    → normalize_in_flight_state (load_in_flight s) clock.now_ms ≡ ok n
    → find_lease id (without_expired_leases clock.now_ms n.leases) ≡ none
    → acquire_in_flight_lease clock id limit ttl s ≡ ok (acquired l, t)
    → Leased id limit l t
unfolding acquire_in_flight_lease acquire_active
acquire-Leased clock id limit ttl s t n l normal unleased h =
    elim (Option-cases (safe_positive limit)) [
      | inl bad ↦ absurd (ground arith)
      | inr (b, eq) ↦ elim (Result-cases (expires_at_ms (safe_positive ttl) clock.now_ms)) [
        | inr (x, e) ↦ absurd (ground arith)
        | inl (expires, e) ↦
            let active = without_expired_leases clock.now_ms n.leases in
            record {
              bound = b;
              is_limit = eq;
              leases = active ++ new_lease clock id expires ∷ [];
              stored = ground arith;
              in_limit = ground (arith, length-append active (new_lease clock id expires ∷ []));
              found = ground (
                arith,
                find_lease-append id clock.now_ms active (new_lease clock id expires) refl unleased,
              );
            }
      ]
    ]
