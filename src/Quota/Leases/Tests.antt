-- ===== src/Quota/Leases/Tests.antt =====
-- The lease laws at one active lease.
use octg.Common.{◌≡◌, refl, Bool, true, false, some, none, List, [], ◌∷◌, same}
use octg.Shared.Number.{nat}
use octg.Shared.Types.{InFlightLease, acquired}
use octg.Quota.Store.{Storage, ok, empty_storage, leased, load_in_flight}
use octg.Quota.Samples.{noon, returned}
use octg.Quota.Leases.{
  Normalized, normalize_in_flight_state, without_expired_leases, find_lease,
  acquire_in_flight_lease, release_in_flight_lease,
}
use octg.Quota.Leases.Laws.{Leased, acquire-Leased}
use octg.Quota.Leases.Release.{active_leases, Released, release-Released}

abbrev one_lease : InFlightLease
one_lease = record { request_id = "req_one"; generation = "g"; expires_at_ms = 1795694400001 }

abbrev old_lease : InFlightLease
old_lease = record { request_id = "req_old"; generation = "h"; expires_at_ms = 1795694400000 }

abbrev leases : Normalized
leases = record { leases = one_lease ∷ old_lease ∷ []; migrated = false }

abbrev leased_storage : Storage
leased_storage = record empty_storage { in_flight = some (leased (one_lease ∷ old_lease ∷ [])) }

leases_normal : normalize_in_flight_state (load_in_flight leased_storage) 1795694400000 ≡ ok leases
unfolding normalize_in_flight_state
leases_normal = refl

two_unleased : find_lease "req_two" (without_expired_leases 1795694400000 leases.leases) ≡ none
unfolding find_lease without_expired_leases same
two_unleased = refl

abbrev second_lease : InFlightLease
second_lease = record {
  request_id = "req_two";
  generation = noon.lease_uuid;
  expires_at_ms = 1795694520000;
}

abbrev acquired_run : Storage
acquired_run =
    (returned (acquired one_lease, leased_storage)
      (acquire_in_flight_lease noon "req_two" (nat 2) (nat 120000) leased_storage)).1

two_acquired :
    acquire_in_flight_lease noon "req_two" (nat 2) (nat 120000) leased_storage
    ≡ ok (acquired second_lease, acquired_run)
unfolding acquire_in_flight_lease normalize_in_flight_state find_lease without_expired_leases same
two_acquired = refl

acquire-Leased_example : Leased "req_two" (nat 2) second_lease acquired_run
acquire-Leased_example =
    acquire-Leased noon "req_two" (nat 2) (nat 120000) leased_storage acquired_run leases
      second_lease leases_normal two_unleased two_acquired

abbrev release_run : Bool × Storage
release_run =
    returned (false, leased_storage)
      (release_in_flight_lease noon "req_one" (some "g") leased_storage)

own_release : release_in_flight_lease noon "req_one" (some "g") leased_storage ≡ ok release_run
unfolding release_in_flight_lease normalize_in_flight_state
own_release = refl

release-Released_example :
    (before after : List InFlightLease) × (active_leases 1795694400000 leased_storage ≡ ok before)
    × (active_leases 1795694400000 release_run.1 ≡ ok after)
    × Released "req_one" (some "g") release_run.0 before after
release-Released_example =
    release-Released noon "req_one" (some "g") leased_storage release_run own_release

-- Another generation releases nothing.
foreign_test :
    (returned
      (true, leased_storage)
      (release_in_flight_lease noon "req_one" (some "x") leased_storage)).0
    ≡ false
unfolding release_in_flight_lease normalize_in_flight_state find_lease without_expired_leases same
foreign_test = refl
