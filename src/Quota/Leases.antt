-- ===== src/Quota/Leases.antt =====
-- The in-flight leases of durable-objects/quota-controller/src/store.ts.
pub mod Laws
pub mod Parts
pub mod Release
pub mod Tests
use octg.Common.{
  ℕ, zero, suc, ◌+◌, ◌<◌, String, Bool, true, false, not, ◌&&◌, ◌||◌, Option, none, some, List, [],
  ◌∷◌, ◌++◌, map, ltb, leb, ◌==◌, if◌then◌else◌, same, ◌<>◌, length, is_some, codes, fits,
}
use text.Mathlib.Text.{starts_with}
use octg.Shared.Number.{Number, max_safe_integer, safe_positive}
use octg.Shared.Types.{
  InFlightLease, AcquireResult, acquired, worker_concurrency_exceeded, RenewResult, renewed,
  lease_not_found, stale_generation, default_in_flight_lease_ttl_ms,
}
use octg.Quota.Store.{
  InFlightState, legacy, leased, Storage, Clock, Result, ok, failed, type_error, Error, ◌>>=◌,
  load_in_flight, save_in_flight,
}

-- `expiresAtMs`, on a time to live that may be no positive safe integer.
unfoldable pub expires_at_ms : Option ℕ → ℕ → Result ℕ
expires_at_ms none now = failed type_error
expires_at_ms (some ttl) now =
    if leb (now + ttl) max_safe_integer then ok (now + ttl) else failed type_error

abbrev legacy_lease : ℕ → String → InFlightLease
legacy_lease expires id = record {
  request_id = id;
  generation = "legacy:" <> id;
  expires_at_ms = expires;
}

pub record Normalized : Type 0 where
  pub leases : List InFlightLease
  pub migrated : Bool

-- An empty old list computes no expiry, so it cannot throw.
unfoldable pub normalize_in_flight_state : InFlightState → ℕ → Result Normalized
unfolding expires_at_ms
normalize_in_flight_state (leased leases) now = ok (record { leases = leases; migrated = false })
normalize_in_flight_state (legacy []) now = ok (record { leases = []; migrated = true })
normalize_in_flight_state (legacy (id ∷ ids)) now = do
  expires ← expires_at_ms (some default_in_flight_lease_ttl_ms) now
  ok (record { leases = map (legacy_lease expires) (id ∷ ids); migrated = true })

unfoldable pub without_expired_leases : ℕ → List InFlightLease → List InFlightLease
without_expired_leases now [] = []
without_expired_leases now (l ∷ ls) =
    let rest = without_expired_leases now ls in if ltb now l.expires_at_ms then l ∷ rest else rest

-- `leases.find((lease) => lease.requestId === id)`.
unfoldable pub find_lease : String → List InFlightLease → Option InFlightLease
find_lease id [] = none
find_lease id (l ∷ ls) = if same l.request_id id then some l else find_lease id ls

-- `map` and `filter` by the identity of the lease that `find` returned touch that one alone: the
-- first of its request id.
unfoldable pub replace_found : String → InFlightLease → List InFlightLease → List InFlightLease
replace_found id new [] = []
replace_found id new (l ∷ ls) =
    if same l.request_id id then new ∷ ls else l ∷ replace_found id new ls

unfoldable pub remove_found : String → List InFlightLease → List InFlightLease
remove_found id [] = []
remove_found id (l ∷ ls) = if same l.request_id id then ls else l ∷ remove_found id ls

-- What the code saves where the old format or an expired lease is to go.
abbrev pub save_if_changed : Normalized → List InFlightLease → Storage → Storage
save_if_changed n kept s =
    if n.migrated || not (length kept == length n.leases) then save_in_flight kept s else s

abbrev pub new_lease : Clock → String → ℕ → InFlightLease
new_lease clock id expires = record {
  request_id = id;
  generation = clock.lease_uuid;
  expires_at_ms = expires;
}

-- The part of `acquireInFlightLease` that follows the checks and the clean-up.
acquire_active : Clock → String → ℕ → ℕ → List InFlightLease → Storage → AcquireResult × Storage
acquire_active clock id limit expires active s = elim (find_lease id active) [
  | some lease ↦ (acquired lease, s)
  | none ↦ if leb limit (length active) then (worker_concurrency_exceeded, s) else (
    acquired (new_lease clock id expires),
    save_in_flight (active ++ new_lease clock id expires ∷ []) s,
  )
]

unfoldable pub acquire_in_flight_lease :
    Clock → String → Number → Number → Storage → Result (AcquireResult × Storage)
unfolding acquire_active
acquire_in_flight_lease clock id limit ttl s = elim (safe_positive limit) [
  | none ↦ failed type_error
  | some bound ↦ (do
    n ← normalize_in_flight_state (load_in_flight s) clock.now_ms
    expires ← expires_at_ms (safe_positive ttl) clock.now_ms
    let active = without_expired_leases clock.now_ms n.leases
    ok (acquire_active clock id bound expires active (save_if_changed n active s)))
]

renew_active : String → String → ℕ → List InFlightLease → Storage → RenewResult × Storage
renew_active id generation expires active s = elim (find_lease id active) [
  | none ↦ (lease_not_found, s)
  | some lease ↦
      if same lease.generation generation
      then (
        renewed (record lease { expires_at_ms = expires }),
        save_in_flight (replace_found id (record lease { expires_at_ms = expires }) active) s,
      )
      else (stale_generation, s)
]

unfoldable pub renew_in_flight_lease :
    Clock → String → String → Number → Storage → Result (RenewResult × Storage)
unfolding renew_active
renew_in_flight_lease clock id generation ttl s = do
  n ← normalize_in_flight_state (load_in_flight s) clock.now_ms
  expires ← expires_at_ms (safe_positive ttl) clock.now_ms
  let active = without_expired_leases clock.now_ms n.leases
  ok (renew_active id generation expires active (save_if_changed n active s))

-- `generation.startsWith("legacy:")`.
pub is_legacy_generation : String → Bool
is_legacy_generation g = starts_with g "legacy:"

abbrev pub can_release : Option InFlightLease → Option String → Bool
can_release none generation = false
can_release (some lease) none = is_legacy_generation lease.generation
can_release (some lease) (some generation) = same lease.generation generation

abbrev pub retained : String → Option String → List InFlightLease → List InFlightLease
retained id generation active =
    if can_release (find_lease id active) generation then remove_found id active else active

unfoldable pub release_in_flight_lease :
    Clock → String → Option String → Storage → Result (Bool × Storage)
release_in_flight_lease clock id generation s = do
  n ← normalize_in_flight_state (load_in_flight s) clock.now_ms
  let active = without_expired_leases clock.now_ms n.leases
  ok (
    can_release (find_lease id active) generation,
    save_if_changed n (retained id generation active) s,
  )
