-- ===== src/Quota/Grant/Laws.antt =====
-- What the end of a grant leaves alone, and what the binding of a credential means.
use octg.Common.{
  ◌≡◌, refl, String, Option, some, arith, lookup, insert, Dict, inl, inr, Option-cases, Bool-cases,
}
use octg.Shared.Types.{Disposition}
use octg.Quota.Store.{RelayGrant, Storage, Clock, ok, Result-cases, InFlightState}
use octg.Quota.Leases.{release_in_flight_lease}
use octg.Quota.Leases.Laws.{release_in_flight_lease_frame}
use octg.Quota.Grant.{is_terminal_grant_state, reconciled_grant, terminalize_grant_on_reconcile}

-- `s` with other leases and grants.
abbrev pub with_grants : Option InFlightState → Dict RelayGrant → Storage → Storage
with_grants f g s = record s { in_flight = f; grants = g }

pub terminalize_frame :
    (clock : Clock) (id : String) (d : Disposition) (s t : Storage)
    → terminalize_grant_on_reconcile clock id d s ≡ ok t
    → t ≡ with_grants t.in_flight t.grants s
unfolding terminalize_grant_on_reconcile
terminalize_frame clock id d s t h = grind (arith, release_in_flight_lease_frame)

-- The grants after an operation on one request: as they were, or with a new grant of that request.
pub data GrantsStep (id : String) (s t : Storage) : Type 0 where
  kept : t.grants ≡ s.grants → GrantsStep id s t
  put :
      (g g' : RelayGrant)
      → lookup id s.grants ≡ some g
      → g'.request_id ≡ g.request_id
      → t.grants ≡ insert g.request_id g' s.grants
      → GrantsStep id s t

pub terminalize-GrantsStep :
    (clock : Clock) (id : String) (d : Disposition) (s t : Storage)
    → terminalize_grant_on_reconcile clock id d s ≡ ok t
    → GrantsStep id s t
unfolding terminalize_grant_on_reconcile
terminalize-GrantsStep clock id d s t h = elim (Option-cases (lookup id s.grants)) [
  | inl e ↦ kept (ground arith)
  | inr (g, e) ↦ elim (Bool-cases (is_terminal_grant_state g.state)) [
    | inl over ↦ kept (ground arith)
    | inr live ↦
        elim (Result-cases (release_in_flight_lease clock id (some g.lease_generation) s)) [
          | inl (r, eq) ↦ put g (reconciled_grant g d) e refl (
              ground
                (arith, release_in_flight_lease_frame clock id (some g.lease_generation) s r eq))
          | inr (x, eq) ↦ absurd (ground arith)
        ]
  ]
]
