-- ===== src/Quota/Controller.antt =====
-- durable-objects/quota-controller/src/quota-controller.ts: the calls of the quota controller that
-- write its storage, and the storage after them. A call that throws leaves the storage as it was.
-- `finalizeDay` is two steps, the transaction that marks the day and the deletion, since the code
-- awaits between them.
pub mod Sound
pub mod Finality
pub mod Tests
use octg.Common.{
  ℕ, ◌≡◌, String, Bool, true, false, Option, none, some, List, [], ◌∷◌, if◌then◌else◌, matches,
}
use octg.Shared.Number.{Number, safe_non_negative}
use octg.Shared.Types.{Disposition, ReserveResult, FinalizeResult, deleted}
use octg.Relay.Messages.{relay_request_id_pattern}
use octg.Quota.Store.{
  Storage, Clock, QuotaEnv, QuotaIdentity, Result, ok, failed, type_error, ◌>>=◌, empty_storage,
}
use octg.Quota.Leases.{acquire_in_flight_lease, renew_in_flight_lease, release_in_flight_lease}
use octg.Quota.Lifecycle
use octg.Quota.Lifecycle.{Transition, apply_quota_lifecycle_transition, finalize_mark}
use octg.Quota.Reserve
use octg.Quota.Admission.{Platform, RelayAdmissionInput, admit_relay_in_transaction}
use octg.Quota.Grant.{RelayGrantBinding}
use octg.Quota.GrantLifecycle.{
  FinishRelayInput, activate_relay_in_transaction, renew_relay_in_transaction,
  finish_relay_in_transaction,
}
use octg.Quota.CpuGate.{FenceResult, fence_relay_cpu_gate_setup}

pub data Call : Type 0 where
  reserve : String → Number → Number → Option String → Option String → Call
  settle : String → Number → Call
  mark_uncertain mark_reserve_outcome_unknown release : String → Call
  reconcile_request : String → Disposition → Call
  acquire_in_flight : String → Number → Number → Call
  renew_in_flight : String → String → Number → Call
  release_in_flight : String → Option String → Call
  admit_relay : RelayAdmissionInput → Call
  activate_relay renew_relay : RelayGrantBinding → Call
  finish_relay : FinishRelayInput → Call
  fence_setup : String → Call

abbrev pub written {ℓ} : {A : Type ℓ} → Result (A × Storage) → Result Storage
written (ok a) = ok a.1
written (failed x) = failed x

-- The storage of a day, and whether a deletion is on its way.
pub record Day : Type 0 where
  pub storage : Storage
  pub deleting : Bool

module _ (platform : Platform) (env : QuotaEnv) (identity : QuotaIdentity) where
  abbrev transition : Clock → Transition → String → Storage → Result Storage
  transition clock t id s = written (apply_quota_lifecycle_transition clock env identity t id s)

  -- `settle` of the class checks its number first.
  abbrev settle_checked : Clock → String → Option ℕ → Storage → Result Storage
  settle_checked clock id none s = failed type_error
  settle_checked clock id (some n) s = transition clock (Lifecycle.settle n) id s

  abbrev fence_checked : Clock → ℕ → String → Storage → Result Storage
  fence_checked clock now id s =
      if matches relay_request_id_pattern id
      then written (fence_relay_cpu_gate_setup clock env identity now id s)
      else failed type_error

  -- `now` is the `Date.now()` that the relay operations are given.
  pub perform : Clock → ℕ → Call → Storage → Result Storage
  perform clock now (reserve id tokens upper key client) s =
      written (Reserve.reserve clock env identity id tokens upper key client s)
  perform clock now (settle id n) s = settle_checked clock id (safe_non_negative n) s
  perform clock now (mark_uncertain id) s = transition clock Lifecycle.mark_uncertain id s
  perform clock now (mark_reserve_outcome_unknown id) s =
      ok (Lifecycle.mark_reserve_outcome_unknown clock env identity id s).1
  perform clock now (release id) s = transition clock Lifecycle.release id s
  perform clock now (reconcile_request id d) s = transition clock (Lifecycle.reconcile d) id s
  perform clock now (acquire_in_flight id limit ttl) s =
      written (acquire_in_flight_lease clock id limit ttl s)
  perform clock now (renew_in_flight id generation ttl) s =
      written (renew_in_flight_lease clock id generation ttl s)
  perform clock now (release_in_flight id generation) s =
      written (release_in_flight_lease clock id generation s)
  perform clock now (admit_relay input) s =
      written (admit_relay_in_transaction clock env identity now platform input s)
  perform clock now (activate_relay b) s =
      written (activate_relay_in_transaction clock env identity now b s)
  perform clock now (renew_relay b) s =
      written (renew_relay_in_transaction clock env identity now b s)
  perform clock now (finish_relay i) s =
      written (finish_relay_in_transaction clock env identity now i s)
  perform clock now (fence_setup id) s = fence_checked clock now id s

  -- One step of a day: a call that returns, the mark of `finalizeDay`, or the deletion after it. A
  -- second `finalizeDay` waits for the first.
  pub data Step : Day → Day → Type 0 where
    call :
        (clock : Clock) (now : ℕ) (c : Call) (s t : Storage) (d : Bool)
        → perform clock now c s ≡ ok t
        → Step (record { storage = s; deleting = d }) (record { storage = t; deleting = d })
    mark :
        (s : Storage)
        → (finalize_mark s).0 ≡ deleted
        → Step
            (record { storage = s; deleting = false })
            (record { storage = (finalize_mark s).1; deleting = true })
    delete :
        (s : Storage)
        → Step
            (record { storage = s; deleting = true })
            (record { storage = empty_storage; deleting = false })

  pub data Reachable : Day → Type 0 where
    start : Reachable (record { storage = empty_storage; deleting = false })
    then_step : (d d' : Day) → Reachable d → Step d d' → Reachable d'
