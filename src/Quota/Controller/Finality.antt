-- ===== src/Quota/Controller/Finality.antt =====
-- A day that is marked final has no open request any more, until its storage is deleted.
use octg.Common.{
  ℕ, ◌≡◌, refl, String, Bool, true, false, Option, none, some, arith, subst, Bool-cases, inl, inr,
  matches, lookup,
}
use octg.Shared.Number.{Number, safe_non_negative}
use octg.Shared.Types.{
  RequestEntry, RequestState, reserved, settled, uncertain, reconciled, released,
}
use octg.Relay.Messages.{relay_request_id_pattern}
use octg.Quota.Store.{Storage, Clock, QuotaEnv, QuotaIdentity, ok, is_set, load_unresolved}
use octg.Quota.Leases.Laws.{
  release_in_flight_lease_frame, acquire_in_flight_lease_frame, renew_in_flight_lease_frame,
}
use octg.Quota.CpuGate.Laws.{fence_frame}
use octg.Quota.Leases.{acquire_in_flight_lease, renew_in_flight_lease, release_in_flight_lease}
use octg.Quota.CpuGate.{fence_relay_cpu_gate_setup}
use octg.Quota.Reserve
use octg.Quota.Reserve.{new_entry}
use octg.Quota.Reserve.Laws.{reserve_checked, reserve-Cases, IsLinked}
use octg.Quota.Admission.{Platform, admit_relay_in_transaction}
use octg.Quota.Admission.Sound.{admit-Advances}
use octg.Quota.GrantLifecycle.{
  activate_relay_in_transaction, renew_relay_in_transaction, finish_relay_in_transaction,
}
use octg.Quota.GrantLifecycle.Advancing.{activate-Advances, renew-Advances, finish-Advances}
use octg.Quota.Lifecycle
use octg.Quota.Lifecycle.{Transition, apply_quota_lifecycle_transition, finalize_mark}
use octg.Quota.Lifecycle.Machine.{edge}
use octg.Quota.Lifecycle.Closing.{finalize_mark_frame, finalize_mark_cases}
use octg.Quota.Lifecycle.Ledger.{tally-Covers}
use octg.Quota.Lifecycle.Advances.{
  Advances, grown, fresh, idle, entered-Advances, apply-Advances, mark_unknown-Advances,
}
use octg.Quota.Invariant.{IsSound}
use octg.Quota.Controller.{
  Call, reserve, settle, mark_uncertain, mark_reserve_outcome_unknown, release, reconcile_request,
  acquire_in_flight, renew_in_flight, release_in_flight, admit_relay, activate_relay, renew_relay,
  finish_relay, fence_setup, written, settle_checked, fence_checked, perform, Day, Step, call, mark,
  delete, Reachable, start, then_step,
}
use octg.Quota.Controller.Sound.{written-holds, Reachable-IsSound}

module _ (platform : Platform) (env : QuotaEnv) (identity : QuotaIdentity) where
  transition-Advances :
      (clock : Clock) (x : Transition) (id : String) (s t : Storage)
      → written (apply_quota_lifecycle_transition clock env identity x id s) ≡ ok t
      → Advances s t
  transition-Advances clock x id s t =
      written-holds (Advances s) (apply_quota_lifecycle_transition clock env identity x id s) t
        (λ r. apply-Advances clock env identity x id s r)

  settle_checked-Advances :
      (clock : Clock) (id : String) (n : Option ℕ) (s t : Storage)
      → settle_checked platform env identity clock id n s ≡ ok t
      → Advances s t
  settle_checked-Advances clock id none s t h = absurd (ground arith)
  settle_checked-Advances clock id (some n) s t h =
      transition-Advances clock (Lifecycle.settle n) id s t h

  reserve_checked-Advances :
      (clock : Clock) (id : String) (tokens upper : Number) (key client : Option String)
      (s t : Storage)
      → IsLinked s
      → written (Reserve.reserve clock env identity id tokens upper key client s) ≡ ok t
      → Advances s t
  reserve_checked-Advances clock id tokens upper key client s t linked =
      written-holds (Advances s) (Reserve.reserve clock env identity id tokens upper key client s) t
        (λ a h.
          let (r, own, h') = reserve_checked clock env identity id tokens upper key client s a h in
          elim (reserve-Cases clock env identity r s a linked h') [
            | inl e ↦ idle s a.1 (ground arith) (ground arith)
            | inr (result, unknown, running, e) ↦
                entered-Advances r.request_id (new_entry clock env identity r result) s a.1 unknown
                  running refl (ground arith) (ground arith)
          ])

  fence_checked-Advances :
      (clock : Clock) (now : ℕ) (id : String) (s t : Storage)
      → fence_checked platform env identity clock now id s ≡ ok t
      → Advances s t
  fence_checked-Advances clock now id s t h =
      elim (Bool-cases (matches relay_request_id_pattern id)) [
        | inr bad ↦ absurd (ground arith)
        | inl good ↦
            written-holds (Advances s) (fence_relay_cpu_gate_setup clock env identity now id s) t
              (λ r e.
                let frame = fence_frame clock env identity now id s r e in
                idle s r.1 (ground (arith, frame)) (ground (arith, frame)))
              (ground arith)
      ]

  -- On a sound storage every call that returns takes every request along an edge of its state machine or leaves it where
  -- it is, loses none, adds at most new reservations of a running day, and leaves the day's mark.
  pub perform-Advances :
      (clock : Clock) (now : ℕ) (c : Call) (s t : Storage)
      → IsSound s
      → perform platform env identity clock now c s ≡ ok t
      → Advances s t
  unfolding perform
  perform-Advances clock now (reserve id tokens upper key client) s t sound h =
      reserve_checked-Advances clock id tokens upper key client s t sound.linked h
  perform-Advances clock now (settle id n) s t sound h =
      settle_checked-Advances clock id (safe_non_negative n) s t h
  perform-Advances clock now (mark_uncertain id) s t sound h =
      transition-Advances clock Lifecycle.mark_uncertain id s t h
  perform-Advances clock now (mark_reserve_outcome_unknown id) s t sound h =
      subst (Advances s) {x = (Lifecycle.mark_reserve_outcome_unknown clock env identity id s).1}
        {y = t} (ground arith) (mark_unknown-Advances clock env identity id s)
  perform-Advances clock now (release id) s t sound h =
      transition-Advances clock Lifecycle.release id s t h
  perform-Advances clock now (reconcile_request id d) s t sound h =
      transition-Advances clock (Lifecycle.reconcile d) id s t h
  perform-Advances clock now (acquire_in_flight id limit ttl) s t sound h =
      written-holds (Advances s) (acquire_in_flight_lease clock id limit ttl s) t
        (λ r e.
          let frame = acquire_in_flight_lease_frame clock id limit ttl s r e in
          idle s r.1 (ground (arith, frame)) (ground (arith, frame)))
        h
  perform-Advances clock now (renew_in_flight id generation ttl) s t sound h =
      written-holds (Advances s) (renew_in_flight_lease clock id generation ttl s) t
        (λ r e.
          let frame = renew_in_flight_lease_frame clock id generation ttl s r e in
          idle s r.1 (ground (arith, frame)) (ground (arith, frame)))
        h
  perform-Advances clock now (release_in_flight id generation) s t sound h =
      written-holds (Advances s) (release_in_flight_lease clock id generation s) t
        (λ r e.
          let frame = release_in_flight_lease_frame clock id generation s r e in
          idle s r.1 (ground (arith, frame)) (ground (arith, frame)))
        h
  perform-Advances clock now (admit_relay input) s t sound h =
      written-holds (Advances s)
        (admit_relay_in_transaction clock env identity now platform input s) t
        (λ r. admit-Advances clock env identity now platform input s r) h
  perform-Advances clock now (activate_relay b) s t sound h =
      written-holds (Advances s) (activate_relay_in_transaction clock env identity now b s) t
        (λ r. activate-Advances clock env identity now b s r) h
  perform-Advances clock now (renew_relay b) s t sound h =
      written-holds (Advances s) (renew_relay_in_transaction clock env identity now b s) t
        (λ r. renew-Advances clock env identity now b s r) h
  perform-Advances clock now (finish_relay i) s t sound h =
      written-holds (Advances s) (finish_relay_in_transaction clock env identity now i s) t
        (λ r. finish-Advances clock env identity now i s r) h
  perform-Advances clock now (fence_setup id) s t sound h =
      fence_checked-Advances clock now id s t h

abbrev pub is_closed : RequestState → Bool
is_closed reserved = false
is_closed uncertain = false
is_closed settled = true
is_closed reconciled = true
is_closed released = true

edge-closed : (a b : RequestState) → edge a b ≡ true → is_closed a ≡ true → is_closed b ≡ true
edge-closed a reserved h c = ground arith
edge-closed a settled h c = refl
edge-closed a uncertain h c = ground arith
edge-closed a reconciled h c = refl
edge-closed a released h c = refl

-- A final day has no open request, and a deletion is on its way only on a final day.
pub record IsFinalRight (d : Day) : Type 0 where
  pub all_closed :
      is_set d.storage.finalized ≡ true
      → (id : String) (e : RequestEntry) → lookup id d.storage.entries ≡ some e
      → is_closed e.state ≡ true
  pub only_final : d.deleting ≡ true → is_set d.storage.finalized ≡ true

-- With both counters at 0 a balanced day has no open request.
counted-closed :
    (s : Storage) (id : String) (e : RequestEntry)
    → IsSound s
    → (load_unresolved s).uncertain_count ≡ 0
    → (load_unresolved s).reserved_count ≡ 0
    → lookup id s.entries ≡ some e
    → is_closed e.state ≡ true
counted-closed s id e sound u r found =
    let covers = tally-Covers id e s.entries found in
    ground (arith, covers.reserved_count_le, covers.uncertain_count_le, sound.balanced)

advance-closed :
    (s t : Storage)
    → Advances s t
    → (is_set s.finalized ≡ true
        → (id : String) (e : RequestEntry) → lookup id s.entries ≡ some e
        → is_closed e.state ≡ true)
    → is_set t.finalized ≡ true
    → (id : String) (e : RequestEntry) → lookup id t.entries ≡ some e
    → is_closed e.state ≡ true
advance-closed s t a closed final id e found = elim (a.every id e found) [
  | grown x was taken kept ↦
      edge-closed x.state e.state taken (closed (ground (arith, a.same_mark)) id x was)
  | fresh unknown running st ↦ absurd (ground (arith, a.same_mark))
]

module _ (platform : Platform) (env : QuotaEnv) (identity : QuotaIdentity) where
  Step-IsFinalRight :
      (d d' : Day)
      → Step platform env identity d d'
      → IsSound d.storage
      → IsFinalRight d
      → IsFinalRight d'
  Step-IsFinalRight _ _ (call clock now c s t x h) sound f =
      let a = perform-Advances platform env identity clock now c s t sound h in
      record {
        all_closed = advance-closed s t a f.all_closed;
        only_final = λ h. ground (arith, a.same_mark, f.only_final h);
      }
  Step-IsFinalRight _ _ (mark s h) sound f =
      let (set, u, r) = finalize_mark_cases s h in
      record {
        all_closed = λ final id e found.
            counted-closed s id e sound u r (ground (arith, finalize_mark_frame s));
        only_final = λ h. ground arith;
      }
  Step-IsFinalRight _ _ (delete s) sound f = record {
    all_closed = λ final. absurd (ground arith);
    only_final = λ h. absurd (ground arith);
  }

  -- On every day that is reached, a day that is marked final has no reserved and no uncertain request,
  -- and the storage is about to be deleted only where the day is marked: no deletion loses a request
  -- that is still open.
  pub Reachable-IsFinalRight : (d : Day) → Reachable platform env identity d → IsFinalRight d
  Reachable-IsFinalRight _ start = record {
    all_closed = λ final. absurd (ground arith);
    only_final = λ h. absurd (ground arith);
  }
  Reachable-IsFinalRight _ (then_step d d' reached moved) =
      Step-IsFinalRight d d' moved (Reachable-IsSound platform env identity d reached)
        (Reachable-IsFinalRight d reached)
