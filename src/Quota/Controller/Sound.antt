-- ===== src/Quota/Controller/Sound.antt =====
-- Every call of the quota controller keeps the invariant, so it holds of every storage that is reached.
use octg.Common.{
  ℕ, ◌≡◌, refl, String, Option, none, some, arith, subst, Bool-cases, inl, inr, matches, lookup-nil,
}
use octg.Shared.Number.{Number, safe_non_negative}
use octg.Shared.Types.{RequestEntry}
use octg.Relay.Messages.{relay_request_id_pattern}
use octg.Quota.Store.{
  Storage, Clock, QuotaEnv, QuotaIdentity, RelayGrant, Result, ok, failed, empty_storage,
}
use octg.Quota.Leases.Laws.{
  release_in_flight_lease_frame, acquire_in_flight_lease_frame, renew_in_flight_lease_frame,
  with_in_flight,
}
use octg.Quota.CpuGate.Laws.{fence_frame, with_fences}
use octg.Quota.Leases.{acquire_in_flight_lease, renew_in_flight_lease, release_in_flight_lease}
use octg.Quota.CpuGate.{fence_relay_cpu_gate_setup}
use octg.Quota.Reserve
use octg.Quota.Reserve.Laws.{reserve_checked}
use octg.Quota.Admission.{Platform, admit_relay_in_transaction}
use octg.Quota.Admission.Sound.{admit-IsSound}
use octg.Quota.GrantLifecycle.{
  activate_relay_in_transaction, renew_relay_in_transaction, finish_relay_in_transaction,
}
use octg.Quota.GrantLifecycle.Sound.{activate-IsSound, renew-IsSound, finish-IsSound}
use octg.Quota.Lifecycle
use octg.Quota.Lifecycle.{Transition, apply_quota_lifecycle_transition, finalize_mark}
use octg.Quota.Lifecycle.Closing.{finalize_mark_frame}
use octg.Quota.Lifecycle.Ledger.{empty-IsBalanced}
use octg.Quota.Invariant.{IsSound, same-IsSound, apply-IsSound, mark_unknown-IsSound}
use octg.Quota.Invariant.Entering.{reserve-IsSound}
use octg.Quota.Controller.{
  Call, reserve, settle, mark_uncertain, mark_reserve_outcome_unknown, release, reconcile_request,
  acquire_in_flight, renew_in_flight, release_in_flight, admit_relay, activate_relay, renew_relay,
  finish_relay, fence_setup, written, settle_checked, fence_checked, perform, Day, Step, call, mark,
  delete, Reachable, start, then_step,
}

-- What holds after every answer holds after every storage that is written.
pub written-holds {ℓ} :
    {A : Type ℓ} (P : Storage → Type 0) (r : Result (A × Storage)) (t : Storage)
    → ((a : A × Storage) → r ≡ ok a → P a.1)
    → written r ≡ ok t
    → P t
written-holds P (ok a) t h e = subst P {x = a.1} {y = t} (ground arith) (h a refl)
written-holds P (failed x) t h e = absurd (ground arith)

pub empty-IsSound : IsSound empty_storage
empty-IsSound = record {
  balanced = empty-IsBalanced;
  linked = record {
    has_entry = λ slot id h. absurd (ground (arith, lookup-nil {V = String} slot));
  };
  coherent = λ id e h. absurd (ground (arith, lookup-nil {V = RequestEntry} id));
  backed = λ id g h. absurd (ground (arith, lookup-nil {V = RelayGrant} id));
}

module _ (platform : Platform) (env : QuotaEnv) (identity : QuotaIdentity) where
  leases-IsSound : (s t : Storage) → IsSound s → t ≡ with_in_flight t.in_flight s → IsSound t
  leases-IsSound s t sound e = same-IsSound s t sound (ground arith) (ground arith)

  fences-IsSound : (s t : Storage) → IsSound s → t ≡ with_fences t.fences s → IsSound t
  fences-IsSound s t sound e = same-IsSound s t sound (ground arith) (ground arith)

  transition-IsSound :
      (clock : Clock) (x : Transition) (id : String) (s t : Storage)
      → IsSound s
      → written (apply_quota_lifecycle_transition clock env identity x id s) ≡ ok t
      → IsSound t
  transition-IsSound clock x id s t sound =
      written-holds IsSound (apply_quota_lifecycle_transition clock env identity x id s) t
        (λ r. apply-IsSound clock env identity x id s r sound)

  settle_checked-IsSound :
      (clock : Clock) (id : String) (n : Option ℕ) (s t : Storage)
      → IsSound s
      → settle_checked platform env identity clock id n s ≡ ok t
      → IsSound t
  settle_checked-IsSound clock id none s t sound h = absurd (ground arith)
  settle_checked-IsSound clock id (some n) s t sound h =
      transition-IsSound clock (Lifecycle.settle n) id s t sound h

  reserve_checked-IsSound :
      (clock : Clock) (id : String) (tokens upper : Number) (key client : Option String)
      (s t : Storage)
      → IsSound s
      → written (Reserve.reserve clock env identity id tokens upper key client s) ≡ ok t
      → IsSound t
  reserve_checked-IsSound clock id tokens upper key client s t sound =
      written-holds IsSound (Reserve.reserve clock env identity id tokens upper key client s) t
        (λ a h.
          let (r, own, h') = reserve_checked clock env identity id tokens upper key client s a h in
          reserve-IsSound clock env identity r s a sound h')

  fence_checked-IsSound :
      (clock : Clock) (now : ℕ) (id : String) (s t : Storage)
      → IsSound s
      → fence_checked platform env identity clock now id s ≡ ok t
      → IsSound t
  fence_checked-IsSound clock now id s t sound h =
      elim (Bool-cases (matches relay_request_id_pattern id)) [
        | inr bad ↦ absurd (ground arith)
        | inl good ↦
            written-holds IsSound (fence_relay_cpu_gate_setup clock env identity now id s) t
              (λ r e. fences-IsSound s r.1 sound (fence_frame clock env identity now id s r e))
              (ground arith)
      ]

  -- Every call that returns keeps the invariant.
  pub perform-IsSound :
      (clock : Clock) (now : ℕ) (c : Call) (s t : Storage)
      → IsSound s
      → perform platform env identity clock now c s ≡ ok t
      → IsSound t
  unfolding perform
  perform-IsSound clock now (reserve id tokens upper key client) s t sound h =
      reserve_checked-IsSound clock id tokens upper key client s t sound h
  perform-IsSound clock now (settle id n) s t sound h =
      settle_checked-IsSound clock id (safe_non_negative n) s t sound h
  perform-IsSound clock now (mark_uncertain id) s t sound h =
      transition-IsSound clock Lifecycle.mark_uncertain id s t sound h
  perform-IsSound clock now (mark_reserve_outcome_unknown id) s t sound h =
      subst IsSound {x = (Lifecycle.mark_reserve_outcome_unknown clock env identity id s).1} {y = t}
        (ground arith) (mark_unknown-IsSound clock env identity id s sound)
  perform-IsSound clock now (release id) s t sound h =
      transition-IsSound clock Lifecycle.release id s t sound h
  perform-IsSound clock now (reconcile_request id d) s t sound h =
      transition-IsSound clock (Lifecycle.reconcile d) id s t sound h
  perform-IsSound clock now (acquire_in_flight id limit ttl) s t sound h =
      written-holds IsSound (acquire_in_flight_lease clock id limit ttl s) t
        (λ r e. leases-IsSound s r.1 sound (acquire_in_flight_lease_frame clock id limit ttl s r e))
        h
  perform-IsSound clock now (renew_in_flight id generation ttl) s t sound h =
      written-holds IsSound (renew_in_flight_lease clock id generation ttl s) t
        (λ r e.
          leases-IsSound s r.1 sound (renew_in_flight_lease_frame clock id generation ttl s r e))
        h
  perform-IsSound clock now (release_in_flight id generation) s t sound h =
      written-holds IsSound (release_in_flight_lease clock id generation s) t
        (λ r e.
          leases-IsSound s r.1 sound (release_in_flight_lease_frame clock id generation s r e))
        h
  perform-IsSound clock now (admit_relay input) s t sound h =
      written-holds IsSound (admit_relay_in_transaction clock env identity now platform input s) t
        (λ r. admit-IsSound clock env identity now platform input s r sound) h
  perform-IsSound clock now (activate_relay b) s t sound h =
      written-holds IsSound (activate_relay_in_transaction clock env identity now b s) t
        (λ r. activate-IsSound clock env identity now b s r sound) h
  perform-IsSound clock now (renew_relay b) s t sound h =
      written-holds IsSound (renew_relay_in_transaction clock env identity now b s) t
        (λ r. renew-IsSound clock env identity now b s r sound) h
  perform-IsSound clock now (finish_relay i) s t sound h =
      written-holds IsSound (finish_relay_in_transaction clock env identity now i s) t
        (λ r. finish-IsSound clock env identity now i s r sound) h
  perform-IsSound clock now (fence_setup id) s t sound h =
      fence_checked-IsSound clock now id s t sound h

  mark-IsSound : (s : Storage) → IsSound s → IsSound (finalize_mark s).1
  mark-IsSound s sound =
      same-IsSound s (finalize_mark s).1 sound (ground (arith, finalize_mark_frame s))
        (ground (arith, finalize_mark_frame s))

  Step-IsSound :
      (d d' : Day) → Step platform env identity d d' → IsSound d.storage → IsSound d'.storage
  Step-IsSound _ _ (call clock now c s t x h) sound = perform-IsSound clock now c s t sound h
  Step-IsSound _ _ (mark s h) sound = mark-IsSound s sound
  Step-IsSound _ _ (delete s) sound = empty-IsSound

  -- Every storage that calls reach from the empty one, failed calls and finalization included, is
  -- sound: the pool's totals are the sums over its requests, every idempotency key names a request,
  -- and no grant that is over has a reserved request.
  pub Reachable-IsSound : (d : Day) → Reachable platform env identity d → IsSound d.storage
  Reachable-IsSound _ start = empty-IsSound
  Reachable-IsSound _ (then_step d d' reached moved) =
      Step-IsSound d d' moved (Reachable-IsSound d reached)
