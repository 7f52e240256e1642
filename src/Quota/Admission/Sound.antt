-- ===== src/Quota/Admission/Sound.antt =====
-- The admission of a relay request keeps the invariant of the storage.
use octg.Common.{
  ℕ, ◌≡◌, refl, none, some, arith, lookup, lookup-insert_self, subst, inl, inr, Option-cases,
  Bool-cases, List, ◌∷◌, [], ◌++◌,
}
use octg.Shared.Types.{InFlightLease}
use octg.Quota.Store.{
  Storage, Clock, QuotaEnv, QuotaIdentity, ok, load_pool, put_relay_grant, save_in_flight,
}
use octg.Quota.Leases.{Normalized, save_if_changed, without_expired_leases}
use octg.Quota.Reserve.{Reservation, take, new_entry}
use octg.Quota.Reserve.Laws.{take-IsBalanced, take-IsLinked}
use octg.Quota.Admission.{
  Platform, RelayAdmissionInput, AdmissionResult, Admissible, Checked, pass, stop, check_admission,
  admission_result, admitted_grant, relay_lease, admit_writes, admit_checked, key_is_taken,
  admit_relay_in_transaction,
}
use octg.Quota.Admission.Laws.{NewCases, refused, took, admit_new-NewCases}
use octg.Quota.Lifecycle.Advances.{Advances, idle, entered-Advances}
use octg.Quota.Invariant.{IsSound, same-IsSound, put-IsSound}
use octg.Quota.Invariant.Entering.{enter-IsSound}

module _ (clock : Clock) (env : QuotaEnv) (identity : QuotaIdentity) (now : ℕ) where
  -- What an admission takes of the quota is what `reserve` takes.
  abbrev reservation : Admissible → Reservation
  reservation a = record {
    request_id = a.context.request_id;
    tokens = a.budget.reserved_tokens;
    upper_bound = a.budget.upper_bound_tokens;
    key = a.key;
    client_id = some a.context.client_id;
  }

  abbrev taken : Admissible → Storage → Storage
  taken a s =
      take clock env identity (reservation a)
        (admission_result clock env identity now a (load_pool clock env identity s))
        (load_pool clock env identity s) s

  admit_writes-taken :
      (a : Admissible) (n : Normalized) (expires : ℕ) (active : List InFlightLease) (s : Storage)
      → admit_writes clock env identity now a
          (load_pool clock env identity s)
          active
          expires
          (save_if_changed n active s)
        ≡ put_relay_grant (admitted_grant clock env identity now a) (
            save_in_flight
              (active ++ relay_lease clock env identity now a expires ∷ [])
              (taken a s))
  admit_writes-taken a n expires active s = ground arith

  taken-IsSound :
      (a : Admissible) (s : Storage)
      → IsSound s
      → lookup a.context.request_id s.entries ≡ none
      → IsSound (taken a s)
  taken-IsSound a s sound absent =
      let result = admission_result clock env identity now a (load_pool clock env identity s) in
      enter-IsSound a.context.request_id (new_entry clock env identity (reservation a) result) s
        (taken a s) sound absent (ground arith) (ground arith)
        (take-IsBalanced clock env identity (reservation a) s result sound.balanced absent)
        (take-IsLinked clock env identity (reservation a) s result (load_pool clock env identity s)
          sound.linked)
        (ground arith)

  granted-IsSound :
      (a : Admissible) (leases : List InFlightLease) (s : Storage)
      → IsSound s
      → lookup a.context.request_id s.entries ≡ none
      → IsSound (
          put_relay_grant
            (admitted_grant clock env identity now a)
            (save_in_flight leases (taken a s)))
  granted-IsSound a leases s sound absent =
      let result = admission_result clock env identity now a (load_pool clock env identity s) in
      let entry = new_entry clock env identity (reservation a) result in
      let grant = admitted_grant clock env identity now a in
      put-IsSound a.context.request_id grant (taken a s)
        (put_relay_grant grant (save_in_flight leases (taken a s))) (taken-IsSound a s sound absent)
        (ground arith) (ground arith) refl
        (ground (arith, lookup-insert_self a.context.request_id entry s.entries))
        (λ dead. absurd (ground arith))

  admit_new-IsSound :
      (a : Admissible) (s : Storage) (r : AdmissionResult × Storage)
      → IsSound s
      → lookup a.context.request_id s.entries ≡ none
      → NewCases clock env identity now a s r
      → IsSound r.1
  admit_new-IsSound a s r sound absent (refused code e w) =
      same-IsSound s r.1 sound (ground arith) (ground arith)
  admit_new-IsSound a s r sound absent (took n expires running room normal free e w) =
      let active : List InFlightLease = without_expired_leases now n.leases in
      subst IsSound (ground (arith, w, admit_writes-taken a n expires active s)) (
        granted-IsSound a (active ++ relay_lease clock env identity now a expires ∷ []) s sound
          absent)

  admit_checked-IsSound :
      (a : Admissible) (s : Storage) (r : AdmissionResult × Storage)
      → IsSound s
      → admit_checked clock env identity now a s ≡ ok r
      → IsSound r.1
  unfolding admit_checked
  admit_checked-IsSound a s r sound h = elim (Bool-cases (key_is_taken a s)) [
    | inl busy ↦ subst IsSound {x = s} {y = r.1} (ground arith) sound
    | inr free ↦ elim (Option-cases (lookup a.context.request_id s.entries)) [
      | inr (x, found) ↦ subst IsSound {x = s} {y = r.1} (ground arith) sound
      | inl absent ↦
          admit_new-IsSound a s r sound absent
            (admit_new-NewCases clock env identity now a s r (ground arith))
    ]
  ]

  -- Admission keeps the invariant, whatever it answers.
  pub admit-IsSound :
      (platform : Platform) (input : RelayAdmissionInput) (s : Storage)
      (r : AdmissionResult × Storage)
      → IsSound s
      → admit_relay_in_transaction clock env identity now platform input s ≡ ok r
      → IsSound r.1
  unfolding admit_relay_in_transaction
  admit-IsSound platform input s r sound h = go (check_admission platform env input s) refl
    where
      go : (c : Checked) → check_admission platform env input s ≡ c → IsSound r.1
      go (stop code) eq = subst IsSound {x = s} {y = r.1} (ground arith) sound
      go (pass a) eq = admit_checked-IsSound a s r sound (ground arith)

  admit_new-Advances :
      (a : Admissible) (s : Storage) (r : AdmissionResult × Storage)
      → lookup a.context.request_id s.entries ≡ none
      → NewCases clock env identity now a s r
      → Advances s r.1
  admit_new-Advances a s r absent (refused code e w) = idle s r.1 (ground arith) (ground arith)
  admit_new-Advances a s r absent (took n expires running room normal free e w) =
      let result = admission_result clock env identity now a (load_pool clock env identity s) in
      let active : List InFlightLease = without_expired_leases now n.leases in
      let wrote = admit_writes-taken a n expires active s in
      entered-Advances a.context.request_id (new_entry clock env identity (reservation a) result) s
        r.1 absent running refl (ground (arith, w, wrote)) (ground (arith, w, wrote))

  admit_checked-Advances :
      (a : Admissible) (s : Storage) (r : AdmissionResult × Storage)
      → admit_checked clock env identity now a s ≡ ok r
      → Advances s r.1
  unfolding admit_checked
  admit_checked-Advances a s r h = elim (Bool-cases (key_is_taken a s)) [
    | inl busy ↦ idle s r.1 (ground arith) (ground arith)
    | inr free ↦ elim (Option-cases (lookup a.context.request_id s.entries)) [
      | inr (x, found) ↦ idle s r.1 (ground arith) (ground arith)
      | inl absent ↦
          admit_new-Advances a s r absent
            (admit_new-NewCases clock env identity now a s r (ground arith))
    ]
  ]

  pub admit-Advances :
      (platform : Platform) (input : RelayAdmissionInput) (s : Storage)
      (r : AdmissionResult × Storage)
      → admit_relay_in_transaction clock env identity now platform input s ≡ ok r
      → Advances s r.1
  unfolding admit_relay_in_transaction
  admit-Advances platform input s r h = go (check_admission platform env input s) refl
    where
      go : (c : Checked) → check_admission platform env input s ≡ c → Advances s r.1
      go (stop code) eq = idle s r.1 (ground arith) (ground arith)
      go (pass a) eq = admit_checked-Advances a s r (ground arith)
