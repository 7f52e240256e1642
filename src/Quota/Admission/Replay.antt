-- ===== src/Quota/Admission/Replay.antt =====
-- An admission that is repeated is answered with the grant of the first call.
use octg.Common.{
  ℕ, ◌+◌, ◌≡◌, refl, String, Bool, true, false, Option, none, some, arith, lookup,
  lookup-insert_self, same_refl, inl, inr, Bool-cases, List,
}
use octg.Shared.Pool.{remaining_of}
use octg.Shared.Types.{InFlightLease}
use octg.Quota.Store.{
  Storage, Clock, QuotaEnv, QuotaIdentity, RelayGrant, ok, load_pool, idempotency_slot,
}
use octg.Quota.Leases.{Normalized, without_expired_leases, save_if_changed}
use octg.Quota.Grant.{matches_relay_admission, option_eq, bool_eq}
use octg.Quota.Admission.{
  Platform, RelayAdmissionInput, AdmissionResult, admitted, Admissible, pass, check_admission,
  QuotaSnapshot, build_quota_snapshot, admitted_entry, admitted_grant, admit_writes, admit_checked,
  admit_existing, key_is_taken, admit_relay_in_transaction,
}
use octg.Quota.Admission.Laws.{NewCases, refused, took, admit_new-NewCases}

option_eq_refl : (o : Option String) → option_eq o o ≡ true
option_eq_refl none = refl
option_eq_refl (some s) = same_refl s

bool_eq_refl : (b : Bool) → bool_eq b b ≡ true
bool_eq_refl true = refl
bool_eq_refl false = refl

module _ (clock : Clock) (env : QuotaEnv) (identity : QuotaIdentity) (now : ℕ) where
  admitted_grant-matches :
      (a : Admissible)
      → matches_relay_admission
          (admitted_grant clock env identity now a)
          a.context
          a.metadata
          a.budget
        ≡ true
  unfolding matches_relay_admission
  admitted_grant-matches a = ground (
    arith,
    same_refl a.context.client_id,
    option_eq_refl a.context.idempotency_key_hash,
    same_refl a.context.nonce,
    same_refl a.metadata.model,
    bool_eq_refl a.metadata.is_tool_use,
    bool_eq_refl a.metadata.stream,
    bool_eq_refl a.budget.cache_enabled,
  )

  abbrev after_writes : Admissible → ℕ → List InFlightLease → Normalized → Storage → Storage
  after_writes a expires active n s =
      admit_writes clock env identity now a (load_pool clock env identity s) active expires
        (save_if_changed n active s)

  key_is_taken-after :
      (key : Option String) (a : Admissible) (expires : ℕ) (active : List InFlightLease)
      (n : Normalized) (s : Storage)
      → a.key ≡ key
      → key_is_taken a (after_writes a expires active n s) ≡ false
  key_is_taken-after none a expires active n s e = ground arith
  key_is_taken-after (some key) a expires active n s e = ground (
    arith,
    same_refl a.context.request_id,
    lookup-insert_self (idempotency_slot key (some a.context.client_id)) a.context.request_id
        s.idempotency,
  )

  check_admission-fences :
      (platform : Platform) (input : RelayAdmissionInput) (s t : Storage)
      → t.fences ≡ s.fences
      → check_admission platform env input t ≡ check_admission platform env input s
  unfolding check_admission
  check_admission-fences platform input s t e = rw e refl

  writes-fences :
      (a : Admissible) (expires : ℕ) (active : List InFlightLease) (n : Normalized) (s : Storage)
      → (after_writes a expires active n s).fences ≡ s.fences
  writes-fences a expires active n s = ground arith

  existing-admitted :
      (a : Admissible) (expires : ℕ) (active : List InFlightLease) (n : Normalized) (s : Storage)
      (later : Clock) (soon : ℕ)
      → admit_existing later env identity soon a (after_writes a expires active n s)
        ≡ admitted (admitted_grant clock env identity now a) (
            build_quota_snapshot identity
              (load_pool clock env identity (after_writes a expires active n s)))
  unfolding admit_existing
  existing-admitted a expires active n s later soon = ground (
    arith,
    admitted_grant-matches a,
    lookup-insert_self a.context.request_id (admitted_grant clock env identity now a) s.grants,
  )

  again-admitted :
      (a : Admissible) (expires : ℕ) (active : List InFlightLease) (n : Normalized) (s : Storage)
      (later : Clock) (soon : ℕ)
      → admit_checked later env identity soon a (after_writes a expires active n s)
        ≡ ok (
          admitted (admitted_grant clock env identity now a) (
              build_quota_snapshot identity
                (load_pool clock env identity (after_writes a expires active n s))),
          after_writes a expires active n s,
        )
  unfolding admit_checked
  again-admitted a expires active n s later soon = ground (
    arith,
    key_is_taken-after a.key a expires active n s refl,
    existing-admitted a expires active n s later soon,
    lookup-insert_self a.context.request_id
        (admitted_entry clock env identity now a (load_pool clock env identity s)) s.entries,
  )

  snapshot-after :
      (a : Admissible) (expires : ℕ) (active : List InFlightLease) (n : Normalized) (s : Storage)
      → build_quota_snapshot identity
          (load_pool clock env identity (after_writes a expires active n s))
        ≡ build_quota_snapshot identity (record (load_pool clock env identity s) {
          reserved_tokens =
              (load_pool clock env identity s).reserved_tokens + a.budget.reserved_tokens;
          request_count = (load_pool clock env identity s).request_count + 1;
        })
  unfolding remaining_of
  snapshot-after a expires active n s = ground arith

  -- The checks let a request through, and its transaction goes on from there.
  pass-admits :
      (platform : Platform) (input : RelayAdmissionInput) (a : Admissible) (t : Storage)
      (r : AdmissionResult × Storage)
      → check_admission platform env input t ≡ pass a
      → admit_checked clock env identity now a t ≡ ok r
      → admit_relay_in_transaction clock env identity now platform input t ≡ ok r
  unfolding admit_relay_in_transaction
  pass-admits platform input a t r checked h = ground arith

  admits-pass :
      (platform : Platform) (input : RelayAdmissionInput) (a : Admissible) (t : Storage)
      (r : AdmissionResult × Storage)
      → check_admission platform env input t ≡ pass a
      → admit_relay_in_transaction clock env identity now platform input t ≡ ok r
      → admit_checked clock env identity now a t ≡ ok r
  unfolding admit_relay_in_transaction
  admits-pass platform input a t r checked h = ground arith

  admit_checked-NewCases :
      (a : Admissible) (s : Storage) (r : AdmissionResult × Storage) (g : RelayGrant)
      (q : QuotaSnapshot)
      → r.0 ≡ admitted g q
      → lookup a.context.request_id s.entries ≡ none
      → admit_checked clock env identity now a s ≡ ok r
      → NewCases clock env identity now a s r
  unfolding admit_checked
  admit_checked-NewCases a s r g q e unknown h = elim (Bool-cases (key_is_taken a s)) [
    | inl busy ↦ absurd (ground arith)
    | inr free ↦ admit_new-NewCases clock env identity now a s r (ground arith)
  ]

module _ (clock later : Clock) (env : QuotaEnv) (identity : QuotaIdentity) (now soon : ℕ)
    (platform : Platform) where
  -- A request that passed the checks, had no entry and was admitted is admitted again, with the same
  -- grant and the same quota, when it is repeated on the storage that the first call left, and the
  -- repetition writes nothing.
  pub admit_replay :
      (input : RelayAdmissionInput) (a : Admissible) (s t : Storage) (g : RelayGrant)
      (q : QuotaSnapshot)
      → check_admission platform env input s ≡ pass a
      → lookup a.context.request_id s.entries ≡ none
      → admit_relay_in_transaction clock env identity now platform input s ≡ ok (admitted g q, t)
      → admit_relay_in_transaction later env identity soon platform input t ≡ ok (admitted g q, t)
  admit_replay input a s t g q checked unknown h =
      elim (admit_checked-NewCases clock env identity now a s (admitted g q, t) g q refl unknown
        (admits-pass clock env identity now platform input a s (admitted g q, t) checked h)) [
          | refused code e w ↦ absurd (ground arith)
          | took n expires running room normal bound e w ↦
              let active : List InFlightLease = without_expired_leases now n.leases in
              let passes : check_admission platform env input t ≡ pass a = ground (
                arith,
                check_admission-fences clock env identity now platform input s t
                    (ground (arith, w, writes-fences clock env identity now a expires active n s)),
                checked,
              ) in
              pass-admits later env identity soon platform input a t (admitted g q, t) passes
                (rw (w, e, ← snapshot-after clock env identity now a expires active n s)
                  (again-admitted clock env identity now a expires active n s later soon))
        ]
