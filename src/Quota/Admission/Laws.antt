-- ===== src/Quota/Admission/Laws.antt =====
-- What an admission guarantees: it takes tokens and a lease only where both fit, a denial takes
-- nothing, and an exact repetition is answered with the grant of the first call.
use octg.Common.{
  ℕ, ◌+◌, ◌≤◌, ◌<◌, ◌≡◌, refl, true, false, none, some, arith, lookup, lookup-insert_self, inl, inr,
  Option-cases, Bool-cases, List, [], ◌∷◌, length, length-append, leb,
}
use octg.Shared.Types.{PoolState, InFlightLease}
use octg.Shared.Pool.{remaining_of, used_of, tier_of, is_strict}
use octg.Relay.Claims.{parse_relay_context}
use octg.Relay.Parse.{parse_relay_request_meta}
use octg.Relay.Messages.{RelayContext}
use octg.Relay.Errors
use octg.Relay.Errors.{RelayErrorCode, invalid_context, authorized}
use octg.Quota.Store.{
  leased, Storage, Clock, QuotaEnv, QuotaIdentity, RelayGrant, ok, Result-cases, load_pool,
  load_in_flight, is_set, resolve_max_in_flight_requests,
}
use octg.Quota.Leases.{
  Normalized, normalize_in_flight_state, without_expired_leases, save_if_changed,
}
use octg.Quota.Leases.Laws.{with_in_flight}
use octg.Quota.Reserve.{lacks_quota}
use octg.Quota.Reserve.Laws.{lacks_quota-false}
use octg.Quota.Grant.{relay_lease_expiry}
use octg.Quota.CpuGate.{fenced, fence_relay_cpu_gate_setup}
use octg.Quota.CpuGate.Laws.{fence-IsSet}
use octg.Quota.Admission.{
  Platform, RelayAdmissionInput, AdmissionResult, admitted, denied, Admissible, Checked, pass, stop,
  check_admission, admitted_grant, relay_lease, admit_writes, admit_leased, admit_new,
  admit_checked, key_is_taken, admit_relay_in_transaction, build_quota_snapshot, QuotaSnapshot,
}

module _ (clock : Clock) (env : QuotaEnv) (identity : QuotaIdentity) (now : ℕ) (a : Admissible)
    (s : Storage) where
  abbrev pub pool_now : PoolState
  pool_now = load_pool clock env identity s

  abbrev pub max_leases : ℕ
  max_leases = resolve_max_in_flight_requests env.max_in_flight_requests

  -- The ways in which the admission of a request with no entry returns.
  pub data NewCases (t : AdmissionResult × Storage) : Type 0 where
    refused :
        (code : RelayErrorCode)
        → t.0 ≡ denied code
        → t.1 ≡ with_in_flight (t.1).in_flight s
        → NewCases t
    took :
        (n : Normalized) (expires : ℕ)
        → is_set s.finalized ≡ false
        → lacks_quota
            (remaining_of pool_now)
            pool_now.limit
            a.budget.reserved_tokens
            a.budget.upper_bound_tokens
          ≡ false
        → normalize_in_flight_state (load_in_flight s) now ≡ ok n
        → length (without_expired_leases now n.leases) < max_leases
        → t.0
          ≡ admitted (admitted_grant clock env identity now a) (
              build_quota_snapshot identity (record pool_now {
                reserved_tokens = pool_now.reserved_tokens + a.budget.reserved_tokens;
                request_count = pool_now.request_count + 1;
              }))
        → t.1
          ≡ admit_writes clock env identity now a pool_now
              (without_expired_leases now n.leases)
              expires
              (save_if_changed n (without_expired_leases now n.leases) s)
        → NewCases t

  save_if_changed-frame :
      (n : Normalized) (kept : List InFlightLease)
      → save_if_changed n kept s ≡ with_in_flight (save_if_changed n kept s).in_flight s
  save_if_changed-frame n kept = ground arith

  admit_leased-NewCases :
      (n : Normalized) (t : AdmissionResult × Storage)
      → is_set s.finalized ≡ false
      → lacks_quota
          (remaining_of pool_now)
          pool_now.limit
          a.budget.reserved_tokens
          a.budget.upper_bound_tokens
        ≡ false
      → normalize_in_flight_state (load_in_flight s) now ≡ ok n
      → admit_leased clock env identity now a pool_now
          (without_expired_leases now n.leases)
          (save_if_changed n (without_expired_leases now n.leases) s)
        ≡ ok t
      → NewCases t
  unfolding admit_leased
  admit_leased-NewCases n t running room normal h =
      elim (Bool-cases (leb max_leases (length (without_expired_leases now n.leases)))) [
        | inl full ↦
            refused Errors.worker_concurrency_exceeded (ground arith)
              (ground (arith, save_if_changed-frame n (without_expired_leases now n.leases)))
        | inr free ↦ elim (Result-cases (relay_lease_expiry now)) [
          | inr (x, eq) ↦ absurd (ground arith)
          | inl (expires, eq) ↦
              took n expires running room normal (ground arith) (ground arith) (ground arith)
        ]
      ]

  pub admit_new-NewCases :
      (t : AdmissionResult × Storage)
      → admit_new clock env identity now a pool_now s ≡ ok t
      → NewCases t
  unfolding admit_new
  admit_new-NewCases t h = elim (Bool-cases (is_set s.finalized)) [
    | inl final ↦ refused Errors.insufficient_quota (ground arith) (ground arith)
    | inr running ↦
        elim (Bool-cases (
          lacks_quota (remaining_of pool_now) pool_now.limit a.budget.reserved_tokens
            a.budget.upper_bound_tokens)) [
              | inl lacking ↦ refused Errors.insufficient_quota (ground arith) (ground arith)
              | inr room ↦ elim (Result-cases (normalize_in_flight_state (load_in_flight s) now)) [
                | inr (x, eq) ↦ absurd (ground arith)
                | inl (n, eq) ↦ admit_leased-NewCases n t running room eq (ground arith)
              ]
            ]
  ]

  -- A lease of the new request is added to those that are active, within the limit.
  pub record Room (t : Storage) : Type 0 where
    pub running : is_set s.finalized ≡ false
    pub charged :
        used_of (load_pool clock env identity t) ≡ used_of pool_now + a.budget.reserved_tokens
    pub in_limit : used_of (load_pool clock env identity t) ≤ (load_pool clock env identity t).limit
    pub strict_upper :
        is_strict (tier_of (remaining_of pool_now) pool_now.limit) ≡ true
        → used_of pool_now + a.budget.upper_bound_tokens ≤ pool_now.limit
    pub leases_in_limit :
        (leases : List InFlightLease)
        → t.in_flight ≡ some (leased leases)
        → length leases ≤ max_leases
    pub granted :
        lookup a.context.request_id t.grants ≡ some (admitted_grant clock env identity now a)

  admit_writes-pool :
      (active : List InFlightLease) (expires : ℕ) (n : Normalized)
      → (used_of (
            load_pool clock env identity (
              admit_writes clock env identity now a pool_now active expires
                (save_if_changed n active s)))
          ≡ used_of pool_now + a.budget.reserved_tokens)
        × ((load_pool clock env identity (
              admit_writes clock env identity now a pool_now active expires
                (save_if_changed n active s))).limit
            ≡ pool_now.limit)
  admit_writes-pool active expires n = ground arith

  -- A new admission of a request that had no entry came on a running day, fits the quota and the
  -- number of leases, and leaves the authorized grant in the storage.
  pub admit_new-Room :
      (g : RelayGrant) (q : QuotaSnapshot) (t : Storage)
      → admit_new clock env identity now a pool_now s ≡ ok (admitted g q, t)
      → Room t
  admit_new-Room g q t h = elim (admit_new-NewCases (admitted g q, t) h) [
    | refused code e w ↦ absurd (ground arith)
    | took n expires running room normal free e w ↦
        let active : List InFlightLease = without_expired_leases now n.leases in
        let (fits, upper) =
          lacks_quota-false pool_now a.budget.reserved_tokens a.budget.upper_bound_tokens room in
        let (used, limit) = admit_writes-pool active expires n in
        record {
          running = running;
          charged = ground arith;
          in_limit = ground arith;
          strict_upper = upper;
          leases_in_limit = λ leases l. ground (
            arith,
            w,
            free,
            length-append active (relay_lease clock env identity now a expires ∷ []),
          );
          granted = ground (
            arith,
            lookup-insert_self a.context.request_id (admitted_grant clock env identity now a)
                s.grants,
          );
        }
  ]

module _ (clock : Clock) (env : QuotaEnv) (identity : QuotaIdentity) (now : ℕ)
    (platform : Platform) where
  -- A grant for a request that passed the checks and had no entry comes from a running day with room for its tokens and for
  -- its lease, and stands in the storage afterwards.
  pub admit-Room :
      (input : RelayAdmissionInput) (a : Admissible) (s t : Storage) (g : RelayGrant)
      (q : QuotaSnapshot)
      → check_admission platform env input s ≡ pass a
      → lookup a.context.request_id s.entries ≡ none
      → admit_relay_in_transaction clock env identity now platform input s ≡ ok (admitted g q, t)
      → Room clock env identity now a s t
  unfolding admit_relay_in_transaction admit_checked
  admit-Room input a s t g q checked unknown h = elim (Bool-cases (key_is_taken a s)) [
    | inl busy ↦ absurd (ground arith)
    | inr free ↦ admit_new-Room clock env identity now a s g q t (ground arith)
  ]

  admit_new-Unchanged :
      (a : Admissible) (s : Storage) (r : AdmissionResult × Storage) (code : RelayErrorCode)
      → NewCases clock env identity now a s r
      → r.0 ≡ denied code
      → r.1 ≡ with_in_flight (r.1).in_flight s
  admit_new-Unchanged a s r code (refused c e w) h = w
  admit_new-Unchanged a s r code (took n expires running room normal free e w) h =
      absurd (ground arith)

  admit_checked-Unchanged :
      (a : Admissible) (s t : Storage) (code : RelayErrorCode)
      → admit_checked clock env identity now a s ≡ ok (denied code, t)
      → t ≡ with_in_flight t.in_flight s
  unfolding admit_checked
  admit_checked-Unchanged a s t code h = elim (Bool-cases (key_is_taken a s)) [
    | inl busy ↦ ground arith
    | inr free ↦ elim (Option-cases (lookup a.context.request_id s.entries)) [
      | inr (x, found) ↦ ground arith
      | inl unknown ↦
          admit_new-Unchanged a s (denied code, t) code
            (admit_new-NewCases clock env identity now a s (denied code, t) (ground arith)) refl
    ]
  ]

  -- A denial writes no admission state: at most the leases are cleaned.
  pub denied-Unchanged :
      (input : RelayAdmissionInput) (s t : Storage) (code : RelayErrorCode)
      → admit_relay_in_transaction clock env identity now platform input s ≡ ok (denied code, t)
      → t ≡ with_in_flight t.in_flight s
  unfolding admit_relay_in_transaction
  denied-Unchanged input s t code h = go (check_admission platform env input s) refl
    where
      go :
          (c : Checked)
          → check_admission platform env input s ≡ c
          → t ≡ with_in_flight t.in_flight s
      go (stop x) e = ground arith
      go (pass a) e = admit_checked-Unchanged a s t code (ground arith)

  check_admission-fenced :
      (input : RelayAdmissionInput) (c : RelayContext) (s : Storage)
      → parse_relay_context input.context ≡ some c
      → is_set (lookup c.request_id s.fences) ≡ true
      → (code : RelayErrorCode) × (check_admission platform env input s ≡ stop code)
  unfolding check_admission
  check_admission-fenced input c s parsed set =
      elim (Option-cases (parse_relay_request_meta input.metadata)) [
        | inl bad ↦ (Errors.invalid_request, ground arith)
        | inr (m, good) ↦ (invalid_context, ground arith)
      ]

  -- Once a request id is fenced, no admission of it is granted or writes anything.
  pub fenced_never_admitted :
      (input : RelayAdmissionInput) (c : RelayContext) (fence_clock : Clock) (fence_now : ℕ)
      (s t : Storage)
      → fence_relay_cpu_gate_setup fence_clock env identity fence_now c.request_id s
        ≡ ok (fenced, t)
      → parse_relay_context input.context ≡ some c
      → (code : RelayErrorCode) × (admit_relay_in_transaction clock env identity now platform input
            t
          ≡ ok (denied code, t))
  unfolding admit_relay_in_transaction
  fenced_never_admitted input c fence_clock fence_now s t set parsed =
      let (stands, no_grant, no_entry) =
        fence-IsSet fence_clock env identity fence_now c.request_id s t set in
      let (code, stopped) = check_admission-fenced input c t parsed stands in
      (code, ground (arith, stopped))
