-- ===== src/Quota/CpuGate.antt =====
-- durable-objects/quota-controller/src/relay-cpu-gate.ts: the snapshot, the inspection of a fixture
-- grant, and the fence that keeps a request id from being admitted.
pub mod Laws
pub mod Tests
use octg.Common.{
  ℕ, String, Bool, true, false, not, ◌&&◌, Option, none, some, List, [], ◌∷◌, leb, ◌==◌,
  if◌then◌else◌, same, lookup, insert, length,
}
use octg.Common.Int.{ℤ}
use octg.Shared.Types.{PoolName, RequestState, RequestEntry, InFlightLease}
use octg.Shared.Pool.{remaining_of}
use octg.Relay.Errors.{RelayGrantState}
use octg.Quota.Store.{
  Storage, Clock, QuotaEnv, QuotaIdentity, RelayGrant, Fixture, Result, ok, failed, ◌>>=◌,
  load_pool, get_entry, load_unresolved, load_in_flight, get_relay_grant, is_set,
  resolve_max_in_flight_requests, resolve_cpu_gate_fixture_identity,
}
use octg.Quota.Leases.{Normalized, normalize_in_flight_state, without_expired_leases}
use octg.Quota.Grant.{pool_eq}

pub record CpuGateSnapshot : Type 0 where
  pub pool : PoolName
  pub utc_day : String
  pub limit : ℕ
  pub remaining : ℤ
  pub confirmed_tokens : ℕ
  pub reserved_tokens : ℕ
  pub uncertain_tokens : ℕ
  pub request_count : ℕ
  pub unresolved_reserved_count : ℕ
  pub unresolved_uncertain_count : ℕ
  pub active_lease_count : ℕ
  pub max_in_flight : ℕ

pub record FixtureInspection : Type 0 where
  pub state : RelayGrantState
  pub request_state : RequestState
  pub reserved_tokens : ℕ
  pub upper_bound_tokens : ℕ
  pub max_output_tokens : ℕ
  pub actual_tokens : Option ℕ
  pub active_lease : Bool

pub data GrantInspection : Type 0 where
  absent : (fenced : Bool) → GrantInspection
  non_fixture : GrantInspection
  fixture : FixtureInspection → GrantInspection

pub data FenceResult : Type 0 where
  fenced : FenceResult
  fixture non_fixture : GrantInspection → FenceResult

abbrev pub set_fence : String → Storage → Storage
set_fence id s = record s { fences = insert id true s.fences }

-- `leases.some(…)`.
unfoldable pub has_lease : String → String → List InFlightLease → Bool
has_lease id generation [] = false
has_lease id generation (l ∷ ls) =
    let rest = has_lease id generation ls in
    if same l.request_id id then (if same l.generation generation then true else rest) else rest

abbrev absent_text : Option String → Bool
absent_text none = true
absent_text (some s) = false

unfoldable pub is_canonical_fixture : RelayGrant → RequestEntry → Fixture → QuotaIdentity → Bool
is_canonical_fixture g e f identity =
    same g.client_id f.client_id
    && same g.model f.model
    && pool_eq g.pool identity.pool
    && same g.admission_utc_day identity.utc_day
    && absent_text g.idempotency_key_hash
    && g.admission.reserved_tokens == 0
    && g.admission.upper_bound_tokens == 0
    && g.admission.max_output_tokens == 0
    && not g.admission.cache_enabled
    && g.admission.metadata.estimated_input_tokens == 0
    && g.admission.metadata.max_output_tokens == 0
    && g.admission.metadata.input_bytes == 0
    && g.admission.metadata.raw_body_bytes == 0
    && not g.admission.metadata.is_tool_use
    && not g.admission.metadata.stream
    && absent_text e.idempotency_key
    && e.tokens == 0
    && e.upper_bound_tokens == 0
    && e.reserved_tokens == 0

module _ (clock : Clock) (env : QuotaEnv) (identity : QuotaIdentity) (now : ℕ) where
  pub get_relay_cpu_gate_snapshot : Storage → Result CpuGateSnapshot
  get_relay_cpu_gate_snapshot s = do
    n ← normalize_in_flight_state (load_in_flight s) now
    let p = load_pool clock env identity s
    ok (record {
      pool = identity.pool;
      utc_day = identity.utc_day;
      limit = p.limit;
      remaining = remaining_of p;
      confirmed_tokens = p.confirmed_tokens;
      reserved_tokens = p.reserved_tokens;
      uncertain_tokens = p.uncertain_tokens;
      request_count = p.request_count;
      unresolved_reserved_count = (load_unresolved s).reserved_count;
      unresolved_uncertain_count = (load_unresolved s).uncertain_count;
      active_lease_count = length (without_expired_leases now n.leases);
      max_in_flight = resolve_max_in_flight_requests env.max_in_flight_requests;
    })

  inspect_fixture : String → RelayGrant → RequestEntry → Storage → Result GrantInspection
  inspect_fixture id g e s = do
    n ← normalize_in_flight_state (load_in_flight s) now
    ok (
        GrantInspection.fixture (record {
          state = g.state;
          request_state = e.state;
          reserved_tokens = g.admission.reserved_tokens;
          upper_bound_tokens = g.admission.upper_bound_tokens;
          max_output_tokens = g.admission.max_output_tokens;
          actual_tokens = e.actual_tokens;
          active_lease = has_lease id g.lease_generation (without_expired_leases now n.leases);
        }))

  inspect_pair : String → RelayGrant → RequestEntry → Storage → Result GrantInspection
  inspect_pair id g e s = elim (resolve_cpu_gate_fixture_identity env identity.pool) [
    | none ↦ ok GrantInspection.non_fixture
    | some f ↦
        if is_canonical_fixture g e f identity
        then inspect_fixture id g e s
        else ok GrantInspection.non_fixture
  ]

  inspect : String → Option RelayGrant → Option RequestEntry → Storage → Result GrantInspection
  inspect id none none s = ok (absent (is_set (lookup id s.fences)))
  inspect id (some g) (some e) s = inspect_pair id g e s
  inspect id (some g) none s = ok GrantInspection.non_fixture
  inspect id none (some e) s = ok GrantInspection.non_fixture

  pub get_relay_cpu_gate_grant_inspection : String → Storage → Result GrantInspection
  get_relay_cpu_gate_grant_inspection id s = inspect id (get_relay_grant id s) (get_entry id s) s

  abbrev fence_by : String → GrantInspection → Storage → FenceResult × Storage
  fence_by id (GrantInspection.fixture f) s = (FenceResult.fixture (GrantInspection.fixture f), s)
  fence_by id GrantInspection.non_fixture s =
      (FenceResult.non_fixture GrantInspection.non_fixture, s)
  fence_by id (absent true) s = (fenced, s)
  fence_by id (absent false) s = (fenced, set_fence id s)

  pub fence_relay_cpu_gate_setup : String → Storage → Result (FenceResult × Storage)
  fence_relay_cpu_gate_setup id s = do
    inspection ← get_relay_cpu_gate_grant_inspection id s
    ok (fence_by id inspection s)
