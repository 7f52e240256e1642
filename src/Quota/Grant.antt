-- ===== src/Quota/Grant.antt =====
-- durable-objects/quota-controller/src/relay-grant.ts: grants, the binding of a credential to a
-- grant, and the end of a grant on reconciliation.
pub mod Laws
use octg.Common.{
  ℕ, ◌+◌, ◌*◌, String, Bool, true, false, not, ◌&&◌, ◌||◌, Option, none, some, List, [], ◌∷◌, ◌++◌,
  leb, ◌==◌, if◌then◌else◌, same, Dict, lookup, insert, codes, ltb,
}
use octg.Common.Int.{ℤ, pos, ◌-ℤ◌, sub_ℕ}
use octg.Shared.Number.{max_safe_integer}
use octg.Shared.Calendar.{Day, parse_day, next_utc_day, day_number, ms_per_day}
use octg.Shared.Types.{
  PoolName, standard, mini, Disposition, consumed, unused, default_in_flight_lease_ttl_ms,
}
use octg.Relay.Errors.{
  RelayErrorCode, RelayGrantState, authorized, attempted, settled, released, uncertain,
  reconciled_consumed, reconciled_unused,
}
use octg.Relay.Messages.{
  RelayEnvironment, preview, production, RelayContext, RelayGrantCredential, RelayRequestMeta,
  RelayTerminal,
}
use octg.Quota.Store.{
  RelayGrant, RelayGrantAdmission, Storage, Clock, QuotaIdentity, Result, ok, failed, type_error,
  ◌>>=◌, get_relay_grant, put_relay_grant,
}
use octg.Quota.Leases.{release_in_flight_lease}

abbrev pub relay_grant_authorization_ttl_ms : ℕ
relay_grant_authorization_ttl_ms = 3600000

abbrev pub is_terminal_grant_state : RelayGrantState → Bool
is_terminal_grant_state settled = true
is_terminal_grant_state released = true
is_terminal_grant_state reconciled_consumed = true
is_terminal_grant_state reconciled_unused = true
is_terminal_grant_state authorized = false
is_terminal_grant_state attempted = false
is_terminal_grant_state uncertain = false

-- 45 days after the end of the day; `none` is the NaN of a text that names no day.
unfoldable pub relay_grant_retention_deadline_ms : String → Option ℤ
relay_grant_retention_deadline_ms day = elim (parse_day day) [
  | none ↦ none
  | some d ↦ some (sub_ℕ ((day_number (next_utc_day d) + 45) * ms_per_day) (719528 * ms_per_day))
]

pub record RelayGrantBinding : Type 0 where
  pub request_id : String
  pub grant_id : String
  pub lease_generation : String
  pub claims : RelayGrantCredential

abbrev pub pool_eq : PoolName → PoolName → Bool
pool_eq standard standard = true
pool_eq mini mini = true
pool_eq standard mini = false
pool_eq mini standard = false

abbrev pub environment_eq : RelayEnvironment → RelayEnvironment → Bool
environment_eq preview preview = true
environment_eq production production = true
environment_eq preview production = false
environment_eq production preview = false

abbrev pub option_eq : Option String → Option String → Bool
option_eq none none = true
option_eq (some a) (some b) = same a b
option_eq none (some b) = false
option_eq (some a) none = false

abbrev pub bool_eq : Bool → Bool → Bool
bool_eq true b = b
bool_eq false b = not b

-- Each line of the source returns true where two fields differ, so no mismatch is that all agree.
unfoldable pub grant_binding_agrees : RelayGrant → RelayGrantBinding → QuotaIdentity → Bool
grant_binding_agrees g b identity =
    same b.request_id g.request_id
    && same b.grant_id g.grant_id
    && same b.lease_generation g.lease_generation
    && same b.claims.request_id g.request_id
    && same b.claims.grant_id g.grant_id
    && same b.claims.lease_generation g.lease_generation
    && environment_eq b.claims.environment g.environment
    && same b.claims.client_id g.client_id
    && option_eq b.claims.idempotency_key_hash g.idempotency_key_hash
    && same b.claims.nonce g.nonce
    && same b.claims.model g.model
    && pool_eq b.claims.pool g.pool
    && same b.claims.admission_utc_day g.admission_utc_day
    && b.claims.issued_at_ms == g.issued_at_ms
    && b.claims.expires_at_ms == g.credential_expires_at_ms
    && pool_eq g.pool identity.pool
    && same g.admission_utc_day identity.utc_day

unfoldable pub grant_binding_mismatch : RelayGrant → RelayGrantBinding → QuotaIdentity → Bool
grant_binding_mismatch g b identity = not (grant_binding_agrees g b identity)

pub record AdmissionBudget : Type 0 where
  pub reserved_tokens : ℕ
  pub upper_bound_tokens : ℕ
  pub max_output_tokens : ℕ
  pub cache_enabled : Bool

abbrev metadata_eq : RelayRequestMeta → RelayRequestMeta → Bool
metadata_eq a b =
    same a.model b.model
    && a.estimated_input_tokens == b.estimated_input_tokens
    && a.max_output_tokens == b.max_output_tokens
    && a.input_bytes == b.input_bytes
    && a.raw_body_bytes == b.raw_body_bytes
    && bool_eq a.is_tool_use b.is_tool_use
    && bool_eq a.stream b.stream

unfoldable pub matches_relay_admission :
    RelayGrant → RelayContext → RelayRequestMeta → AdmissionBudget → Bool
matches_relay_admission g context metadata budget =
    same g.client_id context.client_id
    && option_eq g.idempotency_key_hash context.idempotency_key_hash
    && same g.nonce context.nonce
    && g.admission.context_issued_at_ms == context.issued_at_ms
    && g.admission.context_expires_at_ms == context.expires_at_ms
    && metadata_eq g.admission.metadata metadata
    && g.admission.reserved_tokens == budget.reserved_tokens
    && g.admission.upper_bound_tokens == budget.upper_bound_tokens
    && g.admission.max_output_tokens == budget.max_output_tokens
    && bool_eq g.admission.cache_enabled budget.cache_enabled

unfoldable pub relay_lease_expiry : ℕ → Result ℕ
relay_lease_expiry now =
    if leb (now + default_in_flight_lease_ttl_ms) max_safe_integer
    then ok (now + default_in_flight_lease_ttl_ms)
    else failed type_error

abbrev reconciled_state : Disposition → RelayGrantState
reconciled_state consumed = reconciled_consumed
reconciled_state unused = reconciled_unused

abbrev disposition_text : Disposition → String
disposition_text consumed = "consumed"
disposition_text unused = "unused"

abbrev pub reconciled_grant : RelayGrant → Disposition → RelayGrant
reconciled_grant g d = record g {
  state = reconciled_state d;
  terminal_report = none;
  terminal_fingerprint = some (disposition_text d);
}

unfoldable pub terminalize_grant_on_reconcile :
    Clock → String → Disposition → Storage → Result Storage
terminalize_grant_on_reconcile clock id d s = elim (get_relay_grant id s) [
  | none ↦ ok s
  | some g ↦
      if is_terminal_grant_state g.state
      then ok s
      else (release_in_flight_lease clock id (some g.lease_generation) s >>= λ r.
          ok (put_relay_grant (reconciled_grant g d) r.1))
]
