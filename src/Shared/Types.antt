-- ===== src/Shared/Types.antt =====
-- packages/shared/src/types.ts: the records and results of the quota controller. A union of object
-- types is a data type with one constructor for each shape; an optional field is an `Option`.
-- `SettleResult`, `MarkUncertainResult` and `ReleaseResult` have the same two shapes: `Ack`.
use octg.Common.{ℕ, String, Bool, Option, none}
use octg.Common.Int.{ℤ}

pub data PoolName : Type 0 where
  standard mini : PoolName

pub data RequestState : Type 0 where
  reserved settled uncertain reconciled released : RequestState

pub data UncertaintyOrigin : Type 0 where
  upstream_uncertain reserve_unknown : UncertaintyOrigin

pub record PoolState : Type 0 where
  pub utc_day : String
  pub limit : ℕ
  pub confirmed_tokens : ℕ
  pub reserved_tokens : ℕ
  pub uncertain_tokens : ℕ
  pub request_count : ℕ
  pub updated_at : String

pub data ReserveResult : Type 0 where
  granted : (remaining : ℤ) (reset_at : String) → ReserveResult
  insufficient_quota : (remaining : ℤ) (reset_at : String) → ReserveResult
  duplicate_idempotency_key : (request_id : String) (reset_at : String) → ReserveResult

pub data Ack : Type 0 where
  done unknown_request : Ack

pub data UnknownOutcomeResult : Type 0 where
  marked : (applied : Bool) → UnknownOutcomeResult
  unknown_request : UnknownOutcomeResult

pub record InFlightLease : Type 0 where
  pub request_id : String
  pub generation : String
  pub expires_at_ms : ℕ

pub data AcquireResult : Type 0 where
  acquired : InFlightLease → AcquireResult
  worker_concurrency_exceeded : AcquireResult

pub data RenewResult : Type 0 where
  renewed : InFlightLease → RenewResult
  lease_not_found stale_generation : RenewResult

abbrev pub default_in_flight_lease_ttl_ms : ℕ
default_in_flight_lease_ttl_ms = 120000

pub data Disposition : Type 0 where
  consumed unused : Disposition

-- `{ ok: true, applied }`.
pub record ReconcileResult : Type 0 where
  pub applied : Bool

pub record RpcResults : Type 0 where
  pub reserve : Option ReserveResult
  pub settle : Option Ack
  pub mark_uncertain : Option Ack
  pub mark_reserve_outcome_unknown : Option UnknownOutcomeResult
  pub release : Option Ack
  pub reconcile : Option ReconcileResult

pub record RequestEntry : Type 0 where
  pub idempotency_key : Option String
  pub state : RequestState
  pub tokens : ℕ
  pub upper_bound_tokens : ℕ
  pub reserved_tokens : ℕ
  pub requested_disposition : Option Disposition
  pub uncertainty_origin : Option UncertaintyOrigin
  pub actual_tokens : Option ℕ
  pub results : RpcResults
  pub created_at : String
  pub updated_at : String

pub record UncertainRequest : Type 0 where
  pub request_id : String
  pub reserved_tokens : ℕ
  pub state : RequestState
  pub uncertainty_origin : Option UncertaintyOrigin

pub record ReconcileRequestView : Type 0 where
  pub request_id : String
  pub reserved_tokens : ℕ
  pub state : RequestState
  pub requested_disposition : Option Disposition
  pub uncertainty_origin : Option UncertaintyOrigin

pub data FinalizeResult : Type 0 where
  deleted : FinalizeResult
  uncertain_remaining : (uncertain_count reserved_count : ℕ) → FinalizeResult
  reserved_remaining : (uncertain_count reserved_count : ℕ) → FinalizeResult

-- The fields of `QuotaView` beside those of the pool state.
pub record QuotaView : Type 0 where
  pub state : PoolState
  pub pool : PoolName
  pub remaining : ℤ

abbrev pub no_results : RpcResults
no_results = record {
  reserve = none;
  settle = none;
  mark_uncertain = none;
  mark_reserve_outcome_unknown = none;
  release = none;
  reconcile = none;
}
