-- ===== src/Quota/Slot.antt =====
-- durable-objects/quota-controller/src/relay-cpu-gate-slot.ts: the slot that one CPU-gate run holds.
-- Closing is two transactions with calls of the quota controller of the request's day between them;
-- their answers are arguments, and so is what other calls do to the slot meanwhile.
pub mod History
pub mod Laws
pub mod Tests
use octg.Common.{
  ℕ, zero, suc, ◌+◌, String, Bool, true, false, not, ◌&&◌, ◌||◌, Option, none, some, List, [], ◌∷◌,
  leb, ◌==◌, if◌then◌else◌, same, ◌<>◌, matches, is_some,
}
use octg.Common.Int.{ℤ, pos}
use octg.Shared.Number.{Number, int, is_safe_integer, max_safe_integer, safe_positive}
use octg.Shared.Types.{PoolName, RequestState}
use octg.Shared.Types
use octg.Relay.Errors.{RelayGrantState}
use octg.Relay.Errors
use octg.Relay.Messages.{relay_request_id_pattern}
use octg.Relay.Routing.{relay_request_utc_day_of}
use octg.Quota.Store.{Result, ok, failed, type_error, ◌>>=◌}
use octg.Quota.Grant.{pool_eq}
use octg.Quota.CpuGate.{GrantInspection, FixtureInspection, FenceResult, fenced, absent}
use octg.Quota.CpuGate

pub record SlotOwner : Type 0 where
  pub pool : PoolName
  pub request_id : String

pub record Holding : Type 0 where
  pub owner : SlotOwner
  pub generation : ℕ

pub data SlotState : Type 0 where
  idle : SlotState
  held closing : Holding → SlotState

pub record SlotStorage : Type 0 where
  pub slot : Option SlotState
  pub last_generation : Option ℕ

pub data ClaimResult : Type 0 where
  claimed : SlotState → ClaimResult
  busy : ClaimResult

pub data CloseResult : Type 0 where
  closed blocked : CloseResult

unfoldable pub is_cpu_gate_slot_name : Option String → Option String → Bool
is_cpu_gate_slot_name (some name) (some environment) =
    (same environment "preview" || same environment "production")
    && same name ("cpu-gate-slot:v1:" <> environment)
is_cpu_gate_slot_name (some name) none = false
is_cpu_gate_slot_name none environment = false

abbrev pub current : SlotStorage → SlotState
current s = elim s.slot [ none ↦ idle | some st ↦ st ]

abbrev pub last : SlotStorage → ℕ
last s = elim s.last_generation [ none ↦ 0 | some n ↦ n ]

abbrev pub matches_owner : SlotOwner → SlotOwner → Bool
matches_owner a b = pool_eq a.pool b.pool && same a.request_id b.request_id

-- `assertOwner`; the pool's two names are its type.
abbrev is_owner : SlotOwner → Bool
is_owner o = matches relay_request_id_pattern o.request_id

pub get_relay_cpu_gate_slot : SlotStorage → SlotState
get_relay_cpu_gate_slot s = current s

abbrev pub next_holding : SlotOwner → SlotStorage → Holding
next_holding o s = record { owner = o; generation = last s + 1 }

claim_from : SlotState → SlotOwner → SlotStorage → Result (ClaimResult × SlotStorage)
claim_from idle o s =
    if leb (last s + 1) max_safe_integer
    then ok (
      claimed (held (next_holding o s)),
      record { slot = some (held (next_holding o s)); last_generation = some (last s + 1) },
    )
    else failed type_error
claim_from (held h) o s = if matches_owner h.owner o then ok (claimed (held h), s) else ok (busy, s)
claim_from (closing h) o s = ok (busy, s)

pub claim_relay_cpu_gate_slot : SlotOwner → SlotStorage → Result (ClaimResult × SlotStorage)
claim_relay_cpu_gate_slot o s = if is_owner o then claim_from (current s) o s else failed type_error

pub data Marked : Type 0 where
  was_idle was_blocked is_closing : Marked

abbrev pub is_holder : Holding → SlotOwner → ℕ → Bool
is_holder h o n = matches_owner h.owner o && h.generation == n

mark_from : SlotState → SlotOwner → ℕ → SlotStorage → Marked × SlotStorage
mark_from idle o n s = (was_idle, s)
mark_from (held h) o n s =
    if is_holder h o n then (is_closing, record s { slot = some (closing h) }) else (was_blocked, s)
mark_from (closing h) o n s = if is_holder h o n then (is_closing, s) else (was_blocked, s)

-- The first transaction of a close.
pub mark_closing : SlotOwner → ℕ → SlotStorage → Marked × SlotStorage
unfolding mark_from
mark_closing o n s = mark_from (current s) o n s

-- A finished fixture: the grant is terminal, and the request agrees with it.
abbrev finished_pair : RelayGrantState → RequestState → Bool
finished_pair Errors.settled Types.settled = true
finished_pair Errors.released Types.released = true
finished_pair Errors.reconciled_consumed Types.reconciled = true
finished_pair Errors.reconciled_consumed Types.settled = true
finished_pair Errors.reconciled_unused Types.released = true
finished_pair _ _ = false

pub is_proof : FenceResult → GrantInspection → Bool
is_proof fenced (absent f) = f
is_proof (FenceResult.fixture i) (GrantInspection.fixture x) =
    not x.active_lease && finished_pair x.state x.request_state
is_proof _ _ = false

finish_from : SlotState → SlotOwner → ℕ → SlotStorage → CloseResult × SlotStorage
finish_from (closing h) o n s =
    if is_holder h o n then (closed, record s { slot = none }) else (blocked, s)
finish_from idle o n s = (blocked, s)
finish_from (held h) o n s = (blocked, s)

-- The second transaction of a close.
pub finish_closing : SlotOwner → ℕ → SlotStorage → CloseResult × SlotStorage
unfolding finish_from
finish_closing o n s = finish_from (current s) o n s

-- Between the two: what the controller of the request's day answered.
pub record Evidence : Type 0 where
  pub fence : FenceResult
  pub inspection : GrantInspection

-- What follows the first transaction; `meanwhile` is what other calls do to the slot while the
-- controller is asked.
after_mark :
    Marked
    → Evidence
    → (SlotStorage → SlotStorage)
    → SlotOwner
    → ℕ
    → SlotStorage
    → CloseResult × SlotStorage
after_mark was_idle v meanwhile o n s = (closed, s)
after_mark was_blocked v meanwhile o n s = (blocked, s)
after_mark is_closing v meanwhile o n s =
    if is_some (relay_request_utc_day_of o.request_id)
    then (if is_proof v.fence v.inspection
        then finish_closing o n (meanwhile s)
        else (blocked, meanwhile s))
    else (blocked, s)

pub close_relay_cpu_gate_slot :
    SlotOwner
    → Number
    → Evidence
    → (SlotStorage → SlotStorage)
    → SlotStorage
    → Result (CloseResult × SlotStorage)
close_relay_cpu_gate_slot o generation v meanwhile s =
    if is_owner o
    then elim (safe_positive generation) [
      | none ↦ ok (blocked, s)
      | some n ↦ ok (after_mark (mark_closing o n s).0 v meanwhile o n (mark_closing o n s).1)
    ]
    else failed type_error

-- The transactions of the calls of the slot, and their effect; a claim that throws has none.
pub data SlotCall : Type 0 where
  claim : SlotOwner → SlotCall
  mark finish : SlotOwner → ℕ → SlotCall

after_claim : Result (ClaimResult × SlotStorage) → SlotStorage → SlotStorage
after_claim (ok r) s = r.1
after_claim (failed x) s = s

unfoldable pub run_call : SlotCall → SlotStorage → SlotStorage
unfolding after_claim
run_call (claim o) s = after_claim (claim_relay_cpu_gate_slot o s) s
run_call (mark o n) s = (mark_closing o n s).1
run_call (finish o n) s = (finish_closing o n s).1

unfoldable pub run_calls : List SlotCall → SlotStorage → SlotStorage
run_calls [] s = s
run_calls (c ∷ cs) s = run_calls cs (run_call c s)
