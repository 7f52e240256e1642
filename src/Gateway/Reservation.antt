-- ===== src/Gateway/Reservation.antt =====
-- apps/gateway-worker/src/quota-reservation.ts: a reservation that is tried again once, over a
-- network that may lose a request or an answer.
pub mod Laws
mod Tests
use octg.Common.{Option, none, some}
use octg.Shared.Types.{ReserveResult}
use octg.Quota.Store.{Storage, Result, ok, failed}

pub data ReserveOutcome : Type 0 where
  resolved : ReserveResult → ReserveOutcome
  unknown : ReserveOutcome

-- `reserve(...)` from a state of the controller: none where it throws, and the state after it.
abbrev pub ReserveRpc : Type 0
ReserveRpc = Storage → Option ReserveResult × Storage

-- The second attempt has no third one after it.
unfoldable pub last_attempt : Option ReserveResult × Storage → ReserveOutcome × Storage
last_attempt (some result, t) = (resolved result, t)
last_attempt (none, t) = (unknown, t)

-- `reserveFailClosed`: the first attempt, and the second one after a throw.
after_first : ReserveRpc → Option ReserveResult × Storage → ReserveOutcome × Storage
after_first second (some result, t) = (resolved result, t)
after_first second (none, t) = last_attempt (second t)

unfoldable pub reserve_fail_closed : ReserveRpc → ReserveRpc → Storage → ReserveOutcome × Storage
unfolding after_first last_attempt
reserve_fail_closed first second s = after_first second (first s)

-- What the network does to an attempt.
pub data Delivery : Type 0 where
  delivered request_lost answer_lost : Delivery

answer_of : Result (ReserveResult × Storage) → Storage → Option ReserveResult × Storage
answer_of (ok a) s = (some a.0, a.1)
answer_of (failed x) s = (none, s)

-- A call of the controller over the network; a call that throws leaves the state.
unfoldable pub over :
    Delivery
    → (Storage → Result (ReserveResult × Storage))
    → Storage
    → Option ReserveResult × Storage
unfolding answer_of
over delivered call s = answer_of (call s) s
over request_lost call s = (none, s)
over answer_lost call s = (none, (answer_of (call s) s).1)
