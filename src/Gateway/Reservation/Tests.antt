-- ===== src/Gateway/Reservation/Tests.antt =====
-- A reservation whose first answer is lost.
use octg.Common.{none, some}
use octg.Quota.Store.{Storage, empty_storage}
use octg.Quota.Reserve.{Reservation, reserve_in_transaction}
use octg.Quota.Samples.{noon, preview_env, today}
use octg.Gateway.Reservation.{ReserveOutcome, delivered, answer_lost, over, reserve_fail_closed}
use octg.Gateway.Reservation.Laws.{IsOnce, reserve_fail_closed-IsOnce}

abbrev reservation : Reservation
reservation = record {
  request_id = "req_one";
  tokens = 100;
  upper_bound = 120;
  key = none;
  client_id = some "client";
}

abbrev outcome : ReserveOutcome × Storage
outcome =
    reserve_fail_closed
      (over answer_lost (reserve_in_transaction noon preview_env today reservation))
      (over delivered (reserve_in_transaction noon preview_env today reservation)) empty_storage

reserve_fail_closed-IsOnce_example :
    IsOnce noon noon preview_env today reservation empty_storage outcome
reserve_fail_closed-IsOnce_example =
    reserve_fail_closed-IsOnce noon noon preview_env today reservation answer_lost delivered
      empty_storage
