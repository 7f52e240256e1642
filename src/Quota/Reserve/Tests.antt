-- ===== src/Quota/Reserve/Tests.antt =====
-- The laws of a reservation at a second request of a day.
use octg.Common.{ℕ, ◌≡◌, ◌+◌, ◌≤◌, refl, true, false, Option, some, none, lookup, String}
use octg.Common.Int.{pos}
use octg.Shared.Types.{ReserveResult, granted}
use octg.Shared.Pool.{used_of, remaining_of, tier_of, is_strict}
use octg.Quota.Store.{Storage, empty_storage, ok, load_pool, is_set}
use octg.Quota.Samples.{noon, preview_env, today, one_reserved, returned}
use octg.Shared.Number.{nat}
use octg.Quota.Reserve.{Reservation, entry_request_id, reserve, reserve_in_transaction}
use octg.Quota.Reserve.Laws.{reserve_fits, reserve_replay}

abbrev second : Reservation
second = record {
  request_id = "req_two";
  tokens = 50;
  upper_bound = 60;
  key = some "order-7";
  client_id = some "client";
}

abbrev two_reserved : Storage
two_reserved =
    (returned (granted (pos 0) "", one_reserved)
      (reserve_in_transaction noon preview_env today second one_reserved)).1

second_granted :
    reserve_in_transaction noon preview_env today second one_reserved
    ≡ ok (granted (pos 850) "2026-11-27T00:00:00Z", two_reserved)
unfolding reserve_in_transaction lookup octg.Common.same entry_request_id
    octg.Quota.Reserve.reserve_new remaining_of tier_of octg.Common.Int.◌-ℤ◌
    octg.Shared.Calendar.next_utc_midnight octg.Shared.Calendar.days_in_month
second_granted = refl

second_is_new : lookup (entry_request_id second one_reserved) one_reserved.entries ≡ none
unfolding lookup octg.Common.same entry_request_id
second_is_new = refl

reserve_fits_example :
    (is_set one_reserved.finalized ≡ false)
    × (used_of (load_pool noon preview_env today two_reserved)
        ≡ used_of (load_pool noon preview_env today one_reserved) + 50)
    × (used_of (load_pool noon preview_env today two_reserved)
        ≤ (load_pool noon preview_env today two_reserved).limit)
    × (is_strict (
            tier_of
              (remaining_of (load_pool noon preview_env today one_reserved))
              (load_pool noon preview_env today one_reserved).limit)
          ≡ true
        → used_of (load_pool noon preview_env today one_reserved) + 60
          ≤ (load_pool noon preview_env today one_reserved).limit)
reserve_fits_example =
    reserve_fits noon preview_env today second one_reserved "2026-11-27T00:00:00Z" (pos 850)
      two_reserved second_is_new second_granted

reserve_replay_example :
    reserve_in_transaction noon preview_env today second two_reserved
    ≡ ok (granted (pos 850) "2026-11-27T00:00:00Z", two_reserved)
reserve_replay_example =
    reserve_replay noon noon preview_env today second one_reserved two_reserved (pos 850)
      "2026-11-27T00:00:00Z" second_granted

abbrev pub first_run : ReserveResult × Storage
first_run =
    returned (granted (pos 0) "", empty_storage)
      (reserve noon preview_env today "req_one" (nat 100) (nat 120) none none empty_storage)

pub first_reserved :
    reserve noon preview_env today "req_one" (nat 100) (nat 120) none none empty_storage
    ≡ ok first_run
unfolding reserve octg.Shared.Idempotency.parse_idempotency_key reserve_in_transaction lookup
first_reserved = refl
