-- ===== src/Quota/Lifecycle/Tests.antt =====
-- The laws of the request lifecycle at one reserved request.
use octg.Common.{List, [], ◌∷◌, ◌≡◌, refl, true, Option, some, none, lookup, String}
use octg.Shared.Types.{RequestEntry}
use octg.Quota.Store.{Storage, ok}
use octg.Quota.Samples.{
  noon, preview_env, today, one_reserved, one_entry, granted_storage, returned,
}
use octg.Quota.Lifecycle.{
  Transition, settle, release, TransitionResult, ack, apply_quota_lifecycle_transition,
}
use octg.Shared.Types.{done}
use octg.Shared.Types
use octg.Quota.Lifecycle.Ledger.{IsBalanced}
use octg.Quota.Lifecycle.Ledger.Preserved.{apply-IsBalanced}
use octg.Quota.Lifecycle.Machine.{Moved, apply-Moved}
use octg.Quota.Lifecycle.Replay.{apply_replay}

abbrev settled_run : TransitionResult × Storage
settled_run =
    returned (ack done, one_reserved)
      (apply_quota_lifecycle_transition noon preview_env today (settle 80) "req_one" one_reserved)

settled_returns :
    apply_quota_lifecycle_transition noon preview_env today (settle 80) "req_one" one_reserved
    ≡ ok settled_run
unfolding apply_quota_lifecycle_transition lookup octg.Common.same
    octg.Quota.Lifecycle.transition_entry
settled_returns = refl

one_reserved-IsBalanced : IsBalanced one_reserved
unfolding octg.Common.sum_of
one_reserved-IsBalanced = record {
  confirmed_ok = refl;
  reserved_ok = refl;
  uncertain_ok = refl;
  reserved_count_ok = refl;
  uncertain_count_ok = refl;
}

one_reserved-found : lookup "req_one" one_reserved.entries ≡ some one_entry
unfolding lookup octg.Common.same
one_reserved-found = refl

apply-IsBalanced_example : IsBalanced settled_run.1
apply-IsBalanced_example =
    apply-IsBalanced noon preview_env today "req_one" one_reserved one_reserved-IsBalanced
      (settle 80) settled_run settled_returns

apply-Moved_example : Moved "req_one" one_entry one_reserved settled_run.1
apply-Moved_example =
    apply-Moved noon preview_env today "req_one" (settle 80) one_entry one_reserved settled_run
      one_reserved-found settled_returns

apply_replay_example :
    apply_quota_lifecycle_transition noon preview_env today (settle 90) "req_one" settled_run.1
    ≡ ok settled_run
apply_replay_example =
    apply_replay noon noon preview_env today "req_one" (settle 80) (settle 90) one_reserved
      settled_run refl settled_returns

abbrev pub released_entry : RequestEntry
released_entry = record one_entry {
  state = Types.released;
  results = record one_entry.results { release = some done };
}

abbrev pub released_storage : Storage
released_storage = record granted_storage {
  pool = some (record {
    utc_day = "2026-11-26";
    limit = 1000;
    confirmed_tokens = 0;
    reserved_tokens = 0;
    uncertain_tokens = 0;
    request_count = 1;
    updated_at = "2026-11-26T12:00:00.000Z";
  });
  entries = ("req_one", released_entry) ∷ [];
  unresolved = some (record { uncertain_count = 0; reserved_count = 0 });
}

pub release_returns :
    apply_quota_lifecycle_transition noon preview_env today release "req_one" granted_storage
    ≡ ok (ack done, released_storage)
unfolding apply_quota_lifecycle_transition lookup octg.Common.same
    octg.Quota.Lifecycle.transition_entry octg.Quota.Lifecycle.release_entry
    octg.Quota.Lifecycle.release_fresh octg.Common.insert
release_returns = refl
