-- ===== src/Quota/Controller/Tests.antt =====
-- The laws of the controller after its first reservation.
use octg.Common.{◌≡◌, ap, false, none}
use octg.Shared.Number.{nat}
use octg.Quota.Store.{ok, empty_storage}
use octg.Quota.Samples.{noon, preview_env, today}
use octg.Quota.Admission.Tests.{test_platform}
use octg.Quota.Reserve.Tests.{first_run, first_reserved}
use octg.Quota.Lifecycle.Advances.{Advances}
use octg.Quota.Invariant.{IsSound}
use octg.Quota.Controller.{Call, reserve, written, perform, Day, call, Reachable, start, then_step}
use octg.Quota.Controller.Sound.{empty-IsSound, perform-IsSound, Reachable-IsSound}
use octg.Quota.Controller.Finality.{perform-Advances, Reachable-IsFinalRight, IsFinalRight}

abbrev first_call : Call
first_call = reserve "req_one" (nat 100) (nat 120) none none

first_performed :
    perform test_platform preview_env today noon 1795694400000 first_call empty_storage
    ≡ ok first_run.1
unfolding perform
first_performed = ap written first_reserved

abbrev first_day : Day
first_day = record { storage = empty_storage; deleting = false }

abbrev after_day : Day
after_day = record { storage = first_run.1; deleting = false }

next_reached : Reachable test_platform preview_env today after_day
next_reached =
    then_step first_day after_day start
      (call noon 1795694400000 first_call empty_storage first_run.1 false first_performed)

perform-IsSound_example : IsSound first_run.1
perform-IsSound_example =
    perform-IsSound test_platform preview_env today noon 1795694400000 first_call empty_storage
      first_run.1 empty-IsSound first_performed

perform-Advances_example : Advances empty_storage first_run.1
perform-Advances_example =
    perform-Advances test_platform preview_env today noon 1795694400000 first_call empty_storage
      first_run.1 empty-IsSound first_performed

Reachable-IsSound_example : IsSound first_run.1
Reachable-IsSound_example = Reachable-IsSound test_platform preview_env today after_day next_reached

Reachable-IsFinalRight_example : IsFinalRight after_day
Reachable-IsFinalRight_example =
    Reachable-IsFinalRight test_platform preview_env today after_day next_reached
