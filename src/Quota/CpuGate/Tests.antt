-- ===== src/Quota/CpuGate/Tests.antt =====
-- The fence at a request that nobody has seen.
use octg.Common.{◌≡◌, refl, true, none, lookup, Option, String}
use octg.Quota.Store.{ok, is_set}
use octg.Quota.Samples.{noon, preview_env, today, one_reserved}
use octg.Quota.CpuGate.{FenceResult, fenced, set_fence, fence_relay_cpu_gate_setup}
use octg.Quota.CpuGate.Laws.{fence-IsSet}

pub fence_run :
    fence_relay_cpu_gate_setup noon preview_env today 1795694400000 "req_01ARZ3NDEKTSV4RRFFQ69G5FAV"
      one_reserved
    ≡ ok (fenced, set_fence "req_01ARZ3NDEKTSV4RRFFQ69G5FAV" one_reserved)
unfolding fence_relay_cpu_gate_setup octg.Quota.CpuGate.get_relay_cpu_gate_grant_inspection
    octg.Quota.CpuGate.inspect lookup octg.Common.same
fence_run = refl

fence-IsSet_example :
    (is_set (
        lookup "req_01ARZ3NDEKTSV4RRFFQ69G5FAV"
          (set_fence "req_01ARZ3NDEKTSV4RRFFQ69G5FAV" one_reserved).fences)
      ≡ true)
    × (lookup "req_01ARZ3NDEKTSV4RRFFQ69G5FAV" one_reserved.grants ≡ none)
    × (lookup "req_01ARZ3NDEKTSV4RRFFQ69G5FAV" one_reserved.entries ≡ none)
fence-IsSet_example =
    fence-IsSet noon preview_env today 1795694400000 "req_01ARZ3NDEKTSV4RRFFQ69G5FAV" one_reserved
      (set_fence "req_01ARZ3NDEKTSV4RRFFQ69G5FAV" one_reserved) fence_run
