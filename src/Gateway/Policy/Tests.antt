-- ===== src/Gateway/Policy/Tests.antt =====
-- A policy that is read, changed in the database, and answered from the cache.
use octg.Common.{
  ℕ, ◌≡◌, refl, String, Option, none, some, List, [], true, false, leb, if◌then◌else◌, arith,
}
use octg.Shared.Number.{nat}
use octg.Shared.Classify.{RegistryEntry}
use octg.Gateway.Policy.{PolicyRow, Caches, allow_tools, reject_tools, policy_of, load_policy}
use octg.Gateway.Policy.Fresh.{IsFresh, GivesPolicy, load_policy-GivesPolicy}

abbrev allowing : PolicyRow
allowing = record {
  overflow_mode = "REJECT";
  output_limit_mode = "CLAMP";
  max_paid_usd_day = nat 0;
  cache_enabled = 1;
  tools_mode = "ALLOW";
}

-- The policy is withdrawn at the time 5000.
abbrev policy_at : ℕ → String → Option PolicyRow
policy_at t client = if leb 5000 t then none else some allowing

abbrev registry_at : ℕ → List RegistryEntry
registry_at t = []

abbrev no_caches : Caches
no_caches = record { registry = none; policies = [] }

none-IsFresh : IsFresh policy_at registry_at 1000 no_caches
unfolding octg.Common.lookup
none-IsFresh = record {
  policies_read = λ client entry e. absurd (ground arith);
  registry_read = λ entry e. absurd (ground arith);
}

load_policy-GivesPolicy_example :
    GivesPolicy policy_at registry_at 1000 "client"
      (load_policy 1000 (some allowing) "client" no_caches)
load_policy-GivesPolicy_example =
    load_policy-GivesPolicy policy_at registry_at 1000 "client" no_caches none-IsFresh

still_allowed :
    (load_policy 30000 none "client"
      (load_policy 1000 (some allowing) "client" no_caches).1).0.tools_mode
    ≡ allow_tools
unfolding load_policy policy_of octg.Common.lookup octg.Common.insert octg.Common.same
still_allowed = refl

withdrawn :
    (load_policy 61000 none "client"
      (load_policy 1000 (some allowing) "client" no_caches).1).0.tools_mode
    ≡ reject_tools
unfolding load_policy policy_of octg.Common.lookup octg.Common.insert octg.Common.same
withdrawn = refl
