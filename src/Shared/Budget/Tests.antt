-- ===== src/Shared/Budget/Tests.antt =====
-- The budget laws at one request.
use octg.Common.{◌≡◌, ◌≤◌, ◌+◌, refl, some, arith}
use octg.Shared.Number.{nat}
use octg.Shared.Budget.{
  BudgetArguments, ValidArguments, Resolved, refuse, clamp, resolved, valid_arguments,
  resolve_relay_token_budget, upper_bound_of, safety_margin,
}
use octg.Shared.Budget.Bounds.{Fits, resolve-Fits, resolve_complete}

abbrev clamped_request : BudgetArguments
clamped_request = record {
  estimated_input = nat 1000;
  max_output_tokens = nat 4000;
  remaining = nat 3000;
  limit = nat 20000;
  output_limit_mode = clamp;
}

abbrev clamped_budget : Resolved
clamped_budget = record {
  margin = 512;
  upper_bound = 5512;
  max_output_tokens = 1488;
  reservation = 3000;
}

clamped_resolves : resolve_relay_token_budget clamped_request ≡ resolved clamped_budget
unfolding resolve_relay_token_budget valid_arguments octg.Shared.Budget.budget_of safety_margin
    upper_bound_of octg.Shared.Budget.decide_output
clamped_resolves = refl

resolve-Fits_example :
    (v : ValidArguments) × (valid_arguments clamped_request ≡ some v) × Fits v clamped_budget
resolve-Fits_example = resolve-Fits clamped_request clamped_budget clamped_resolves

abbrev small_request : BudgetArguments
small_request = record clamped_request { max_output_tokens = nat 1000 }

abbrev small_valid : ValidArguments
small_valid = record {
  estimated = 1000;
  max_output = 1000;
  remaining = 3000;
  limit = 20000;
  mode = clamp;
}

small_is_valid : valid_arguments small_request ≡ some small_valid
unfolding valid_arguments
small_is_valid = refl

small_upper : upper_bound_of 1000 1000 ≤ 20000
unfolding upper_bound_of
small_upper = ground arith

small_need : 1000 + 1000 + safety_margin 1000 3000 20000 ≤ 3000
unfolding safety_margin
small_need = ground arith

resolve_complete_example :
    resolve_relay_token_budget small_request
    ≡ resolved (record {
      margin = safety_margin 1000 3000 20000;
      upper_bound = upper_bound_of 1000 1000;
      max_output_tokens = 1000;
      reservation = 1000 + 1000 + safety_margin 1000 3000 20000;
    })
resolve_complete_example =
    resolve_complete small_request small_valid small_is_valid small_upper small_need
