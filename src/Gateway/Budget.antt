-- ===== src/Gateway/Budget.antt =====
-- apps/gateway-worker/src/token-budget.ts: the budget that the gateway computes. Its steps are those
-- of estimate.ts, from which it takes the margin, the upper bound and the output.
use octg.Common.{none, some}
use octg.Shared.Budget.{
  BudgetArguments, BudgetOutcome, arithmetic_error, valid_arguments, budget_of,
}

-- `resolveTokenBudget`.
unfoldable pub resolve_token_budget : BudgetArguments → BudgetOutcome
resolve_token_budget a = elim (valid_arguments a) [ none ↦ arithmetic_error | some v ↦ budget_of v ]
