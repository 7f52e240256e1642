-- ===== src/Shared/Budget/Bounds.antt =====
-- What a resolved budget guarantees to the admission that reserves it.
use octg.Common.{ℕ, ◌+◌, ◌≤◌, ◌≡◌, inl, inr, some, arith, Option-cases}
use octg.Common.Int.{pos}
use octg.Shared.Number.{max_safe_integer}
use octg.Shared.Budget.{
  OutputDecision, OutputLimitMode, refuse, clamp, proceed, reject, BudgetArguments, ValidArguments,
  Resolved, resolved, safety_margin, upper_bound_of, decide_output, valid_arguments, budget_of,
  resolve_relay_token_budget, reserve_for,
}

pub margin-le : (e o r l : ℕ) → e + o + safety_margin e r l ≤ upper_bound_of e o
unfolding safety_margin upper_bound_of
margin-le e o r l = ground arith

pub decide_output-proceed :
    (e o m r t : ℕ) (mode : OutputLimitMode)
    → decide_output e o m (pos r) mode ≡ proceed t
    → (e + t + m ≤ r) × (t ≤ o)
unfolding decide_output
decide_output-proceed e o m r t refuse h = ground arith
decide_output-proceed e o m r t clamp h = ground arith

-- A budget that resolves fits: the reservation is its three parts, stays within what remains and
-- within the upper bound, the upper bound within the limit, and no output is allowed beyond the
-- output that was asked for.
pub record Fits (v : ValidArguments) (r : Resolved) : Type 0 where
  pub parts : r.reservation ≡ v.estimated + r.max_output_tokens + r.margin
  pub in_remaining : r.reservation ≤ v.remaining
  pub in_upper : r.reservation ≤ r.upper_bound
  pub in_limit : r.upper_bound ≤ v.limit
  pub no_more_output : r.max_output_tokens ≤ v.max_output

reserve_for-resolved :
    (v : ValidArguments) (m u : ℕ) (d : OutputDecision) (r : Resolved)
    → reserve_for v m u d ≡ resolved r
    → (r.margin ≡ m)
      × (r.upper_bound ≡ u)
      × (d ≡ proceed r.max_output_tokens)
      × (r.reservation ≡ v.estimated + r.max_output_tokens + m)
reserve_for-resolved v m u reject r h = ground arith
reserve_for-resolved v m u (proceed t) r h = ground arith

budget_of-Fits : (v : ValidArguments) (r : Resolved) → budget_of v ≡ resolved r → Fits v r
unfolding budget_of
budget_of-Fits v r h = ground (
  arith,
  reserve_for-resolved v margin upper decision r,
  margin-le v.estimated v.max_output v.remaining v.limit,
  decide_output-proceed v.estimated v.max_output margin v.remaining r.max_output_tokens v.mode,
)
  where
    margin : ℕ
    margin = safety_margin v.estimated v.remaining v.limit

    upper : ℕ
    upper = upper_bound_of v.estimated v.max_output

    decision : OutputDecision
    decision = decide_output v.estimated v.max_output margin (pos v.remaining) v.mode

valid_arguments-bounds :
    (a : BudgetArguments) (v : ValidArguments)
    → valid_arguments a ≡ some v
    → (v.limit ≤ max_safe_integer) × (v.remaining ≤ v.limit)
unfolding valid_arguments
valid_arguments-bounds a v h = ground arith

-- A budget that resolves was asked for with numbers that the guard accepts, and fits them.
pub resolve-Fits :
    (a : BudgetArguments) (r : Resolved)
    → resolve_relay_token_budget a ≡ resolved r
    → (v : ValidArguments) × (valid_arguments a ≡ some v) × Fits v r
unfolding resolve_relay_token_budget
resolve-Fits a r h = elim (Option-cases (valid_arguments a)) [
  | inl e ↦ absurd (ground arith)
  | inr (v, e) ↦ (v, e, budget_of-Fits v r (ground arith))
]

-- A valid request whose upper bound is within the limit and whose full need is within what remains
-- is never refused: it resolves at the output that it asked for.
pub resolve_complete :
    (a : BudgetArguments) (v : ValidArguments)
    → valid_arguments a ≡ some v
    → upper_bound_of v.estimated v.max_output ≤ v.limit
    → v.estimated + v.max_output + safety_margin v.estimated v.remaining v.limit ≤ v.remaining
    → resolve_relay_token_budget a
      ≡ resolved (record {
        margin = safety_margin v.estimated v.remaining v.limit;
        upper_bound = upper_bound_of v.estimated v.max_output;
        max_output_tokens = v.max_output;
        reservation = v.estimated + v.max_output + safety_margin v.estimated v.remaining v.limit;
      })
unfolding resolve_relay_token_budget budget_of decide_output
resolve_complete a v e u n = ground (arith, valid_arguments-bounds a v e)
