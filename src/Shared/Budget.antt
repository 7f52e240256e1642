-- ===== src/Shared/Budget.antt =====
-- packages/shared/src/estimate.ts: the tokens that a relay request may reserve.
-- `Math.ceil(n * 0.05)` and `Math.ceil(n * 0.02)` are a product of doubles; for n up to 2 ^ 50 the
-- rounding never crosses a whole number, so they are the exact ceilings of n / 20 and n / 50.
-- `remainingRatio` comes as its two whole numbers. The catch of the source is for a RangeError that
-- none of the called functions throws.
pub mod Bounds
pub mod Tests
use Prim.Native.Nat.{max}
use octg.Common.{
  ℕ, zero, suc, ◌+◌, ◌*◌, ◌/◌, Bool, true, false, Option, none, some, ltb, leb, if◌then◌else◌,
}
use octg.Common.Int.{ℤ, pos, negsuc, ◌-ℤ◌, leb_ℤ}
use octg.Shared.Number.{Number, max_safe_integer, safe_non_negative, safe_positive}

unfoldable pub safety_margin : ℕ → ℕ → ℕ → ℕ
safety_margin estimated remaining limit =
    if leb (5 * remaining) limit
    then max 512 ((estimated + 19) / 20)
    else max 256 ((estimated + 49) / 50)

unfoldable pub upper_bound_of : ℕ → ℕ → ℕ
upper_bound_of estimated max_output = estimated + max_output + max 512 ((estimated + 19) / 20)

pub data OutputDecision : Type 0 where
  proceed : (max_output_tokens : ℕ) → OutputDecision
  reject : OutputDecision

pub data OutputLimitMode : Type 0 where
  refuse clamp : OutputLimitMode

-- `candidate > 0`.
abbrev pub clamped : OutputLimitMode → ℤ → OutputDecision
clamped clamp (pos (suc n)) = proceed (suc n)
clamped clamp _ = reject
clamped refuse _ = reject

unfoldable pub decide_output : ℕ → ℕ → ℕ → ℤ → OutputLimitMode → OutputDecision
unfolding ◌-ℤ◌
decide_output estimated max_output margin remaining mode =
    if leb_ℤ (pos (estimated + max_output + margin)) remaining
    then proceed max_output
    else clamped mode (remaining -ℤ pos estimated -ℤ pos margin)

pub record BudgetArguments : Type 0 where
  pub estimated_input : Number
  pub max_output_tokens : Number
  pub remaining : Number
  pub limit : Number
  pub output_limit_mode : OutputLimitMode

-- The arguments once `validRelayBudgetArguments` has let them through.
pub record ValidArguments : Type 0 where
  pub estimated : ℕ
  pub max_output : ℕ
  pub remaining : ℕ
  pub limit : ℕ
  pub mode : OutputLimitMode

pub record Resolved : Type 0 where
  pub margin : ℕ
  pub upper_bound : ℕ
  pub max_output_tokens : ℕ
  pub reservation : ℕ

pub data BudgetOutcome : Type 0 where
  resolved : Resolved → BudgetOutcome
  request_too_large quota_exceeded arithmetic_error : BudgetOutcome

abbrev pub in_limit : ℕ → ℕ → ℕ → ℕ → OutputLimitMode → Option ValidArguments
in_limit e o r l mode =
    if leb r l
    then some (record { estimated = e; max_output = o; remaining = r; limit = l; mode = mode })
    else none

infixl 5 ◌>>=◌
abbrev pub ◌>>=◌ {ℓ κ} : {A : Type ℓ} {B : Type κ} → Option A → (A → Option B) → Option B
none >>= k = none
some a >>= k = k a

unfoldable pub valid_arguments : BudgetArguments → Option ValidArguments
valid_arguments a = do
  e ← safe_non_negative a.estimated_input
  o ← safe_non_negative a.max_output_tokens
  r ← safe_non_negative a.remaining
  l ← safe_positive a.limit
  in_limit e o r l a.output_limit_mode

abbrev pub is_safe : ℕ → Bool
is_safe n = leb n max_safe_integer

-- The `switch` over the output decision.
abbrev pub reserve_for : ValidArguments → ℕ → ℕ → OutputDecision → BudgetOutcome
reserve_for a margin upper reject = quota_exceeded
reserve_for a margin upper (proceed tokens) =
    if is_safe tokens
    then (if is_safe (a.estimated + tokens + margin)
        then resolved (record {
          margin = margin;
          upper_bound = upper;
          max_output_tokens = tokens;
          reservation = a.estimated + tokens + margin;
        })
        else arithmetic_error)
    else arithmetic_error

unfoldable pub budget_of : ValidArguments → BudgetOutcome
budget_of a =
    let margin = safety_margin a.estimated a.remaining a.limit in
    let upper = upper_bound_of a.estimated a.max_output in
    if is_safe margin
    then (if is_safe upper
        then (if ltb a.limit upper
            then request_too_large
            else reserve_for a margin upper
                (decide_output a.estimated a.max_output margin (pos a.remaining) a.mode))
        else arithmetic_error)
    else arithmetic_error

unfoldable pub resolve_relay_token_budget : BudgetArguments → BudgetOutcome
resolve_relay_token_budget a = elim (valid_arguments a) [
  | none ↦ arithmetic_error
  | some v ↦ budget_of v
]
