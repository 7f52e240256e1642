-- ===== src/Shared/Pool.antt =====
-- packages/shared/src/pool.ts: limits, what remains of a quota, and the policy tier.
-- The source compares the quotient `remaining / limit`, a double, with 0.05 and 0.2. For limits
-- below 8 * 10 ^ 15 the rounded quotient is on the same side of either threshold as the exact one,
-- so the tier is decided by whole numbers: `20 * remaining ≤ limit` and `5 * remaining ≤ limit`.
use octg.Common.{ℕ, zero, suc, ◌+◌, ◌*◌, String, Bool, true, false, leb, if◌then◌else◌, ◌<>◌}
use octg.Common.Int.{ℤ, pos, negsuc, sub_ℕ}
use octg.Shared.Types.{PoolName, standard, mini, PoolState}

abbrev pub pool_limit : PoolName → ℕ
pool_limit standard = 1000000
pool_limit mini = 10000000

pub data PolicyTier : Type 0 where
  normal caution strict : PolicyTier

abbrev pub used_of : PoolState → ℕ
used_of s = s.confirmed_tokens + s.reserved_tokens + s.uncertain_tokens

-- `limit - confirmed - reserved - uncertain`, which a settlement can push below 0.
unfoldable pub remaining_of : PoolState → ℤ
remaining_of s = sub_ℕ s.limit (used_of s)

unfoldable pub tier_of : ℤ → ℕ → PolicyTier
tier_of remaining zero = strict
tier_of (negsuc n) (suc l) = strict
tier_of (pos n) (suc l) =
    if leb (20 * n) (suc l) then strict else if leb (5 * n) (suc l) then caution else normal

abbrev pub is_strict : PolicyTier → Bool
is_strict strict = true
is_strict caution = false
is_strict normal = false

abbrev pub pool_text : PoolName → String
pool_text standard = "STANDARD"
pool_text mini = "MINI"

unfoldable pub quota_id_of : PoolName → String → String
quota_id_of pool day = "quota:" <> pool_text pool <> ":" <> day

pub to_pool_lower : PoolName → String
to_pool_lower standard = "standard"
to_pool_lower mini = "mini"
