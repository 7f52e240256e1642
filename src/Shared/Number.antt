-- ===== src/Shared/Number.antt =====
-- packages/shared/src/relay-json.ts and the guards that repeat its tests: a JavaScript number as
-- the program tells numbers apart. `other` is NaN, an infinity or a number with a fraction; an
-- integer is exact, since the program rejects what is not a safe integer before it computes.
use octg.Common.{ℕ, suc, Bool, false, Option, none, some, leb, if◌then◌else◌}
use octg.Common.Int.{ℤ, pos, negsuc}

pub data Number : Type 0 where
  int : ℤ → Number
  other : Number

-- `Number.MAX_SAFE_INTEGER`.
abbrev pub max_safe_integer : ℕ
max_safe_integer = 9007199254740991

-- `Number.isSafeInteger(n)`.
abbrev pub is_safe_integer : Number → Bool
is_safe_integer (int (pos n)) = leb n max_safe_integer
is_safe_integer (int (negsuc n)) = leb (suc n) max_safe_integer
is_safe_integer other = false

-- `isSafeNonNegativeInteger` and its copies: the number, where the guard lets it through.
abbrev pub safe_non_negative : Number → Option ℕ
safe_non_negative (int (pos n)) = if leb n max_safe_integer then some n else none
safe_non_negative (int (negsuc n)) = none
safe_non_negative other = none

-- `Number.isSafeInteger(n) && n > 0`.
abbrev pub safe_positive : Number → Option ℕ
safe_positive (int (pos (suc n))) = if leb (suc n) max_safe_integer then some (suc n) else none
safe_positive (int _) = none
safe_positive other = none

abbrev pub nat : ℕ → Number
nat n = int (pos n)
