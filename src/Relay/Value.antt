-- ===== src/Relay/Value.antt =====
-- A JavaScript value at a relay's parse boundary, as the validators of packages/shared/src see it,
-- and the predicates of relay-json.ts. An object has each of its own keys once.
use octg.Common.{
  ℕ, String, Bool, true, false, ◌&&◌, ◌||◌, Option, none, some, List, [], ◌∷◌, leb, ◌==◌,
  if◌then◌else◌, same, length, all, utf8_length,
}
use octg.Common.Int.{pos}
use octg.Shared.Number.{Number, int, is_safe_integer, safe_non_negative}

mutual
  pub data Value : Type 0 where
    undefined null : Value
    boolean : Bool → Value
    number : Number → Value
    string : String → Value
    array : Values → Value
    object : Properties → Value

  pub data Values : Type 0 where
    nil : Values
    cons : Value → Values → Values

  pub data Properties : Type 0 where
    end : Properties
    property : String → Value → Properties → Properties

-- `Object.keys(value)`.
unfoldable pub keys : Properties → List String
keys end = []
keys (property k v ps) = k ∷ keys ps

-- `value.key`: `undefined` where the key is missing.
unfoldable pub get : String → Properties → Value
get k end = undefined
get k (property j v ps) = if same j k then v else get k ps

unfoldable pub has_own : String → Properties → Bool
has_own k end = false
has_own k (property j v ps) = same j k || has_own k ps

-- `isRecord`: an object that is neither null nor an array.
abbrev pub as_record : Value → Option Properties
as_record (object ps) = some ps
as_record _ = none

unfoldable pub has_exact_keys : Properties → List String → Bool
unfolding keys has_own
has_exact_keys ps wanted = (length (keys ps) == length wanted) && all (λ k. has_own k ps) wanted

abbrev pub as_string : Value → Option String
as_string (string s) = some s
as_string _ = none

abbrev pub as_boolean : Value → Option Bool
as_boolean (boolean b) = some b
as_boolean _ = none

abbrev pub is_null : Value → Bool
is_null null = true
is_null _ = false

-- `isSafeNonNegativeInteger`.
abbrev pub as_safe_non_negative : Value → Option ℕ
as_safe_non_negative (number n) = safe_non_negative n
as_safe_non_negative _ = none

-- `isSafeInteger`.
abbrev pub as_safe_integer : Value → Option Number
as_safe_integer (number n) = if is_safe_integer n then some n else none
as_safe_integer _ = none

-- `isBoundedUtf8`.
unfoldable pub as_bounded_utf8 : ℕ → Value → Option String
as_bounded_utf8 max_bytes (string s) = if leb (utf8_length s) max_bytes then some s else none
as_bounded_utf8 max_bytes _ = none

-- `isBoundedUtf8(value, max) && value.length > 0`.
unfoldable pub as_bounded_non_empty : ℕ → Value → Option String
unfolding as_bounded_utf8
as_bounded_non_empty max_bytes (string s) =
    if leb (utf8_length s) max_bytes then (if same s "" then none else some s) else none
as_bounded_non_empty max_bytes _ = none

-- `value === text`, and `value === n` for a whole number.
abbrev pub is_text : String → Value → Bool
is_text s (string t) = same t s
is_text s _ = false

abbrev pub is_number : ℕ → Value → Bool
is_number n (number (int (pos m))) = m == n
is_number n _ = false

-- What follows a failed guard is `return undefined`.
infixl 5 ◌>>=◌ ◌>>◌
abbrev pub ◌>>=◌ {ℓ κ} : {A : Type ℓ} {B : Type κ} → Option A → (A → Option B) → Option B
none >>= k = none
some a >>= k = k a

abbrev pub ◌>>◌ {ℓ} : {B : Type ℓ} → Option (Unit {0}) → Option B → Option B
m >> k = m >>= λ _. k

abbrev pub guard : Bool → Option (Unit {0})
guard true = some tt
guard false = none
