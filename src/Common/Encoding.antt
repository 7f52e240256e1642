-- ===== src/Common/Encoding.antt =====
-- Texts as lists of code points, of UTF-16 units and of UTF-8 bytes, and decimal numerals of any
-- length.
use Prim.Native.Nat.{ℕ, zero, suc, ◌+◌, ◌-◌, ◌*◌, ◌/◌, ◌%◌, ◌^◌, ◌<◌}
use mathlib.Core.Path.{◌≡◌, refl}
use mathlib.Core.List.{List, [], ◌∷◌, ◌++◌}
use native.Mathlib.Omega.{arith}
use octg.Common.Tests.{ltb, if◌then◌else◌}

-- The UTF-16 units of a text.
unfoldable pub utf16 : List ℕ → List ℕ
utf16 [] = []
utf16 (c ∷ cs) =
    let rest = utf16 cs in
    if ltb 0xffff c
    then (0xd800 + (c - 0x10000) / 1024) ∷ (0xdc00 + (c - 0x10000) % 1024) ∷ rest
    else c ∷ rest

-- `new TextEncoder().encode(text)`.
unfoldable pub utf8 : List ℕ → List ℕ
utf8 [] = []
utf8 (c ∷ cs) =
    let rest = utf8 cs in
    if ltb c 0x80
    then c ∷ rest
    else if ltb c 0x800
    then (0xc0 + c / 64) ∷ (0x80 + c % 64) ∷ rest
    else if ltb c 0x10000
    then (0xe0 + c / 4096) ∷ (0x80 + c / 64 % 64) ∷ (0x80 + c % 64) ∷ rest
    else (0xf0 + c / 262144)
      ∷ (0x80 + c / 4096 % 64)
      ∷ (0x80 + c / 64 % 64)
      ∷ (0x80 + c % 64)
      ∷ rest

-- `String(n)`, for a number of at most `fuel` digits.
unfoldable pub numeral : ℕ → ℕ → List ℕ
numeral zero n = []
numeral (suc fuel) n =
    let front = numeral fuel (n / 10) in
    if ltb n 10 then (b'0' + n) ∷ [] else front ++ ((b'0' + n % 10) ∷ [])

-- The number that digits denote.
unfoldable pub digits_value : ℕ → List ℕ → ℕ
digits_value acc [] = acc
digits_value acc (c ∷ cs) = digits_value (acc * 10 + (c - b'0')) cs

digits_value-append :
    (acc : ℕ) (xs : List ℕ) (c : ℕ)
    → digits_value acc (xs ++ (c ∷ [])) ≡ digits_value acc xs * 10 + (c - b'0')
unfolding digits_value
digits_value-append acc [] c = refl
digits_value-append acc (x ∷ xs) c = digits_value-append (acc * 10 + (x - b'0')) xs c

-- A numeral denotes its number, where the fuel covers its digits.
pub digits_value-numeral : (fuel n : ℕ) → n < 10 ^ fuel → digits_value 0 (numeral fuel n) ≡ n
unfolding numeral digits_value
digits_value-numeral zero n h = omega arith
digits_value-numeral (suc fuel) n h = ground (
  arith,
  digits_value-append 0 (numeral fuel (n / 10)) (b'0' + n % 10),
  digits_value-numeral fuel (n / 10),
)
