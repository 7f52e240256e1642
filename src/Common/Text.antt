-- ===== src/Common/Text.antt =====
-- What the program asks of a text: its code points, its lengths, its parts, and patterns of
-- character classes in place of the source's regular expressions.
use Prim.Native.Nat.{ℕ, zero, suc, ◌+◌, ◌%◌, ◌/◌}
use Prim.Native.String
use Prim.Native.String.{String}
use Prim.Native.Char.{Char, code}
use mathlib.Core.Path.{◌≡◌, refl}
use mathlib.Core.Bool.{Bool, true, false, ◌&&◌}
use mathlib.Core.List.{List, [], ◌∷◌}
use octg.Common.Tests.{ltb, leb, ◌==◌, if◌then◌else◌}

unfoldable pub codes : String → List ℕ
codes String.[] = []
codes (String.◌∷◌ c s) = code c ∷ codes s

infixr 66 ◌<>◌
abbrev pub ◌<>◌ : String → String → String
s <> t = String.◌++◌ s t

-- `encode(s).byteLength`.
unfoldable pub utf8_length : String → ℕ
utf8_length s = String.len s

-- `s.length`: a code point above 0xffff counts as two UTF-16 units.
units : List ℕ → ℕ
units [] = 0
units (c ∷ cs) = (if ltb 0xffff c then 2 else 1) + units cs

unfoldable pub utf16_length : String → ℕ
unfolding units codes
utf16_length s = units (codes s)

-- `s.split(":")`.
join_head : Char → List String → List String
join_head c [] = String.◌∷◌ c "" ∷ []
join_head c (s ∷ ss) = String.◌∷◌ c s ∷ ss

unfoldable pub split_colon : String → List String
unfolding join_head
split_colon String.[] = "" ∷ []
split_colon (String.◌∷◌ c s) =
    let rest = split_colon s in if code c == b':' then "" ∷ rest else join_head c rest

abbrev pub between : ℕ → ℕ → ℕ → Bool
between lo hi c = leb lo c && leb c hi

-- A pattern is one class for each character, and matches a whole text.
abbrev pub Pattern : Type 0
Pattern = List (ℕ → Bool)

abbrev pub times : ℕ → (ℕ → Bool) → Pattern → Pattern
times zero p ps = ps
times (suc n) p ps = p ∷ times n p ps

abbrev pub literal : List ℕ → Pattern → Pattern
literal [] ps = ps
literal (k ∷ ks) ps = (λ c. c == k) ∷ literal ks ps

unfoldable pub fits : Pattern → List ℕ → Bool
fits [] [] = true
fits (p ∷ ps) (c ∷ cs) = p c && fits ps cs
fits [] (c ∷ cs) = false
fits (p ∷ ps) [] = false

unfoldable pub matches : Pattern → String → Bool
unfolding fits codes
matches ps s = fits ps (codes s)

unfoldable pub is_digit : ℕ → Bool
is_digit c = between b'0' b'9' c

digit_text : ℕ → String
digit_text zero = "0"
digit_text (suc zero) = "1"
digit_text (suc (suc zero)) = "2"
digit_text (suc (suc (suc zero))) = "3"
digit_text (suc (suc (suc (suc zero)))) = "4"
digit_text (suc (suc (suc (suc (suc zero))))) = "5"
digit_text (suc (suc (suc (suc (suc (suc zero)))))) = "6"
digit_text (suc (suc (suc (suc (suc (suc (suc zero))))))) = "7"
digit_text (suc (suc (suc (suc (suc (suc (suc (suc zero)))))))) = "8"
digit_text n = "9"

-- The last `w` decimal digits of a number.
unfoldable pub decimal : ℕ → ℕ → String
unfolding digit_text
decimal zero n = ""
decimal (suc w) n = decimal w (n / 10) <> digit_text (n % 10)

decimal_test : decimal 4 907 ≡ "0907"
unfolding decimal
decimal_test = refl

split_colon_test : split_colon "quota:MINI:" ≡ "quota" ∷ "MINI" ∷ "" ∷ []
unfolding split_colon
split_colon_test = refl
