-- ===== src/Relay/Canonical/Strings.antt =====
-- A canonical string read back by the scanner of string tokens of relay-json.ts.
use octg.Common.{ℕ, zero, suc, ◌<◌, ◌≡◌, refl, ap, ◌∙◌, List, [], ◌∷◌, ◌++◌, arith, length}
use mathlib.Core.List.{append_assoc}
use octg.Relay.Canonical.{escape_character, escape_characters, hex_digit}
use octg.Common.Encoding.{utf16}
use octg.Relay.Duplicates.{
  token, push, decode_json_string, escape, unicode_escape, simple_escape, hex_unit,
}

-- A character is read back from its escape, with what follows it, by one round of the loop.
decode-escape_character :
    (fuel c : ℕ) (rest : List ℕ)
    → decode_json_string (suc fuel) (escape_character c ++ rest)
      ≡ push c (decode_json_string fuel rest)
unfolding decode_json_string escape_character hex_digit escape unicode_escape simple_escape hex_unit
decode-escape_character fuel c rest = ground arith

-- The text of a string token is read back to the text that was escaped, and the reader stops after
-- the closing quote, whatever follows, on any fuel above the text's length.
pub decode-escape_characters :
    (fuel : ℕ) (s rest : List ℕ)
    → length s < fuel
    → decode_json_string fuel (escape_characters s ++ (b'"' ∷ rest)) ≡ token s rest
unfolding escape_characters decode_json_string push
decode-escape_characters zero s rest h = absurd (omega arith)
decode-escape_characters (suc fuel) [] rest h = refl
decode-escape_characters (suc fuel) (c ∷ cs) rest h =
    ap (λ t. decode_json_string (suc fuel) t)
      (append_assoc (escape_character c) (escape_characters cs) (b'"' ∷ rest))
    ∙ decode-escape_character fuel c (escape_characters cs ++ (b'"' ∷ rest))
    ∙ ap (push c) (decode-escape_characters fuel cs rest (omega arith))

utf16-escape_character :
    (c : ℕ) (rest : List ℕ)
    → utf16 (escape_character c ++ rest) ≡ escape_characters (utf16 (c ∷ [])) ++ utf16 rest
unfolding utf16 escape_character escape_characters hex_digit
utf16-escape_character c rest = ground arith

-- Escapes are made of code points below 0x10000, and characters above are never escaped.
utf16-escape_characters : (s : List ℕ) → utf16 (escape_characters s) ≡ escape_characters (utf16 s)
unfolding escape_characters utf16
utf16-escape_characters [] = refl
utf16-escape_characters (c ∷ cs) =
    utf16-escape_character c (escape_characters cs)
    ∙ grind (arith, utf16-escape_characters cs, append_assoc)
