-- ===== src/Relay/Canonical/Tests.antt =====
-- A string with a quotation mark and a line feed, escaped and read back.
use octg.Common.{ℕ, ◌≡◌, refl, List, [], ◌∷◌, ◌++◌, arith}
use octg.Relay.Canonical.{escape_characters}
use octg.Relay.Canonical.Strings.{decode-escape_characters}
use octg.Relay.Duplicates.{token, decode_json_string}

abbrev text : List ℕ
text = b'a' ∷ b'"' ∷ 10 ∷ []

escape_characters_test : escape_characters text ≡ b'a' ∷ b'\\' ∷ b'"' ∷ b'\\' ∷ b'n' ∷ []
unfolding escape_characters octg.Relay.Canonical.escape_character
escape_characters_test = refl

decode-escape_characters_example :
    decode_json_string 9 (escape_characters text ++ (b'"' ∷ b':' ∷ [])) ≡ token text (b':' ∷ [])
decode-escape_characters_example = decode-escape_characters 9 text (b':' ∷ []) (omega arith)
