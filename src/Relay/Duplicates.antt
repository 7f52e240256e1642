-- ===== src/Relay/Duplicates.antt =====
-- packages/shared/src/relay-json.ts: the scan of a raw JSON text for an object that declares a key
-- twice. A text is the list of its UTF-16 units; a position in it is the list that is left there.
pub mod Fuel
mod Tests
use octg.Common.{
  ℕ, zero, suc, ◌+◌, ◌-◌, ◌*◌, Bool, true, false, ◌&&◌, ◌||◌, Option, none, some, List, [], ◌∷◌,
  length, ◌==◌, if◌then◌else◌, between,
}

-- Equality of texts, and `Set.has`.
unfoldable pub eq_text : List ℕ → List ℕ → Bool
eq_text [] [] = true
eq_text (c ∷ cs) (d ∷ ds) = (c == d) && eq_text cs ds
eq_text [] (d ∷ ds) = false
eq_text (c ∷ cs) [] = false

unfoldable pub has : List ℕ → List (List ℕ) → Bool
unfolding eq_text
has k [] = false
has k (j ∷ js) = eq_text k j || has k js

-- `SIMPLE_ESCAPES[escape]`.
unfoldable pub simple_escape : ℕ → Option ℕ
simple_escape c =
    if (c == b'"') || (c == b'\\') || (c == b'/')
    then some c
    else if c == b'b'
    then some 8
    else if c == b'f'
    then some 12
    else if c == b'n'
    then some 10
    else if c == b'r'
    then some 13
    else if c == b't'
    then some 9
    else none

unfoldable pub is_json_whitespace : ℕ → Bool
is_json_whitespace c = (c == 32) || (c == 9) || (c == 10) || (c == 13)

hex_value : ℕ → Option ℕ
hex_value c =
    if between b'0' b'9' c
    then some (c - b'0')
    else if between b'a' b'f' c
    then some (c - b'a' + 10)
    else if between b'A' b'F' c
    then some (c - b'A' + 10)
    else none

-- `Number.parseInt(hex, 16)` of four digits, where the pattern matches.
unfoldable pub hex_unit : ℕ → ℕ → ℕ → ℕ → Option ℕ
unfolding hex_value
hex_unit a b c d = elim (hex_value a) [
  | none ↦ none
  | some p ↦ elim (hex_value b) [
    | none ↦ none
    | some q ↦ elim (hex_value c) [
      | none ↦ none
      | some r ↦ elim (hex_value d) [
        | none ↦ none
        | some s ↦ some (((p * 16 + q) * 16 + r) * 16 + s)
      ]
    ]
  ]
]

-- What follows `\u`, with the four digits taken.
unfoldable pub unicode_escape : List ℕ → Option (ℕ × List ℕ)
unicode_escape (a ∷ b ∷ c ∷ d ∷ rest) = elim (hex_unit a b c d) [
  | none ↦ none
  | some u ↦ some (u, rest)
]
unicode_escape _ = none

-- What follows a backslash: the unit it stands for.
unfoldable pub escape : List ℕ → Option (ℕ × List ℕ)
escape [] = none
escape (e ∷ rest) =
    if e == b'u'
    then unicode_escape rest
    else elim (simple_escape e) [ none ↦ none | some u ↦ some (u, rest) ]

-- A string token with what follows it, or no token. `stuck` is no result of the code: the loop ran
-- out of fuel.
pub data Token : Type 0 where
  token : List ℕ → List ℕ → Token
  malformed stuck : Token

unfoldable pub push : ℕ → Token → Token
push u (token value rest) = token (u ∷ value) rest
push u malformed = malformed
push u stuck = stuck

-- `decodeJsonString`, after the opening quote.
unfoldable pub decode_json_string : ℕ → List ℕ → Token
decode_json_string fuel [] = malformed
decode_json_string zero (c ∷ cs) = stuck
decode_json_string (suc fuel) (c ∷ cs) =
    if c == b'"'
    then token [] cs
    else if c == b'\\'
    then elim (escape cs) [ none ↦ malformed | some e ↦ push e.0 (decode_json_string fuel e.1) ]
    else (let rest = decode_json_string fuel cs in push c rest)

-- `text[j] === ":"` at the first unit that is no whitespace.
unfoldable pub colon_follows : List ℕ → Bool
unfolding is_json_whitespace
colon_follows [] = false
colon_follows (c ∷ cs) =
    let rest = colon_follows cs in if is_json_whitespace c then rest else c == b':'

-- The keys of each open object, the innermost first; an array has none.
abbrev pub KeyStack : Type 0
KeyStack = List (Option (List (List ℕ)))

unfoldable pub pop : KeyStack → KeyStack
pop [] = []
pop (scope ∷ stack) = stack

-- The stack after a string token: none where the token is a key that its object has.
unfoldable pub note_key : List ℕ → List ℕ → KeyStack → Option KeyStack
note_key value rest (some keys ∷ stack) =
    if colon_follows rest
    then (if has value keys then none else some (some (value ∷ keys) ∷ stack))
    else some (some keys ∷ stack)
note_key value rest stack = some stack

-- What a unit outside a string does to the stack.
unfoldable pub bracket : ℕ → KeyStack → KeyStack
unfolding pop
bracket c stack =
    if c == b'{'
    then some [] ∷ stack
    else if c == b'['
    then none ∷ stack
    else if (c == b'}') || (c == b']')
    then pop stack
    else stack

-- The loop from its state; none where the fuel runs out.
unfoldable pub scan : ℕ → KeyStack → List ℕ → Option Bool
scan fuel stack [] = some false
scan zero stack (c ∷ cs) = none
scan (suc fuel) stack (c ∷ cs) =
    if c == b'"'
    then elim (decode_json_string (length cs) cs) [
      | malformed ↦ some false
      | stuck ↦ none
      | token value rest ↦ elim (note_key value rest stack) [
        | none ↦ some true
        | some s ↦ scan fuel s rest
      ]
    ]
    else (let rest = scan fuel (bracket c stack) cs in rest)

-- `hasDuplicateJsonKeys`.
unfoldable pub has_duplicate_json_keys : List ℕ → Option Bool
unfolding scan decode_json_string escape unicode_escape hex_unit simple_escape push note_key has
    colon_follows bracket
has_duplicate_json_keys text = scan (length text) [] text
