-- ===== src/Relay/Canonical.antt =====
-- packages/shared/src/relay-credential.ts: canonical JSON (RFC 8785) of claims. A text is the list of
-- its code points.
pub mod Strings
mod Tests
use octg.Common.{
  ℕ, suc, ◌+◌, ◌-◌, ◌/◌, ◌%◌, Bool, true, false, Option, none, some, List, [], ◌∷◌, ◌++◌, ltb, ◌==◌,
  if◌then◌else◌, codes,
}
use octg.Common.Int.{pos, negsuc}
use octg.Common.Encoding.{utf16, numeral}
use octg.Shared.Number.{Number, int, other, is_safe_integer}
use octg.Relay.Value.{
  ◌>>=◌, Value, undefined, null, boolean, number, string, array, object, Properties, end, property,
}

unfoldable pub hex_digit : ℕ → ℕ
hex_digit v = if ltb v 10 then b'0' + v else b'a' + (v - 10)

-- One character of a JSON string.
unfoldable pub escape_character : ℕ → List ℕ
escape_character c =
    if c == b'"'
    then b'\\' ∷ b'"' ∷ []
    else if c == b'\\'
    then b'\\' ∷ b'\\' ∷ []
    else if c == 8
    then b'\\' ∷ b'b' ∷ []
    else if c == 9
    then b'\\' ∷ b't' ∷ []
    else if c == 10
    then b'\\' ∷ b'n' ∷ []
    else if c == 12
    then b'\\' ∷ b'f' ∷ []
    else if c == 13
    then b'\\' ∷ b'r' ∷ []
    else if ltb c 0x20
    then b'\\' ∷ b'u' ∷ b'0' ∷ b'0' ∷ hex_digit (c / 16) ∷ hex_digit (c % 16) ∷ []
    else c ∷ []

unfoldable pub escape_characters : List ℕ → List ℕ
escape_characters [] = []
escape_characters (c ∷ cs) = escape_character c ++ escape_characters cs

-- `escapeCanonicalJsonString`.
unfoldable pub escape_canonical_json_string : List ℕ → List ℕ
unfolding escape_character escape_characters hex_digit
escape_canonical_json_string s = b'"' ∷ (escape_characters s ++ (b'"' ∷ []))

-- `left < right` on texts: by UTF-16 units.
unfoldable pub units_lt : List ℕ → List ℕ → Bool
units_lt [] [] = false
units_lt [] (d ∷ ds) = true
units_lt (c ∷ cs) [] = false
units_lt (c ∷ cs) (d ∷ ds) =
    let rest = units_lt cs ds in if ltb c d then true else if ltb d c then false else rest

abbrev pub Entry : Type 0
Entry = List ℕ × List ℕ

-- The sort by `compareCodeUnits`, which is stable.
insert_entry : Entry → List Entry → List Entry
insert_entry e [] = e ∷ []
insert_entry e (f ∷ fs) =
    let rest = insert_entry e fs in
    if units_lt (utf16 f.0) (utf16 e.0) then f ∷ rest else e ∷ f ∷ fs

unfoldable pub sort_entries : List Entry → List Entry
unfolding insert_entry units_lt utf16
sort_entries [] = []
sort_entries (e ∷ es) = insert_entry e (sort_entries es)

-- The members, joined by commas.
unfoldable pub join_members : List Entry → List ℕ
join_members [] = []
join_members (e ∷ []) = escape_canonical_json_string e.0 ++ (b':' ∷ e.1)
join_members (e ∷ f ∷ fs) =
    escape_canonical_json_string e.0 ++ (b':' ∷ e.1) ++ (b',' ∷ join_members (f ∷ fs))

-- `String(value)` of a safe integer, which has 16 digits at most; none where the code throws.
unfoldable pub serialize_number : Number → Option (List ℕ)
unfolding numeral
serialize_number (int (pos n)) = if is_safe_integer (int (pos n)) then some (numeral 16 n) else none
serialize_number (int (negsuc n)) =
    if is_safe_integer (int (negsuc n)) then some (b'-' ∷ numeral 16 (suc n)) else none
serialize_number other = none

abbrev true_text : List ℕ
true_text = b't' ∷ b'r' ∷ b'u' ∷ b'e' ∷ []

abbrev false_text : List ℕ
false_text = b'f' ∷ b'a' ∷ b'l' ∷ b's' ∷ b'e' ∷ []

abbrev null_text : List ℕ
null_text = b'n' ∷ b'u' ∷ b'l' ∷ b'l' ∷ []

-- `serializeCanonicalJson`, none where it throws; `serializeCanonicalRecord` sorts the entries of a
-- record whose values are serialized.
unfoldable mutual
  pub serialize_canonical_json : Value → Option (List ℕ)
  serialize_canonical_json null = some null_text
  serialize_canonical_json (string s) = some (escape_canonical_json_string (codes s))
  serialize_canonical_json (boolean true) = some true_text
  serialize_canonical_json (boolean false) = some false_text
  serialize_canonical_json (number n) = serialize_number n
  serialize_canonical_json (object ps) = do
    entries ← serialize_entries ps
    some (b'{' ∷ (join_members (sort_entries entries) ++ (b'}' ∷ [])))
  serialize_canonical_json undefined = none
  serialize_canonical_json (array vs) = none

  pub serialize_entries : Properties → Option (List Entry)
  serialize_entries end = some []
  serialize_entries (property k v ps) = do
    text ← serialize_canonical_json v
    rest ← serialize_entries ps
    some ((codes k, text) ∷ rest)
