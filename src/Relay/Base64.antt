-- ===== src/Relay/Base64.antt =====
-- packages/shared/src/relay-credential.ts: base64url without padding. Bytes and texts are lists of
-- numbers; a text is the list of its UTF-16 units.
pub mod Letters
pub mod RoundTrip
pub mod Canonical
mod Tests
use octg.Relay.Value.{◌>>=◌, ◌>>◌}
use octg.Common.{
  ℕ, ◌+◌, ◌-◌, ◌*◌, ◌/◌, ◌%◌, ◌^◌, Option, none, some, not, List, [], ◌∷◌, length, ltb, leb, ◌==◌,
  ◌&&◌, if◌then◌else◌, between, map,
}

-- The standard alphabet, from which `btoa` takes its letters.
unfoldable base64_letter : ℕ → ℕ
base64_letter v =
    if ltb v 26
    then v + b'A'
    else if ltb v 52
    then v - 26 + b'a'
    else if ltb v 62
    then v - 52 + b'0'
    else if v == 62
    then b'+'
    else b'/'

-- `btoa`: three bytes give four letters, and a shorter end is padded.
unfoldable btoa : List ℕ → List ℕ
unfolding base64_letter
btoa [] = []
btoa (a ∷ []) = base64_letter (a / 4) ∷ base64_letter (a % 4 * 16) ∷ b'=' ∷ b'=' ∷ []
btoa (a ∷ b ∷ []) =
    base64_letter (a / 4)
    ∷ base64_letter (a % 4 * 16 + b / 16)
    ∷ base64_letter (b % 16 * 4)
    ∷ b'='
    ∷ []
btoa (a ∷ b ∷ c ∷ rest) =
    base64_letter (a / 4)
    ∷ base64_letter (a % 4 * 16 + b / 16)
    ∷ base64_letter (b % 16 * 4 + c / 64)
    ∷ base64_letter (c % 64)
    ∷ btoa rest

unfoldable pub replace_all : ℕ → ℕ → List ℕ → List ℕ
replace_all old new = map λ c. if c == old then new else c

remove_all : ℕ → List ℕ → List ℕ
remove_all old [] = []
remove_all old (c ∷ cs) = let rest = remove_all old cs in if c == old then rest else c ∷ rest

-- `encodeBase64UrlNoPadding`.
unfoldable pub encode : List ℕ → List ℕ
unfolding btoa replace_all remove_all
encode bytes = remove_all b'=' (replace_all b'/' b'_' (replace_all b'+' b'-' (btoa bytes)))

-- `BASE64URL_REVERSE.get(character)`.
unfoldable reverse_letter : ℕ → Option ℕ
reverse_letter c =
    if between b'A' b'Z' c
    then some (c - b'A')
    else if between b'a' b'z' c
    then some (c - b'a' + 26)
    else if between b'0' b'9' c
    then some (c - b'0' + 52)
    else if c == b'-'
    then some 62
    else if c == b'_'
    then some 63
    else none

-- The loop from its state: the bits that no byte has taken, and their count. A value is below 64, so
-- that `(accumulated << 6) | value` is a sum, and what is kept is below 64, so that nothing is lost.
unfoldable decode_loop : ℕ → ℕ → List ℕ → Option (List ℕ)
decode_loop accumulated bit_count [] =
    if ltb 0 bit_count && not (accumulated == 0) then none else some []
decode_loop accumulated bit_count (c ∷ cs) = elim (reverse_letter c) [
  | none ↦ none
  | some value ↦
      let next = accumulated * 64 + value in
      if leb 8 (bit_count + 6)
      then (do
        let bits = bit_count + 6 - 8
        bytes ← decode_loop (next % 2 ^ bits) bits cs
        some ((next / 2 ^ bits % 256) ∷ bytes))
      else decode_loop next (bit_count + 6) cs
]

-- `decodeBase64UrlNoPadding`.
unfoldable pub decode : List ℕ → Option (List ℕ)
unfolding decode_loop reverse_letter
decode text = if length text % 4 == 1 then none else decode_loop 0 0 text
