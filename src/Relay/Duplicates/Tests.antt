-- ===== src/Relay/Duplicates/Tests.antt =====
-- The scan of two texts: an object that repeats a key under an escape, and one that is cut off.
use octg.Common.{ℕ, ◌≡◌, refl, true, false, some, List, [], ◌∷◌, is_some}
use octg.Relay.Duplicates.{has_duplicate_json_keys}
use octg.Relay.Duplicates.Fuel.{has_duplicate_json_keys_ends}

-- {"a":1,"\u0061":2}
abbrev repeated : List ℕ
repeated =
    b'{' ∷ b'"' ∷ b'a' ∷ b'"' ∷ b':' ∷ b'1' ∷ b',' ∷ b'"' ∷ b'\\' ∷ b'u' ∷ b'0' ∷ b'0' ∷ b'6' ∷ b'1'
    ∷ b'"' ∷ b':' ∷ b'2' ∷ b'}' ∷ []

has_duplicate_json_keys_test : has_duplicate_json_keys repeated ≡ some true
unfolding has_duplicate_json_keys
has_duplicate_json_keys_test = refl

cut_off_test : has_duplicate_json_keys (b'{' ∷ b'"' ∷ b'a' ∷ []) ≡ some false
unfolding has_duplicate_json_keys
cut_off_test = refl

has_duplicate_json_keys_ends_example : is_some (has_duplicate_json_keys repeated) ≡ true
has_duplicate_json_keys_ends_example = has_duplicate_json_keys_ends repeated
