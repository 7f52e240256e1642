-- ===== src/Relay/Credential/Samples.antt =====
-- A toy platform for runs: keys sign by a sum, and texts are ASCII.
use octg.Common.{ℕ, ◌+◌, ◌%◌, Option, none, some, List, [], ◌∷◌, ◌++◌}
use octg.Relay.Value.{Value}
use octg.Relay.Credential.{Platform}

unfoldable pub total : List ℕ → ℕ
total [] = 0
total (b ∷ bs) = b + total bs

abbrev pub or_empty : Option (List ℕ) → List ℕ
or_empty none = []
or_empty (some t) = t

-- The JSON texts that are known are an argument.
abbrev pub toy_platform : (List ℕ → Option Value) → Platform
toy_platform parse_json = record {
  Key = List ℕ;
  import_key = λ k. k;
  sign = λ k m. total (k ++ m) % 256 ∷ [];
  decode_utf8 = some;
  parse_json = parse_json;
}

abbrev pub toy_key : List ℕ
toy_key = 7 ∷ 11 ∷ []
