-- ===== src/Relay/Duplicates/Fuel.antt =====
-- The scan ends: its length is enough fuel for every text.
use octg.Common.{
  ℕ, zero, suc, ◌≤◌, ◌<◌, ◌≡◌, refl, sym, subst, ◌⊎◌, true, false, none, some, List, [], ◌∷◌,
  length, ◌==◌, arith, is_some, Option-cases, inl, inr, Bool-cases,
}
use octg.Relay.Duplicates.{
  Token, token, malformed, stuck, KeyStack, escape, unicode_escape, push, decode_json_string,
  note_key, bracket, scan, has_duplicate_json_keys,
}

unicode_escape-length :
    (cs : List ℕ) (e : ℕ × List ℕ) → unicode_escape cs ≡ some e → length e.1 < length cs
unfolding unicode_escape
unicode_escape-length (a ∷ b ∷ c ∷ d ∷ rest) e h = ground arith
unicode_escape-length [] e h = ground arith
unicode_escape-length (a ∷ []) e h = ground arith
unicode_escape-length (a ∷ b ∷ []) e h = ground arith
unicode_escape-length (a ∷ b ∷ c ∷ []) e h = ground arith

escape-length : (cs : List ℕ) (e : ℕ × List ℕ) → escape cs ≡ some e → length e.1 < length cs
unfolding escape
escape-length [] e h = ground arith
escape-length (c ∷ cs) e h = ground (arith, unicode_escape-length cs e)

-- A token's end is a proper part of the text, and the loop has the fuel to find it.
abbrev Ends : ℕ → Token → Type 0
Ends n (token value rest) = length rest < n
Ends n malformed = Unit
Ends n stuck = ⊥

Ends-push : (n m u : ℕ) (t : Token) → n ≤ m → Ends n t → Ends m (push u t)
unfolding push
Ends-push n m u (token value rest) le h = omega (arith, h)
Ends-push n m u malformed le h = tt
Ends-push n m u stuck le h = elim h [ ]

-- The step of the loop at a unit.
module _ (fuel c : ℕ) (cs : List ℕ) where
  decode_quote : (c == b'"') ≡ true → decode_json_string (suc fuel) (c ∷ cs) ≡ token [] cs
  unfolding decode_json_string
  decode_quote q = ground arith

  decode_plain :
      (c == b'"') ≡ false
      → (c == b'\\') ≡ false
      → decode_json_string (suc fuel) (c ∷ cs) ≡ push c (decode_json_string fuel cs)
  unfolding decode_json_string
  decode_plain q r = ground arith

  decode_malformed :
      (c == b'\\') ≡ true → escape cs ≡ none → decode_json_string (suc fuel) (c ∷ cs) ≡ malformed
  unfolding decode_json_string
  decode_malformed q r = ground arith

  decode_escape :
      (c == b'\\') ≡ true
      → (e : ℕ × List ℕ) → escape cs ≡ some e
      → decode_json_string (suc fuel) (c ∷ cs) ≡ push e.0 (decode_json_string fuel e.1)
  unfolding decode_json_string
  decode_escape q e r = ground arith

pub decode-Ends :
    (fuel : ℕ) (cs : List ℕ)
    → length cs ≤ fuel
    → Ends (suc (length cs)) (decode_json_string fuel cs)
unfolding decode_json_string
decode-Ends fuel [] h = tt
decode-Ends zero (c ∷ cs) h = absurd (omega arith)
decode-Ends (suc fuel) (c ∷ cs) h = elim (Bool-cases (c == b'"')) [
  | inl q ↦ subst (Ends _) (sym (decode_quote fuel c cs q)) (omega arith)
  | inr q ↦ elim (Bool-cases (c == b'\\')) [
    | inr r ↦
        subst (Ends _) (sym (decode_plain fuel c cs q r))
          (Ends-push _ _ c _ (omega arith) (decode-Ends fuel cs (omega arith)))
    | inl r ↦ elim (Option-cases (escape cs)) [
      | inl n ↦ subst (Ends _) (sym (decode_malformed fuel c cs r n)) tt
      | inr (e, n) ↦
          let shorter = escape-length cs e n in
          subst (Ends _) (sym (decode_escape fuel c cs r e n))
            (Ends-push _ _ e.0 _ (omega arith) (decode-Ends fuel e.1 (omega arith)))
    ]
  ]
]

-- With the fuel that the scan gives it, the loop over a string ends.
token_or_malformed :
    (cs : List ℕ)
    → (decode_json_string (length cs) cs ≡ malformed)
      ⊎ ((v r : List ℕ) × (decode_json_string (length cs) cs ≡ token v r) × (length r ≤ length cs))
token_or_malformed cs =
    go (decode_json_string (length cs) cs) refl (decode-Ends (length cs) cs (omega arith))
  where
    go :
        (t : Token)
        → decode_json_string (length cs) cs ≡ t
        → Ends (suc (length cs)) t
        → (decode_json_string (length cs) cs ≡ malformed)
          ⊎ ((v r : List ℕ) × (decode_json_string (length cs) cs ≡ token v r)
              × (length r ≤ length cs))
    go (token v r) e h = inr (v, r, e, omega (arith, h))
    go malformed e h = inl e
    go stuck e h = elim h [ ]

-- The scan of a text ends on any fuel from its length on.
scan_ends :
    (fuel : ℕ) (stack : KeyStack) (text : List ℕ)
    → length text ≤ fuel
    → is_some (scan fuel stack text) ≡ true
unfolding scan
scan_ends fuel stack [] h = refl
scan_ends zero stack (c ∷ cs) h = absurd (omega arith)
scan_ends (suc fuel) stack (c ∷ cs) h = elim (Bool-cases (c == b'"')) [
  | inr q ↦ ground (arith, scan_ends fuel (bracket c stack) cs)
  | inl q ↦ elim (token_or_malformed cs) [
    | inl m ↦ ground arith
    | inr (v, r, e, le) ↦ elim (Option-cases (note_key v r stack)) [
      | inl n ↦ ground arith
      | inr (s, n) ↦ ground (arith, scan_ends fuel s r)
    ]
  ]
]

-- The scan answers for every text: the length of the text is enough fuel for both of its loops.
pub has_duplicate_json_keys_ends : (text : List ℕ) → is_some (has_duplicate_json_keys text) ≡ true
unfolding has_duplicate_json_keys
has_duplicate_json_keys_ends text = scan_ends (length text) [] text (omega arith)
