-- ===== src/Relay/Credential/Verified.antt =====
-- A token that is verified is the token that signing its claims gives.
use octg.Common.{
  ℕ, ◌≡◌, refl, sym, ap, subst, ◌∙◌, none, some, List, [], ◌∷◌, ◌++◌, ◌==◌, arith, Option-cases,
  Bool-cases, inl, inr,
}
use octg.Common.Encoding.{utf8}
use octg.Relay.Value.{Value, ◌>>=◌}
use octg.Relay.Base64.{encode, decode}
use octg.Relay.Base64.Canonical.{encode-decode}
use octg.Relay.Canonical.{serialize_canonical_json}
use octg.Relay.Kinds.{TokenKind}
use octg.Relay.Credential.{
  Platform, Cache, split_dot, join_first, token_parts, two_parts, relay_mac_key, compute_relay_mac,
  mac_input, sign_relay_token, strict_json, accept_claims, claims_of, verify_relay_token,
  constant_time_bytes_equal,
}
use octg.Relay.Credential.Compare.{constant_time_bytes_equal_sound}

-- Parts with a dot between them.
join_dot : List (List ℕ) → List ℕ
join_dot [] = []
join_dot (p ∷ []) = p
join_dot (p ∷ q ∷ ps) = p ++ (b'.' ∷ join_dot (q ∷ ps))

join_dot-join_first : (c : ℕ) (ps : List (List ℕ)) → join_dot (join_first c ps) ≡ c ∷ join_dot ps
unfolding join_dot join_first
join_dot-join_first c [] = refl
join_dot-join_first c (p ∷ []) = refl
join_dot-join_first c (p ∷ q ∷ ps) = refl

split_dot-one_part : (t : List ℕ) → (p : List ℕ) × (ps : List (List ℕ)) × (split_dot t ≡ p ∷ ps)
unfolding split_dot join_first
split_dot-one_part [] = ([], [], refl)
split_dot-one_part (c ∷ cs) =
    let (p, ps, e) = split_dot-one_part cs in
    elim (Bool-cases (c == b'.')) [
      | inl q ↦ ([], split_dot cs, ground arith)
      | inr q ↦ (c ∷ p, ps, ground arith)
    ]

join_dot-dot :
    (ps : List (List ℕ)) (q : List ℕ) (qs : List (List ℕ))
    → ps ≡ q ∷ qs
    → join_dot ([] ∷ ps) ≡ b'.' ∷ join_dot ps
unfolding join_dot
join_dot-dot [] q qs e = ground arith
join_dot-dot (p ∷ ps) q qs e = refl

join_dot-split_dot : (t : List ℕ) → join_dot (split_dot t) ≡ t
unfolding split_dot join_dot
join_dot-split_dot [] = refl
join_dot-split_dot (c ∷ cs) =
    let (p, ps, e) = split_dot-one_part cs in
    elim (Bool-cases (c == b'.')) [
      | inl q ↦ ground (arith, join_dot-dot (split_dot cs) p ps e, join_dot-split_dot cs)
      | inr q ↦ ground (arith, join_dot-join_first c (split_dot cs), join_dot-split_dot cs)
    ]

two_parts-join :
    (ps : List (List ℕ)) (parts : List ℕ × List ℕ)
    → two_parts ps ≡ some parts
    → join_dot ps ≡ parts.0 ++ (b'.' ∷ parts.1)
unfolding two_parts join_dot
two_parts-join [] parts h = ground arith
two_parts-join (p ∷ []) parts h = ground arith
two_parts-join (p ∷ m ∷ []) parts h = ground arith
two_parts-join (p ∷ m ∷ q ∷ ps) parts h = ground arith

-- Two parts, joined by the dot, are the token.
token_parts-join :
    (t : List ℕ) (parts : List ℕ × List ℕ)
    → token_parts t ≡ some parts
    → t ≡ parts.0 ++ (b'.' ∷ parts.1)
unfolding token_parts
token_parts-join t parts h =
    sym (join_dot-split_dot t) ∙ two_parts-join (split_dot t) parts (ground arith)

module _ (platform : Platform) where
  -- The cache holds the key that its bytes give.
  abbrev pub IsFresh : Cache platform → Type 0
  IsFresh none = Unit
  IsFresh (some entry) = entry.1 ≡ platform.import_key entry.0

  -- Whatever a fresh cache holds, the key is the one that the bytes give, and the cache stays fresh.
  pub relay_mac_key_lem :
      (key : List ℕ) (cache : Cache platform)
      → IsFresh cache
      → ((relay_mac_key platform key cache).0 ≡ platform.import_key key)
        × IsFresh (relay_mac_key platform key cache).1
  unfolding relay_mac_key
  relay_mac_key_lem key none h = (refl, refl)
  relay_mac_key_lem key (some entry) h = elim (Bool-cases (constant_time_bytes_equal entry.0 key)) [
    | inl q ↦ rw (q) (h ∙ ap platform.import_key (constant_time_bytes_equal_sound entry.0 key q), h)
    | inr q ↦ rw (q) (refl, refl)
  ]

  -- The signature under a key, whatever a fresh cache holds.
  abbrev mac_of : List ℕ → List ℕ → List ℕ → List ℕ
  mac_of key purpose payload = platform.sign (platform.import_key key) (mac_input purpose payload)

  compute_relay_mac_lem :
      (key purpose payload : List ℕ) (cache : Cache platform)
      → IsFresh cache
      → (compute_relay_mac platform key purpose payload cache).0 ≡ mac_of key purpose payload
  unfolding compute_relay_mac
  compute_relay_mac_lem key purpose payload cache h =
      ap (λ k. platform.sign k (mac_input purpose payload)) (relay_mac_key_lem key cache h).0

  module _ {T : Type 0} (kind : TokenKind T) where
    -- Claims that are accepted were the ones parsed, and the payload is their canonical form.
    accept_claims-canonical :
        (payload : List ℕ) (parsed claims : T)
        → accept_claims platform kind payload parsed ≡ some claims
        → (text : List ℕ) × (serialize_canonical_json (kind.claims_value claims) ≡ some text)
          × (utf8 text ≡ payload)
          × (parsed ≡ claims)
    unfolding accept_claims
    accept_claims-canonical payload parsed claims h =
        elim (Option-cases (serialize_canonical_json (kind.claims_value parsed))) [
          | inl n ↦ ground arith
          | inr (text, e) ↦ elim (Bool-cases (constant_time_bytes_equal (utf8 text) payload)) [
            | inr q ↦ ground arith
            | inl q ↦
                let same_claims : parsed ≡ claims = ground arith in
                (
                  text,
                  subst (λ c. serialize_canonical_json (kind.claims_value c) ≡ some text)
                      same_claims e,
                  constant_time_bytes_equal_sound _ _ q,
                  same_claims,
                )
          ]
        ]

    claims_of-canonical :
        (payload : List ℕ) (claims : T)
        → claims_of platform kind payload ≡ some claims
        → (text : List ℕ) × (serialize_canonical_json (kind.claims_value claims) ≡ some text)
          × (utf8 text ≡ payload)
          × ((v : Value) × (kind.parse_claims v ≡ some claims))
    unfolding claims_of
    claims_of-canonical payload claims h = elim (Option-cases (strict_json platform payload)) [
      | inl n ↦ ground arith
      | inr (v, e) ↦ elim (Option-cases (kind.parse_claims v)) [
        | inl n ↦ ground arith
        | inr (parsed, p) ↦
            let (text, s, u, eq) = accept_claims-canonical payload parsed claims (ground arith) in
            (text, s, u, (v, p ∙ ap (λ c. some c) eq))
      ]
    ]

    -- The guards that a verified token has passed.
    verified_parts :
        (token key : List ℕ) (cache : Cache platform) (claims : T)
        → (verify_relay_token platform kind token key cache).0 ≡ some claims
        → (parts : List ℕ × List ℕ) × (payload presented : List ℕ) × (token_parts token
            ≡ some parts)
          × (decode parts.0 ≡ some payload)
          × (decode parts.1 ≡ some presented)
          × ((compute_relay_mac platform key kind.purpose payload cache).0 ≡ presented)
          × (claims_of platform kind payload ≡ some claims)
    unfolding verify_relay_token
    verified_parts token key cache claims h = elim (Option-cases (token_parts token)) [
      | inl n ↦ ground arith
      | inr (parts, e) ↦ elim (Option-cases (decode parts.0)) [
        | inl n ↦ ground arith
        | inr (payload, f) ↦ elim (Option-cases (decode parts.1)) [
          | inl n ↦ ground arith
          | inr (presented, g) ↦
              elim (Bool-cases (
                constant_time_bytes_equal
                  (compute_relay_mac platform key kind.purpose payload cache).0 presented)) [
                    | inr q ↦ ground arith
                    | inl q ↦ (
                      parts,
                      payload,
                      presented,
                      e,
                      f,
                      g,
                      constant_time_bytes_equal_sound _ _ q,
                      ground arith,
                    )
                  ]
        ]
      ]
    ]

    -- What a verified token is: the token that its claims give when they are signed with the key.
    pub verified_token :
        (token key : List ℕ) (cache later : Cache platform) (claims : T)
        → IsFresh cache
        → IsFresh later
        → (verify_relay_token platform kind token key cache).0 ≡ some claims
        → ((sign_relay_token platform kind claims key later >>= λ r. some (r.0)) ≡ some token)
          × ((v : Value) × (kind.parse_claims v ≡ some claims))
    unfolding sign_relay_token
    verified_token token key cache later claims fresh fresh_later h =
        let (parts, payload, presented, e, f, g, m, c) = verified_parts token key cache claims h in
        let (text, s, u, parsed) = claims_of-canonical payload claims c in
        let first = (encode-decode parts.0 payload f).0 in
        let second = (encode-decode parts.1 presented g).0 in
        let whole = token_parts-join token parts e in
        let mac = compute_relay_mac_lem key kind.purpose payload cache fresh in
        let mac_later = compute_relay_mac_lem key kind.purpose (utf8 text) later fresh_later in
        (
          rw (s, mac_later, u, first)
              (ap some
                (ap (λ t. parts.0 ++ (46 ∷ t)) (ap encode (sym mac ∙ m) ∙ second) ∙ sym whole)),
          parsed,
        )
