-- ===== src/Relay/Credential.antt =====
-- packages/shared/src/relay-credential.ts: signed tokens. Keys, signatures, UTF-8 decoding and JSON
-- parsing are the platform's and are parameters; a token is the list of its UTF-16 units.
pub mod Compare
pub mod Verified
pub mod Sound
pub mod Samples
mod Tests
use octg.Common.{
  ℕ, ◌+◌, Bool, true, false, not, ◌||◌, Option, none, some, List, [], ◌∷◌, ◌++◌, length, ltb, leb,
  ◌==◌, if◌then◌else◌, same,
}
use Prim.Native.Nat.{bit_xor, bit_or}
use octg.Common.Encoding.{utf8, utf16}
use octg.Relay.Value.{◌>>=◌, ◌>>◌, Value, guard}
use octg.Relay.Messages.{RelayEnvironment, RelayContext, RelayGrantCredential}
use octg.Relay.Base64.{encode, decode}
use octg.Relay.Kinds.{TokenKind, context_token, grant_token, environment_text}
use octg.Relay.Canonical.{serialize_canonical_json}
use octg.Relay.Duplicates.{has_duplicate_json_keys}

-- What the module takes from the platform: `importKey`, `sign`, the fatal UTF-8 decoder and
-- `JSON.parse`, none where they throw.
pub record Platform : Type 1 where
  pub Key : Type 0
  pub import_key : List ℕ → Key
  pub sign : Key → List ℕ → List ℕ
  pub decode_utf8 : List ℕ → Option (List ℕ)
  pub parse_json : List ℕ → Option Value

-- The loop of `constantTimeBytesEqual` from its state: a byte out of range reads as 0.
unfoldable pub differences : ℕ → List ℕ → List ℕ → ℕ
differences d [] [] = d
differences d (a ∷ as_) (b ∷ bs) = differences (bit_or d (bit_xor a b)) as_ bs
differences d [] (b ∷ bs) = differences (bit_or d (bit_xor 0 b)) [] bs
differences d (a ∷ as_) [] = differences (bit_or d (bit_xor a 0)) as_ []

unfoldable pub constant_time_bytes_equal : List ℕ → List ℕ → Bool
unfolding differences
constant_time_bytes_equal a b = differences (bit_xor (length a) (length b)) a b == 0

-- `constantTimeHexEqual` on two texts' units, and the comparison of bearer secrets.
unfoldable pub constant_time_hex_equal : List ℕ → List ℕ → Bool
unfolding differences
constant_time_hex_equal expected presented =
    if length expected == length presented then differences 0 expected presented == 0 else false

unfoldable pub compare_relay_bearer_constant_time : List ℕ → List ℕ → Bool
unfolding constant_time_bytes_equal
compare_relay_bearer_constant_time expected presented =
    constant_time_bytes_equal (utf8 expected) (utf8 presented)

-- `decodeRelayContextHmacKey`.
unfoldable pub decode_relay_context_hmac_key : List ℕ → Option (List ℕ)
unfolding decode
decode_relay_context_hmac_key encoded = do
  decoded ← decode encoded
  if length decoded == 32 then some decoded else none

-- The input of the signature: purpose, a zero byte, payload.
unfoldable pub mac_input : List ℕ → List ℕ → List ℕ
mac_input purpose payload = purpose ++ (0 ∷ payload)

-- `token.split(".")`.
unfoldable pub join_first : ℕ → List (List ℕ) → List (List ℕ)
join_first c [] = (c ∷ []) ∷ []
join_first c (p ∷ ps) = (c ∷ p) ∷ ps

unfoldable pub split_dot : List ℕ → List (List ℕ)
unfolding join_first
split_dot [] = [] ∷ []
split_dot (c ∷ cs) = let rest = split_dot cs in if c == b'.' then [] ∷ rest else join_first c rest

abbrev pub relay_max_context_header_bytes : ℕ
relay_max_context_header_bytes = 4096

-- Both parts with text, and no third one.
unfoldable pub two_parts : List (List ℕ) → Option (List ℕ × List ℕ)
two_parts (p ∷ m ∷ []) = if (length p == 0) || (length m == 0) then none else some (p, m)
two_parts _ = none

unfoldable pub token_parts : List ℕ → Option (List ℕ × List ℕ)
token_parts token =
    if ltb relay_max_context_header_bytes (length token) then none else two_parts (split_dot token)

-- The claims are of the environment that is expected, issued by now and not expired.
unfoldable pub is_current : RelayEnvironment → RelayEnvironment → ℕ → ℕ → ℕ → Bool
unfolding environment_text
is_current environment expected issued expires now =
    if same (environment_text environment) (environment_text expected)
    then (if ltb now issued || leb expires now then false else true)
    else false

module _ (platform : Platform) where
  -- `relayMacKeyCacheEntry`: the bytes of the last key, and the key that they gave.
  abbrev pub Cache : Type 0
  Cache = Option (List ℕ × platform.Key)

  unfoldable pub relay_mac_key : List ℕ → Cache → platform.Key × Cache
  relay_mac_key key none = (platform.import_key key, some (key, platform.import_key key))
  relay_mac_key key (some entry) =
      if constant_time_bytes_equal entry.0 key
      then (entry.1, some entry)
      else (platform.import_key key, some (key, platform.import_key key))

  unfoldable pub compute_relay_mac : List ℕ → List ℕ → List ℕ → Cache → List ℕ × Cache
  compute_relay_mac key purpose payload cache =
      let found = relay_mac_key key cache in
      (platform.sign found.0 (mac_input purpose payload), found.1)

  -- `signRelayToken`; no token where the claims have no canonical form.
  unfoldable pub sign_relay_token :
      {T : Type 0} → TokenKind T → T → List ℕ → Cache → Option (List ℕ × Cache)
  sign_relay_token kind claims key cache = do
    text ← serialize_canonical_json (kind.claims_value claims)
    let mac = compute_relay_mac key kind.purpose (utf8 text) cache
    some (encode (utf8 text) ++ (b'.' ∷ encode mac.0), mac.1)

  -- From a signed payload to its value: strict text, and no key twice.
  unfoldable pub strict_json : List ℕ → Option Value
  strict_json payload = do
    text ← platform.decode_utf8 payload
    duplicate ← has_duplicate_json_keys (utf16 text)
    guard (not duplicate)
    platform.parse_json text

  -- The claims, where their canonical form is the payload itself.
  unfoldable pub accept_claims : {T : Type 0} → TokenKind T → List ℕ → T → Option T
  accept_claims kind payload claims = do
    canonical ← serialize_canonical_json (kind.claims_value claims)
    guard (constant_time_bytes_equal (utf8 canonical) payload)
    some claims

  unfoldable pub claims_of : {T : Type 0} → TokenKind T → List ℕ → Option T
  claims_of kind payload = do
    parsed ← strict_json payload
    claims ← kind.parse_claims parsed
    accept_claims kind payload claims

  -- `verifyRelayToken`, with the cache that it leaves.
  unfoldable pub verify_relay_token :
      {T : Type 0} → TokenKind T → List ℕ → List ℕ → Cache → Option T × Cache
  verify_relay_token kind token key cache = elim (token_parts token) [
    | none ↦ (none, cache)
    | some (p, m) ↦ elim (decode p) [
      | none ↦ (none, cache)
      | some payload ↦ elim (decode m) [
        | none ↦ (none, cache)
        | some presented ↦
            let mac = compute_relay_mac key kind.purpose payload cache in
            if constant_time_bytes_equal mac.0 presented
            then (claims_of kind payload, mac.1)
            else (none, mac.1)
      ]
    ]
  ]

  -- `verifyRelayContext` and `verifyRelayGrantCredential`.
  unfoldable pub verify_relay_context :
      List ℕ → List ℕ → RelayEnvironment → ℕ → Cache → Option RelayContext × Cache
  unfolding verify_relay_token is_current
  verify_relay_context token key expected now cache =
      let verified = verify_relay_token context_token token key cache in
      elim verified.0 [
        | none ↦ (none, verified.1)
        | some c ↦
            if is_current c.environment expected c.issued_at_ms c.expires_at_ms now
            then (some c, verified.1)
            else (none, verified.1)
      ]

  unfoldable pub verify_relay_grant_credential :
      List ℕ → List ℕ → RelayEnvironment → ℕ → Cache → Option RelayGrantCredential × Cache
  unfolding verify_relay_token is_current
  verify_relay_grant_credential token key expected now cache =
      let verified = verify_relay_token grant_token token key cache in
      elim verified.0 [
        | none ↦ (none, verified.1)
        | some c ↦
            if is_current c.environment expected c.issued_at_ms c.expires_at_ms now
            then (some c, verified.1)
            else (none, verified.1)
      ]
