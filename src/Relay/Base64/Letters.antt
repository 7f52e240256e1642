-- ===== src/Relay/Base64/Letters.antt =====
-- The letters of base64url, and what three bytes and four letters are to one another.
use octg.Common.{
  ℕ, ◌+◌, ◌*◌, ◌/◌, ◌%◌, ◌<◌, ◌≡◌, some, none, false, List, [], ◌∷◌, arith, ◌==◌, if◌then◌else◌,
}
use octg.Relay.Value.{◌>>=◌}
use octg.Relay.Base64.{
  encode, decode_loop, reverse_letter, btoa, base64_letter, replace_all, remove_all,
}

-- The letter of base64url.
abbrev pub url_letter : ℕ → ℕ
url_letter v =
    let l = base64_letter v in
    let m = if l == b'+' then b'-' else l in if m == b'/' then b'_' else m

pub reverse-url_letter : (v : ℕ) → v < 64 → reverse_letter (url_letter v) ≡ some v
unfolding reverse_letter base64_letter
reverse-url_letter v h = ground arith

pub url_letter-eq : (v : ℕ) → v < 64 → (url_letter v == b'=') ≡ false
unfolding base64_letter
url_letter-eq v h = ground arith

pub encode-three :
    (a b c : ℕ) (rest : List ℕ)
    → a < 256
    → b < 256
    → c < 256
    → encode (a ∷ b ∷ c ∷ rest)
      ≡ url_letter (a / 4)
        ∷ url_letter (a % 4 * 16 + b / 16)
        ∷ url_letter (b % 16 * 4 + c / 64)
        ∷ url_letter (c % 64)
        ∷ encode rest
unfolding encode btoa replace_all remove_all
encode-three a b c rest ha hb hc = rw (
  url_letter-eq (a / 4) (omega arith),
  url_letter-eq (a % 4 * 16 + b / 16) (omega arith),
  url_letter-eq (b % 16 * 4 + c / 64) (omega arith),
  url_letter-eq (c % 64) (omega arith),
)

-- From the empty state, four letters give three bytes and the empty state again.
pub decode_four :
    (c d e f u v w x : ℕ) (rest : List ℕ)
    → reverse_letter c ≡ some u
    → reverse_letter d ≡ some v
    → reverse_letter e ≡ some w
    → reverse_letter f ≡ some x
    → u < 64
    → v < 64
    → w < 64
    → x < 64
    → decode_loop 0 0 (c ∷ d ∷ e ∷ f ∷ rest) ≡ (
        decode_loop 0 0 rest >>= λ bytes.
        some ((u * 4 + v / 16) ∷ (v % 16 * 16 + w / 4) ∷ (w % 4 * 64 + x) ∷ bytes))
unfolding decode_loop
decode_four c d e f u v w x rest hc hd he hf hu hv hw hx = ground arith

pub decode_two :
    (c d u v : ℕ)
    → reverse_letter c ≡ some u
    → reverse_letter d ≡ some v
    → u < 64
    → v < 64
    → decode_loop 0 0 (c ∷ d ∷ []) ≡ (if v % 16 == 0 then some ((u * 4 + v / 16) ∷ []) else none)
unfolding decode_loop
decode_two c d u v hc hd hu hv = ground arith

pub decode_three :
    (c d e u v w : ℕ)
    → reverse_letter c ≡ some u
    → reverse_letter d ≡ some v
    → reverse_letter e ≡ some w
    → u < 64
    → v < 64
    → w < 64
    → decode_loop 0 0 (c ∷ d ∷ e ∷ [])
      ≡ (if w % 4 == 0 then some ((u * 4 + v / 16) ∷ (v % 16 * 16 + w / 4) ∷ []) else none)
unfolding decode_loop
decode_three c d e u v w hc hd he hu hv hw = ground arith

pub encode-one :
    (a : ℕ) → a < 256 → encode (a ∷ []) ≡ url_letter (a / 4) ∷ url_letter (a % 4 * 16) ∷ []
unfolding encode btoa replace_all remove_all
encode-one a ha = rw (url_letter-eq (a / 4) (omega arith), url_letter-eq (a % 4 * 16) (omega arith))

pub encode-two :
    (a b : ℕ)
    → a < 256
    → b < 256
    → encode (a ∷ b ∷ [])
      ≡ url_letter (a / 4) ∷ url_letter (a % 4 * 16 + b / 16) ∷ url_letter (b % 16 * 4) ∷ []
unfolding encode btoa replace_all remove_all
encode-two a b ha hb = rw (
  url_letter-eq (a / 4) (omega arith),
  url_letter-eq (a % 4 * 16 + b / 16) (omega arith),
  url_letter-eq (b % 16 * 4) (omega arith),
)

abbrev pub IsByte : ℕ → Type 0
IsByte b = b < 256

-- Only a letter's own value is read from it.
pub url_letter-reverse : (c v : ℕ) → reverse_letter c ≡ some v → (v < 64) × (url_letter v ≡ c)
unfolding reverse_letter base64_letter
url_letter-reverse c v h = ground arith
