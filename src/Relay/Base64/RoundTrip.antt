-- ===== src/Relay/Base64/RoundTrip.antt =====
-- Bytes that are encoded and decoded.
use octg.Common.{
  ℕ, ◌+◌, ◌*◌, ◌/◌, ◌%◌, ◌<◌, ◌≡◌, ◌∙◌, refl, some, false, List, [], ◌∷◌, arith, All, ◌==◌, length,
}
use octg.Relay.Base64.{encode, decode, decode_loop}
use octg.Relay.Base64.Letters.{
  reverse-url_letter, encode-one, encode-two, encode-three, decode_two, decode_three, decode_four,
  IsByte,
}

-- The loop of the decoder takes back what the encoder wrote.
loop-encode_one : (a : ℕ) → a < 256 → decode_loop 0 0 (encode (a ∷ [])) ≡ some (a ∷ [])
loop-encode_one a h = rw (encode-one a h) (
    decode_two _ _ (a / 4) (a % 4 * 16) (reverse-url_letter (a / 4) (omega arith))
      (reverse-url_letter (a % 4 * 16) (omega arith)) (omega arith) (omega arith)
    ∙ ground arith)

loop-encode_two :
    (a b : ℕ) → a < 256 → b < 256 → decode_loop 0 0 (encode (a ∷ b ∷ [])) ≡ some (a ∷ b ∷ [])
loop-encode_two a b h k = rw (encode-two a b h k) (
    decode_three _ _ _ (a / 4) (a % 4 * 16 + b / 16) (b % 16 * 4)
      (reverse-url_letter (a / 4) (omega arith))
      (reverse-url_letter (a % 4 * 16 + b / 16) (omega arith))
      (reverse-url_letter (b % 16 * 4) (omega arith)) (omega arith) (omega arith) (omega arith)
    ∙ ground arith)

loop-encode_three :
    (a b c : ℕ) (rest : List ℕ)
    → a < 256
    → b < 256
    → c < 256
    → decode_loop 0 0 (encode rest) ≡ some rest
    → decode_loop 0 0 (encode (a ∷ b ∷ c ∷ rest)) ≡ some (a ∷ b ∷ c ∷ rest)
loop-encode_three a b c rest ha hb hc ih = rw (encode-three a b c rest ha hb hc) (
    decode_four _ _ _ _ (a / 4) (a % 4 * 16 + b / 16) (b % 16 * 4 + c / 64) (c % 64) (encode rest)
      (reverse-url_letter (a / 4) (omega arith))
      (reverse-url_letter (a % 4 * 16 + b / 16) (omega arith))
      (reverse-url_letter (b % 16 * 4 + c / 64) (omega arith))
      (reverse-url_letter (c % 64) (omega arith)) (omega arith) (omega arith) (omega arith)
      (omega arith)
    ∙ ground (arith, ih))

loop-encode : (bytes : List ℕ) → All IsByte bytes → decode_loop 0 0 (encode bytes) ≡ some bytes
unfolding encode decode_loop
loop-encode [] h = refl
loop-encode (a ∷ []) h = loop-encode_one a h.0
loop-encode (a ∷ b ∷ []) h = loop-encode_two a b h.0 h.1.0
loop-encode (a ∷ b ∷ c ∷ rest) h =
    loop-encode_three a b c rest h.0 h.1.0 h.1.1.0 (loop-encode rest h.1.1.1)

length-encode : (bytes : List ℕ) → All IsByte bytes → (length (encode bytes) % 4 == 1) ≡ false
unfolding encode
length-encode [] h = refl
length-encode (a ∷ []) h = rw (encode-one a h.0) refl
length-encode (a ∷ b ∷ []) h = rw (encode-two a b h.0 h.1.0) refl
length-encode (a ∷ b ∷ c ∷ rest) h =
    rw (encode-three a b c rest h.0 h.1.0 h.1.1.0) (ground (arith, length-encode rest h.1.1.1))

-- Decoding gives back the bytes that were encoded, each below 256.
pub decode-encode : (bytes : List ℕ) → All IsByte bytes → decode (encode bytes) ≡ some bytes
unfolding decode
decode-encode bytes h = rw (length-encode bytes h, loop-encode bytes h)
