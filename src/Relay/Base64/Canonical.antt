-- ===== src/Relay/Base64/Canonical.antt =====
-- Texts that are decoded and encoded.
use octg.Common.{
  ℕ, ◌+◌, ◌*◌, ◌/◌, ◌%◌, ◌<◌, ◌≡◌, ◌∙◌, refl, sym, some, none, true, false, Option, List, [], ◌∷◌,
  arith, All, inl, inr, Option-cases, is_some, ◌==◌, length,
}
use octg.Relay.Base64.{encode, decode, decode_loop, reverse_letter}
use octg.Relay.Base64.Letters.{
  url_letter, url_letter-reverse, encode-one, encode-two, encode-three, decode_two, decode_three,
  decode_four, IsByte,
}

-- The arithmetic of the two directions.
module _ (u v w x : ℕ) (hu : u < 64) (hv : v < 64) (hw : w < 64) (hx : x < 64) where
  first_letter : (u * 4 + v / 16) / 4 ≡ u
  first_letter = omega arith

  second_letter : (u * 4 + v / 16) % 4 * 16 + (v % 16 * 16 + w / 4) / 16 ≡ v
  second_letter = omega arith

  third_letter : (v % 16 * 16 + w / 4) % 16 * 4 + (w % 4 * 64 + x) / 64 ≡ w
  third_letter = omega arith

  fourth_letter : (w % 4 * 64 + x) % 64 ≡ x
  fourth_letter = omega arith

  encode_four :
      (bs : List ℕ)
      → encode ((u * 4 + v / 16) ∷ (v % 16 * 16 + w / 4) ∷ (w % 4 * 64 + x) ∷ bs)
        ≡ url_letter u ∷ url_letter v ∷ url_letter w ∷ url_letter x ∷ encode bs
  encode_four bs =
      encode-three (u * 4 + v / 16) (v % 16 * 16 + w / 4) (w % 4 * 64 + x) bs (omega arith)
        (omega arith) (omega arith)
      ∙ rw (first_letter, second_letter, third_letter, fourth_letter)

-- What the decoder reads from a text, the encoder writes as that text.
abbrev Canonical : List ℕ → List ℕ → Type 0
Canonical text bytes = (encode bytes ≡ text) × All IsByte bytes

-- The text is read to the end, or a letter of the four has no value.
decode_four_letters :
    (c d e f : ℕ) (rest bytes : List ℕ)
    → decode_loop 0 0 (c ∷ d ∷ e ∷ f ∷ rest) ≡ some bytes
    → (is_some (reverse_letter c) ≡ true)
      × (is_some (reverse_letter d) ≡ true)
      × (is_some (reverse_letter e) ≡ true)
      × (is_some (reverse_letter f) ≡ true)
unfolding decode_loop
decode_four_letters c d e f rest bytes h = ground arith

is_some-some {ℓ} : {A : Type ℓ} (o : Option A) → is_some o ≡ true → (a : A) × (o ≡ some a)
is_some-some none h = ground arith
is_some-some (some a) h = (a, refl)

Canonical-four :
    (c d e f : ℕ) (rest bytes : List ℕ)
    → ((bs : List ℕ) → decode_loop 0 0 rest ≡ some bs → Canonical rest bs)
    → decode_loop 0 0 (c ∷ d ∷ e ∷ f ∷ rest) ≡ some bytes
    → Canonical (c ∷ d ∷ e ∷ f ∷ rest) bytes
Canonical-four c d e f rest bytes ih h =
    let known = decode_four_letters c d e f rest bytes h in
    let (u, hc) = is_some-some (reverse_letter c) known.0 in
    let (v, hd) = is_some-some (reverse_letter d) known.1 in
    let (w, he) = is_some-some (reverse_letter e) known.2 in
    let (x, hf) = is_some-some (reverse_letter f) known.3 in
    let (lu, eu) = url_letter-reverse c u hc in
    let (lv, ev) = url_letter-reverse d v hd in
    let (lw, ew) = url_letter-reverse e w he in
    let (lx, ex) = url_letter-reverse f x hf in
    let read = sym (decode_four c d e f u v w x rest hc hd he hf lu lv lw lx) ∙ h in
    elim (Option-cases (decode_loop 0 0 rest)) [
      | inl n ↦ ground (arith, read, n)
      | inr (bs, n) ↦
          ground (arith, read, n, encode_four u v w x lu lv lw lx bs, ih bs n, eu, ev, ew, ex)
    ]

Canonical-two :
    (c d : ℕ) (bytes : List ℕ)
    → decode_loop 0 0 (c ∷ d ∷ []) ≡ some bytes
    → Canonical (c ∷ d ∷ []) bytes
unfolding decode_loop
Canonical-two c d bytes h = elim (Option-cases (reverse_letter c)) [
  | inl n ↦ ground arith
  | inr (u, hc) ↦ elim (Option-cases (reverse_letter d)) [
    | inl n ↦ ground arith
    | inr (v, hd) ↦
        let (lu, eu) = url_letter-reverse c u hc in
        let (lv, ev) = url_letter-reverse d v hd in
        let read = sym (decode_two c d u v hc hd lu lv) ∙ h in
        ground (
          arith,
          read,
          encode-one (u * 4 + v / 16) (omega arith),
          first_letter u v 0 0 lu lv (omega arith) (omega arith),
          eu,
          ev,
        )
  ]
]

Canonical-three :
    (c d e : ℕ) (bytes : List ℕ)
    → decode_loop 0 0 (c ∷ d ∷ e ∷ []) ≡ some bytes
    → Canonical (c ∷ d ∷ e ∷ []) bytes
unfolding decode_loop
Canonical-three c d e bytes h = elim (Option-cases (reverse_letter c)) [
  | inl n ↦ ground arith
  | inr (u, hc) ↦ elim (Option-cases (reverse_letter d)) [
    | inl n ↦ ground arith
    | inr (v, hd) ↦ elim (Option-cases (reverse_letter e)) [
      | inl n ↦ ground arith
      | inr (w, he) ↦
          let (lu, eu) = url_letter-reverse c u hc in
          let (lv, ev) = url_letter-reverse d v hd in
          let (lw, ew) = url_letter-reverse e w he in
          let read = sym (decode_three c d e u v w hc hd he lu lv lw) ∙ h in
          ground (
            arith,
            read,
            encode-two (u * 4 + v / 16) (v % 16 * 16 + w / 4) (omega arith) (omega arith),
            first_letter u v w 0 lu lv lw (omega arith),
            second_letter u v w 0 lu lv lw (omega arith),
            eu,
            ev,
            ew,
          )
    ]
  ]
]

loop-Canonical :
    (text bytes : List ℕ)
    → (length text % 4 == 1) ≡ false
    → decode_loop 0 0 text ≡ some bytes
    → Canonical text bytes
unfolding encode decode_loop
loop-Canonical [] bytes n h = ground arith
loop-Canonical (c ∷ []) bytes n h = ground arith
loop-Canonical (c ∷ d ∷ []) bytes n h = Canonical-two c d bytes h
loop-Canonical (c ∷ d ∷ e ∷ []) bytes n h = Canonical-three c d e bytes h
loop-Canonical (c ∷ d ∷ e ∷ f ∷ rest) bytes n h =
    Canonical-four c d e f rest bytes (λ bs. loop-Canonical rest bs (ground arith)) h

-- A text that decodes is the encoding of its bytes, so that no other text decodes to them.
pub encode-decode :
    (text bytes : List ℕ) → decode text ≡ some bytes → (encode bytes ≡ text) × All IsByte bytes
unfolding decode
encode-decode text bytes h = loop-Canonical text bytes (ground arith) (ground arith)
