-- ===== src/Relay/Routing/Timestamp.antt =====
-- The time in a request id is what its ten characters are the numeral of, in base 32.
use octg.Common.{
  ℕ, zero, suc, ◌+◌, ◌-◌, ◌*◌, ◌^◌, ◌/◌, ◌%◌, ◌≤◌, ◌<◌, ◌≡◌, ◌∙◌, refl, sym, ap, subst, String,
  Bool, true, false, Option, none, some, List, [], ◌∷◌, ◌++◌, length, arith, inl, inr, Option-cases,
  Bool-cases, codes, matches, fits, Pattern, ◌==◌, ◌&&◌,
}
use mathlib.Core.List.{append_assoc, append-nil}
use octg.Relay.Messages.{relay_request_id_pattern}
use octg.Relay.Routing.{
  position, crockford_index, timestamp_loop, take, drop, encoded_timestamp, first_digit_fits,
  timestamp_of,
}

letter_at : ℕ → List ℕ → ℕ
letter_at n [] = 0
letter_at zero (c ∷ cs) = c
letter_at (suc n) (c ∷ cs) = letter_at n cs

-- The letter of a digit below 32.
unfoldable pub letter : ℕ → ℕ
unfolding letter_at codes
letter digit = letter_at digit (codes "0123456789ABCDEFGHJKMNPQRSTVWXYZ")

-- The last `n` digits of a number in base 32.
unfoldable pub time_text : ℕ → ℕ → List ℕ
time_text zero t = []
time_text (suc n) t = time_text n (t / 32) ++ letter (t % 32) ∷ []

position-letter_at :
    (i c : ℕ) (cs : List ℕ) (k : ℕ)
    → position i c cs ≡ some k
    → (j : ℕ) × (k ≡ i + j) × (j < length cs) × (letter_at j cs ≡ c)
unfolding position letter_at
position-letter_at i c [] k h = absurd (ground arith)
position-letter_at i c (d ∷ ds) k h = elim (Bool-cases (c == d)) [
  | inl q ↦ (0, ground arith, omega arith, ground arith)
  | inr q ↦
      let (j, e, low, at) = position-letter_at (i + 1) c ds k (ground arith) in
      (suc j, omega (arith, e), omega (arith, low), at)
]

letter-crockford_index : (c k : ℕ) → crockford_index c ≡ some k → (k < 32) × (letter k ≡ c)
unfolding crockford_index letter
letter-crockford_index c k h =
    let (j, e, low, at) = position-letter_at 0 c (codes "0123456789ABCDEFGHJKMNPQRSTVWXYZ") k h in
    let same : k ≡ j = omega (arith, e) in
    (
      omega (arith, same, low),
      ap (λ n. letter_at n (codes "0123456789ABCDEFGHJKMNPQRSTVWXYZ")) same ∙ at,
    )

time_text-suc :
    (n acc k c : ℕ)
    → k < 32
    → letter k ≡ c
    → time_text (suc n) (acc * 32 + k) ≡ time_text n acc ++ c ∷ []
unfolding time_text
time_text-suc n acc k c low at =
    let front : (acc * 32 + k) / 32 ≡ acc = omega (arith, low) in
    let digit : (acc * 32 + k) % 32 ≡ k = omega (arith, low) in rw (front, digit, at) refl

-- A loop from a state that is the numeral of what was read ends at the numeral of the whole.
time_text-timestamp_loop :
    (cs : List ℕ) (n acc t : ℕ)
    → timestamp_loop acc cs ≡ some t
    → time_text (n + length cs) t ≡ time_text n acc ++ cs
unfolding timestamp_loop
time_text-timestamp_loop [] n acc t h =
    let ended : acc ≡ t = ground arith in
    let none_left : n + 0 ≡ n = omega arith in
    rw (none_left, sym ended) (sym (append-nil (time_text n acc)))
time_text-timestamp_loop (c ∷ cs) n acc t h = elim (Option-cases (crockford_index c)) [
  | inl q ↦ absurd (ground arith)
  | inr (k, e) ↦
      let (low, at) = letter-crockford_index c k e in
      let count : n + suc (length cs) ≡ suc n + length cs = omega arith in
      let rest = time_text-timestamp_loop cs (suc n) (acc * 32 + k) t (ground arith) in
      ap (λ m. time_text m t) count
      ∙ rest
      ∙ ap (λ xs. xs ++ cs) (time_text-suc n acc k c low at)
      ∙ append_assoc (time_text n acc) (c ∷ []) cs
]

-- The time of a request id: its ten characters are the numeral of the time, which has 48 bits.
pub record Carries (request_id : String) (t : ℕ) : Type 0 where
  pub well_formed : matches relay_request_id_pattern request_id ≡ true
  pub characters : encoded_timestamp request_id ≡ time_text 10 t
  pub bits : t < 2 ^ 48

-- A text that fits a pattern is as long as it.
length-fits : (ps : Pattern) (cs : List ℕ) → fits ps cs ≡ true → length cs ≡ length ps
unfolding fits
length-fits [] [] h = refl
length-fits (p ∷ ps) (c ∷ cs) h = ground (arith, length-fits ps cs)
length-fits [] (c ∷ cs) h = absurd (ground arith)
length-fits (p ∷ ps) [] h = absurd (ground arith)

length-take : (n : ℕ) (cs : List ℕ) → n ≤ length cs → length (take n cs) ≡ n
unfolding take
length-take zero cs h = refl
length-take (suc n) [] h = absurd (omega arith)
length-take (suc n) (c ∷ cs) h = ap suc (length-take n cs (omega arith))

length-drop : (n : ℕ) (cs : List ℕ) → length (drop n cs) ≡ length cs - n
unfolding drop
length-drop zero cs = omega arith
length-drop (suc n) [] = omega arith
length-drop (suc n) (c ∷ cs) = omega (arith, length-drop n cs)

length-encoded_timestamp :
    (request_id : String)
    → matches relay_request_id_pattern request_id ≡ true
    → length (encoded_timestamp request_id) ≡ 10
unfolding matches encoded_timestamp relay_request_id_pattern
length-encoded_timestamp request_id h =
    let thirty : length (codes request_id) ≡ 30 =
      length-fits relay_request_id_pattern (codes request_id) h in
    let rest = length-drop 4 (codes request_id) in
    length-take 10 (drop 4 (codes request_id)) (omega (arith, thirty, rest))

first_digit_fits-same : (cs ds : List ℕ) → first_digit_fits cs ≡ some ds → cs ≡ ds
unfolding first_digit_fits
first_digit_fits-same [] ds h = absurd (ground arith)
first_digit_fits-same (c ∷ cs) ds h = ground arith

-- What the id carries is read from it.
pub timestamp_of-Carries :
    (request_id : String) (t : ℕ) → timestamp_of request_id ≡ some t → Carries request_id t
unfolding timestamp_of time_text
timestamp_of-Carries request_id t h =
    elim (Bool-cases (matches relay_request_id_pattern request_id)) [
      | inr q ↦ absurd (ground arith)
      | inl q ↦ elim (Option-cases (first_digit_fits (encoded_timestamp request_id))) [
        | inl n ↦ absurd (ground arith)
        | inr (cs, e) ↦ elim (Option-cases (timestamp_loop 0 cs)) [
          | inl n ↦ absurd (ground arith)
          | inr (u, f) ↦
              let same_time : u ≡ t = ground arith in
              let characters = first_digit_fits-same (encoded_timestamp request_id) cs e in
              let ten : length cs ≡ 10 =
                ap length (sym characters) ∙ length-encoded_timestamp request_id q in
              let all_ten : 0 + length cs ≡ 10 = omega (arith, ten) in
              let numeral = time_text-timestamp_loop cs 0 0 u f in
              record {
                well_formed = q;
                characters =
                    characters
                    ∙ sym numeral
                    ∙ ap (λ n. time_text n u) all_ten
                    ∙ ap (time_text 10) same_time;
                bits = ground arith;
              }
        ]
      ]
    ]

-- Every letter of the alphabet stands at its digit.
stands : ℕ → Option ℕ → Bool
stands n none = false
stands n (some k) = k == n

all_stand : ℕ → Bool
unfolding stands
all_stand zero = true
all_stand (suc n) = stands n (crockford_index (letter n)) && all_stand n

all_stand-below : (m k : ℕ) → all_stand m ≡ true → k < m → crockford_index (letter k) ≡ some k
unfolding all_stand stands
all_stand-below zero k h low = absurd (omega arith)
all_stand-below (suc m) k h low =
    go (λ lower below. all_stand-below m k lower below) (crockford_index (letter m)) refl
  where
    go :
        (all_stand m ≡ true → k < m → crockford_index (letter k) ≡ some k)
        → (o : Option ℕ) → crockford_index (letter m) ≡ o
        → crockford_index (letter k) ≡ some k
    go before none e = absurd (ground arith)
    go before (some j) e =
        let both : (stands m (some j) && all_stand m) ≡ true =
          subst (λ o. (stands m o && all_stand m) ≡ true) e h in
        let is_here : j ≡ m = ground arith in
        elim (Bool-cases (k == m)) [
          | inl q ↦ ground arith
          | inr q ↦ before (ground arith) (ground arith)
        ]

crockford_index-letter : (k : ℕ) → k < 32 → crockford_index (letter k) ≡ some k
unfolding all_stand stands crockford_index letter
crockford_index-letter k low = all_stand-below 32 k refl low

timestamp_loop_snoc :
    (cs : List ℕ) (c acc a k : ℕ)
    → timestamp_loop acc cs ≡ some a
    → crockford_index c ≡ some k
    → timestamp_loop acc (cs ++ c ∷ []) ≡ some (a * 32 + k)
unfolding timestamp_loop
timestamp_loop_snoc [] c acc a k h e = ground arith
timestamp_loop_snoc (d ∷ ds) c acc a k h e = elim (Option-cases (crockford_index d)) [
  | inl n ↦ absurd (ground arith)
  | inr (j, f) ↦ ground (arith, timestamp_loop_snoc ds c (acc * 32 + j) a k)
]

timestamp_loop-time_text : (n t : ℕ) → t < 32 ^ n → timestamp_loop 0 (time_text n t) ≡ some t
unfolding time_text timestamp_loop
timestamp_loop-time_text zero t h = ground arith
timestamp_loop-time_text (suc n) t h =
    let low : t % 32 < 32 = omega arith in
    let rest = timestamp_loop-time_text n (t / 32) (ground arith) in
    let whole : t / 32 * 32 + t % 32 ≡ t = omega arith in
    timestamp_loop_snoc (time_text n (t / 32)) (letter (t % 32)) 0 (t / 32) (t % 32) rest
      (crockford_index-letter (t % 32) low)
    ∙ ap some whole

first_fits :
    (c k : ℕ) (cs : List ℕ)
    → crockford_index c ≡ some k
    → k < 8
    → first_digit_fits (c ∷ cs) ≡ some (c ∷ cs)
unfolding first_digit_fits
first_fits c k cs e low = ground arith

first_digit_fits-time_text :
    (t : ℕ) → t < 2 ^ 48 → first_digit_fits (time_text 10 t) ≡ some (time_text 10 t)
unfolding time_text
first_digit_fits-time_text t h =
    let first : ℕ = t / 32 / 32 / 32 / 32 / 32 / 32 / 32 / 32 / 32 % 32 in
    let low : first < 8 = omega (arith, h) in
    let at = crockford_index-letter first (omega (arith, low)) in
    first_fits (letter first) first _ at low

-- An id of the pattern whose characters are the numeral of a time of 48 bits is read to that time.
pub Carries-timestamp_of :
    (request_id : String) (t : ℕ) → Carries request_id t → timestamp_of request_id ≡ some t
unfolding timestamp_of
Carries-timestamp_of request_id t c =
    let fit = first_digit_fits-time_text t c.bits in
    let read = timestamp_loop-time_text 10 t (omega (arith, c.bits)) in
    rw (c.well_formed, c.characters, fit, read) (ground (arith, c.bits))
