-- ===== src/Relay/Credential/Compare.antt =====
-- The comparisons in constant time decide equality.
use octg.Common.{ℕ, ◌≡◌, refl, ap, subst, ◌∙◌, ◌↔◌, true, List, [], ◌∷◌, length, arith}
use Prim.Native.Nat.{bit_xor, bit_or}
use octg.Common.Bits.{bit_xor-zero, bit_xor_self, bit_or-zero, bit_or_zero}
use octg.Relay.Credential.{differences, constant_time_bytes_equal}

differences-zero : (d : ℕ) (a b : List ℕ) → differences d a b ≡ 0 → d ≡ 0
unfolding differences
differences-zero d [] [] h = h
differences-zero d (x ∷ xs) (y ∷ ys) h =
    (bit_or-zero d (bit_xor x y) (differences-zero (bit_or d (bit_xor x y)) xs ys h)).0
differences-zero d [] (y ∷ ys) h =
    (bit_or-zero d (bit_xor 0 y) (differences-zero (bit_or d (bit_xor 0 y)) [] ys h)).0
differences-zero d (x ∷ xs) [] h =
    (bit_or-zero d (bit_xor x 0) (differences-zero (bit_or d (bit_xor x 0)) xs [] h)).0

differences-eq : (d : ℕ) (a b : List ℕ) → length a ≡ length b → differences d a b ≡ 0 → a ≡ b
unfolding differences
differences-eq d [] [] e h = refl
differences-eq d (x ∷ xs) (y ∷ ys) e h =
    let step = bit_or-zero d (bit_xor x y) (differences-zero (bit_or d (bit_xor x y)) xs ys h) in
    let same_head = bit_xor-zero x y step.1 in
    let same_tail = differences-eq (bit_or d (bit_xor x y)) xs ys (omega arith) h in
    ground (arith, same_head, same_tail)
differences-eq d [] (y ∷ ys) e h = absurd (omega arith)
differences-eq d (x ∷ xs) [] e h = absurd (omega arith)

differences_self : (a : List ℕ) → differences 0 a a ≡ 0
unfolding differences
differences_self [] = refl
differences_self (x ∷ xs) =
    ap (λ v. differences (bit_or 0 v) xs xs) (bit_xor_self x)
    ∙ ap (λ v. differences v xs xs) bit_or_zero
    ∙ differences_self xs

pub constant_time_bytes_equal_refl : (a : List ℕ) → constant_time_bytes_equal a a ≡ true
unfolding constant_time_bytes_equal
constant_time_bytes_equal_refl a =
    let e = ap (λ v. differences v a a) (bit_xor_self (length a)) ∙ differences_self a in
    ground arith

pub constant_time_bytes_equal_sound : (a b : List ℕ) → constant_time_bytes_equal a b ≡ true → a ≡ b
unfolding constant_time_bytes_equal
constant_time_bytes_equal_sound a b h =
    let none_differs : differences (bit_xor (length a) (length b)) a b ≡ 0 = ground arith in
    let d = bit_xor (length a) (length b) in
    differences-eq d a b (bit_xor-zero _ _ (differences-zero d a b none_differs)) none_differs

-- The comparison of bytes in constant time holds exactly for equal byte strings, also where their
-- lengths differ.
pub constant_time_bytes_equal_iff :
    (a b : List ℕ) → (constant_time_bytes_equal a b ≡ true) ↔ (a ≡ b)
constant_time_bytes_equal_iff a b = (
  constant_time_bytes_equal_sound a b,
  λ e. subst (λ x. constant_time_bytes_equal a x ≡ true) e (constant_time_bytes_equal_refl a),
)
