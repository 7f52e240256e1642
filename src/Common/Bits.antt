-- ===== src/Common/Bits.antt =====
-- Laws of the bitwise operations of the native numbers, from the recursion on binary digits.
use Prim.Native.Nat.{
  ℕ, zero, suc, ◌/◌, ◌%◌, ◌≤◌, max, min, bit_and, bit_or, bit_xor, digits, differ, bit_and-bitwise,
  bit_or-bitwise, bit_xor-bitwise,
}
use mathlib.Core.Path.{◌≡◌, refl, ◌∙◌, sym}
use native.Mathlib.Omega.{arith}

differ-zero : (x y : ℕ) → differ x y ≡ 0 → x ≡ y
differ-zero zero y h = sym h
differ-zero (suc x) zero h = absurd (omega arith)
differ-zero (suc x) (suc y) h = let e = differ-zero x y h in omega arith

differ_self : (x : ℕ) → differ x x ≡ 0
differ_self zero = refl
differ_self (suc x) = differ_self x

xor_digits-zero : (n a b : ℕ) → a ≤ n → digits (λ y. y) differ n a b ≡ 0 → a ≡ b
xor_digits-zero zero a b le h = omega arith
xor_digits-zero (suc n) zero b le h = omega arith
xor_digits-zero (suc n) (suc a) b le h =
    let high = xor_digits-zero n (suc a / 2) (b / 2) (omega arith) (omega arith) in
    let low = differ-zero (suc a % 2) (b % 2) (omega arith) in omega arith

pub bit_xor-zero : (a b : ℕ) → bit_xor a b ≡ 0 → a ≡ b
bit_xor-zero a b h = xor_digits-zero a a b (omega arith) (sym (bit_xor-bitwise a b) ∙ h)

xor_digits_self : (n a : ℕ) → a ≤ n → digits (λ y. y) differ n a a ≡ 0
xor_digits_self zero a le = omega arith
xor_digits_self (suc n) zero le = refl
xor_digits_self (suc n) (suc a) le =
    let high = xor_digits_self n (suc a / 2) (omega arith) in
    let low = differ_self (suc a % 2) in omega arith

pub bit_xor_self : (a : ℕ) → bit_xor a a ≡ 0
bit_xor_self a = bit_xor-bitwise a a ∙ xor_digits_self a a (omega arith)

or_digits-zero : (n a b : ℕ) → a ≤ n → digits (λ y. y) max n a b ≡ 0 → (a ≡ 0) × (b ≡ 0)
or_digits-zero zero a b le h = (omega arith, omega arith)
or_digits-zero (suc n) zero b le h = (refl, h)
or_digits-zero (suc n) (suc a) b le h =
    let high = or_digits-zero n (suc a / 2) (b / 2) (omega arith) (omega arith) in
    (omega arith, omega arith)

pub bit_or-zero : (a b : ℕ) → bit_or a b ≡ 0 → (a ≡ 0) × (b ≡ 0)
bit_or-zero a b h = or_digits-zero a a b (omega arith) (sym (bit_or-bitwise a b) ∙ h)

pub bit_or_zero : bit_or 0 0 ≡ 0
bit_or_zero = bit_or-bitwise 0 0

and_digits_le : (n a b : ℕ) → digits (λ y. 0) min n a b ≤ b
and_digits_le zero a b = omega arith
and_digits_le (suc n) zero b = omega arith
and_digits_le (suc n) (suc a) b = let high = and_digits_le n (suc a / 2) (b / 2) in omega arith

pub bit_and_le : (a b : ℕ) → bit_and a b ≤ b
bit_and_le a b = let h = and_digits_le a a b in let e = bit_and-bitwise a b in omega arith
