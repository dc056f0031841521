-- ===== src/Base/Shifts.antt =====
-- Right shifts of words that bit operations have made.
use riscmulator.Base.{◌≤◌, ℕ, ◌+◌, ◌^◌, ◌<◌, ◌≡◌, ◌>>>◌, bit_and, bit_or, bit_xor, arith}
use native.Mathlib.Nat.{pow-le-pow_right}
use riscmulator.Base.Bits.{
  bit, bits_ext, lt_two_pow, bit-shr, bit-bit_and, bit-bit_or, bit-bit_xor, bit_le_one, bit-zero,
}

-- Numbers with the same digits are equal, whatever their size.
pub digits_ext : (a b : ℕ) → ((k : ℕ) → bit a k ≡ bit b k) → a ≡ b
digits_ext a b h =
    bits_ext (a + b) a b (bound a (a + b) (omega arith)) (bound b (a + b) (omega arith))
      (λ k _. h k)
  where
    bound : (x n : ℕ) → x ≤ n → x < 2 ^ n
    bound x n h = omega (arith, lt_two_pow x, pow-le-pow_right {n = 2} (omega arith) h)

pub shr-bit_and : (a b k : ℕ) → bit_and a b >>> k ≡ bit_and (a >>> k) (b >>> k)
shr-bit_and a b k = digits_ext _ _ (λ i. omega (
  arith,
  bit-shr (bit_and a b) k i,
  bit-bit_and a b (i + k),
  bit-bit_and (a >>> k) (b >>> k) i,
  bit-shr a k i,
  bit-shr b k i,
))

pub shr-bit_or : (a b k : ℕ) → bit_or a b >>> k ≡ bit_or (a >>> k) (b >>> k)
shr-bit_or a b k = digits_ext _ _ (λ i. omega (
  arith,
  bit-shr (bit_or a b) k i,
  bit-bit_or a b (i + k),
  bit-bit_or (a >>> k) (b >>> k) i,
  bit-shr a k i,
  bit-shr b k i,
))

pub shr-bit_xor : (a b k : ℕ) → bit_xor a b >>> k ≡ bit_xor (a >>> k) (b >>> k)
shr-bit_xor a b k = digits_ext _ _ (λ i. omega (
  arith,
  bit-shr (bit_xor a b) k i,
  bit-bit_xor a b (i + k),
  bit-bit_xor (a >>> k) (b >>> k) i,
  bit-shr a k i,
  bit-shr b k i,
))

pub bit_or-zero : (a : ℕ) → bit_or a 0 ≡ a
bit_or-zero a = digits_ext _ _ (λ i. omega (arith, bit-bit_or a 0 i, bit-zero i))

pub bit_xor-zero : (a : ℕ) → bit_xor a 0 ≡ a
bit_xor-zero a = digits_ext _ _ (λ i. omega (arith, bit-bit_xor a 0 i, bit-zero i, bit_le_one a i))

pub bit_and-zero : (a : ℕ) → bit_and a 0 ≡ 0
bit_and-zero a = digits_ext _ _ (λ i. omega (arith, bit-bit_and a 0 i, bit-zero i))

pub bit_or_assoc : (a b c : ℕ) → bit_or (bit_or a b) c ≡ bit_or a (bit_or b c)
bit_or_assoc a b c = digits_ext _ _ (λ i. omega (
  arith,
  bit-bit_or (bit_or a b) c i,
  bit-bit_or a b i,
  bit-bit_or a (bit_or b c) i,
  bit-bit_or b c i,
))

pub zero-bit_and : (a : ℕ) → bit_and 0 a ≡ 0
zero-bit_and a = digits_ext _ _ (λ i. omega (arith, bit-bit_and 0 a i, bit-zero i))
