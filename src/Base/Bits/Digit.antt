-- ===== src/Base/Bits/Digit.antt =====
-- One equation for the lowest digit of each bit operation, from the library's `bitwise`.
use Prim.Native.Nat.{
  ℕ, zero, suc, ◌+◌, ◌-◌, ◌*◌, ◌/◌, ◌%◌, ◌^◌, ◌≤◌, ◌<◌, min, max, digits, bitwise, differ, bit_and,
  bit_or, bit_xor, bit_and-bitwise, bit_or-bitwise, bit_xor-bitwise,
}
use mathlib.Core.Path.{◌≡◌, refl, ap}
use native.Mathlib.Nat.{pow-suc, pow-le-pow_right}
use native.Mathlib.Omega.{arith}

-- What the library's recursion computes, without its count of rounds.
module _ (base : ℕ → ℕ) (join : ℕ → ℕ → ℕ) where
  digits-zero : (k y : ℕ) → digits base join k 0 y ≡ base y
  digits-zero zero y = refl
  digits-zero (suc k) y = refl

  digits-spare :
      (k spare x y : ℕ) → x ≤ k → digits base join (k + spare) x y ≡ digits base join k x y
  digits-spare k spare zero y h = rw (digits-zero (k + spare) y, digits-zero k y) refl
  digits-spare zero spare (suc x) y h = absurd (omega arith)
  digits-spare (suc k) spare (suc x) y h =
      let e : suc k + spare ≡ suc (k + spare) = omega arith in
      rw (e, digits-spare k spare (suc x / 2) (y / 2) (omega arith)) refl

  low_digit :
      (x y : ℕ)
      → base y ≡ base (y / 2) * 2 + join 0 (y % 2)
      → bitwise base join x y ≡ bitwise base join (x / 2) (y / 2) * 2 + join (x % 2) (y % 2)
  low_digit zero y h = h
  low_digit (suc x) y h =
      let half = suc x / 2 in
      let e : half + (x - half) ≡ x = omega arith in
      omega (
        arith,
        ap (λ (t : ℕ). digits base join t half (y / 2)) e,
        digits-spare half (x - half) half (y / 2) (omega arith),
      )

pub bit_or_step : (a b : ℕ) → bit_or a b ≡ bit_or (a / 2) (b / 2) * 2 + max (a % 2) (b % 2)
bit_or_step a b = simp bit_or-bitwise (low_digit (λ y. y) max a b (omega arith))

pub bit_and_step : (a b : ℕ) → bit_and a b ≡ bit_and (a / 2) (b / 2) * 2 + min (a % 2) (b % 2)
bit_and_step a b = simp bit_and-bitwise (low_digit (λ _. 0) min a b (omega arith))

differ-mod : (a b : ℕ) → differ (a % 2) (b % 2) ≡ (a % 2 + b % 2) % 2
differ-mod a b = below (a % 2) (b % 2) (omega arith) (omega arith)
  where
    below : (x y : ℕ) → x < 2 → y < 2 → differ x y ≡ (x + y) % 2
    below zero zero p q = refl
    below zero (suc zero) p q = refl
    below (suc zero) zero p q = refl
    below (suc zero) (suc zero) p q = refl
    below zero (suc (suc y)) p q = absurd (omega arith)
    below (suc zero) (suc (suc y)) p q = absurd (omega arith)
    below (suc (suc x)) y p q = absurd (omega arith)

pub bit_xor_step : (a b : ℕ) → bit_xor a b ≡ bit_xor (a / 2) (b / 2) * 2 + (a % 2 + b % 2) % 2
bit_xor_step a b =
    simp (bit_xor-bitwise, ← differ-mod)
      (low_digit (λ y. y) differ a b (omega (arith, differ-mod 0 b)))

pub zero-bit_and : (b : ℕ) → bit_and 0 b ≡ 0
zero-bit_and b = simp bit_and-bitwise refl

-- Bounds by the width of the operands.
pub bit_and-lt : (n a b : ℕ) → a < 2 ^ n → bit_and a b < 2 ^ n
bit_and-lt zero a b h = let e : a ≡ 0 = omega arith in rw e (omega (arith, zero-bit_and b))
bit_and-lt (suc n) a b h = omega (
  arith,
  bit_and_step a b,
  pow-suc 2 n,
  bit_and-lt n (a / 2) (b / 2) (omega (arith, pow-suc 2 n)),
)

pub lt_two_pow : (a : ℕ) → a < 2 ^ a
lt_two_pow zero = omega arith
lt_two_pow (suc a) = omega (arith, pow-suc 2 a, lt_two_pow a)

bit_and_comm_below : (n a b : ℕ) → a < 2 ^ n → b < 2 ^ n → bit_and a b ≡ bit_and b a
bit_and_comm_below zero a b p q =
    let e : a ≡ 0 = omega arith in let f : b ≡ 0 = omega arith in rw (e, f) refl
bit_and_comm_below (suc n) a b p q = omega (
  arith,
  bit_and_step a b,
  bit_and_step b a,
  pow-suc 2 n,
  bit_and_comm_below n (a / 2) (b / 2) (omega (arith, pow-suc 2 n)) (omega (arith, pow-suc 2 n)),
)

below_sum : (x n : ℕ) → x ≤ n → x < 2 ^ n
below_sum x n h = omega (arith, lt_two_pow x, pow-le-pow_right {n = 2} (omega arith) h)

pub bit_and_comm : (a b : ℕ) → bit_and a b ≡ bit_and b a
bit_and_comm a b =
    bit_and_comm_below (a + b) a b (below_sum a (a + b) (omega arith))
      (below_sum b (a + b) (omega arith))

pub bit_or-lt : (n a b : ℕ) → a < 2 ^ n → b < 2 ^ n → bit_or a b < 2 ^ n
bit_or-lt zero a b p q =
    let e : a ≡ 0 = omega arith in let f : b ≡ 0 = omega arith in rw (e, f) (omega arith)
bit_or-lt (suc n) a b p q = omega (
  arith,
  bit_or_step a b,
  pow-suc 2 n,
  bit_or-lt n (a / 2) (b / 2) (omega (arith, pow-suc 2 n)) (omega (arith, pow-suc 2 n)),
)

pub bit_xor-lt : (n a b : ℕ) → a < 2 ^ n → b < 2 ^ n → bit_xor a b < 2 ^ n
bit_xor-lt zero a b p q =
    let e : a ≡ 0 = omega arith in let f : b ≡ 0 = omega arith in rw (e, f) (omega arith)
bit_xor-lt (suc n) a b p q = omega (
  arith,
  bit_xor_step a b,
  pow-suc 2 n,
  bit_xor-lt n (a / 2) (b / 2) (omega (arith, pow-suc 2 n)) (omega (arith, pow-suc 2 n)),
)

pub zero-bit_or : (b : ℕ) → bit_or 0 b ≡ b
zero-bit_or b = simp bit_or-bitwise refl
