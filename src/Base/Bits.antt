-- ===== src/Base/Bits.antt =====
-- The binary digits of a word: `bit x k` is `(x >> k) & 1`, and the bit operations act on each
-- digit alone. Two numbers with the same digits are equal.
mod Digit
use Digit.{zero-bit_or, bit_and_step, bit_or_step, bit_xor_step, bit_and_comm}
pub use Digit.{bit_and-lt, bit_or-lt, bit_xor-lt, lt_two_pow, zero-bit_and}
use Prim.Native.Nat.{
  ℕ, zero, suc, ◌+◌, ◌-◌, ◌*◌, ◌/◌, ◌%◌, ◌^◌, ◌≤◌, ◌<◌, min, max, bit_and, bit_or, bit_xor,
}
use Prim.Native.Nat.add
use mathlib.Core.Path.{◌≡◌, refl, sym, ap, ◌∙◌}
use mathlib.Core.Logic.{◌⊎◌, inl, inr}
use native.Mathlib.Omega.{arith}
use native.Mathlib.Nat.{pow-suc, one-le-pow, mod-lt, mod-add-div'}
use riscmulator.Base.Tests.{ltb, ◌==◌, truth, if◌then◌else◌}
use riscmulator.Base.Words.{not64, not32, ◌<<<◌, ◌>>>◌}

-- Digit `k` of `x`, by recursion on the digit's place.
unfoldable pub bit : ℕ → ℕ → ℕ
bit x zero = x % 2
bit x (suc k) = bit (x / 2) k

pub bit_le_one : (x k : ℕ) → bit x k ≤ 1
unfolding bit
bit_le_one x zero = omega arith
bit_le_one x (suc k) = bit_le_one (x / 2) k

pub bit-cases : (x k : ℕ) → (bit x k ≡ 0) ⊎ (bit x k ≡ 1)
bit-cases x k = ground (arith, bit_le_one x k)

pub bit-bit_and : (a b k : ℕ) → bit (bit_and a b) k ≡ min (bit a k) (bit b k)
unfolding bit
bit-bit_and a b zero = omega (arith, bit_and_step a b)
bit-bit_and a b (suc k) =
    ap (λ (t : ℕ). bit t k) (omega (arith, bit_and_step a b)) ∙ bit-bit_and (a / 2) (b / 2) k

pub bit-bit_or : (a b k : ℕ) → bit (bit_or a b) k ≡ max (bit a k) (bit b k)
unfolding bit
bit-bit_or a b zero = omega (arith, bit_or_step a b)
bit-bit_or a b (suc k) =
    ap (λ (t : ℕ). bit t k) (omega (arith, bit_or_step a b)) ∙ bit-bit_or (a / 2) (b / 2) k

pub bit-zero : (k : ℕ) → bit 0 k ≡ 0
unfolding bit
bit-zero zero = refl
bit-zero (suc k) = bit-zero k

pub bit-lt : (x k : ℕ) → x < 2 ^ k → bit x k ≡ 0
unfolding bit
bit-lt x zero h = omega arith
bit-lt x (suc k) h = bit-lt (x / 2) k (omega (arith, pow-suc 2 k))

pub bit-pow : (j k : ℕ) → bit (2 ^ j) k ≡ (if j == k then 1 else 0)
unfolding bit
bit-pow zero zero = refl
bit-pow zero (suc k) = ground (arith, bit-zero k)
bit-pow (suc j) zero = ground (arith, pow-suc 2 j)
bit-pow (suc j) (suc k) =
    ap (λ (t : ℕ). bit t k) (omega (arith, pow-suc 2 j)) ∙ (bit-pow j k ∙ ground arith)

-- Two words that add up to all ones have opposite digits.
opposite_bit : (w k x y : ℕ) → x + y + 1 ≡ 2 ^ w → k < w → bit y k ≡ 1 - bit x k
unfolding bit
opposite_bit zero k x y e h = absurd (omega arith)
opposite_bit (suc w) zero x y e h = omega (arith, pow-suc 2 w)
opposite_bit (suc w) (suc k) x y e h =
    opposite_bit w k (x / 2) (y / 2) (omega (arith, pow-suc 2 w)) (omega arith)

pub scaled-pow-suc : (k q : ℕ) → 2 * (q * 2 ^ k) ≡ q * 2 ^ suc k
scaled-pow-suc k q = omega (arith, ap (λ (power : ℕ). q * power) (pow-suc 2 k))

-- The digits of two fields side by side: those of the low one, then those of the high one.
pub bit_fields :
    (w k r q : ℕ) → r < 2 ^ w → bit (r + q * 2 ^ w) k ≡ (if ltb k w then bit r k else bit q (k - w))
unfolding bit
bit_fields zero k r q h = ground (arith, ap (λ (t : ℕ). bit t k) r-eq, ap (λ (t : ℕ). bit q t) k-eq)
  where
    r-eq : r + q * 2 ^ zero ≡ q
    r-eq = omega arith

    k-eq : k - zero ≡ k
    k-eq = omega arith
bit_fields (suc w) zero r q h = ground (arith, scaled-pow-suc w q)
bit_fields (suc w) (suc k) r q h = ground (
  arith,
  ap (λ (t : ℕ). bit t k) half,
  bit_fields w k (r / 2) q (omega (arith, pow-suc 2 w)),
  ap (λ (t : ℕ). bit q t) down,
)
  where
    half : (r + q * 2 ^ suc w) / 2 ≡ r / 2 + q * 2 ^ w
    half = omega (arith, scaled-pow-suc w q)

    down : suc k - suc w ≡ k - w
    down = omega arith

pow_mono : (j k : ℕ) → j ≤ k → 2 ^ j ≤ 2 ^ k
pow_mono zero k h = one-le-pow k 2 (omega arith)
pow_mono (suc j) zero h = absurd (omega arith)
pow_mono (suc j) (suc k) h = omega (arith, pow-suc 2 j, pow-suc 2 k, pow_mono j k (omega arith))

sub-eq : (k j : ℕ) → k + j - j ≡ k
sub-eq k j = omega arith

pub bit-mod : (w k x : ℕ) → bit (x % 2 ^ w) k ≡ (if ltb k w then bit x k else 0)
bit-mod w k x = ground (
  arith,
  ap (λ (t : ℕ). bit t k) (mod-add-div' x (2 ^ w)),
  bit_fields w k (x % 2 ^ w) (x / 2 ^ w) (mod-lt x (one-le-pow w 2 (omega arith))),
  bit-lt (x % 2 ^ w) k,
  mod-lt x (one-le-pow w 2 (omega arith)),
  pow_mono w k,
)

pub bit-shl : (x j k : ℕ) → bit (x <<< j) k ≡ (if ltb k j then 0 else bit x (k - j))
bit-shl x j k = ground (
  arith,
  bit_fields j k 0 x (one-le-pow j 2 (omega arith)),
  bit-zero k,
  ap (λ (t : ℕ). bit t k) (add.zero (x * 2 ^ j)),
)

pub bit-shr : (x j k : ℕ) → bit (x >>> j) k ≡ bit x (k + j)
bit-shr x j k = ground (
  arith,
  bit_fields j (k + j) (x % 2 ^ j) (x / 2 ^ j) (mod-lt x (one-le-pow j 2 (omega arith))),
  ap (λ (t : ℕ). bit t (k + j)) (mod-add-div' x (2 ^ j)),
  ap (λ (t : ℕ). bit (x / 2 ^ j) t) (sub-eq k j),
)

pub bit-not64 : (x k : ℕ) → k < 64 → bit (not64 x) k ≡ 1 - bit x k
unfolding not64
bit-not64 x k h =
    ground (
      arith,
      opposite_bit 64 k (x % 2 ^ 64) (2 ^ 64 - 1 - x % 2 ^ 64) (omega arith),
      bit-mod 64 k x,
    )

pub bits_ext : (n a b : ℕ) → a < 2 ^ n → b < 2 ^ n → ((k : ℕ) → k < n → bit a k ≡ bit b k) → a ≡ b
unfolding bit
bits_ext zero a b ha hb h = omega arith
bits_ext (suc n) a b ha hb h = omega (
  arith,
  h 0 (omega arith),
  bits_ext n (a / 2) (b / 2) (omega (arith, pow-suc 2 n)) (omega (arith, pow-suc 2 n))
      (λ k p. h (suc k) (omega arith)),
)

-- A single bit of a word, as C tests it: `x & (1 << k)`.
bit_first : (x k i : ℕ) → i ≡ 0 → bit (bit x k) i ≡ bit x k
unfolding bit
bit_first x k zero h = omega (arith, bit_le_one x k)
bit_first x k (suc i) h = absurd (omega arith)

bit_and-pow : (x k : ℕ) → bit_and x (2 ^ k) ≡ bit x k * 2 ^ k
bit_and-pow x k =
    bits_ext (suc k) _ _ (rw bit_and_comm (bit_and-lt (suc k) (2 ^ k) x below)) small digits
  where
    below : 2 ^ k < 2 ^ suc k
    below = omega (arith, pow-suc 2 k, one-le-pow k 2 (omega arith))

    small : bit x k * 2 ^ k < 2 ^ suc k
    small = grind (arith, pow-suc 2 k, one-le-pow k 2 (omega arith), bit_le_one x k)

    digits : (i : ℕ) → i < suc k → bit (bit_and x (2 ^ k)) i ≡ bit (bit x k * 2 ^ k) i
    digits i h = ground (
      arith,
      bit-bit_and x (2 ^ k) i,
      bit-pow k i,
      bit-shl (bit x k) k i,
      bit_first x k (i - k),
      bit_le_one x i,
      ap (λ (t : ℕ). bit x t) {x = i} {y = k},
    )

-- `x & (1 << k)` as a condition asks for digit `k`.
pub truth-bit_and-pow : (x k : ℕ) → truth (bit_and x (2 ^ k)) ≡ (bit x k == 1)
truth-bit_and-pow x k = elim (bit-cases x k) [
  | inl e ↦ rw (bit_and-pow, e) (ground arith)
  | inr e ↦ rw (bit_and-pow, e) (ground (arith, one-le-pow k 2 (omega arith)))
]

-- A mask of `k` low ones is the remainder by `2 ^ k`.
pub bit_and-mask : (k a : ℕ) → bit_and a (2 ^ k - 1) ≡ a % 2 ^ k
bit_and-mask k a = bits_ext k _ _ (rw bit_and_comm (bit_and-lt k (2 ^ k - 1) a below)) small digits
  where
    below : 2 ^ k - 1 < 2 ^ k
    below = omega (arith, one-le-pow k 2 (omega arith))

    small : a % 2 ^ k < 2 ^ k
    small = mod-lt a (one-le-pow k 2 (omega arith))

    digits : (i : ℕ) → i < k → bit (bit_and a (2 ^ k - 1)) i ≡ bit (a % 2 ^ k) i
    digits i h = ground (
      arith,
      bit-bit_and a (2 ^ k - 1) i,
      bit-mod k i a,
      opposite_bit k i 0 (2 ^ k - 1) (omega (arith, one-le-pow k 2 (omega arith))) h,
      bit-zero i,
      bit_le_one a i,
    )

-- `(x >> k) & 1` is digit `k`.
pub bit_and-shr-one : (x k : ℕ) → bit_and (x >>> k) 1 ≡ bit x k
unfolding bit
bit_and-shr-one x k =
    bit_and-mask 1 (x >>> k)
    ∙ bit-shr x k 0
    ∙ ap (λ (t : ℕ). bit x t) {x = 0 + k} {y = k} (omega arith)

-- Digit `k` by division.
pub bit_lem : (x k : ℕ) → bit x k ≡ x / 2 ^ k % 2
bit_lem x k = sym (bit_and-shr-one x k) ∙ bit_and-mask 1 (x >>> k)

pub bit-bit_xor : (a b k : ℕ) → bit (bit_xor a b) k ≡ (bit a k + bit b k) % 2
unfolding bit
bit-bit_xor a b zero = omega (arith, bit_xor_step a b)
bit-bit_xor a b (suc k) =
    ap (λ (t : ℕ). bit t k) (omega (arith, bit_xor_step a b)) ∙ bit-bit_xor (a / 2) (b / 2) k

-- `x | (1 << j)` sets digit `j`, and `x & ~(1 << j)` clears it.
pub bit-set : (x j k : ℕ) → bit (bit_or x (2 ^ j)) k ≡ (if j == k then 1 else bit x k)
bit-set x j k = ground (arith, bit-bit_or x (2 ^ j) k, bit-pow j k, bit_le_one x k)

pub bit-clear :
    (x j k : ℕ) → k < 64 → bit (bit_and x (not64 (2 ^ j))) k ≡ (if j == k then 0 else bit x k)
bit-clear x j k h =
    ground
      (arith, bit-bit_and x (not64 (2 ^ j)) k, bit-not64 (2 ^ j) k h, bit-pow j k, bit_le_one x k)

pub not64-lt : (x : ℕ) → not64 x < 2 ^ 64
unfolding not64
not64-lt x = omega arith

pub bit-not32 : (x k : ℕ) → k < 32 → bit (not32 x) k ≡ 1 - bit x k
unfolding not32
bit-not32 x k h =
    ground (
      arith,
      opposite_bit 32 k (x % 2 ^ 32) (2 ^ 32 - 1 - x % 2 ^ 32) (omega arith),
      bit-mod 32 k x,
    )

pub bit-clear32 :
    (x j k : ℕ) → k < 32 → bit (bit_and x (not32 (2 ^ j))) k ≡ (if j == k then 0 else bit x k)
bit-clear32 x j k h =
    ground
      (arith, bit-bit_and x (not32 (2 ^ j)) k, bit-not32 (2 ^ j) k h, bit-pow j k, bit_le_one x k)

-- `low | (high << k)` is a sum, if `low` fits `k` bits.
pub bit_or-fields : (k q r : ℕ) → r < 2 ^ k → bit_or r (q * 2 ^ k) ≡ r + q * 2 ^ k
bit_or-fields zero q r h =
    let e : r ≡ 0 = omega arith in rw e (omega (arith, zero-bit_or (q * 2 ^ zero)))
bit_or-fields (suc k) q r h =
    let half : q * 2 ^ suc k / 2 ≡ q * 2 ^ k = omega (arith, scaled-pow-suc k q) in
    ground (
      arith,
      bit_or_step r (q * 2 ^ suc k),
      half,
      scaled-pow-suc k q,
      bit_or-fields k q (r / 2) (omega (arith, pow-suc 2 k)),
    )

pub bit_or_comm : (a b : ℕ) → bit_or a b ≡ bit_or b a
bit_or_comm a b =
    bits_ext (a + b) (bit_or a b) (bit_or b a) (bit_or-lt (a + b) a b small_a small_b)
      (bit_or-lt (a + b) b a small_b small_a)
      (λ k _. omega (arith, bit-bit_or a b k, bit-bit_or b a k))
  where
    small_a : a < 2 ^ (a + b)
    small_a = omega (arith, lt_two_pow (a + b))

    small_b : b < 2 ^ (a + b)
    small_b = omega (arith, lt_two_pow (a + b))

-- `high | low` is a sum, if `low` is below the places of `high`.
pub bit_or-join : (k q high low : ℕ) → high ≡ q * 2 ^ k → low < 2 ^ k → bit_or high low ≡ high + low
bit_or-join k q high low e h =
    rw (e, bit_or_comm (q * 2 ^ k) low, bit_or-fields k q low h) (omega arith)

-- One step of the exclusive or, and that of a word with itself.
pub bit_xor-step : (a b : ℕ) → bit_xor a b ≡ bit_xor (a / 2) (b / 2) * 2 + (a % 2 + b % 2) % 2
bit_xor-step a b = bit_xor_step a b

pub bit_xor_self : (a : ℕ) → bit_xor a a ≡ 0
bit_xor_self a =
    bits_ext a (bit_xor a a) 0 (bit_xor-lt a a a (lt_two_pow a) (lt_two_pow a))
      (one-le-pow a 2 (omega arith)) (λ k _. omega (arith, bit-bit_xor a a k, bit-zero k))

bit-ones : (k i : ℕ) → bit (2 ^ k - 1) i ≡ (if ltb i k then 1 else 0)
bit-ones k i = ground (
  arith,
  bit-bit_and (2 ^ k - 1) (2 ^ k - 1) i,
  opposite_bit k i 0 (2 ^ k - 1) (omega (arith, one-le-pow k 2 (omega arith))),
  bit-zero i,
  bit-lt (2 ^ k - 1) i,
  pow_mono k i,
  one-le-pow k 2 (omega arith),
)

-- A word without its low `k` bits.
pub bit_and-above :
    (k a : ℕ) → k ≤ 64 → a < 2 ^ 64 → bit_and a (not64 (2 ^ k - 1)) ≡ (a >>> k) <<< k
bit_and-above k a h small =
    bits_ext 64 (bit_and a (not64 (2 ^ k - 1))) ((a >>> k) <<< k)
      (bit_and-lt 64 a (not64 (2 ^ k - 1)) small) (omega (arith, mod-add-div' a (2 ^ k)))
      (λ i lt. ground (
        arith,
        bit-bit_and a (not64 (2 ^ k - 1)) i,
        bit-not64 (2 ^ k - 1) i lt,
        bit-ones k i,
        bit-shl (a >>> k) k i,
        bit-shr a k (i - k),
        ap (λ (t : ℕ). bit a t) {x = i - k + k} {y = i},
        bit_le_one a i,
      ))
