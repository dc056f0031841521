-- ===== src/Float/Class.antt =====
-- The classification of floating-point numbers in emulator/src/cpu/rv_impl/float.c.
use riscmulator.Base.{
  subst, inr, inl, Bool-cases, if◌then◌else◌, not, ◌==◌, bit_or, ◌&&◌, ◌≤◌, u32, ◌%◌, ◌+◌, ◌-◌,
  bit_and, ◌>>>◌, ◌^◌, ℕ, ◌≡◌, ◌<◌, ◌∙◌, refl, arith, Bool, true, false, ap, sym,
}
use riscmulator.Float.{sign, class_bit, fclass, fraction, top_exponent, exponent, is_snan}
use native.Mathlib.Nat.{div-le_self}
use riscmulator.Base.Bits.{bits_ext, bit-bit_and, bit-shr, bit_and-mask, bit_and-lt}

shr-bit_and :
    (a b k : ℕ) → a < 2 ^ 64 → b < 2 ^ 64 → bit_and a b >>> k ≡ bit_and (a >>> k) (b >>> k)
shr-bit_and a b k ha hb =
    bits_ext 64 (bit_and a b >>> k) (bit_and (a >>> k) (b >>> k))
      (small (bit_and a b) (bit_and-lt 64 a b ha)) (bit_and-lt 64 (a >>> k) (b >>> k) (small a ha))
      (λ i _. omega (
        arith,
        bit-shr (bit_and a b) k i,
        bit-bit_and a b (i + k),
        bit-bit_and (a >>> k) (b >>> k) i,
        bit-shr a k i,
        bit-shr b k i,
      ))
  where
    small : (x : ℕ) → x < 2 ^ 64 → x >>> k < 2 ^ 64
    small x h = omega (arith, div-le_self x (2 ^ k))

-- The bits above a position and those below it, of a word with a mask.
high_bits :
    (x k n mask : ℕ)
    → x < 2 ^ 64
    → mask < 2 ^ 64
    → mask >>> k ≡ 2 ^ n - 1
    → (x >>> k) % 2 ^ n ≡ bit_and x mask >>> k
high_bits x k n mask hx hm e =
    sym (bit_and-mask n (x >>> k))
    ∙ ap (λ (t : ℕ). bit_and (x >>> k) t) (sym e)
    ∙ sym (shr-bit_and x mask k hx hm)

-- A signalling NaN has the top exponent and a fraction that is not zero.
snan-fields :
    (f64 : Bool) (x : ℕ)
    → x < 2 ^ 64
    → is_snan x f64 ≡ true
    → (exponent f64 x ≡ top_exponent f64) × (0 < fraction f64 x)
unfolding is_snan
snan-fields true x h e =
    ground (arith, high_bits x 51 12 0x7ff8000000000000 h (omega arith) refl, bit_and-mask 51 x)
snan-fields false x h e = ground (
  arith,
  high_bits (u32 x) 22 9 0x7fc00000 (omega arith) (omega arith) refl,
  bit_and-mask 22 (u32 x),
)

-- The result of FCLASS by what the fields are: the exponent zero or the top one, the fraction zero,
-- and the sign.
abbrev class_bits : Bool → Bool → Bool → Bool → Bool → ℕ
class_bits bottom top whole neg snan =
    bit_or
      (bit_or
        (bit_or (bit_or (class_bit (top && whole) neg 0 7) (class_bit (bottom && whole) neg 3 4))
          (class_bit (not bottom && not top) neg 1 6))
        (class_bit (bottom && not whole) neg 2 5))
      (if snan then 2 ^ 8 else if top && not whole then 2 ^ 9 else 0)

fclass-class_bits :
    (f64 : Bool) (x : ℕ)
    → fclass f64 x
      ≡ class_bits
          (exponent f64 x == 0)
          (exponent f64 x == top_exponent f64)
          (fraction f64 x == 0)
          (sign f64 x)
          (is_snan x f64)
unfolding fclass
fclass-class_bits f64 x = refl

-- A number with one bit set, of the lowest ten.
pub IsOneClass : ℕ → Type 0
IsOneClass r = (k : ℕ) × (k ≤ 9) × (r ≡ 2 ^ k)

class_bits-IsOneClass :
    (bottom top whole neg snan : Bool)
    → bottom && top ≡ false
    → snan && not (top && not whole) ≡ false
    → IsOneClass (class_bits bottom top whole neg snan)
unfolding IsOneClass
class_bits-IsOneClass true true whole neg snan excl quiet = absurd (ground arith)
class_bits-IsOneClass true false true true false excl quiet = (3, omega arith, refl)
class_bits-IsOneClass true false true false false excl quiet = (4, omega arith, refl)
class_bits-IsOneClass true false false true false excl quiet = (2, omega arith, refl)
class_bits-IsOneClass true false false false false excl quiet = (5, omega arith, refl)
class_bits-IsOneClass true false whole neg true excl quiet = absurd (ground arith)
class_bits-IsOneClass false true true true false excl quiet = (0, omega arith, refl)
class_bits-IsOneClass false true true false false excl quiet = (7, omega arith, refl)
class_bits-IsOneClass false true true neg true excl quiet = absurd (ground arith)
class_bits-IsOneClass false true false true true excl quiet = (8, omega arith, refl)
class_bits-IsOneClass false true false false true excl quiet = (8, omega arith, refl)
class_bits-IsOneClass false true false true false excl quiet = (9, omega arith, refl)
class_bits-IsOneClass false true false false false excl quiet = (9, omega arith, refl)
class_bits-IsOneClass false false true true false excl quiet = (1, omega arith, refl)
class_bits-IsOneClass false false true false false excl quiet = (6, omega arith, refl)
class_bits-IsOneClass false false false true false excl quiet = (1, omega arith, refl)
class_bits-IsOneClass false false false false false excl quiet = (6, omega arith, refl)
class_bits-IsOneClass false false whole neg true excl quiet = absurd (ground arith)

-- FCLASS gives exactly one class: its result has one bit of the lowest ten set, for every word, as a
-- double and as a single.
pub fclass-IsOneClass : (f64 : Bool) (x : ℕ) → x < 2 ^ 64 → IsOneClass (fclass f64 x)
fclass-IsOneClass f64 x h = subst IsOneClass (sym (fclass-class_bits f64 x)) (
    class_bits-IsOneClass (exponent f64 x == 0) (exponent f64 x == top_exponent f64)
      (fraction f64 x == 0) (sign f64 x) (is_snan x f64) (apart f64 x) (fields f64 x h))
  where
    apart : (d : Bool) (y : ℕ) → (exponent d y == 0) && (exponent d y == top_exponent d) ≡ false
    apart true y = ground arith
    apart false y = ground arith

    fields :
        (d : Bool) (y : ℕ)
        → y < 2 ^ 64
        → is_snan y d && not ((exponent d y == top_exponent d) && not (fraction d y == 0)) ≡ false
    fields d y small = elim (Bool-cases (is_snan y d)) [
      | inl e ↦ ground (arith, snan-fields d y small e)
      | inr e ↦ rw e refl
    ]
