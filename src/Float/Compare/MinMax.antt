-- ===== src/Float/Compare/MinMax.antt =====
-- FMIN and FMAX of emulator/src/cpu/rv_impl/float.c against the order of the numbers.
use riscmulator.Base.{
  ap, if-elim, ltb, zero, suc, ℕ, ◌≡◌, ◌<◌, ◌≤◌, ◌⊎◌, inl, inr, Bool, true, false, u32, bit_or,
  some, Bool-cases, arith, refl, if◌then◌else◌, ◌==◌, ◌^◌,
}
use riscmulator.Base.Bits.{bit_and-mask}
use riscmulator.Float.{is_nan}
use riscmulator.Float.Env.{pack, canonical_nan}
use riscmulator.Float.Compare.{min_max, at_most, less, both_zero, rank, c_fmin, c_fmax}

-- A number of a format as a register holds it: a single is boxed.
abbrev pub InFormat : Bool → ℕ → Type 0
InFormat true x = x < 2 ^ 64
InFormat false x = bit_or 0xffffffff00000000 (u32 x) ≡ x

-- The order that FMIN goes by, and the reverse one of FMAX.
abbrev pub below : ℕ → Bool → ℕ → ℕ → Bool
below funct3 f64 a b = if funct3 == 0 then at_most f64 a b else at_most f64 b a

-- The zero with the sign of FMIN, or of FMAX.
abbrev pub zero_of : Bool → Bool → ℕ
zero_of negative f64 = pack f64 (if negative then (if f64 then 2 ^ 63 else 2 ^ 31) else 0)

-- Where both operands are zeros, -0 for FMIN and +0 for FMAX, otherwise one of the operands; and not
-- behind an operand that is a number.
abbrev pub Bounds : ℕ → Bool → ℕ → ℕ → ℕ → Type 0
Bounds funct3 f64 lhs rhs r =
    ((both_zero f64 lhs rhs ≡ true) × (r ≡ zero_of (funct3 == 0) f64)
      ⊎ (both_zero f64 lhs rhs ≡ false) × ((r ≡ lhs) ⊎ (r ≡ rhs)))
    × ((is_nan f64 lhs ≡ true) ⊎ (below funct3 f64 r lhs ≡ true))
    × ((is_nan f64 rhs ≡ true) ⊎ (below funct3 f64 r rhs ≡ true))

pack_lem : (f64 : Bool) (x : ℕ) → InFormat f64 x → pack f64 x ≡ x
pack_lem true x h = omega arith
pack_lem false x h = h

at_most_lem :
    (f64 : Bool) (a b : ℕ)
    → is_nan f64 a ≡ false
    → is_nan f64 b ≡ false
    → rank f64 a ≤ rank f64 b
    → at_most f64 a b ≡ true
unfolding at_most
at_most_lem f64 a b p q h = ground arith

-- Both zeros stand at one place.
rank_zero :
    (f64 : Bool) (a b : ℕ)
    → both_zero f64 a b ≡ true
    → (rank f64 a ≡ 2 ^ 63) × (rank f64 b ≡ 2 ^ 63)
unfolding rank both_zero
rank_zero true a b h = ground (arith, bit_and-mask 63 a, bit_and-mask 63 b)
rank_zero false a b h = ground (arith, bit_and-mask 31 (u32 a), bit_and-mask 31 (u32 b))

zero_of_lem :
    (negative f64 : Bool)
    → (is_nan f64 (zero_of negative f64) ≡ false) × (rank f64 (zero_of negative f64) ≡ 2 ^ 63)
unfolding rank is_nan
zero_of_lem true true = (refl, refl)
zero_of_lem true false = (refl, refl)
zero_of_lem false true = (refl, refl)
zero_of_lem false false = (refl, refl)

less_lem :
    (f64 : Bool) (a b : ℕ)
    → is_nan f64 a ≡ false
    → is_nan f64 b ≡ false
    → less f64 a b ≡ ltb (rank f64 a) (rank f64 b)
unfolding less
less_lem f64 a b p q = rw (p, q) refl

-- The smaller one of two numbers, in either order.
picks :
    (funct3 : ℕ) (f64 : Bool) (a b r : ℕ)
    → both_zero f64 a b ≡ false
    → (r ≡ a) ⊎ (r ≡ b)
    → below funct3 f64 r a ≡ true
    → below funct3 f64 r b ≡ true
    → Bounds funct3 f64 a b r
picks funct3 f64 a b r z one u v = (inr (z, one), inr u, inr v)

-- A NaN is no zero.
both_zero-nan :
    (f64 : Bool) (a b : ℕ)
    → (is_nan f64 a ≡ true) ⊎ (is_nan f64 b ≡ true)
    → both_zero f64 a b ≡ false
unfolding both_zero is_nan
both_zero-nan true a b h =
    ground (arith, bit_and-mask 63 a, bit_and-mask 63 b, bit_and-mask 52 a, bit_and-mask 52 b)
both_zero-nan false a b h = ground (arith, bit_and-mask 31 (u32 a), bit_and-mask 31 (u32 b))

-- What compares is no NaN.
at_most-ne-nan :
    (f64 : Bool) (a b : ℕ)
    → at_most f64 a b ≡ true
    → (is_nan f64 a ≡ false) × (is_nan f64 b ≡ false)
unfolding at_most
at_most-ne-nan f64 a b h = elim (Bool-cases (is_nan f64 a)) [
  | inl p ↦ cc (rw p at h)
  | inr p ↦ elim (Bool-cases (is_nan f64 b)) [ inl q ↦ cc (rw (p, q) at h) | inr q ↦ (p, q) ]
]

below-ne-nan :
    (funct3 : ℕ) (f64 : Bool) (a b : ℕ) → below funct3 f64 a b ≡ true → is_nan f64 a ≡ false
below-ne-nan funct3 f64 a b h = elim (Bool-cases (funct3 == 0)) [
  | inl e ↦ (at_most-ne-nan f64 a b (rw e at h)).0
  | inr e ↦ (at_most-ne-nan f64 b a (rw e at h)).1
]

module _ (f64 : Bool) (a b : ℕ) (p : is_nan f64 a ≡ false) (q : is_nan f64 b ≡ false) where
  c_fmin-Bounds : both_zero f64 a b ≡ false → Bounds 0 f64 a b (c_fmin f64 a b)
  unfolding c_fmin
  c_fmin-Bounds z = elim (Bool-cases (ltb (rank f64 b) (rank f64 a))) [
    | inl e ↦
        rw (less_lem f64 b a q p, e)
          (picks 0 f64 a b b z (inr refl) (at_most_lem f64 b a q p (ground arith))
            (at_most_lem f64 b b q q (omega arith)))
    | inr e ↦
        rw (less_lem f64 b a q p, e)
          (picks 0 f64 a b a z (inl refl) (at_most_lem f64 a a p p (omega arith))
            (at_most_lem f64 a b p q (ground arith)))
  ]

  c_fmax-Bounds : both_zero f64 a b ≡ false → Bounds 1 f64 a b (c_fmax f64 a b)
  unfolding c_fmax
  c_fmax-Bounds z = elim (Bool-cases (ltb (rank f64 a) (rank f64 b))) [
    | inl e ↦
        rw (less_lem f64 a b p q, e)
          (picks 1 f64 a b b z (inr refl) (at_most_lem f64 a b p q (ground arith))
            (at_most_lem f64 b b q q (omega arith)))
    | inr e ↦
        rw (less_lem f64 a b p q, e)
          (picks 1 f64 a b a z (inl refl) (at_most_lem f64 a a p p (omega arith))
            (at_most_lem f64 b a q p (ground arith)))
  ]

  -- Both are zeros.
  zero-Bounds :
      (funct3 : ℕ) → both_zero f64 a b ≡ true → Bounds funct3 f64 a b (zero_of (funct3 == 0) f64)
  zero-Bounds funct3 e =
      let z = zero_of_lem (funct3 == 0) f64 in
      let at = rank_zero f64 a b e in
      let r : ℕ = zero_of (funct3 == 0) f64 in
      (
        inl (e, refl),
        inr (
            if-elim (λ (t : Bool). t ≡ true) (funct3 == 0)
              (λ _. at_most_lem f64 r a z.0 p (omega (arith, z.1, at.0)))
              (λ _. at_most_lem f64 a r p z.0 (omega (arith, z.1, at.0)))),
        inr (
            if-elim (λ (t : Bool). t ≡ true) (funct3 == 0)
              (λ _. at_most_lem f64 r b z.0 q (omega (arith, z.1, at.1)))
              (λ _. at_most_lem f64 b r q z.0 (omega (arith, z.1, at.1)))),
      )

  c_fmin-InFormat : InFormat f64 a → InFormat f64 b → InFormat f64 (c_fmin f64 a b)
  unfolding c_fmin
  c_fmin-InFormat u v = if-elim (InFormat f64) (less f64 b a) (λ _. v) (λ _. u)

  c_fmax-InFormat : InFormat f64 a → InFormat f64 b → InFormat f64 (c_fmax f64 a b)
  unfolding c_fmax
  c_fmax-InFormat u v = if-elim (InFormat f64) (less f64 a b) (λ _. v) (λ _. u)

  min_max_numbers :
      (funct3 : ℕ)
      → InFormat f64 a
      → InFormat f64 b
      → funct3 ≤ 1
      → (r : ℕ) × (min_max funct3 f64 a b ≡ some r) × Bounds funct3 f64 a b r
  unfolding min_max
  min_max_numbers zero ha hb k = elim (Bool-cases (both_zero f64 a b)) [
    | inl z ↦ (zero_of true f64, rw (p, q, z) refl, zero-Bounds 0 z)
    | inr z ↦ (
      c_fmin f64 a b,
      rw (p, q, z) (ap some (pack_lem f64 (c_fmin f64 a b) (c_fmin-InFormat ha hb))),
      c_fmin-Bounds z,
    )
  ]
  min_max_numbers (suc zero) ha hb k = elim (Bool-cases (both_zero f64 a b)) [
    | inl z ↦ (zero_of false f64, rw (p, q, z) refl, zero-Bounds 1 z)
    | inr z ↦ (
      c_fmax f64 a b,
      rw (p, q, z) (ap some (pack_lem f64 (c_fmax f64 a b) (c_fmax-InFormat ha hb))),
      c_fmax-Bounds z,
    )
  ]
  min_max_numbers (suc (suc n)) ha hb k = absurd (omega arith)

-- A number is not behind itself.
below_self : (funct3 : ℕ) (f64 : Bool) (a : ℕ) → is_nan f64 a ≡ false → below funct3 f64 a a ≡ true
below_self funct3 f64 a p =
    if-elim (λ (t : Bool). t ≡ true) (funct3 == 0) (λ _. at_most_lem f64 a a p p (omega arith))
      (λ _. at_most_lem f64 a a p p (omega arith))

bound-ne-nan :
    (funct3 : ℕ) (f64 : Bool) (r a : ℕ)
    → is_nan f64 a ≡ false
    → (is_nan f64 a ≡ true) ⊎ (below funct3 f64 r a ≡ true)
    → is_nan f64 r ≡ false
bound-ne-nan funct3 f64 r a p (inl n) = cc
bound-ne-nan funct3 f64 r a p (inr b) = below-ne-nan funct3 f64 r a b

-- FMIN and FMAX give a result for every two operands of a format. If both are NaNs it is the
-- canonical NaN. Otherwise no operand that is a number lies before it, for FMAX behind it, in the
-- order of the numbers; and it is one of the operands, unless both are zeros: then it is -0 for
-- FMIN and +0 for FMAX.
pub min_max-Bounds :
    (funct3 : ℕ) (f64 : Bool) (lhs rhs : ℕ)
    → funct3 ≤ 1
    → InFormat f64 lhs
    → InFormat f64 rhs
    → (r : ℕ) × (min_max funct3 f64 lhs rhs ≡ some r)
      × ((is_nan f64 lhs ≡ true) × (is_nan f64 rhs ≡ true) × (r ≡ pack f64 (canonical_nan f64))
          ⊎ (is_nan f64 r ≡ false) × Bounds funct3 f64 lhs rhs r)
unfolding min_max
min_max-Bounds funct3 f64 lhs rhs k hl hr = elim (Bool-cases (is_nan f64 lhs)) [
  | inl p ↦ elim (Bool-cases (is_nan f64 rhs)) [
    | inl q ↦ (pack f64 (canonical_nan f64), rw (p, q) refl, inl (p, q, refl))
    | inr q ↦ (
      rhs,
      rw (p, q) refl,
      inr (
        q,
        (
          inr (both_zero-nan f64 lhs rhs (inl p), inr refl),
          inl p,
          inr (below_self funct3 f64 rhs q),
        ),
      ),
    )
  ]
  | inr p ↦ elim (Bool-cases (is_nan f64 rhs)) [
    | inl q ↦ (
      lhs,
      rw (p, q) refl,
      inr (
        p,
        (
          inr (both_zero-nan f64 lhs rhs (inr q), inl refl),
          inr (below_self funct3 f64 lhs p),
          inl q,
        ),
      ),
    )
    | inr q ↦
        let m = min_max_numbers f64 lhs rhs p q funct3 hl hr k in
        (m.0, m.1, inr (bound-ne-nan funct3 f64 m.0 lhs p m.2.1, m.2))
  ]
]
