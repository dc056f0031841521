-- ===== src/MulDiv/Signed.antt =====
-- Signed division in emulator/src/cpu/rv_impl/muldiv.c, by magnitudes and signs.
use riscmulator.Base.{
  ◌&&◌, ℕ, ◌+◌, ◌-◌, ◌*◌, ◌/◌, ◌%◌, ◌^◌, ◌≤◌, ◌<◌, ◌≡◌, ◌≢◌, ◌⊎◌, inl, inr, Bool, true, false, not,
  arith, if◌then◌else◌, Bool-cases, ◌==◌, ==_iff, refl,
}
use native.Mathlib.Nat.{mul-le-mul, mod-add-div', mod-lt, div-le_self}
use riscmulator.MulDiv.{muldiv_result, magnitude, with_sign, negative, quotient, remainder}

-- The sign of a quotient.
abbrev pub opposite : ℕ → ℕ → Bool
opposite x y = if negative x then not (negative y) else negative y

-- A word has a sign and a magnitude.
abbrev pub HasSign : Bool → ℕ → Type 0
HasSign minus x = (x ≡ 0) ⊎ (negative x ≡ minus)

with_sign_lem :
    (minus : Bool) (m : ℕ)
    → m ≤ 2 ^ 63
    → (minus ≡ false → m < 2 ^ 63)
    → (magnitude (with_sign minus m) ≡ m) × HasSign minus (with_sign minus m)
unfolding magnitude with_sign
with_sign_lem true m h k = ground arith
with_sign_lem false m h k = ground (arith, k refl)

magnitude_le : (x : ℕ) → x < 2 ^ 64 → magnitude x ≤ 2 ^ 63
unfolding magnitude
magnitude_le x h = ground arith

magnitude_pos : (y : ℕ) → y < 2 ^ 64 → y ≢ 0 → 0 < magnitude y
unfolding magnitude
magnitude_pos y h k = ground arith

halved : (a b : ℕ) → 2 ≤ b → 2 * (a / b) ≤ a
halved a b h = omega (
  arith,
  mod-add-div' a b,
  mul-le-mul {n₁ = a / b} {m₁ = 2} {n₂ = a / b} {m₂ = b} (omega arith) h,
)

magnitude_two : (y : ℕ) → y < 2 ^ 64 → negative y ≡ true → y ≢ 2 ^ 64 - 1 → 2 ≤ magnitude y
unfolding magnitude
magnitude_two y h n k = ground arith

magnitude_lt : (x : ℕ) → x < 2 ^ 64 → x ≢ 2 ^ 63 → magnitude x < 2 ^ 63
unfolding magnitude
magnitude_lt x h k = ground arith

-- The quotient fits unless the least word is divided by -1.
quotient_fits :
    (x y : ℕ)
    → x < 2 ^ 64
    → y < 2 ^ 64
    → ((x == 2 ^ 63) && (y == 2 ^ 64 - 1)) ≡ false
    → opposite x y ≡ false
    → magnitude x / magnitude y < 2 ^ 63
quotient_fits x y hx hy over same = elim (Bool-cases (x == 2 ^ 63)) [
  | inl least ↦ omega (
    arith,
    halved (magnitude x) (magnitude y) (magnitude_two y hy (ground arith) (ground arith)),
    magnitude_le x hx,
  )
  | inr other ↦
      omega (arith, div-le_self (magnitude x) (magnitude y), magnitude_lt x hx (ground arith))
]

-- DIV and REM. A quotient by zero is all ones and the remainder the dividend. The least word divided
-- by -1 is itself, with remainder zero. Otherwise the magnitudes are those of the division of the
-- magnitudes, the quotient is negative if one of the operands is, and the remainder if the dividend
-- is.
pub muldiv_result-signed :
    (x y : ℕ)
    → x < 2 ^ 64
    → y < 2 ^ 64
    → (y ≡ 0) × (muldiv_result false 4 x y ≡ 2 ^ 64 - 1) × (muldiv_result false 6 x y ≡ x)
      ⊎ (x ≡ 2 ^ 63)
        × (y ≡ 2 ^ 64 - 1)
        × (muldiv_result false 4 x y ≡ 2 ^ 63)
        × (muldiv_result false 6 x y ≡ 0)
      ⊎ (magnitude (muldiv_result false 4 x y) * magnitude y + magnitude (muldiv_result false 6 x y)
          ≡ magnitude x)
        × (magnitude (muldiv_result false 6 x y) < magnitude y)
        × HasSign (opposite x y) (muldiv_result false 4 x y)
        × HasSign (negative x) (muldiv_result false 6 x y)
unfolding muldiv_result quotient remainder
muldiv_result-signed x y hx hy = elim (Bool-cases (y == 0)) [
  | inl z ↦ inl ((==_iff y 0).0 z, rw z refl, rw z refl)
  | inr nz ↦ elim (Bool-cases ((x == 2 ^ 63) && (y == 2 ^ 64 - 1))) [
    | inl over ↦ inr (inl (ground arith, ground arith, rw (nz, over) refl, rw (nz, over) refl))
    | inr fits ↦
        rw (nz, fits)
          (let my = magnitude_pos y hy (ground arith) in
            let rest = mod-lt (magnitude x) my in
            let q =
              with_sign_lem (opposite x y) (magnitude x / magnitude y)
                (omega (arith, div-le_self (magnitude x) (magnitude y), magnitude_le x hx))
                (quotient_fits x y hx hy fits) in
            let r =
              with_sign_lem (negative x) (magnitude x % magnitude y)
                (omega (arith, rest, magnitude_le y hy))
                (λ _. omega (arith, rest, magnitude_le y hy)) in
            inr (
              inr (
                rw (q.0, r.0) (omega (arith, mod-add-div' (magnitude x) (magnitude y))),
                rw r.0 rest,
                q.1,
                r.1,
              )))
  ]
]
