-- ===== src/Pmp/Region.antt =====
-- The region that an address register encodes.
use riscmulator.Base.{
  ◌∙◌, refl, ◌==◌, ◌<<<◌, u64, bit_or, ◌>>>◌, ◌≤◌, ℕ, zero, suc, ◌+◌, ◌*◌, ◌-◌, ◌/◌, ◌%◌, ◌^◌, ◌<◌,
  ◌≡◌, arith, ap, ap₂, bit_xor,
}
use riscmulator.Base.Bits.{bit_and-above, bit_or-join, bit_xor_self, bit_xor-step, scaled-pow-suc}
use native.Mathlib.Nat.{
  div-eq_of_lt, add-mul-div_right, mul-div_cancel, pow-le-pow_right, pow-suc, one-le-pow,
}
use riscmulator.Pmp.{pmpaddr_match, region_mask}

-- The encoding of NAPOT: the region's number, a zero, and `n` ones.
unfoldable pub napot : ℕ → ℕ → ℕ
napot q zero = 2 * q
napot q (suc n) = 2 * napot q n + 1

napot-sum : (q n : ℕ) → napot q n + 1 ≡ q * 2 ^ (n + 1) + 2 ^ n
unfolding napot
napot-sum q zero = omega arith
napot-sum q (suc n) = omega (
  arith,
  napot-sum q n,
  pow-suc 2 n,
  scaled-pow-suc (n + 1) q,
  ap (λ (t : ℕ). q * 2 ^ t) {x = suc n + 1} {y = suc (n + 1)} (omega arith),
)

bit_xor-halves :
    (x y a b : ℕ) → x / 2 ≡ a → y / 2 ≡ b → (x + y) % 2 ≡ 1 → bit_xor x y ≡ 2 * bit_xor a b + 1
bit_xor-halves x y a b e f g = omega (arith, bit_xor-step x y, ap₂ (λ (s t : ℕ). bit_xor s t) e f)

napot-xor : (q n : ℕ) → bit_xor (napot q n) (napot q n + 1) ≡ 2 ^ (n + 1) - 1
unfolding napot
napot-xor q zero = omega (
  arith,
  bit_xor-halves (2 * q) (2 * q + 1) q q (omega arith) (omega arith) (omega arith),
  bit_xor_self q,
)
napot-xor q (suc n) =
    let a = napot q n in
    omega (
      arith,
      bit_xor-halves (2 * a + 1) (2 * a + 1 + 1) a (a + 1) (omega arith) (omega arith)
          (omega arith),
      napot-xor q n,
      pow-suc 2 (n + 1),
      one-le-pow (n + 1) 2 (omega arith),
      ap (λ (t : ℕ). 2 ^ t) {x = suc n + 1} {y = suc (n + 1)} (omega arith),
    )

region_mask-napot : (q n : ℕ) → napot q n < 2 ^ 62 → region_mask (napot q n) ≡ 2 ^ (n + 1) - 1
unfolding region_mask
region_mask-napot q n h =
    let e : (napot q n + 1) % 2 ^ 64 ≡ napot q n + 1 = omega arith in rw e (napot-xor q n)

quadruple : (n : ℕ) → 2 ^ (n + 3) ≡ 4 * 2 ^ (n + 1)
quadruple n = omega (
  arith,
  pow-suc 2 (n + 1),
  pow-suc 2 (n + 2),
  ap (λ (t : ℕ). 2 ^ t) {x = suc (n + 1)} {y = n + 2} (omega arith),
  ap (λ (t : ℕ). 2 ^ t) {x = suc (n + 2)} {y = n + 3} (omega arith),
)

-- The bytes that a region has, less one.
region_bytes : (n : ℕ) → n ≤ 61 → bit_or (u64 ((2 ^ (n + 1) - 1) <<< 2)) 3 ≡ 2 ^ (n + 3) - 1
region_bytes n h =
    let small : 2 ^ (n + 1) ≤ 2 ^ 62 =
      pow-le-pow_right {n = 2} (omega arith) {i = n + 1} {j = 62} (omega arith) in
    let fits : (2 ^ (n + 1) - 1) * 2 ^ 2 % 2 ^ 64 ≡ (2 ^ (n + 1) - 1) * 2 ^ 2 = omega arith in
    rw (fits, bit_or-join 2 (2 ^ (n + 1) - 1) ((2 ^ (n + 1) - 1) * 2 ^ 2) 3 refl (omega arith))
      (omega (arith, quadruple n, one-le-pow (n + 1) 2 (omega arith)))

region_number : (q n : ℕ) → napot q n >>> (n + 1) ≡ q
region_number q n =
    let whole : napot q n ≡ 2 ^ n - 1 + q * 2 ^ (n + 1) =
      omega (arith, napot-sum q n, one-le-pow n 2 (omega arith)) in
    let size : 0 < 2 ^ (n + 1) = one-le-pow (n + 1) 2 (omega arith) in
    rw (whole, add-mul-div_right (2 ^ n - 1) q {z = 2 ^ (n + 1)} size)
      (omega (
        arith,
        div-eq_of_lt {n = 2 ^ n - 1} {m = 2 ^ (n + 1)} (
            omega (
              arith,
              pow-suc 2 n,
              one-le-pow n 2 (omega arith),
              ap (λ (t : ℕ). 2 ^ t) {x = suc n} {y = n + 1} (omega arith),
            )),
      ))

-- Products by the same size are equal if what they multiply is.
==-scaled : (p q size : ℕ) → 0 < size → (p * size == q * size) ≡ (p == q)
==-scaled p q size h = ground (
  arith,
  ap (λ (t : ℕ). t * size) {x = p} {y = q},
  ap (λ (t : ℕ). t / size) {x = p * size} {y = q * size},
  mul-div_cancel p h,
  mul-div_cancel q h,
)

-- A 64-bit address matches an address register that encodes region `q` of `2 ^ (n + 3)` bytes
-- exactly if it lies in that region.
pub pmpaddr_match-napot :
    (paddr q n : ℕ)
    → paddr < 2 ^ 64
    → n ≤ 61
    → napot q n < 2 ^ 62
    → pmpaddr_match paddr (napot q n) ≡ (paddr >>> (n + 3) == q)
unfolding pmpaddr_match
pmpaddr_match-napot paddr q n h up fits =
    let above =
      bit_and-above (n + 1) (napot q n) (omega arith) (omega arith)
      ∙ ap (λ (t : ℕ). t <<< (n + 1)) (region_number q n) in
    let base : u64 ((q <<< (n + 1)) <<< 2) ≡ q * 2 ^ (n + 3) =
      omega
        (arith, napot-sum q n, one-le-pow n 2 (omega arith), ap (λ (t : ℕ). q * t) (quadruple n)) in
    rw
      (
        region_mask-napot q n fits,
        region_bytes n up,
        bit_and-above (n + 3) paddr (omega arith) h,
        above,
        base,
      )
      (==-scaled (paddr >>> (n + 3)) q (2 ^ (n + 3)) (one-le-pow (n + 3) 2 (omega arith)))
