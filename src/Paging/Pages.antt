-- ===== src/Paging/Pages.antt =====
-- The pages that the entries of emulator/src/cpu/rv_paging.c name.
use riscmulator.Base.{
  ◌≤◌, ap, ◌∙◌, sym, ◌+◌, ◌-◌, ◌<<<◌, arith, bit_or, min, ◌*◌, ◌>>>◌, ◌^◌, ◌≡◌, bit_and, ◌<◌, ℕ,
}
use riscmulator.Base.Bits.{
  bit-lt, bit-bit_and, bit-shl, bit-bit_or, bit-shr, lt_two_pow, bit_and-mask, bits_ext, bit,
}
use riscmulator.Paging.{pte_ppn_mask, pte_ppn}
use native.Mathlib.Nat.{pow-le-pow_right, mod-lt, one-le-pow}

two_pow_mono : (a b : ℕ) → a ≤ b → 2 ^ a ≤ 2 ^ b
two_pow_mono a b h = pow-le-pow_right {n = 2} (omega arith) h

equal_bits : (a b : ℕ) → ((k : ℕ) → bit a k ≡ bit b k) → a ≡ b
equal_bits a b h =
    bits_ext (a + b) a b (omega (arith, lt_two_pow (a + b))) (omega (arith, lt_two_pow (a + b)))
      (λ k _. h k)

bit-pte_ppn : (x k : ℕ) → bit (pte_ppn x) k ≡ min (bit x (k + 10)) (bit (2 ^ 44 - 1) k)
bit-pte_ppn x k =
    bit-shr (bit_and x pte_ppn_mask) 10 k
    ∙ bit-bit_and x pte_ppn_mask (k + 10)
    ∙ ap (λ (t : ℕ). min (bit x (k + 10)) t) (sym (bit-shr pte_ppn_mask 10 k))

-- The low bits of an address that a page of a level keeps.
abbrev pub low_bits : ℕ → ℕ → ℕ
low_bits vaddr level = bit_and (vaddr >>> 12) (2 ^ (9 * level) - 1)

pub low_bits-lt : (vaddr level : ℕ) → level < 3 → low_bits vaddr level < 2 ^ 44
low_bits-lt vaddr level h =
    let bigger = two_pow_mono (9 * level) 44 (omega arith) in
    omega (
      arith,
      bigger,
      bit_and-mask (9 * level) (vaddr >>> 12),
      mod-lt (vaddr >>> 12) (one-le-pow (9 * level) 2 (omega arith)),
    )

bit-small : (x k : ℕ) → x < 2 ^ 44 → min (bit x k) (bit (2 ^ 44 - 1) k) ≡ bit x k
bit-small x k h =
    sym (bit-bit_and x (2 ^ 44 - 1) k)
    ∙ ap (λ (t : ℕ). bit t k) (bit_and-mask 44 x ∙ omega (arith, h))

pub pte_ppn-bit_or_high :
    (x off : ℕ) → off < 2 ^ 44 → pte_ppn (bit_or x (off <<< 10)) ≡ bit_or (pte_ppn x) off
pte_ppn-bit_or_high x off h = equal_bits _ _ (λ k.
    let moved : bit (off <<< 10) (k + 10) ≡ bit off k = ground (arith, bit-shl off 10 (k + 10)) in
    omega (
      arith,
      bit-pte_ppn (bit_or x (off <<< 10)) k,
      bit-bit_or x (off <<< 10) (k + 10),
      moved,
      bit-bit_or (pte_ppn x) off k,
      bit-pte_ppn x k,
      bit-small off k h,
    ))

-- Flags below the place of the page do not change it.
pub pte_ppn-bit_or_low : (x flags : ℕ) → flags < 2 ^ 10 → pte_ppn (bit_or x flags) ≡ pte_ppn x
pte_ppn-bit_or_low x flags h = equal_bits _ _ (λ k.
    let bigger = two_pow_mono 10 (k + 10) (omega arith) in
    let above : bit flags (k + 10) ≡ 0 = bit-lt flags (k + 10) (omega arith) in
    omega
      (arith, bit-pte_ppn (bit_or x flags) k, bit-bit_or x flags (k + 10), bit-pte_ppn x k, above))
