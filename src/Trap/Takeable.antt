-- ===== src/Trap/Takeable.antt =====
-- The interrupts that `rv_check_interrupts` may take.
use riscmulator.Base.{
  sym, ap, ◌∙◌, ◌||◌, Bool-cases, ltb, Bool, ◌&&◌, none, some, inr, inl, refl, true, bit_or, ◌==◌,
  if◌then◌else◌, not64, some, ◌⊎◌, ℕ, ◌≤◌, ◌<◌, ◌≡◌, arith, truth, bit_and, ◌>>>◌,
}
use riscmulator.Base.Bits.{
  bit-cases, zero-bit_and, lt_two_pow, bits_ext, bit-zero, bit, bit_le_one, bit-bit_and, bit-bit_or,
  bit-not64, bit_lem, truth-bit_and-pow, bit_and-shr-one,
}
use native.Mathlib.Nat.{one-le-pow}
use riscmulator.Cpu.{Cpu}
use riscmulator.Trap.{takeable, first_set, irq_priority, intr_flag}

-- The order of the interrupts in the privileged specification, 0 first.
abbrev pub rank : ℕ → ℕ
rank irq =
    if irq == 11
    then 0
    else if irq == 3
    then 1
    else if irq == 7
    then 2
    else if irq == 9
    then 3
    else if irq == 1
    then 4
    else if irq == 5
    then 5
    else 6

-- An interrupt that is pending and enabled, at the level that it is delegated to: for M-mode,
-- below M-mode or with MIE; for S-mode, below S-mode or in S-mode with SIE.
pub record IsTakeable (cpu : Cpu) (irq : ℕ) : Type 0 where
  pub pending : bit cpu.irq_pending irq ≡ 1
  pub enabled : bit cpu.csr.mie irq ≡ 1
  pub level :
      ((bit cpu.csr.mideleg irq ≡ 0) × ((cpu.privilege < 3) ⊎ (bit cpu.csr.mstatus 3 ≡ 1)))
      ⊎ ((bit cpu.csr.mideleg irq ≡ 1)
          × ((cpu.privilege < 1) ⊎ ((cpu.privilege ≡ 1) × (bit cpu.csr.mstatus 1 ≡ 1))))

pub takeable-IsTakeable :
    (cpu : Cpu) (irq : ℕ) → irq < 64 → bit (takeable cpu) irq ≡ 1 → IsTakeable cpu irq
unfolding takeable
takeable-IsTakeable cpu irq h set =
    let all = bit_and cpu.irq_pending cpu.csr.mie in
    let m = bit-bit_and all (not64 cpu.csr.mideleg) irq in
    let s = bit-bit_and all cpu.csr.mideleg irq in
    let a = bit-bit_and cpu.irq_pending cpu.csr.mie irq in
    let n = bit-not64 cpu.csr.mideleg irq h in
    record {
      pending = ground (
        arith,
        bit-zero irq,
        m,
        s,
        a,
        n,
        bit_le_one cpu.irq_pending irq,
        bit_le_one cpu.csr.mie irq,
        bit_le_one cpu.csr.mideleg irq,
      );
      enabled = ground (
        arith,
        bit-zero irq,
        m,
        s,
        a,
        n,
        bit_le_one cpu.irq_pending irq,
        bit_le_one cpu.csr.mie irq,
        bit_le_one cpu.csr.mideleg irq,
      );
      level = ground (
        arith,
        bit-zero irq,
        m,
        s,
        n,
        bit_le_one cpu.csr.mideleg irq,
        bit_and-shr-one cpu.csr.mstatus 3,
        bit_and-shr-one cpu.csr.mstatus 1,
        bit_le_one cpu.csr.mstatus 3,
        bit_le_one cpu.csr.mstatus 1,
      );
    }

-- The loop returns the first of the list that is set.
pub first_set-first :
    (take irq : ℕ)
    → first_set irq_priority take ≡ some irq
    → (irq < 12) × (bit take irq ≡ 1) × ((other : ℕ) → bit take other ≡ 1 → rank irq ≤ rank other)
unfolding first_set
first_set-first take irq e =
    let a = truth-bit_and-pow take 11 in
    let b = truth-bit_and-pow take 3 in
    let c = truth-bit_and-pow take 7 in
    let d = truth-bit_and-pow take 9 in
    let f = truth-bit_and-pow take 1 in
    let g = truth-bit_and-pow take 5 in
    (
      ground (arith, a, b, c, d, f, g),
      ground (arith, a, b, c, d, f, g),
      λ other h. ground (arith, a, b, c, d, f, g),
    )

pub irq-is_interrupt : (irq : ℕ) → truth (bit_or intr_flag irq >>> 63) ≡ true
irq-is_interrupt irq = ground (
  arith,
  bit_lem (bit_or intr_flag irq) 63,
  bit-bit_or intr_flag irq 63,
  bit_lem intr_flag 63,
  bit_le_one irq 63,
)

-- The two sets of the code, and whether each level takes interrupts.
abbrev pub m_set : Cpu → ℕ
m_set cpu = bit_and (bit_and cpu.irq_pending cpu.csr.mie) (not64 cpu.csr.mideleg)

abbrev pub s_set : Cpu → ℕ
s_set cpu = bit_and (bit_and cpu.irq_pending cpu.csr.mie) cpu.csr.mideleg

abbrev pub m_on : Cpu → Bool
m_on cpu = ltb cpu.privilege 3 || truth (bit_and (cpu.csr.mstatus >>> 3) 1)

abbrev pub s_on : Cpu → Bool
s_on cpu =
    ltb cpu.privilege 1 || ((cpu.privilege == 1) && truth (bit_and (cpu.csr.mstatus >>> 1) 1))

pub takeable_lem :
    (cpu : Cpu)
    → takeable cpu ≡ (
        if m_on cpu && truth (m_set cpu)
        then m_set cpu
        else if s_on cpu && truth (s_set cpu)
        then s_set cpu
        else 0)
unfolding takeable
takeable_lem cpu = elim (Bool-cases (truth (bit_and cpu.irq_pending cpu.csr.mie))) [
  | inl e ↦ rw e refl
  | inr e ↦
      let z : bit_and cpu.irq_pending cpu.csr.mie ≡ 0 = ground (arith, e) in
      rw (z, zero-bit_and (not64 cpu.csr.mideleg), zero-bit_and cpu.csr.mideleg) (ground arith)
]

-- A number that is not 0 has a digit.
no_digits : (x : ℕ) → ((k : ℕ) → bit x k ≡ 0) → x ≡ 0
no_digits x h =
    bits_ext x x 0 (lt_two_pow x) (one-le-pow x 2 (omega arith)) (λ k _. h k ∙ sym (bit-zero k))

truth-bit : (x k : ℕ) → bit x k ≡ 1 → truth x ≡ true
truth-bit x k h = elim (Bool-cases (truth x)) [
  | inl e ↦ e
  | inr e ↦
      let z : x ≡ 0 = ground (arith, e) in
      absurd (omega (arith, h, bit-zero k, ap (λ (t : ℕ). bit t k) z))
]

-- Only interrupts of the list are pending and enabled.
abbrev pub IsListed : Cpu → Type 0
IsListed cpu = (irq : ℕ) → bit cpu.irq_pending irq ≡ 1 → bit cpu.csr.mie irq ≡ 1 → rank irq < 6

-- What is takeable is in the set of its level, and the level takes interrupts.
pub takeable-at-m :
    (cpu : Cpu) (irq : ℕ)
    → irq < 64
    → IsTakeable cpu irq
    → bit cpu.csr.mideleg irq ≡ 0
    → (m_on cpu && truth (m_set cpu) ≡ true) × (bit (m_set cpu) irq ≡ 1)
takeable-at-m cpu irq small t deleg =
    let all = bit_and cpu.irq_pending cpu.csr.mie in
    let here : bit (m_set cpu) irq ≡ 1 = omega (
      arith,
      bit-bit_and all (not64 cpu.csr.mideleg) irq,
      bit-bit_and cpu.irq_pending cpu.csr.mie irq,
      bit-not64 cpu.csr.mideleg irq small,
      t.pending,
      t.enabled,
      deleg,
    ) in
    let on : m_on cpu ≡ true = ground (arith, t.level, deleg, bit_and-shr-one cpu.csr.mstatus 3) in
    (rw (on, truth-bit (m_set cpu) irq here) refl, here)

pub takeable-at-s :
    (cpu : Cpu) (irq : ℕ)
    → IsTakeable cpu irq
    → bit cpu.csr.mideleg irq ≡ 1
    → (s_on cpu && truth (s_set cpu) ≡ true) × (bit (s_set cpu) irq ≡ 1)
takeable-at-s cpu irq t deleg =
    let all = bit_and cpu.irq_pending cpu.csr.mie in
    let here : bit (s_set cpu) irq ≡ 1 = omega (
      arith,
      bit-bit_and all cpu.csr.mideleg irq,
      bit-bit_and cpu.irq_pending cpu.csr.mie irq,
      t.pending,
      t.enabled,
      deleg,
    ) in
    let on : s_on cpu ≡ true = ground (arith, t.level, deleg, bit_and-shr-one cpu.csr.mstatus 1) in
    (rw (on, truth-bit (s_set cpu) irq here) refl, here)

-- What is in a set is not delegated, or is.
pub m_set-deleg :
    (cpu : Cpu) (irq : ℕ) → irq < 64 → bit (m_set cpu) irq ≡ 1 → bit cpu.csr.mideleg irq ≡ 0
m_set-deleg cpu irq small here = omega (
  arith,
  bit-bit_and (bit_and cpu.irq_pending cpu.csr.mie) (not64 cpu.csr.mideleg) irq,
  bit-not64 cpu.csr.mideleg irq small,
  bit_le_one cpu.csr.mideleg irq,
)

pub s_set-deleg : (cpu : Cpu) (irq : ℕ) → bit (s_set cpu) irq ≡ 1 → bit cpu.csr.mideleg irq ≡ 1
s_set-deleg cpu irq here = omega (
  arith,
  bit-bit_and (bit_and cpu.irq_pending cpu.csr.mie) cpu.csr.mideleg irq,
  bit_le_one cpu.csr.mideleg irq,
)

-- A set of listed interrupts in which the loop finds none is empty.
pub first_set-none :
    (take : ℕ)
    → ((k : ℕ) → bit take k ≡ 1 → rank k < 6)
    → first_set irq_priority take ≡ none
    → take ≡ 0
unfolding first_set
first_set-none take listed e = no_digits take (λ k. elim (bit-cases take k) [
  | inl z ↦ z
  | inr o ↦ absurd (
      ground (
        arith,
        e,
        o,
        listed k o,
        truth-bit_and-pow take 11,
        truth-bit_and-pow take 3,
        truth-bit_and-pow take 7,
        truth-bit_and-pow take 9,
        truth-bit_and-pow take 1,
        truth-bit_and-pow take 5,
      ))
])
