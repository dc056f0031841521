-- ===== src/Trap/Interrupts.antt =====
-- Which interrupt `rv_check_interrupts` takes.
use riscmulator.Trap.Takeable.{
  takeable-IsTakeable, takeable-at-s, m_set-deleg, s_set-deleg, takeable-at-m, first_set-first,
  s_set, first_set-none, s_on, takeable_lem, m_set, irq-is_interrupt, m_on, rank, IsListed,
  IsTakeable,
}
use riscmulator.Base.{
  false, sym, ◌∙◌, Bool-cases, ◌&&◌, none, some, Option, inr, inl, refl, true, Option, bit_or,
  not64, some, ◌⊎◌, ℕ, ◌≤◌, ◌<◌, ◌≡◌, arith, truth, bit_and,
}
use riscmulator.Base.Bits.{bit-cases, bit-zero, bit, bit_le_one, bit-bit_and}
use riscmulator.Cpu.{Cpu}
use riscmulator.Trap.{
  Hooks, enter, do_trap, take_irq, check_interrupts, takeable, first_set, irq_priority, intr_flag,
}

-- Of two interrupts, the one not delegated comes first, and at one level the one of lower rank.
abbrev pub Before : Cpu → ℕ → ℕ → Type 0
Before cpu irq other =
    ((bit cpu.csr.mideleg irq ≡ 0) × (bit cpu.csr.mideleg other ≡ 1))
    ⊎ ((bit cpu.csr.mideleg irq ≡ bit cpu.csr.mideleg other) × (rank irq ≤ rank other))

-- The interrupt taken: takeable, and before every other that is takeable.
pub record IsNext (cpu : Cpu) (irq : ℕ) : Type 0 where
  pub admitted : IsTakeable cpu irq
  pub first : (other : ℕ) → IsTakeable cpu other → Before cpu irq other

-- The choice, as an option, is the next interrupt, or nothing where none is takeable.
data IsChoice (cpu : Cpu) : Option ℕ → Type 0 where
  nothing : ((irq : ℕ) → ¬ IsTakeable cpu irq) → IsChoice cpu none
  next : {irq : ℕ} → irq < 12 → IsNext cpu irq → IsChoice cpu (some irq)

small_rank : (irq : ℕ) → rank irq < 6 → irq < 64
small_rank irq h = ground arith

module _ (cpu : Cpu) (listed : IsListed cpu) where
  small : (irq : ℕ) → IsTakeable cpu irq → irq < 64
  small irq t = small_rank irq (listed irq t.pending t.enabled)

  within :
      (mask k : ℕ) → bit (bit_and (bit_and cpu.irq_pending cpu.csr.mie) mask) k ≡ 1 → rank k < 6
  within mask k h =
      let a = bit-bit_and (bit_and cpu.irq_pending cpu.csr.mie) mask k in
      let b = bit-bit_and cpu.irq_pending cpu.csr.mie k in
      listed k (omega (arith, h, a, b, bit_le_one cpu.irq_pending k))
        (omega (arith, h, a, b, bit_le_one cpu.csr.mie k))

  m_chosen :
      (o : Option ℕ)
      → m_on cpu && truth (m_set cpu) ≡ true
      → first_set irq_priority (takeable cpu) ≡ o
      → takeable cpu ≡ m_set cpu
      → IsChoice cpu o
  m_chosen none on e is = absurd (
      let z = first_set-none (m_set cpu) (within (not64 cpu.csr.mideleg)) (rw is at e) in
      ground (arith, on, z))
  m_chosen (some irq) on e is =
      let (below, set, first) = first_set-first (takeable cpu) irq e in
      let deleg = m_set-deleg cpu irq (omega arith) (rw is at set) in
      next below (record {
        admitted = takeable-IsTakeable cpu irq (omega arith) set;
        first = λ other t. elim (bit-cases cpu.csr.mideleg other) [
          | inl m ↦
              inr
                (deleg ∙ sym m, first other (rw is (takeable-at-m cpu other (small other t) t m).1))
          | inr s ↦ inl (deleg, s)
        ];
      })

  s_chosen :
      (o : Option ℕ)
      → m_on cpu && truth (m_set cpu) ≡ false
      → s_on cpu && truth (s_set cpu) ≡ true
      → first_set irq_priority (takeable cpu) ≡ o
      → takeable cpu ≡ s_set cpu
      → IsChoice cpu o
  s_chosen none off on e is = absurd (
      let z = first_set-none (s_set cpu) (within cpu.csr.mideleg) (rw is at e) in
      ground (arith, on, z))
  s_chosen (some irq) off on e is =
      let (below, set, first) = first_set-first (takeable cpu) irq e in
      let deleg = s_set-deleg cpu irq (rw is at set) in
      next below (record {
        admitted = takeable-IsTakeable cpu irq (omega arith) set;
        first = λ other t. elim (bit-cases cpu.csr.mideleg other) [
          | inl m ↦ cc (off, (takeable-at-m cpu other (small other t) t m).0)
          | inr s ↦ inr (deleg ∙ sym s, first other (rw is (takeable-at-s cpu other t s).1))
        ];
      })

  none_chosen :
      (o : Option ℕ)
      → m_on cpu && truth (m_set cpu) ≡ false
      → s_on cpu && truth (s_set cpu) ≡ false
      → first_set irq_priority (takeable cpu) ≡ o
      → takeable cpu ≡ 0
      → IsChoice cpu o
  none_chosen none off off' e is = nothing (λ irq t. elim (bit-cases cpu.csr.mideleg irq) [
    | inl m ↦ cc (off, (takeable-at-m cpu irq (small irq t) t m).0)
    | inr s ↦ cc (off', (takeable-at-s cpu irq t s).0)
  ])
  none_chosen (some irq) off off' e is =
      let (below, set, first) = first_set-first (takeable cpu) irq e in
      absurd (omega (arith, bit-zero irq, rw is at set))

  first_set-IsChoice : IsChoice cpu (first_set irq_priority (takeable cpu))
  first_set-IsChoice = elim (Bool-cases (m_on cpu && truth (m_set cpu))) [
    | inl m ↦ m_chosen _ m refl (takeable_lem cpu ∙ rw m refl)
    | inr n ↦ elim (Bool-cases (s_on cpu && truth (s_set cpu))) [
      | inl s ↦ s_chosen _ n s refl (takeable_lem cpu ∙ rw (n, s) refl)
      | inr z ↦ none_chosen _ n z refl (takeable_lem cpu ∙ rw (n, z) refl)
    ]
  ]

taken :
    (hooks : Hooks) (cpu : Cpu) (o : Option ℕ)
    → IsChoice cpu o
    → ((take_irq hooks cpu o ≡ cpu) × ((irq : ℕ) → ¬ IsTakeable cpu irq))
      ⊎ ((irq : ℕ) × IsNext cpu irq
          × (take_irq hooks cpu o
              ≡ enter cpu (record { epc = cpu.pc; cause = bit_or intr_flag irq; tval = 0 })))
unfolding take_irq do_trap
taken hooks cpu none (nothing idle) = inl (refl, idle)
taken hooks cpu (some irq) (next below chosen) = inr (irq, chosen, rw (irq-is_interrupt irq) refl)

-- Where only the six interrupts of the specification are pending and enabled, `rv_check_interrupts`
-- leaves the hart as it is exactly where no interrupt is takeable: pending, enabled, and admitted by
-- the privilege and the enable bit of its level. Otherwise it enters the trap, with the address of
-- the next instruction, for the takeable interrupt that comes first: those not delegated before those
-- delegated, and at one level in the order MEI, MSI, MTI, SEI, SSI, STI.
pub check_interrupts-IsNext :
    (hooks : Hooks) (cpu : Cpu)
    → IsListed cpu
    → ((check_interrupts hooks cpu ≡ cpu) × ((irq : ℕ) → ¬ IsTakeable cpu irq))
      ⊎ ((irq : ℕ) × IsNext cpu irq
          × (check_interrupts hooks cpu
              ≡ enter cpu (record { epc = cpu.pc; cause = bit_or intr_flag irq; tval = 0 })))
unfolding check_interrupts
check_interrupts-IsNext hooks cpu listed =
    taken hooks cpu (first_set irq_priority (takeable cpu)) (first_set-IsChoice cpu listed)
