-- ===== src/Csr/Access.antt =====
-- Which accesses fail, and what a CSR that is a plain register returns after a write.
use riscmulator.Base.{
  ◌⊎◌, ◌≤◌, ℕ, ◌≡◌, ◌↔◌, refl, arith, Bool, true, false, Option, none, some, ltb, ◌∙◌,
}
use mathlib.Core.Option
use riscmulator.Cpu.{Cpu}
use riscmulator.Csr.{csr_read, read_csr, csr_priv}
use riscmulator.Csr.Write.{csr_write, write_csr}
use riscmulator.Csr.Number.{
  Csr, csr_of_index, misa, mie, mideleg, medeleg, mtvec, mcause, mtval, mepc, mtinst, mscratch, sie,
  stvec, scause, stval, sepc, sscratch,
}

-- A branch of the read fails exactly if the branch of the write does.
refused_alike : (cpu : Cpu) (c : Csr) (w : ℕ) → (read_csr cpu c ≡ none) ↔ (write_csr cpu c w ≡ none)
unfolding read_csr write_csr
refused_alike cpu misa w = ground arith
refused_alike cpu _ w = ground arith

refused_by_name :
    (cpu : Cpu) (o : Option Csr) (w : ℕ)
    → (Option.bind o (read_csr cpu) ≡ none) ↔ (Option.bind o (λ c. write_csr cpu c w) ≡ none)
unfolding Option.bind
refused_by_name cpu none w = (λ _. refl, λ _. refl)
refused_by_name cpu (some c) w = refused_alike cpu c w

-- `rv_csr_read` fails exactly if `rv_csr_write` does, whatever the value; and both fail unless the
-- hart has the privilege that the CSR's number asks for.
pub csr_read-refused :
    (cpu : Cpu) (index w : ℕ)
    → ((csr_read cpu index ≡ none) ↔ (csr_write cpu index w ≡ none))
      × ((csr_priv index ≤ cpu.privilege)
          ⊎ ((csr_read cpu index ≡ none) × (csr_write cpu index w ≡ none)))
unfolding csr_read csr_write
csr_read-refused cpu index w =
    (ground (arith, refused_by_name cpu (csr_of_index index) w), ground arith)

-- The CSRs that are 64-bit registers with no fields of their own.
abbrev pub is_plain : Csr → Bool
is_plain mie = true
is_plain mideleg = true
is_plain medeleg = true
is_plain mtvec = true
is_plain mcause = true
is_plain mtval = true
is_plain mepc = true
is_plain mtinst = true
is_plain mscratch = true
is_plain sie = true
is_plain stvec = true
is_plain scause = true
is_plain stval = true
is_plain sepc = true
is_plain sscratch = true
is_plain _ = false

written_plain :
    (cpu : Cpu) (c : Csr) (w : ℕ)
    → is_plain c ≡ true
    → (cpu' : Cpu) × (write_csr cpu c w ≡ some cpu')
      × (read_csr cpu' c ≡ some w)
      × (cpu'.privilege ≡ cpu.privilege)
unfolding read_csr write_csr
written_plain cpu mie w h = (_, refl, refl, refl)
written_plain cpu mideleg w h = (_, refl, refl, refl)
written_plain cpu medeleg w h = (_, refl, refl, refl)
written_plain cpu mtvec w h = (_, refl, refl, refl)
written_plain cpu mcause w h = (_, refl, refl, refl)
written_plain cpu mtval w h = (_, refl, refl, refl)
written_plain cpu mepc w h = (_, refl, refl, refl)
written_plain cpu mtinst w h = (_, refl, refl, refl)
written_plain cpu mscratch w h = (_, refl, refl, refl)
written_plain cpu sie w h = (_, refl, refl, refl)
written_plain cpu stvec w h = (_, refl, refl, refl)
written_plain cpu scause w h = (_, refl, refl, refl)
written_plain cpu stval w h = (_, refl, refl, refl)
written_plain cpu sepc w h = (_, refl, refl, refl)
written_plain cpu sscratch w h = (_, refl, refl, refl)
written_plain cpu _ w h = absurd (cc)

csr_read-some :
    (cpu : Cpu) (index : ℕ) (c : Csr)
    → csr_of_index index ≡ some c
    → ltb cpu.privilege (csr_priv index) ≡ false
    → csr_read cpu index ≡ read_csr cpu c
csr_read-some cpu index c e priv = unfold csr_read in rw (priv, e) refl

csr_write-some :
    (cpu : Cpu) (index w : ℕ) (c : Csr)
    → csr_of_index index ≡ some c
    → ltb cpu.privilege (csr_priv index) ≡ false
    → csr_write cpu index w ≡ write_csr cpu c w
csr_write-some cpu index w c e priv = unfold csr_write in rw (priv, e) refl

-- A CSR that is a plain register, at a privilege that its number admits, takes every write and
-- returns the value written at the next read.
pub csr_read-csr_write :
    (cpu : Cpu) (index w : ℕ) (c : Csr)
    → csr_of_index index ≡ some c
    → is_plain c ≡ true
    → ltb cpu.privilege (csr_priv index) ≡ false
    → (cpu' : Cpu) × (csr_write cpu index w ≡ some cpu') × (csr_read cpu' index ≡ some w)
csr_read-csr_write cpu index w c e plain priv =
    let (cpu', wrote, reads, same) = written_plain cpu c w plain in
    (
      cpu',
      csr_write-some cpu index w c e priv ∙ wrote,
      csr_read-some cpu' index c e (rw same priv) ∙ reads,
    )
