-- ===== src/Trap/Examples.antt =====
-- The trap theorems at concrete harts.
use riscmulator.Base.Bits.{bit-pow, bit-set, bit}
use riscmulator.Base.{
  ◌∙◌, ◌^◌, ◌==◌, not64, bit_or, ℕ, if◌then◌else◌, ◌⊎◌, none, ◌≡◌, ◌≤◌, refl, arith,
}
use riscmulator.Trap.Interrupts.{check_interrupts-IsNext, IsNext}
use riscmulator.Trap.Takeable.{IsListed, IsTakeable}
use riscmulator.Trap.{
  intr_flag, is_delegated, do_trap, Trap, Hooks, enter, enter_m, enter_s, mret, sret,
  check_interrupts,
}
use riscmulator.Cpu.{Cpu, zero_cpu}
use riscmulator.Trap.Entry.{enter-privilege}
use riscmulator.Trap.Return.{mret-enter_m, sret-enter_s}

-- A hart in S-mode with SIE and MIE set, where a software and an external interrupt of the
-- supervisor are pending.
abbrev supervisor : Cpu
supervisor = record (zero_cpu) {
  privilege = 1;
  csr = record (zero_cpu.csr) { mstatus = 10; mie = 0x222; mideleg = 0x222; stvec = 0x8001 };
  irq_pending = 0x202;
  pc = 0x1000;
}

abbrev ecall : Trap
ecall = record { epc = 0x1000; tval = 0; cause = 9 }

abbrev no_hooks : Hooks
no_hooks = λ _. none

takes_external : (check_interrupts no_hooks supervisor).pc ≡ 0x8024
unfolding check_interrupts do_trap not64
takes_external = refl

enter-privilege_example :
    (supervisor.privilege ≤ (enter supervisor ecall).privilege)
    × ((enter supervisor ecall).privilege ≡ (if is_delegated supervisor ecall then 1 else 3))
    × ((enter supervisor ecall).csr.mepc ≡ (if is_delegated supervisor ecall then 0 else 0x1000))
enter-privilege_example = enter-privilege supervisor ecall (omega arith)

mret-enter_m_example :
    ((mret (enter_m supervisor ecall)).pc ≡ 0x1000)
    × ((mret (enter_m supervisor ecall)).privilege ≡ 1)
    × (bit (mret (enter_m supervisor ecall)).csr.mstatus 3 ≡ bit 10 3)
mret-enter_m_example = mret-enter_m supervisor ecall (omega arith)

sret-enter_s_example :
    ((sret (enter_s supervisor ecall)).pc ≡ 0x1000)
    × ((sret (enter_s supervisor ecall)).privilege ≡ 1)
    × (bit (sret (enter_s supervisor ecall)).csr.mstatus 1 ≡ bit 10 1)
sret-enter_s_example = sret-enter_s supervisor ecall (omega arith)

pending_bits : (irq : ℕ) → bit 0x202 irq ≡ (if 9 == irq then 1 else if 1 == irq then 1 else 0)
pending_bits irq = bit-set (2 ^ 1) 9 irq ∙ rw (bit-pow 1 irq) refl

supervisor-IsListed : IsListed supervisor
supervisor-IsListed irq p e = let b = pending_bits irq in ground (arith, b, p)

check_interrupts-IsNext_example :
    ((check_interrupts no_hooks supervisor ≡ supervisor)
      × ((irq : ℕ) → ¬ IsTakeable supervisor irq))
    ⊎ ((irq : ℕ) × IsNext supervisor irq
        × (check_interrupts no_hooks supervisor
            ≡ enter supervisor (record { epc = 0x1000; cause = bit_or intr_flag irq; tval = 0 })))
check_interrupts-IsNext_example = check_interrupts-IsNext no_hooks supervisor supervisor-IsListed
