-- ===== src/Trap.antt =====
-- emulator/src/cpu/rv_privileged.c: trap entry and the choice of the interrupt to take; and from
-- emulator/src/cpu/rv_impl/base.c the returns from traps.
pub mod Entry
pub mod Return
pub mod Interrupts
pub mod Takeable
mod Examples
use riscmulator.Base.{
  ℕ, zero, suc, ◌+◌, ◌-◌, ◌*◌, ◌/◌, ◌%◌, ◌^◌, bit_and, bit_or, Bool, true, false, ◌&&◌, ◌||◌, not,
  List, [], ◌∷◌, Option, none, some, truth, ltb, leb, ◌==◌, if◌then◌else◌, to_nat, ◌<<<◌, ◌>>>◌,
  u64, not64,
}
use riscmulator.Cpu.{
  Cpu, CsrState, sync_mem_privilege, sie_bit, mie_bit, spie_bit, mpie_bit, spp_bit, mpp_base_bit,
  mprv_bit, tsr_bit,
}

-- `struct rv_trap`.
pub record Trap : Type 0 where
  pub epc : ℕ
  pub tval : ℕ
  pub cause : ℕ

-- `RV_CAUSE_INTR_FLAG`.
abbrev pub intr_flag : ℕ
intr_flag = 2 ^ 63

-- `RV_CAUSE_IILLEGAL`.
abbrev pub cause_iillegal : ℕ
cause_iillegal = 2

-- `machine->trap_hook`: for each exception, none or a function that may change the hart and says
-- whether the trap is still to be taken. A hook that changes the rest of the machine is not
-- modelled.
abbrev pub Hooks : Type 0
Hooks = ℕ → Option (Cpu → Trap → Bool × Cpu)

abbrev pub is_interrupt : Trap → Bool
is_interrupt trap = truth (trap.cause >>> 63)

abbrev pub cause_low : Trap → ℕ
cause_low trap = bit_and trap.cause 0x3f

-- Whether the trap goes to S-mode.
unfoldable pub is_delegated : Cpu → Trap → Bool
is_delegated cpu trap =
    let deleg_mask = if is_interrupt trap then cpu.csr.mideleg else cpu.csr.medeleg in
    leb cpu.privilege 1 && truth (bit_and deleg_mask (2 ^ cause_low trap))

-- The address that a trap vector gives: interrupts in vectored mode each have their own.
unfoldable pub vector : ℕ → Trap → ℕ
vector tvec trap =
    let base = bit_and tvec (not64 3) in
    if is_interrupt trap && truth (bit_and tvec 1) then u64 (base + 4 * cause_low trap) else base

-- `mstatus` after entry to S-mode, from a privilege.
unfoldable pub entry_mstatus_s : ℕ → ℕ → ℕ
entry_mstatus_s privilege mstatus =
    let spie = to_nat (truth (bit_and mstatus (2 ^ sie_bit))) in
    let m1 = bit_and mstatus (not64 (2 ^ spie_bit)) in
    let m2 = bit_and m1 (not64 (2 ^ sie_bit)) in
    let m3 = bit_and m2 (not64 (2 ^ spp_bit)) in
    let m4 = bit_or m3 (spie <<< spie_bit) in bit_or m4 (privilege <<< spp_bit)

-- `mstatus` after entry to M-mode.
unfoldable pub entry_mstatus_m : ℕ → ℕ → ℕ
entry_mstatus_m privilege mstatus =
    let mpie = to_nat (truth (bit_and mstatus (2 ^ mie_bit))) in
    let m1 = bit_and mstatus (not64 (2 ^ mpie_bit)) in
    let m2 = bit_and m1 (not64 (2 ^ mie_bit)) in
    let m3 = bit_and m2 (not64 (3 <<< mpp_base_bit)) in
    let m4 = bit_or m3 (mpie <<< mpie_bit) in bit_or m4 (privilege <<< mpp_base_bit)

unfoldable pub enter_s : Cpu → Trap → Cpu
unfolding entry_mstatus_s vector sync_mem_privilege
enter_s cpu trap =
    let csr = record (cpu.csr) {
      sepc = trap.epc;
      scause = trap.cause;
      stval = trap.tval;
      mstatus = entry_mstatus_s cpu.privilege cpu.csr.mstatus;
    } in
    record (sync_mem_privilege (record cpu { csr = csr; privilege = 1 })) {
      pc = vector cpu.csr.stvec trap;
    }

unfoldable pub enter_m : Cpu → Trap → Cpu
unfolding entry_mstatus_m vector sync_mem_privilege
enter_m cpu trap =
    let csr = record (cpu.csr) {
      mepc = trap.epc;
      mcause = trap.cause;
      mtval = trap.tval;
      mstatus = entry_mstatus_m cpu.privilege cpu.csr.mstatus;
    } in
    record (sync_mem_privilege (record cpu { csr = csr; privilege = 3 })) {
      pc = vector cpu.csr.mtvec trap;
    }

-- The handler, once no hook has taken the trap.
unfoldable pub enter : Cpu → Trap → Cpu
unfolding is_delegated enter_s enter_m
enter cpu trap = if is_delegated cpu trap then enter_s cpu trap else enter_m cpu trap

-- What is left to do after the hook's answer.
unfoldable pub after_hook : Trap → Bool × Cpu → Cpu
unfolding enter
after_hook trap answer = if answer.0 then enter answer.1 trap else answer.1

unfoldable pub hooked : Option (Cpu → Trap → Bool × Cpu) → Cpu → Trap → Cpu
unfolding after_hook enter
hooked none cpu trap = enter cpu trap
hooked (some hook) cpu trap = after_hook trap (hook cpu trap)

-- `rv_do_trap`. An exception's cause is below 32, as the code asserts.
unfoldable pub do_trap : Hooks → Cpu → Trap → Cpu
unfolding hooked enter
do_trap hooks cpu trap =
    if is_interrupt trap then enter cpu trap else hooked (hooks trap.cause) cpu trap

-- `rv_do_iillegal`.
unfoldable pub do_iillegal : Hooks → Cpu → ℕ → Cpu
unfolding do_trap
do_iillegal hooks cpu insn =
    do_trap hooks cpu (record { epc = cpu.epc; cause = cause_iillegal; tval = insn })

-- `irq_priority`: MEI, MSI, MTI, SEI, SSI, STI.
abbrev pub irq_priority : List ℕ
irq_priority = 11 ∷ 3 ∷ 7 ∷ 9 ∷ 1 ∷ 5 ∷ []

-- The loop for the first interrupt of the list that is set.
unfoldable pub first_set : List ℕ → ℕ → Option ℕ
first_set [] take = none
first_set (irq ∷ rest) take =
    let later = first_set rest take in if truth (bit_and take (2 ^ irq)) then some irq else later

-- The interrupts of which one is taken, zero if none is.
unfoldable pub takeable : Cpu → ℕ
takeable cpu =
    let pending = bit_and cpu.irq_pending cpu.csr.mie in
    let m_pending = bit_and pending (not64 cpu.csr.mideleg) in
    let m_enabled = ltb cpu.privilege 3 || truth (bit_and (cpu.csr.mstatus >>> mie_bit) 1) in
    let s_pending = bit_and pending cpu.csr.mideleg in
    let s_enabled =
      ltb cpu.privilege 1
      || ((cpu.privilege == 1) && truth (bit_and (cpu.csr.mstatus >>> sie_bit) 1)) in
    if not (truth pending)
    then 0
    else if m_enabled && truth m_pending
    then m_pending
    else if s_enabled && truth s_pending
    then s_pending
    else 0

unfoldable pub take_irq : Hooks → Cpu → Option ℕ → Cpu
unfolding do_trap
take_irq hooks cpu none = cpu
take_irq hooks cpu (some irq) =
    do_trap hooks cpu (record { epc = cpu.pc; cause = bit_or intr_flag irq; tval = 0 })

-- `rv_check_interrupts`.
unfoldable pub check_interrupts : Hooks → Cpu → Cpu
unfolding takeable first_set take_irq
check_interrupts hooks cpu = take_irq hooks cpu (first_set irq_priority (takeable cpu))

-- `mret` in `rv_base_system`, in M-mode.
unfoldable pub mret : Cpu → Cpu
unfolding sync_mem_privilege
mret cpu =
    let mpie = bit_and (cpu.csr.mstatus >>> mpie_bit) 1 in
    let m1 = bit_and cpu.csr.mstatus (not64 (2 ^ mie_bit)) in
    let m2 = bit_or m1 (bit_or (mpie <<< mie_bit) (2 ^ mpie_bit)) in
    let privilege = bit_and (m2 >>> mpp_base_bit) 3 in
    let m3 = bit_and m2 (not64 (3 <<< mpp_base_bit)) in
    let m4 = if privilege == 3 then m3 else bit_and m3 (not64 (2 ^ mprv_bit)) in
    record (sync_mem_privilege
      (record cpu { csr = record (cpu.csr) { mstatus = m4 }; privilege = privilege })) {
        pc = cpu.csr.mepc;
      }

-- `sret` in `rv_base_system`, where it is allowed.
unfoldable pub sret : Cpu → Cpu
unfolding sync_mem_privilege
sret cpu =
    let spp = bit_and (cpu.csr.mstatus >>> spp_bit) 1 in
    let spie = bit_and (cpu.csr.mstatus >>> spie_bit) 1 in
    let m1 = bit_and cpu.csr.mstatus (not64 (2 ^ sie_bit)) in
    let m2 = bit_or m1 (spie <<< sie_bit) in
    let m3 = bit_and m2 (not64 (2 ^ spp_bit)) in
    let m4 = bit_or m3 (2 ^ spie_bit) in
    let m5 = bit_and m4 (not64 (2 ^ mprv_bit)) in
    record (sync_mem_privilege
      (record cpu { csr = record (cpu.csr) { mstatus = m5 }; privilege = spp })) {
        pc = cpu.csr.sepc;
      }

unfoldable pub sret_refused : Cpu → Bool
sret_refused cpu =
    ltb cpu.privilege 1 || ((cpu.privilege == 1) && truth (bit_and (cpu.csr.mstatus >>> tsr_bit) 1))
