-- ===== src/System/Outcome.antt =====
-- How SYSTEM instructions end.
use riscmulator.Base.{
  if◌then◌else◌, inl, ◌>>>◌, bit_and, ltb, some, ◌&&◌, ◌==◌, inr, truth, ◌⊎◌, ℕ, ◌≡◌, ◌≢◌, ==_iff,
  arith, if-elim,
}
use riscmulator.System.{
  ecall_cause, sfence_refused, sret_refused, csr_read, funct3_of, raise, base_system, do_csr,
  sfence,
}
use riscmulator.Insn.{rd_of, uimm12, rs1_of, funct3_of}
use riscmulator.Trap.{sret_refused, Hooks, do_iillegal}
use riscmulator.Csr.{csr_read}
use riscmulator.Base.Bits.{bit, bit_le_one, bit_and-shr-one}
use riscmulator.Cpu.{Cpu, xreg_write}

-- How an instruction ends in U-mode: WFI, unless the bit TW of mstatus refuses it, leaves the hart
-- as it is; ECALL traps as an environment call from U-mode, EBREAK as a breakpoint; what is none of
-- these, and a WFI that is refused, is illegal, with the instruction as the value of the trap.
pub data EndsInTrap (hooks : Hooks) (cpu : Cpu) (insn : ℕ) : Cpu → Type 0 where
  waits : insn ≡ 0x10500073 → bit cpu.csr.mstatus 21 ≡ 0 → EndsInTrap hooks cpu insn cpu
  calls : insn ≡ 0x00000073 → EndsInTrap hooks cpu insn (raise hooks cpu 8 0)
  breaks : insn ≡ 0x00100073 → EndsInTrap hooks cpu insn (raise hooks cpu 3 0)
  is_illegal :
      insn ≢ 0x00000073
      → insn ≢ 0x00100073
      → (insn ≢ 0x10500073) ⊎ (bit cpu.csr.mstatus 21 ≡ 1)
      → EndsInTrap hooks cpu insn (raise hooks cpu 2 insn)

refused :
    (hooks : Hooks) (cpu : Cpu) (insn : ℕ)
    → insn ≢ 0x00000073
    → insn ≢ 0x00100073
    → (insn ≢ 0x10500073) ⊎ (bit cpu.csr.mstatus 21 ≡ 1)
    → EndsInTrap hooks cpu insn (do_iillegal hooks cpu insn)
unfolding do_iillegal
refused hooks cpu insn p q r = is_illegal p q r

wfi-EndsInTrap :
    (hooks : Hooks) (cpu : Cpu) (insn : ℕ)
    → cpu.privilege ≡ 0
    → insn ≡ 0x10500073
    → EndsInTrap hooks cpu insn (
        if ltb cpu.privilege 3 && truth (bit_and (cpu.csr.mstatus >>> 21) 1)
        then do_iillegal hooks cpu insn
        else cpu)
wfi-EndsInTrap hooks cpu insn user e =
    let at = bit_and-shr-one cpu.csr.mstatus 21 in
    if-elim (EndsInTrap hooks cpu insn)
      (ltb cpu.privilege 3 && truth (bit_and (cpu.csr.mstatus >>> 21) 1))
      (λ set.
        refused hooks cpu insn (λ z. omega (arith, e, z)) (λ z. omega (arith, e, z))
          (inr (ground (arith, at, bit_le_one cpu.csr.mstatus 21))))
      (λ clear. waits e (ground (arith, at, user, bit_le_one cpu.csr.mstatus 21)))

ecall-EndsInTrap :
    (hooks : Hooks) (cpu : Cpu) (insn : ℕ)
    → cpu.privilege ≡ 0
    → insn ≡ 0x00000073
    → EndsInTrap hooks cpu insn (raise hooks cpu (ecall_cause cpu.privilege) 0)
ecall-EndsInTrap hooks cpu insn user e = rw user (calls e)

-- In U-mode the SYSTEM instructions other than the CSR instructions end like this: a WFI that TW
-- permits does nothing, ECALL and EBREAK trap with their causes, and every other one, the returns
-- from traps and the fence among them, is an illegal instruction.
pub base_system-EndsInTrap :
    (hooks : Hooks) (cpu : Cpu) (insn : ℕ)
    → cpu.privilege ≡ 0
    → funct3_of insn ≡ 0
    → EndsInTrap hooks cpu insn (base_system hooks cpu insn)
unfolding base_system
base_system-EndsInTrap hooks cpu insn user plain =
    if-elim Ends (truth (funct3_of insn)) (λ e. absurd (ground (arith, e)))
      λ _.
        if-elim Ends ((insn == 0x30200073) && (cpu.privilege == 3))
          (λ e. absurd (ground (arith, e)))
          λ _.
            if-elim Ends (insn == 0x10200073)
              (λ is_sret.
                let e = (==_iff insn 0x10200073).0 is_sret in
                if-elim Ends (sret_refused cpu)
                  (λ _.
                    refused hooks cpu insn (λ z. omega (arith, e, z)) (λ z. omega (arith, e, z))
                      (inl (λ z. omega (arith, e, z))))
                  λ e. absurd (unfold sret_refused in ground (arith, e)))
              λ _.
                if-elim Ends (insn == 0x10500073)
                  (λ is_wfi. wfi-EndsInTrap hooks cpu insn user ((==_iff insn 0x10500073).0 is_wfi))
                  λ no_wfi.
                    if-elim Ends (insn >>> 25 == 0x09)
                      (λ is_fence. fence ((==_iff (insn >>> 25) 0x09).0 is_fence))
                      λ _.
                        if-elim Ends (insn == 0x00000073)
                          (λ is_ecall.
                            ecall-EndsInTrap hooks cpu insn user
                              ((==_iff insn 0x00000073).0 is_ecall))
                          λ no_ecall.
                            if-elim Ends (insn == 0x00100073)
                              (λ is_ebreak. breaks ((==_iff insn 0x00100073).0 is_ebreak))
                              λ no_ebreak.
                                is_illegal (λ z. ground (arith, z)) (λ z. ground (arith, z))
                                  (inl (λ z. ground (arith, z)))
  where
    Ends : Cpu → Type 0
    Ends = EndsInTrap hooks cpu insn

    fence : insn >>> 25 ≡ 0x09 → EndsInTrap hooks cpu insn (sfence hooks cpu insn)
    fence e =
        unfold sfence in
        if-elim Ends (sfence_refused cpu)
          (λ _.
            refused hooks cpu insn (λ z. omega (arith, e, z)) (λ z. omega (arith, e, z))
              (inl (λ z. omega (arith, e, z))))
          λ e. absurd (unfold sfence_refused in ground (arith, e))

-- CSRRS with x0 as its operand, the read of a CSR, writes what the CSR holds to its destination
-- and changes nothing else.
pub do_csr-csrr :
    (hooks : Hooks) (cpu : Cpu) (insn value : ℕ)
    → funct3_of insn ≡ 2
    → rs1_of insn ≡ 0
    → csr_read cpu (uimm12 insn) ≡ some value
    → do_csr hooks cpu insn ≡ xreg_write cpu (rd_of insn) value
unfolding do_csr
do_csr-csrr hooks cpu insn value op zero_operand reads = ground (arith, op, zero_operand, reads)
