-- ===== src/Csr/Write.antt =====
-- emulator/src/cpu/rv_csr.c: `rv_csr_write`.
use riscmulator.Base.{
  ℕ, zero, suc, ◌+◌, ◌-◌, ◌*◌, ◌/◌, bit_and, bit_or, ◌&&◌, not, Option, none, some, truth, ltb,
  ◌==◌, if◌then◌else◌, get_or, set, ◌<<<◌, ◌>>>◌, not64,
}
use riscmulator.Csr.Number.{
  Csr, csr_of_index, misa, mhartid, marchid, mvendorid, mimpid, mstatus, mie, mip, mideleg, medeleg,
  mtvec, mcause, mtval, mepc, mtinst, mscratch, sstatus, sie, sip, stvec, scause, stval, sepc,
  sscratch, satp, fcsr, fflags, frm, pmpcfg, pmpaddr,
}
use mathlib.Core.Option
use riscmulator.Cpu.{Cpu, CsrState, sync_mem_privilege, mpp_base_bit}
use riscmulator.Tlb.{flush_tlb}
use riscmulator.Csr.{
  mstatus_mask, sstatus_mask, sip_wmask, fflags_mask, frm_mask, fcsr_mask, fs_on, tvm_trap, packed,
  store_packed, match_mode, csr_priv,
}

abbrev pub with_csr : Cpu → CsrState → Cpu
with_csr cpu csr = record cpu { csr = csr }

-- A write of `mip` or `sip`: the compare-and-swap loop ends in one replacement of the masked
-- bits.
unfoldable pub write_pending : ℕ → ℕ → Cpu → Cpu
write_pending mask wdata cpu = record cpu {
  irq_pending = bit_or (bit_and cpu.irq_pending (not64 mask)) (bit_and wdata mask);
}

-- The write of `mstatus`. The second operand of `&` is the bit's number, 11, as in the source.
unfoldable pub write_mstatus : ℕ → Cpu → Cpu
unfolding sync_mem_privilege
write_mstatus wdata cpu = sync_mem_privilege (
    with_csr cpu (record (cpu.csr) {
      mstatus = bit_and (bit_or wdata (bit_and (wdata >>> 1) mpp_base_bit)) mstatus_mask;
    }))

unfoldable pub write_sstatus : ℕ → Cpu → Cpu
write_sstatus wdata cpu = with_csr cpu (record (cpu.csr) {
  mstatus = bit_or (bit_and cpu.csr.mstatus (not64 sstatus_mask)) (bit_and wdata sstatus_mask);
})

-- Only modes 0 (bare) and 8 (Sv39) are stored; leaving Sv39 flushes the TLB.
unfoldable pub write_satp : ℕ → Cpu → Cpu
unfolding flush_tlb
write_satp wdata cpu =
    let mode = bit_and wdata 0xf000000000000000 >>> 60 in
    if not (mode == 8) && not (mode == 0)
    then cpu
    else let flushed = if not (mode == 8) then flush_tlb cpu else cpu in
      with_csr flushed (record (flushed.csr) { satp = wdata })

-- One byte of a `pmpcfg` write: reserved bits are cleared, TOR becomes OFF and NA4 becomes NAPOT,
-- and a locked byte stays.
unfoldable pub pmpcfg_byte : ℕ → ℕ → ℕ
pmpcfg_byte old_byte wbyte =
    let new_byte = bit_and wbyte 0x9f in
    let a = match_mode new_byte in
    if truth (bit_and old_byte 0x80)
    then old_byte
    else bit_or (bit_and new_byte (255 - 0x18)) (if truth (bit_and a 2) then 0x18 else 0)

-- The loop over the eight bytes of a packed word, from byte `b` on.
unfoldable pub pmpcfg_result : ℕ → ℕ → ℕ → ℕ → ℕ → ℕ
pmpcfg_result zero b old wdata result = result
pmpcfg_result (suc left) b old wdata result =
    let old_byte = bit_and (old >>> (b * 8)) 0xff in
    let byte = pmpcfg_byte old_byte (wdata >>> (b * 8)) in
    pmpcfg_result left (b + 1) old wdata (bit_or result (byte <<< (b * 8)))

unfoldable pub write_pmpcfg : ℕ → ℕ → Cpu → Cpu
unfolding pmpcfg_result pmpcfg_byte packed store_packed
write_pmpcfg packed_idx wdata cpu =
    let old = packed cpu.csr.pmpcfg packed_idx in
    with_csr cpu (record (cpu.csr) {
      pmpcfg = store_packed cpu.csr.pmpcfg packed_idx (pmpcfg_result 8 0 old wdata 0);
    })

unfoldable pub write_pmpaddr : ℕ → ℕ → Cpu → Cpu
write_pmpaddr i wdata cpu =
    if truth (bit_and (get_or cpu.csr.pmpcfg i 0) 0x80)
    then cpu
    else with_csr cpu (record (cpu.csr) { pmpaddr = set cpu.csr.pmpaddr i wdata })

-- The branches of `rv_csr_write`. Writes of the read-only identification CSRs are ignored.
unfoldable pub write_csr : Cpu → Csr → ℕ → Option Cpu
unfolding write_pending write_mstatus write_sstatus write_satp write_pmpcfg write_pmpaddr fs_on
    tvm_trap
write_csr cpu misa wdata = some cpu
write_csr cpu mhartid wdata = some cpu
write_csr cpu marchid wdata = some cpu
write_csr cpu mvendorid wdata = some cpu
write_csr cpu mimpid wdata = some cpu
write_csr cpu mstatus wdata = some (write_mstatus wdata cpu)
write_csr cpu mie wdata = some (with_csr cpu (record (cpu.csr) { mie = wdata }))
write_csr cpu mip wdata = some (write_pending sip_wmask wdata cpu)
write_csr cpu mideleg wdata = some (with_csr cpu (record (cpu.csr) { mideleg = wdata }))
write_csr cpu medeleg wdata = some (with_csr cpu (record (cpu.csr) { medeleg = wdata }))
write_csr cpu mtvec wdata = some (with_csr cpu (record (cpu.csr) { mtvec = wdata }))
write_csr cpu mcause wdata = some (with_csr cpu (record (cpu.csr) { mcause = wdata }))
write_csr cpu mtval wdata = some (with_csr cpu (record (cpu.csr) { mtval = wdata }))
write_csr cpu mepc wdata = some (with_csr cpu (record (cpu.csr) { mepc = wdata }))
write_csr cpu mtinst wdata = some (with_csr cpu (record (cpu.csr) { mtinst = wdata }))
write_csr cpu mscratch wdata = some (with_csr cpu (record (cpu.csr) { mscratch = wdata }))
write_csr cpu sstatus wdata = some (write_sstatus wdata cpu)
write_csr cpu sie wdata = some (with_csr cpu (record (cpu.csr) { sie = wdata }))
write_csr cpu sip wdata = some (write_pending (bit_and cpu.csr.mideleg sip_wmask) wdata cpu)
write_csr cpu stvec wdata = some (with_csr cpu (record (cpu.csr) { stvec = wdata }))
write_csr cpu scause wdata = some (with_csr cpu (record (cpu.csr) { scause = wdata }))
write_csr cpu stval wdata = some (with_csr cpu (record (cpu.csr) { stval = wdata }))
write_csr cpu sepc wdata = some (with_csr cpu (record (cpu.csr) { sepc = wdata }))
write_csr cpu sscratch wdata = some (with_csr cpu (record (cpu.csr) { sscratch = wdata }))
write_csr cpu satp wdata = if tvm_trap cpu then none else some (write_satp wdata cpu)
write_csr cpu fcsr wdata =
    if fs_on cpu
    then some (with_csr cpu (record (cpu.csr) { fcsr = bit_and wdata fcsr_mask }))
    else none
write_csr cpu fflags wdata =
    if fs_on cpu
    then some (
        with_csr cpu (record (cpu.csr) {
          fcsr = bit_or (bit_and cpu.csr.fcsr (not64 fflags_mask)) (bit_and wdata fflags_mask);
        }))
    else none
write_csr cpu frm wdata =
    if fs_on cpu
    then some (
        with_csr cpu (record (cpu.csr) {
          fcsr =
              bit_or (bit_and cpu.csr.fcsr (not64 (frm_mask <<< 5))) (bit_and wdata frm_mask <<< 5);
        }))
    else none
write_csr cpu (pmpcfg i) wdata =
    if truth (bit_and i 1) then none else some (write_pmpcfg (i / 2) wdata cpu)
write_csr cpu (pmpaddr i) wdata = some (write_pmpaddr i wdata cpu)

-- `rv_csr_write`.
unfoldable pub csr_write : Cpu → ℕ → ℕ → Option Cpu
unfolding write_csr csr_of_index Option.bind
csr_write cpu index wdata =
    if ltb cpu.privilege (csr_priv index)
    then none
    else Option.bind (csr_of_index index) (λ c. write_csr cpu c wdata)
