-- ===== src/Step.antt =====
-- emulator/src/cpu/rv_cpu.c: fetch and dispatch of one instruction; and from
-- emulator/src/emu_machine.c the threads that run the harts.
pub mod Frame
mod Examples
pub mod Reach
use riscmulator.Atomics.{atomic_op}
use riscmulator.Base.{
  ◌<<<◌, bit_and, bit_or, not, ◌||◌, ◌≡◌, length, replicate, ◌+◌, ◌==◌, if◌then◌else◌, u64, ◌<◌, ℕ,
  false, Option, none, some,
}
use riscmulator.Decompress.{decompress}
use riscmulator.System.{base_system}
use riscmulator.LoadStore.{base_store, base_load, illegal}
use riscmulator.Memory.{is_ok, le_value, mem_cause, fetch}
use riscmulator.Cpu.{Cpu}
use riscmulator.Insn.{op_maj}
use riscmulator.Paging.Virt.{access_virt}
use riscmulator.Trap.{do_iillegal, do_trap, check_interrupts}
use riscmulator.Machine.{Machine, Accessed, hart_of, on_hart}
use riscmulator.Paging.{bytes_of}
use riscmulator.Clint.{check_timer}
use riscmulator.Alu.{base_op, base_jal, base_jalr, base_lui, base_branch}

-- The floating-point instructions, `rv_float_op_fp` and `rv_float_fmadd`, as functions of the
-- machine, the hart and the instruction.
pub record FloatOps (D : Type 0) : Type 0 where
  pub op_fp : Machine D → ℕ → ℕ → Machine D
  pub fmadd : Machine D → ℕ → ℕ → Machine D

-- `rv_base_miscmem`: a fence of the host has no effect on the state.
unfoldable pub base_miscmem : {D : Type 0} → Machine D → ℕ → ℕ → Machine D
base_miscmem machine h insn = machine

-- `rv_forcefeed_insn`.
unfoldable pub forcefeed : {D : Type 0} → FloatOps D → Machine D → ℕ → ℕ → Machine D
unfolding base_miscmem
forcefeed floats machine h insn =
    let maj = op_maj insn in
    let hook = machine.trap_hook in
    if (maj == 0b01100) || ((maj == 0b00100) || ((maj == 0b01110) || (maj == 0b00110)))
    then on_hart machine h (λ cpu. base_op hook cpu insn)
    else if (maj == 0b00000) || (maj == 0b00001)
    then base_load machine h insn
    else if (maj == 0b01000) || (maj == 0b01001)
    then base_store machine h insn
    else if maj == 0b11011
    then on_hart machine h (λ cpu. base_jal cpu insn)
    else if maj == 0b11001
    then on_hart machine h (λ cpu. base_jalr cpu insn)
    else if (maj == 0b01101) || (maj == 0b00101)
    then on_hart machine h (λ cpu. base_lui cpu insn)
    else if maj == 0b11100
    then on_hart machine h (λ cpu. base_system hook cpu insn)
    else if maj == 0b11000
    then on_hart machine h (λ cpu. base_branch hook cpu insn)
    else if maj == 0b00011
    then base_miscmem machine h insn
    else if maj == 0b01011
    then atomic_op machine h insn
    else if maj == 0b10100
    then floats.op_fp machine h insn
    else if (maj == 0b10000) || ((maj == 0b10011) || ((maj == 0b10001) || (maj == 0b10010)))
    then floats.fmadd machine h insn
    else illegal machine h insn

-- The trap of a fetch, at an address.
abbrev pub fetch_fault : {D : Type 0} → Accessed D → ℕ → ℕ → Machine D
fetch_fault accessed h tval = on_hart accessed.machine h (λ cpu.
    do_trap accessed.machine.trap_hook cpu
      (record { cause = mem_cause accessed.result fetch; epc = cpu.pc; tval = tval }))

-- `epc` and `pc` moved on past an instruction of a size.
abbrev pub advance : ℕ → Cpu → Cpu
advance size cpu = record cpu { epc = cpu.pc; pc = u64 (cpu.pc + size) }

-- Execution of a fetched instruction, and the check for interrupts.
unfoldable pub execute : {D : Type 0} → FloatOps D → Machine D → ℕ → ℕ → ℕ → Machine D
unfolding forcefeed
execute floats machine h size insn =
    let after = forcefeed floats (on_hart machine h (advance size)) h insn in
    on_hart after h (check_interrupts after.trap_hook)

-- A compressed instruction; what does not decompress is illegal.
unfoldable pub step_compressed :
    {D : Type 0} → FloatOps D → Machine D → ℕ → ℕ → Option ℕ → Machine D
unfolding execute
step_compressed floats machine h hw none =
    on_hart machine h (λ cpu. do_iillegal machine.trap_hook (record cpu { epc = cpu.pc }) hw)
step_compressed floats machine h hw (some insn) = execute floats machine h 2 insn

-- A full instruction, with the fetch of its upper half.
unfoldable pub step_full : {D : Type 0} → FloatOps D → Machine D → ℕ → ℕ → Machine D
unfolding execute
step_full floats machine h hw =
    let pc2 = u64 ((hart_of machine h).pc + 2) in
    let upper = access_virt machine h pc2 (replicate 2 0) 1 fetch in
    let hw2 = le_value (bytes_of upper.bytes) in
    if is_ok upper.result
    then execute floats upper.machine h 4 (bit_or hw (hw2 <<< 16))
    else fetch_fault upper h pc2

-- `rv_step_insn`.
unfoldable pub step : {D : Type 0} → FloatOps D → Machine D → ℕ → Machine D
unfolding step_compressed step_full
step floats machine h =
    let pc = (hart_of machine h).pc in
    let lower = access_virt machine h pc (replicate 2 0) 1 fetch in
    let hw = le_value (bytes_of lower.bytes) in
    if not (is_ok lower.result)
    then fetch_fault lower h pc
    else if bit_and hw 3 == 3
    then step_full floats lower.machine h hw
    else step_compressed floats lower.machine h hw (decompress hw)

-- One round of the loop of `cpu_thread`, at a reading of the host's clock.
unfoldable pub thread_round : {D : Type 0} → FloatOps D → ℕ → Machine D → ℕ → Machine D
unfolding step
thread_round floats now machine h =
    let after = step floats machine h in
    if (hart_of after h).clint_timer_armed
    then on_hart after h (check_timer now (after.clint after.devices))
    else after

-- `emu_machine_run`: the threads of the harts that are not halted take their rounds in any order.
pub data Turn {D : Type 0} (floats : FloatOps D) : Machine D → Machine D → Type 0 where
  turn :
      (machine : Machine D) (h now : ℕ)
      → h < length machine.cpus
      → (hart_of machine h).halted ≡ false
      → Turn floats machine (thread_round floats now machine h)
