-- ===== src/Lib.antt =====
-- riscmulator: an emulator of RV64 machines, in C. This library models its parts as functions of
-- explicit state and proves what they do.
--
-- Parts of the program, and the modules that model them:
--
--   Base    shared helpers: Boolean tests of numbers, lists with an index, machine words, bits.
--   Cpu     emulator/include/cpu/rv_cpu.h, rv_csr.h, rv_paging.h: the state of one hart (struct
--           rv_cpu with its control registers and TLB) and the register accessors.
--   Plic    emulator/src/device/rv_plic.c: the platform interrupt controller. Each operation
--           takes the controller and the list of harts (machine->cpus) and returns both, since
--           plic_update_harts drives the harts' interrupt lines.
--   Clint   emulator/src/device/rv_clint.c: timer and software interrupts. The reading of the
--           host's monotonic clock is an argument, in nanoseconds.
--   Tlb     emulator/src/cpu/rv_paging.c: flush and invalidation of the lookaside buffer.
--   Memory  emulator/include/emu_machine.h: the modes and results of accesses, and bytes.
--   Machine  emulator/src/emu_machine.c, emulator/include/emu_device.h: RAM, devices and harts of a
--           machine. Machine.Phys is rv_access_phys and rv_access_phys_partial; an access returns a
--           record of its result, the buffer and the machine after it.
--   Paging  emulator/src/cpu/rv_paging.c: the page walk, the lookup through the lookaside buffer and,
--           in Paging.Virt, rv_access_virt.
--   LoadStore  emulator/src/cpu/rv_impl/base.c: loads, stores and fences.
--   Atomics  emulator/src/cpu/rv_impl/atomics.c: LR, SC and the read-modify-write operations.
--   Float   emulator/src/cpu/rv_impl/float.c and emulator/include/cpu/rv_softfloat.h: Float.Env is the
--           environment, Float.Compare, Float.Arith and Float.Convert the operations, and Float.Ops
--           rv_float_op_fp and rv_float_fmadd.
--   Step    emulator/src/cpu/rv_cpu.c: fetch and dispatch; and the threads of
--           emulator/src/emu_machine.c as a relation of which a step is one round of one hart.
--   Platform  the PLIC and the CLINT as devices of a machine, and the way of an interrupt from a
--           device to the handler of a hart.
--   Csr     emulator/src/cpu/rv_csr.c: reads and writes of the control and status registers.
--   Trap    emulator/src/cpu/rv_privileged.c: trap entry, the choice of the interrupt to take; and
--           mret and sret of emulator/src/cpu/rv_impl/base.c. The trap hooks of the embedding
--           program are a parameter.
--   Insn    emulator/include/cpu/rv_insn.h and rv_decompress.h: instruction fields and encoders.
--   Decompress  emulator/src/cpu/rv_decompress.c: the expansion of 16-bit instructions;
--           Decompress.Reference has the tables of the manual that it is compared with.
--   MulDiv  emulator/src/cpu/rv_impl/muldiv.c: multiplication and division.
--   Alu     emulator/src/cpu/rv_impl/base.c: arithmetic, jumps and branches.
--   System  emulator/src/cpu/rv_impl/base.c: the SYSTEM instructions, which use Csr, Trap and Tlb.
--   Pmp     emulator/src/cpu/rv_pmp.c: the check of physical memory protection.
--
-- How the parts meet: the PLIC and the CLINT change irq_pending of the harts; the CSRs mip and sip
-- show it and clear part of it; a write of satp may flush the TLB; a write of mstatus recomputes
-- the privilege of memory accesses. Step fetches through Paging, which reads page tables through
-- Machine and asks Pmp; a load, a store or an atomic operation goes the same way; Machine hands an
-- access that is not to RAM to a device, which gets the state of the devices and the harts.
--
-- Conventions. A w-bit register is a natural number, and each operation that can leave the range
-- reduces it modulo 2 ^ w as the C type does. A C function that reports failure by its result
-- returns none, or the Boolean where it has stored an output before it fails. A loop over an
-- array is recursion on the number of rounds that are left, which is the number that the source
-- counts. Locks and memory orders are not modelled: an operation that holds a lock, or that is
-- one atomic access, is one step. An array access out of bounds is modelled where the source can
-- make one: the word that source 64 of the PLIC reaches behind the arrays of two words is part of
-- the state. A copy outside the array of RAM, and a write behind the 256 entries of a TLB, are
-- undefined in C: the model marks the machine by the field overran, does not copy, and says
-- nothing of what the host's memory then holds.
--
-- The functions of a machine take it with the index of the hart that runs, where the source has a
-- pointer to that hart, since a device may change the same hart. The loop of misaligned_access runs
-- on as much fuel as the access has bytes, since each round does at least one.
--
-- A floating-point number is its bits. The arithmetic of the host and of the softfloat library is a
-- parameter, whose operations take the rounding mode and give the flags that they raise, since each
-- instruction clears the flags first. The rounding mode that the host is in before an instruction is an
-- argument. What C defines on the bits (comparison, fmin, fmax, classification) is defined.
--
-- Not modelled: a trap hook that changes more than the hart that traps; an access of more than
-- 8 bytes to a device, which overflows a variable in C; allocation that fails and the release
-- of memory; the vector registers, which no code uses; the command line; the tests.
pub mod Base
pub mod Cpu
pub mod Plic
pub mod Clint
pub mod Tlb
pub mod Csr
pub mod Trap
pub mod Insn
pub mod Decompress
pub mod MulDiv
pub mod Alu
pub mod Pmp
pub mod System
pub mod Memory
pub mod Machine
pub mod Paging
pub mod LoadStore
pub mod Atomics
pub mod Step
pub mod Platform
pub mod Float
