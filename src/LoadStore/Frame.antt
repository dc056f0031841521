-- ===== src/LoadStore/Frame.antt =====
-- Loads and stores, emulator/src/cpu/rv_impl/base.c, keep the shape of the machine.
use riscmulator.LoadStore.{
  load_addr, store_addr, le_bytes, access_virt, load_size, fp_refused, op_maj, Cpu, mem_fault,
  Access, base_load, base_store, is_ok, load_from, stored, loaded,
}
use riscmulator.Memory.{le_bytes, Access, is_ok, load, store}
use riscmulator.Insn.{rs2_of, funct3_of, op_maj}
use riscmulator.Paging.Frame.{access_virt-SameShape}
use riscmulator.Base.{
  replicate, if◌then◌else◌, ◌&&◌, bit_and, truth, ℕ, Option, none, some, if-elim,
}
use riscmulator.Cpu.{freg_read, xreg_read, Cpu}
use riscmulator.Paging.Virt.{access_virt}
use riscmulator.Machine.Shape.{SameShape-on_hart, SameShape, SameShape-trans, AllTame}
use riscmulator.Machine.{Machine, Accessed, hart_of}

pub mem_fault-SameShape :
    {D : Type 0} {m : Machine D} (accessed : Accessed D) (h addr : ℕ) (mode : Access)
    → SameShape m accessed.machine
    → SameShape m (mem_fault accessed h addr mode)
mem_fault-SameShape accessed h addr mode went =
    SameShape-trans went (SameShape-on_hart accessed.machine h _)

loaded-SameShape :
    {D : Type 0} {m : Machine D} (h insn addr : ℕ) (accessed : Accessed D)
    → SameShape m accessed.machine
    → SameShape m (loaded h insn addr accessed)
unfolding loaded
loaded-SameShape {m = m} h insn addr accessed went =
    if-elim (SameShape m) (is_ok accessed.result)
      (λ _. SameShape-trans went (SameShape-on_hart accessed.machine h _))
      (λ _. mem_fault-SameShape accessed h addr load went)

load_from-SameShape :
    {D : Type 0} (m : Machine D) (h insn : ℕ) (size : Option ℕ)
    → AllTame m.mmio
    → SameShape m (load_from m h insn size)
unfolding load_from
load_from-SameShape m h insn none tame = SameShape-on_hart m h _
load_from-SameShape m h insn (some size_exp) tame =
    let addr = load_addr (hart_of m h) insn in
    loaded-SameShape h insn addr (access_virt m h addr (replicate 8 0) size_exp load)
      (access_virt-SameShape m h addr (replicate 8 0) size_exp load tame)

pub base_load-SameShape :
    {D : Type 0} (m : Machine D) (h insn : ℕ) → AllTame m.mmio → SameShape m (base_load m h insn)
unfolding base_load
base_load-SameShape m h insn tame =
    if-elim (SameShape m) (truth (bit_and (op_maj insn) 1) && fp_refused (hart_of m h) insn)
      (λ _. SameShape-on_hart m h _)
      (λ _. load_from-SameShape m h insn (load_size (funct3_of insn)) tame)

stored-SameShape :
    {D : Type 0} {m : Machine D} (h addr : ℕ) (accessed : Accessed D)
    → SameShape m accessed.machine
    → SameShape m (stored h addr accessed)
unfolding stored
stored-SameShape {m = m} h addr accessed went =
    if-elim (SameShape m) (is_ok accessed.result) (λ _. went)
      (λ _. mem_fault-SameShape accessed h addr store went)

pub base_store-SameShape :
    {D : Type 0} (m : Machine D) (h insn : ℕ) → AllTame m.mmio → SameShape m (base_store m h insn)
unfolding base_store
base_store-SameShape m h insn tame =
    if-elim (SameShape m) (truth (bit_and (op_maj insn) 1) && fp_refused (hart_of m h) insn)
      (λ _. SameShape-on_hart m h _)
      (λ _.
        stored-SameShape h addr (access_virt m h addr (le_bytes 8 wdata) size_exp store)
          (access_virt-SameShape m h addr (le_bytes 8 wdata) size_exp store tame))
  where
    cpu : Cpu
    cpu = hart_of m h

    addr : ℕ
    addr = store_addr cpu insn

    wdata : ℕ
    wdata =
        if truth (bit_and (op_maj insn) 1)
        then freg_read cpu (rs2_of insn)
        else xreg_read cpu (rs2_of insn)

    size_exp : ℕ
    size_exp = bit_and (funct3_of insn) 3
