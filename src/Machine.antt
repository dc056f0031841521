-- ===== src/Machine.antt =====
-- emulator/src/emu_machine.c, emulator/include/emu_machine.h and emu_device.h: the machine and the
-- accesses to its physical memory. `D` is the state of all devices; a device's callbacks are
-- functions of it and of the harts, whose interrupt lines they may drive.
pub mod Kept
pub mod Control
pub mod Phys
pub mod Frame
pub mod Spec
mod Examples
pub mod Ram
pub mod Safety
pub mod Parts
pub mod Shape
use riscmulator.Base.{
  ◌||◌, zero, suc, true, u8, length, ◌+◌, false, ltb, sub64, u64, ◌&&◌, ◌-◌, [], if◌then◌else◌, leb,
  none, replicate, some, Bool, List, Option, ℕ, ◌∷◌, ◌++◌,
}
use riscmulator.Memory.{
  is_ok, page_fault, access_fault, ok, Access, MemResult, is_store, load_bytes, store_bytes,
  overwrite, take, le_bytes, le_value,
}
use riscmulator.Cpu.{Cpu, zero_cpu, sync_mem_privilege}
use riscmulator.Cpu.Update.{hart, update_hart}
use riscmulator.Trap.{Hooks}
use riscmulator.Pmp.{pmp_check}
use riscmulator.Clint.{Clint}

-- `struct emu_mmio_region`: a read may fail, and has a value if it does not.
pub record Region (D : Type 0) : Type 0 where
  pub base : ℕ
  pub size : ℕ
  pub read : D → List Cpu → ℕ → ℕ → Option ℕ × D × List Cpu
  pub write : D → List Cpu → ℕ → ℕ → ℕ → Bool × D × List Cpu

-- `struct rv_reservation`.
pub record Reservation : Type 0 where
  pub addr : ℕ
  pub valid : Bool

-- `struct emu_machine`. `overran` is not of the source: it is set where the source copies from or
-- to a place outside the array `ram`, or writes behind the entries of a TLB.
pub record Machine (D : Type 0) : Type 0 where
  pub ram_start : ℕ
  pub ram_end : ℕ
  pub ram : List ℕ
  pub trap_hook : Hooks
  pub cpus : List Cpu
  pub reservations : List Reservation
  pub mmio : List (Region D)
  pub devices : D
  pub clint : D → Clint
  pub overran : Bool

-- The buffer that an access works on; none is the null pointer.
abbrev pub Buffer : Type 0
Buffer = Option (List ℕ)

-- What an access returns, the buffer after it, and the machine after it.
pub record Accessed (D : Type 0) : Type 0 where
  pub result : MemResult
  pub bytes : Buffer
  pub machine : Machine D

abbrev pub done : {D : Type 0} → MemResult → Buffer → Machine D → Accessed D
done result bytes machine = record { result = result; bytes = bytes; machine = machine }

abbrev pub hart_of : {D : Type 0} → Machine D → ℕ → Cpu
hart_of machine h = hart machine.cpus h

-- A change of the hart that runs, `*cpu`.
abbrev pub on_hart : {D : Type 0} → Machine D → ℕ → (Cpu → Cpu) → Machine D
on_hart machine h f = record machine { cpus = update_hart machine.cpus h f }

-- The loop of `emu_machine_init` over the harts, and the machine that it sets up. `calloc` does
-- not fail.
unfoldable pub init_hart : ℕ → Cpu
init_hart i =
    sync_mem_privilege
      (record (zero_cpu) { csr = record (zero_cpu.csr) { mhartid = i }; privilege = 3 })

unfoldable pub init_harts : ℕ → ℕ → List Cpu
init_harts zero i = []
init_harts (suc left) i = init_hart i ∷ init_harts left (i + 1)

unfoldable pub init : {D : Type 0} → Machine D → ℕ → ℕ → ℕ → Machine D
init machine cpu_count start size = record machine {
  cpus = init_harts cpu_count 0;
  reservations = replicate cpu_count (record { addr = 0; valid = false });
  ram = replicate size 0;
  ram_start = start;
  ram_end = u64 (start + size);
}

-- `emu_machine_add_mmio`, where `realloc` does not fail.
unfoldable pub add_mmio : {D : Type 0} → Machine D → Region D → Machine D
add_mmio machine region = record machine { mmio = machine.mmio ++ (region ∷ []) }

-- A copy between a buffer and RAM; the machine is marked where it would leave the array.
unfoldable pub copy_ram : {D : Type 0} → Machine D → ℕ → Buffer → ℕ → Access → Accessed D
copy_ram machine addr none size mode = done ok none machine
copy_ram machine addr (some bytes) size mode =
    let i = addr - machine.ram_start in
    if ltb addr machine.ram_start || ltb (length machine.ram) (i + size)
    then done ok (some bytes) (record machine { overran = true })
    else if is_store mode
    then done ok (some bytes) (record machine { ram = store_bytes machine.ram i (take size bytes) })
    else done ok (some (overwrite bytes (load_bytes machine.ram i size))) machine

-- `mmio_dispatch` after the callback.
unfoldable pub after_read :
    {D : Type 0} → Machine D → List ℕ → ℕ → Option ℕ × D × List Cpu → Accessed D
after_read machine bytes size (none, devices, cpus) =
    done access_fault (some bytes) (record machine { devices = devices; cpus = cpus })
after_read machine bytes size (some val, devices, cpus) =
    done ok (some (overwrite bytes (le_bytes size val)))
      (record machine { devices = devices; cpus = cpus })

unfoldable pub after_write : {D : Type 0} → Machine D → List ℕ → Bool × D × List Cpu → Accessed D
after_write machine bytes (accepted, devices, cpus) =
    done (if accepted then ok else access_fault) (some bytes)
      (record machine { devices = devices; cpus = cpus })

-- `mmio_dispatch`. The value in C has 8 bytes, and no part of the emulator asks for more.
unfoldable pub mmio_dispatch :
    {D : Type 0} → Machine D → Region D → ℕ → Buffer → ℕ → Access → Accessed D
mmio_dispatch machine r addr none size mode = done ok none machine
mmio_dispatch machine r addr (some bytes) size mode =
    if is_store mode
    then after_write machine bytes
        (r.write machine.devices machine.cpus (sub64 addr r.base) size (le_value (take size bytes)))
    else after_read machine bytes size
        (r.read machine.devices machine.cpus (sub64 addr r.base) size)

-- The search for the first region that satisfies a test.
unfoldable pub find_region : {D : Type 0} → (Region D → Bool) → List (Region D) → Option (Region D)
find_region test [] = none
find_region test (r ∷ rs) = let later = find_region test rs in if test r then some r else later

unfoldable pub holds_byte : {D : Type 0} → ℕ → Region D → Bool
holds_byte addr r = leb r.base addr && ltb addr (u64 (r.base + r.size))

unfoldable pub holds_all : {D : Type 0} → ℕ → ℕ → Region D → Bool
holds_all addr size r = leb r.base addr && leb (u64 (addr + size)) (u64 (r.base + r.size))

-- The size of the part of an access that ends at `end` at the latest.
unfoldable pub part_size : ℕ → ℕ → ℕ → ℕ
part_size addr size end = if ltb end (u64 (addr + size)) then sub64 end addr else size

-- One round of the loop of `misaligned_access`: how much it has done, and what came of it.
unfoldable pub region_round :
    {D : Type 0} → Machine D → ℕ → Buffer → ℕ → Access → Option (Region D) → ℕ × Accessed D
region_round machine addr bytes size mode none = (0, done access_fault bytes machine)
region_round machine addr bytes size mode (some r) =
    let part = part_size addr size (u64 (r.base + r.size)) in
    (part, mmio_dispatch machine r addr bytes (u8 part) mode)

unfoldable pub round : {D : Type 0} → Machine D → ℕ → Buffer → ℕ → Access → ℕ × Accessed D
round machine addr bytes size mode =
    if leb machine.ram_start addr && leb (u64 (addr + 1)) machine.ram_end
    then (let part = part_size addr size machine.ram_end in
        (part, copy_ram machine addr bytes part mode))
    else region_round machine addr bytes size mode (find_region (holds_byte addr) machine.mmio)

-- `misaligned_access`. The pointer `bytes` stays where it is from one part to the next, as in the
-- source. The fuel is for the rounds of the loop; none if it runs out.
unfoldable pub misaligned_access :
    {D : Type 0} → ℕ → Machine D → ℕ → Buffer → ℕ → Access → Option (Accessed D)
misaligned_access fuel machine addr bytes zero mode = some (done ok bytes machine)
misaligned_access zero machine addr bytes (suc n) mode = none
misaligned_access (suc fuel) machine addr bytes (suc n) mode =
    let r = round machine addr bytes (suc n) mode in
    let rest =
      misaligned_access fuel r.1.machine (u64 (addr + r.0)) r.1.bytes (sub64 (suc n) r.0) mode in
    if is_ok r.1.result then rest else some r.1
