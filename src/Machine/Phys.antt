-- ===== src/Machine/Phys.antt =====
-- emulator/src/emu_machine.c: the accesses to physical memory.
use riscmulator.Machine.{
  is_ok, Region, pmp_check, Buffer, Machine, Accessed, done, hart_of, copy_ram, misaligned_access,
  mmio_dispatch, find_region, holds_all,
}
use riscmulator.Memory.{is_ok, Access, fetch, amo, load, store, ok, access_fault}
use riscmulator.Base.{
  ◌+◌, bit_and, u64, ◌%◌, not, truth, u8, ◌&&◌, ◌==◌, if◌then◌else◌, leb, ◌^◌, Bool, List, ℕ,
  Option, none, some,
}
use riscmulator.Pmp.{pmp_check}

-- The bit of a PMP entry that an access needs.
abbrev pub pmp_bit : Access → ℕ
pmp_bit fetch = 2
pmp_bit amo = 1
pmp_bit load = 0
pmp_bit store = 1

-- `do_pmp_check`: whether the check passes.
unfoldable pub pmp_allows : {D : Type 0} → Machine D → ℕ → ℕ → ℕ → Access → Bool
pmp_allows machine h addr size mode =
    let perm = pmp_check (hart_of machine h) addr size ((hart_of machine h).privilege == 3) in
    truth (bit_and perm (2 ^ pmp_bit mode))

-- The result of `misaligned_access`, whose fuel suffices, so the first argument is not used.
abbrev pub finished : {D : Type 0} → Accessed D → Option (Accessed D) → Accessed D
finished otherwise none = otherwise
finished otherwise (some accessed) = accessed

abbrev pub in_parts : {D : Type 0} → Machine D → ℕ → Buffer → ℕ → Access → Accessed D
in_parts machine addr bytes size mode =
    finished (done access_fault bytes machine) (misaligned_access size machine addr bytes size mode)

-- The two passes: the first with a null pointer, to check, the second to commit.
unfoldable pub two_passes : {D : Type 0} → Machine D → ℕ → List ℕ → ℕ → Access → Accessed D
two_passes machine addr bytes size mode =
    let first = in_parts machine addr none size mode in
    if is_ok first.result
    then in_parts first.machine addr (some bytes) size mode
    else done first.result (some bytes) first.machine

-- `rv_access_phys_partial`.
unfoldable pub access_phys_partial :
    {D : Type 0} → Machine D → ℕ → ℕ → List ℕ → ℕ → Access → Bool → Accessed D
unfolding pmp_allows two_passes
access_phys_partial machine h addr bytes size mode ignore_pmp =
    if not ignore_pmp && not (pmp_allows machine h addr size mode)
    then done access_fault (some bytes) machine
    else two_passes machine addr bytes size mode

-- The dispatch of an aligned access to the region that holds all of it.
unfoldable pub whole_region :
    {D : Type 0} → Machine D → ℕ → List ℕ → ℕ → Access → Option (Region D) → Accessed D
whole_region machine addr bytes size mode none = done access_fault (some bytes) machine
whole_region machine addr bytes size mode (some r) =
    mmio_dispatch machine r addr (some bytes) (u8 size) mode

-- Whether the fast path for RAM takes an access.
unfoldable pub in_ram : {D : Type 0} → Machine D → ℕ → ℕ → Bool
in_ram machine addr size = leb machine.ram_start addr && leb (u64 (addr + size)) machine.ram_end

-- `rv_access_phys` once the PMP check has passed. Sizes above 8 bytes have no case in the fast
-- path.
unfoldable pub dispatch : {D : Type 0} → Machine D → ℕ → List ℕ → ℕ → Access → Accessed D
unfolding in_ram two_passes whole_region
dispatch machine addr bytes size_exp mode =
    let size = 2 ^ size_exp in
    if in_ram machine addr size
    then (if leb size_exp 3
        then copy_ram machine addr (some bytes) size mode
        else done ok (some bytes) machine)
    else if truth (addr % size)
    then two_passes machine addr bytes size mode
    else whole_region machine addr bytes size mode (find_region (holds_all addr size) machine.mmio)

-- `rv_access_phys`.
unfoldable pub access_phys :
    {D : Type 0} → Machine D → ℕ → ℕ → List ℕ → ℕ → Access → Bool → Accessed D
unfolding pmp_allows dispatch
access_phys machine h addr bytes size_exp mode ignore_pmp =
    if not ignore_pmp && not (pmp_allows machine h addr (2 ^ size_exp) mode)
    then done access_fault (some bytes) machine
    else dispatch machine addr bytes size_exp mode
