-- ===== src/Machine/Safety.antt =====
-- Accesses to physical memory in emulator/src/emu_machine.c stay inside the array of RAM.
use riscmulator.Base.{
  subst, sub64, ◌%◌, not, truth, u8, Bool, if-elim, true, u64, none, ◌&&◌, leb, some, ◌-◌, Option,
  ◌^◌, length, ℕ, ◌≡◌, ◌≤◌, ◌<◌, ◌+◌, ◌∙◌, arith, refl, List, zero, suc,
}
use riscmulator.Machine.Shape.{still_tame, AllTame, SameShape}
use riscmulator.Machine.{
  access_fault, holds_all, is_ok, done, misaligned_access, holds_byte, find_region, Cpu, Access,
  after_write, after_read, copy_ram, mmio_dispatch, part_size, region_round, round, Machine, Region,
  Accessed, Buffer,
}
use riscmulator.Memory.{is_ok, load, store, fetch, amo, Access}
use riscmulator.Machine.Frame.{in_parts-SameShape}
use riscmulator.Machine.Parts.{round-IsRound, IsRound}
use riscmulator.Machine.Phys.{
  pmp_allows, finished, in_parts, access_phys, dispatch, in_ram, two_passes, whole_region,
}
use riscmulator.Cpu.{Cpu}

-- RAM lies where the bounds say, below the end of the address space.
pub record IsSized {D : Type 0} (m : Machine D) : Type 0 where
  pub bounds : m.ram_start + length m.ram ≡ m.ram_end
  pub below : m.ram_end < 2 ^ 64

pub SameShape-IsSized : {D : Type 0} {m n : Machine D} → SameShape m n → IsSized m → IsSized n
SameShape-IsSized same sized = record {
  bounds = omega (arith, same.start, same.end, same.size, sized.bounds);
  below = omega (arith, same.end, sized.below);
}

-- A copy inside RAM does not mark the machine.
pub copy_ram-overran :
    {D : Type 0} (m : Machine D) (addr : ℕ) (bytes : Buffer) (size : ℕ) (mode : Access)
    → (m.ram_start ≤ addr) × (addr - m.ram_start + size ≤ length m.ram)
    → (copy_ram m addr bytes size mode).machine.overran ≡ m.overran
unfolding copy_ram
copy_ram-overran m addr none size mode inside = refl
copy_ram-overran m addr (some bytes) size load inside = ground arith
copy_ram-overran m addr (some bytes) size fetch inside = ground arith
copy_ram-overran m addr (some bytes) size amo inside = ground arith
copy_ram-overran m addr (some bytes) size store inside = ground arith

after_read-overran :
    {D : Type 0} (m : Machine D) (bytes : List ℕ) (size : ℕ) (answer : Option ℕ × D × List Cpu)
    → (after_read m bytes size answer).machine.overran ≡ m.overran
unfolding after_read
after_read-overran m bytes size (none, devices, cpus) = refl
after_read-overran m bytes size (some val, devices, cpus) = refl

mmio_dispatch-overran :
    {D : Type 0} (m : Machine D) (r : Region D) (addr : ℕ) (bytes : Buffer) (size : ℕ)
    (mode : Access)
    → (mmio_dispatch m r addr bytes size mode).machine.overran ≡ m.overran
unfolding mmio_dispatch after_write
mmio_dispatch-overran m r addr none size mode = refl
mmio_dispatch-overran m r addr (some bytes) size fetch = after_read-overran m bytes size _
mmio_dispatch-overran m r addr (some bytes) size amo = after_read-overran m bytes size _
mmio_dispatch-overran m r addr (some bytes) size load = after_read-overran m bytes size _
mmio_dispatch-overran m r addr (some bytes) size store = refl

region_round-overran :
    {D : Type 0} (m : Machine D) (addr : ℕ) (bytes : Buffer) (size : ℕ) (mode : Access)
    (region : Option (Region D))
    → (region_round m addr bytes size mode region).1.machine.overran ≡ m.overran
unfolding region_round
region_round-overran m addr bytes size mode none = refl
region_round-overran m addr bytes size mode (some r) = mmio_dispatch-overran m r addr bytes _ mode

-- A part in RAM ends at its end at the latest.
part_size-inside :
    (addr size end : ℕ)
    → addr < end
    → addr + size < 2 ^ 64
    → end < 2 ^ 64
    → addr + part_size addr size end ≤ end
unfolding part_size
part_size-inside addr size end lo fits hi = ground arith

round-overran :
    {D : Type 0} (m : Machine D) (addr : ℕ) (bytes : Buffer) (size : ℕ) (mode : Access)
    → IsSized m
    → addr + size < 2 ^ 64
    → 0 < size
    → (round m addr bytes size mode).1.machine.overran ≡ m.overran
unfolding round
round-overran {D = D} m addr bytes size mode sized fits pos =
    if-elim (λ (r : ℕ × Accessed D). r.1.machine.overran ≡ m.overran)
      (leb m.ram_start addr && leb (u64 (addr + 1)) m.ram_end)
      (λ h. copy_ram-overran m addr bytes (part_size addr size m.ram_end) mode (inside h))
      (λ _. region_round-overran m addr bytes size mode (find_region (holds_byte addr) m.mmio))
  where
    inside :
        leb m.ram_start addr && leb (u64 (addr + 1)) m.ram_end ≡ true
        → (m.ram_start ≤ addr) × (addr - m.ram_start + part_size addr size m.ram_end ≤ length m.ram)
    inside h = (
      ground arith,
      ground (
        arith,
        sized.bounds,
        part_size-inside addr size m.ram_end (ground (arith, sized.below)) fits sized.below,
      ),
    )

-- A result, if there is one, is not marked unless the machine was before.
data Keeps {D : Type 0} (before : Bool) : Option (Accessed D) → Type 0 where
  no_result : Keeps before none
  a_result : {a : Accessed D} → a.machine.overran ≡ before → Keeps before (some a)

finished-overran :
    {D : Type 0} {before : Bool} (otherwise : Accessed D) (o : Option (Accessed D))
    → otherwise.machine.overran ≡ before
    → Keeps before o
    → (finished otherwise o).machine.overran ≡ before
finished-overran otherwise none same no_result = same
finished-overran otherwise (some a) same (a_result e) = e

misaligned_access-Keeps :
    {D : Type 0} (fuel : ℕ) (m : Machine D) (addr : ℕ) (bytes : Buffer) (size : ℕ) (mode : Access)
    → IsSized m
    → AllTame m.mmio
    → addr + size < 2 ^ 64
    → size < 2 ^ 63
    → Keeps m.overran (misaligned_access fuel m addr bytes size mode)
unfolding misaligned_access
misaligned_access-Keeps fuel m addr bytes zero mode sized tame fits small = a_result refl
misaligned_access-Keeps zero m addr bytes (suc n) mode sized tame fits small = no_result
misaligned_access-Keeps {D = D} (suc fuel) m addr bytes (suc n) mode sized tame fits small =
    if-elim (Keeps m.overran) (is_ok r.1.result)
      (λ h.
        let part = good.progress h in
        subst (λ (b : Bool). Keeps b rest) unmarked
          (misaligned_access-Keeps fuel r.1.machine (u64 (addr + r.0)) r.1.bytes (sub64 (suc n) r.0)
            mode (SameShape-IsSized good.shape sized) (still_tame good.shape tame)
            (omega (arith, part.0, part.1)) (omega (arith, part.0, part.1))))
      (λ _. a_result unmarked)
  where
    r : ℕ × Accessed D
    r = round m addr bytes (suc n) mode

    good : IsRound m (suc n) r
    good =
        round-IsRound m addr bytes (suc n) mode sized.below tame (omega arith) (omega arith) small

    unmarked : r.1.machine.overran ≡ m.overran
    unmarked = round-overran m addr bytes (suc n) mode sized fits (omega arith)

    rest : Option (Accessed D)
    rest = misaligned_access fuel r.1.machine (u64 (addr + r.0)) r.1.bytes (sub64 (suc n) r.0) mode

in_parts-overran :
    {D : Type 0} (m : Machine D) (addr : ℕ) (bytes : Buffer) (size : ℕ) (mode : Access)
    → IsSized m
    → AllTame m.mmio
    → addr + size < 2 ^ 64
    → size < 2 ^ 63
    → (in_parts m addr bytes size mode).machine.overran ≡ m.overran
in_parts-overran m addr bytes size mode sized tame fits small =
    finished-overran (done access_fault bytes m) (misaligned_access size m addr bytes size mode)
      refl (misaligned_access-Keeps size m addr bytes size mode sized tame fits small)

pub two_passes-overran :
    {D : Type 0} (m : Machine D) (addr : ℕ) (bytes : List ℕ) (size : ℕ) (mode : Access)
    → IsSized m
    → AllTame m.mmio
    → addr + size < 2 ^ 64
    → size < 2 ^ 63
    → (two_passes m addr bytes size mode).machine.overran ≡ m.overran
unfolding two_passes
two_passes-overran {D = D} m addr bytes size mode sized tame fits small =
    if-elim (λ (a : Accessed D). a.machine.overran ≡ m.overran) (is_ok first.result)
      (λ _.
        in_parts-overran first.machine addr (some bytes) size mode (SameShape-IsSized same sized)
          (still_tame same tame) fits small
        ∙ checked)
      (λ _. checked)
  where
    first : Accessed D
    first = in_parts m addr none size mode

    same : SameShape m first.machine
    same = in_parts-SameShape m addr none size mode tame

    checked : first.machine.overran ≡ m.overran
    checked = in_parts-overran m addr none size mode sized tame fits small

whole_region-overran :
    {D : Type 0} (m : Machine D) (addr : ℕ) (bytes : List ℕ) (size : ℕ) (mode : Access)
    (region : Option (Region D))
    → (whole_region m addr bytes size mode region).machine.overran ≡ m.overran
unfolding whole_region
whole_region-overran m addr bytes size mode none = refl
whole_region-overran m addr bytes size mode (some r) =
    mmio_dispatch-overran m r addr (some bytes) (u8 size) mode

pub in_ram-inside :
    {D : Type 0} (m : Machine D) (addr size : ℕ)
    → IsSized m
    → addr + size < 2 ^ 64
    → in_ram m addr size ≡ true
    → (m.ram_start ≤ addr) × (addr - m.ram_start + size ≤ length m.ram)
unfolding in_ram
in_ram-inside m addr size sized fits h = (ground arith, ground (arith, sized.bounds, sized.below))

dispatch-overran :
    {D : Type 0} (m : Machine D) (addr : ℕ) (bytes : List ℕ) (size_exp : ℕ) (mode : Access)
    → IsSized m
    → AllTame m.mmio
    → addr + 2 ^ size_exp < 2 ^ 64
    → 2 ^ size_exp < 2 ^ 63
    → (dispatch m addr bytes size_exp mode).machine.overran ≡ m.overran
unfolding dispatch
dispatch-overran {D = D} m addr bytes size_exp mode sized tame fits small =
    if-elim same (in_ram m addr (2 ^ size_exp))
      (λ inside.
        if-elim same (leb size_exp 3)
          (λ _.
            copy_ram-overran m addr (some bytes) (2 ^ size_exp) mode
              (in_ram-inside m addr (2 ^ size_exp) sized fits inside))
          (λ _. refl))
      (λ _.
        if-elim same (truth (addr % 2 ^ size_exp))
          (λ _. two_passes-overran m addr bytes (2 ^ size_exp) mode sized tame fits small)
          (λ _.
            whole_region-overran m addr bytes (2 ^ size_exp) mode
              (find_region (holds_all addr (2 ^ size_exp)) m.mmio)))
  where
    same : Accessed D → Type 0
    same a = a.machine.overran ≡ m.overran

-- An access to physical memory that ends below the end of the 64-bit address space never touches
-- the host's memory outside the array of RAM: aligned or in parts, with or without devices.
pub access_phys-overran :
    {D : Type 0} (m : Machine D) (h addr : ℕ) (bytes : List ℕ) (size_exp : ℕ) (mode : Access)
    (ignore_pmp : Bool)
    → IsSized m
    → AllTame m.mmio
    → addr + 2 ^ size_exp < 2 ^ 64
    → 2 ^ size_exp < 2 ^ 63
    → (access_phys m h addr bytes size_exp mode ignore_pmp).machine.overran ≡ m.overran
unfolding access_phys
access_phys-overran {D = D} m h addr bytes size_exp mode ignore_pmp sized tame fits small =
    if-elim (λ (a : Accessed D). a.machine.overran ≡ m.overran)
      (not ignore_pmp && not (pmp_allows m h addr (2 ^ size_exp) mode)) (λ _. refl)
      (λ _. dispatch-overran m addr bytes size_exp mode sized tame fits small)
