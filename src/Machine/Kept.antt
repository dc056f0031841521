-- ===== src/Machine/Kept.antt =====
-- What accesses to physical memory in emulator/src/emu_machine.c keep: all that copies to and from
-- RAM and the callbacks of the devices keep.
use riscmulator.Base.{
  ◌||◌, refl, refl, zero, sub64, true, ◌%◌, truth, u8, ◌+◌, ◌-◌, length, u64, ◌&&◌, ◌^◌, ◌≡◌, leb,
  ltb, none, not, Bool, if-elim, suc, List, some, Option, ℕ,
}
use riscmulator.Machine.{
  holds_all, holds_byte, is_store, part_size, mmio_dispatch, access_fault, done, find_region, is_ok,
  Access, Region, Accessed, Buffer, misaligned_access, region_round, round, Machine, copy_ram,
}
use riscmulator.Memory.{is_store, is_ok, Access}
use riscmulator.Machine.Phys.{
  pmp_allows, in_ram, in_parts, finished, access_phys, dispatch, two_passes, whole_region,
}

-- A property of machines that the steps of an access keep.
pub record IsKept {D : Type 0} (Q : Machine D → Type 0) : Type 0 where
  pub ram :
      (m : Machine D) (addr : ℕ) (bytes : Buffer) (size : ℕ) (mode : Access)
      → Q m
      → Q (copy_ram m addr bytes size mode).machine
  pub device :
      (m : Machine D) (test : Region D → Bool) (r : Region D) (addr : ℕ) (bytes : Buffer) (size : ℕ)
      (mode : Access)
      → find_region test m.mmio ≡ some r
      → Q m
      → Q (mmio_dispatch m r addr bytes size mode).machine

-- A property of RAM and devices alone is kept by copies.
pub copy_ram-keeps :
    {D : Type 0} (Q : Machine D → Type 0) (m : Machine D) (addr : ℕ) (bytes : Buffer) (size : ℕ)
    (mode : Access)
    → ((ram : List ℕ) (overran : Bool) → Q (record m { ram = ram; overran = overran }))
    → Q (copy_ram m addr bytes size mode).machine
unfolding copy_ram
copy_ram-keeps Q m addr none size mode q = q m.ram m.overran
copy_ram-keeps {D = D} Q m addr (some bytes) size mode q =
    if-elim (λ (a : Accessed D). Q a.machine)
      (ltb addr m.ram_start || ltb (length m.ram) (addr - m.ram_start + size)) (λ _. q m.ram true)
      (λ _.
        if-elim (λ (a : Accessed D). Q a.machine) (is_store mode) (λ _. q _ m.overran)
          (λ _. q m.ram m.overran))

module _ {D : Type 0} (Q : Machine D → Type 0) (kept : IsKept Q) where
  region_round-keeps :
      (m : Machine D) (test : Region D → Bool) (addr : ℕ) (bytes : Buffer) (size : ℕ)
      (mode : Access) (region : Option (Region D))
      → find_region test m.mmio ≡ region
      → Q m
      → Q (region_round m addr bytes size mode region).1.machine
  unfolding region_round
  region_round-keeps m test addr bytes size mode none e q = q
  region_round-keeps m test addr bytes size mode (some r) e q =
      kept.device m test r addr bytes _ mode e q

  round-keeps :
      (m : Machine D) (addr : ℕ) (bytes : Buffer) (size : ℕ) (mode : Access)
      → Q m
      → Q (round m addr bytes size mode).1.machine
  unfolding round
  round-keeps m addr bytes size mode q =
      if-elim (λ (r : ℕ × Accessed D). Q r.1.machine)
        (leb m.ram_start addr && leb (u64 (addr + 1)) m.ram_end)
        (λ _. kept.ram m addr bytes (part_size addr size m.ram_end) mode q)
        (λ _.
          region_round-keeps m (holds_byte addr) addr bytes size mode
            (find_region (holds_byte addr) m.mmio) refl q)

  -- The end of the loop, if it has one.
  abbrev End : Option (Accessed D) → Type 0
  End none = Unit
  End (some a) = Q a.machine

  misaligned_access-keeps :
      (fuel : ℕ) (m : Machine D) (addr : ℕ) (bytes : Buffer) (size : ℕ) (mode : Access)
      → Q m
      → End (misaligned_access fuel m addr bytes size mode)
  unfolding misaligned_access
  misaligned_access-keeps fuel m addr bytes zero mode q = q
  misaligned_access-keeps zero m addr bytes (suc n) mode q = tt
  misaligned_access-keeps (suc fuel) m addr bytes (suc n) mode q =
      let r : ℕ × Accessed D = round m addr bytes (suc n) mode in
      let went = round-keeps m addr bytes (suc n) mode q in
      if-elim End (is_ok r.1.result)
        (λ _.
          misaligned_access-keeps fuel r.1.machine (u64 (addr + r.0)) r.1.bytes (sub64 (suc n) r.0)
            mode went)
        (λ _. went)

  finished-keeps :
      (otherwise : Accessed D) (o : Option (Accessed D))
      → Q otherwise.machine
      → End o
      → Q (finished otherwise o).machine
  finished-keeps otherwise none q e = q
  finished-keeps otherwise (some a) q e = e

  in_parts-keeps :
      (m : Machine D) (addr : ℕ) (bytes : Buffer) (size : ℕ) (mode : Access)
      → Q m
      → Q (in_parts m addr bytes size mode).machine
  in_parts-keeps m addr bytes size mode q =
      finished-keeps (done access_fault bytes m) (misaligned_access size m addr bytes size mode) q
        (misaligned_access-keeps size m addr bytes size mode q)

  two_passes-keeps :
      (m : Machine D) (addr : ℕ) (bytes : List ℕ) (size : ℕ) (mode : Access)
      → Q m
      → Q (two_passes m addr bytes size mode).machine
  unfolding two_passes
  two_passes-keeps m addr bytes size mode q =
      let first : Accessed D = in_parts m addr none size mode in
      let went = in_parts-keeps m addr none size mode q in
      if-elim (λ (a : Accessed D). Q a.machine) (is_ok first.result)
        (λ _. in_parts-keeps first.machine addr (some bytes) size mode went) (λ _. went)

  whole_region-keeps :
      (m : Machine D) (test : Region D → Bool) (addr : ℕ) (bytes : List ℕ) (size : ℕ)
      (mode : Access) (region : Option (Region D))
      → find_region test m.mmio ≡ region
      → Q m
      → Q (whole_region m addr bytes size mode region).machine
  unfolding whole_region
  whole_region-keeps m test addr bytes size mode none e q = q
  whole_region-keeps m test addr bytes size mode (some r) e q =
      kept.device m test r addr (some bytes) (u8 size) mode e q

  dispatch-keeps :
      (m : Machine D) (addr : ℕ) (bytes : List ℕ) (size_exp : ℕ) (mode : Access)
      → Q m
      → Q (dispatch m addr bytes size_exp mode).machine
  unfolding dispatch
  dispatch-keeps m addr bytes size_exp mode q =
      if-elim (λ (a : Accessed D). Q a.machine) (in_ram m addr (2 ^ size_exp))
        (λ _.
          if-elim (λ (a : Accessed D). Q a.machine) (leb size_exp 3)
            (λ _. kept.ram m addr (some bytes) (2 ^ size_exp) mode q) (λ _. q))
        (λ _.
          if-elim (λ (a : Accessed D). Q a.machine) (truth (addr % 2 ^ size_exp))
            (λ _. two_passes-keeps m addr bytes (2 ^ size_exp) mode q)
            (λ _.
              whole_region-keeps m (holds_all addr (2 ^ size_exp)) addr bytes (2 ^ size_exp) mode
                (find_region (holds_all addr (2 ^ size_exp)) m.mmio) refl q))

  pub access_phys-keeps :
      (m : Machine D) (h addr : ℕ) (bytes : List ℕ) (size_exp : ℕ) (mode : Access)
      (ignore_pmp : Bool)
      → Q m
      → Q (access_phys m h addr bytes size_exp mode ignore_pmp).machine
  unfolding access_phys
  access_phys-keeps m h addr bytes size_exp mode ignore_pmp q =
      if-elim (λ (a : Accessed D). Q a.machine)
        (not ignore_pmp && not (pmp_allows m h addr (2 ^ size_exp) mode)) (λ _. q)
        (λ _. dispatch-keeps m addr bytes size_exp mode q)
