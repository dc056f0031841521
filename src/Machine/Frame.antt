-- ===== src/Machine/Frame.antt =====
-- Accesses to physical memory in emulator/src/emu_machine.c keep the shape of the machine, whatever
-- they access.
use riscmulator.Machine.Shape.{
  still_tame, find_region-IsFound, SameShape-copy_ram, SameShape-mmio_dispatch, SameShape,
  SameShape-refl, SameShape-trans, AllTame, IsFound, not_found, tame_one,
}
use riscmulator.Machine.{
  holds_all, access_fault, done, holds_byte, is_ok, Access, misaligned_access, region_round,
  Machine, Region, Accessed, Buffer, round,
}
use riscmulator.Base.{
  ◌%◌, truth, ◌^◌, not, ◌+◌, u64, ◌&&◌, leb, ℕ, List, Option, none, some, Bool, if-elim, zero, suc,
}
use riscmulator.Machine.Phys.{
  pmp_allows, in_ram, access_phys, access_phys_partial, dispatch, in_parts, two_passes,
  whole_region, finished,
}
use riscmulator.Memory.{is_ok, Access}

region_round-SameShape :
    {D : Type 0} (m : Machine D) (addr : ℕ) (bytes : Buffer) (size : ℕ) (mode : Access)
    {test : Region D → Bool} (region : Option (Region D))
    → IsFound test region
    → SameShape m (region_round m addr bytes size mode region).1.machine
unfolding region_round
region_round-SameShape m addr bytes size mode none not_found = SameShape-refl m
region_round-SameShape m addr bytes size mode (some r) (tame_one tame held) =
    SameShape-mmio_dispatch m r addr bytes _ mode tame

pub round-SameShape :
    {D : Type 0} (m : Machine D) (addr : ℕ) (bytes : Buffer) (size : ℕ) (mode : Access)
    → AllTame m.mmio
    → SameShape m (round m addr bytes size mode).1.machine
unfolding round
round-SameShape {D = D} m addr bytes size mode tame =
    if-elim (λ (r : ℕ × Accessed D). SameShape m r.1.machine)
      (leb m.ram_start addr && leb (u64 (addr + 1)) m.ram_end)
      (λ h. SameShape-copy_ram m addr bytes _ mode)
      (λ _.
        region_round-SameShape m addr bytes size mode _
          (find_region-IsFound (holds_byte addr) m.mmio tame))

-- The machine of a result, if there is one, has the shape of another.
data EndsLike {D : Type 0} (m : Machine D) : Option (Accessed D) → Type 0 where
  no_result : EndsLike m none
  a_result : {a : Accessed D} → SameShape m a.machine → EndsLike m (some a)

later_end :
    {D : Type 0} {m n : Machine D} (o : Option (Accessed D))
    → SameShape m n
    → EndsLike n o
    → EndsLike m o
later_end none same no_result = no_result
later_end (some a) same (a_result rest) = a_result (SameShape-trans same rest)

finished-SameShape :
    {D : Type 0} {m : Machine D} (otherwise : Accessed D) (o : Option (Accessed D))
    → SameShape m otherwise.machine
    → EndsLike m o
    → SameShape m (finished otherwise o).machine
finished-SameShape otherwise none same no_result = same
finished-SameShape otherwise (some a) same (a_result rest) = rest

misaligned_access-EndsLike :
    {D : Type 0} (fuel : ℕ) (m : Machine D) (addr : ℕ) (bytes : Buffer) (size : ℕ) (mode : Access)
    → AllTame m.mmio
    → EndsLike m (misaligned_access fuel m addr bytes size mode)
unfolding misaligned_access
misaligned_access-EndsLike fuel m addr bytes zero mode tame = a_result (SameShape-refl m)
misaligned_access-EndsLike zero m addr bytes (suc n) mode tame = no_result
misaligned_access-EndsLike {D = D} (suc fuel) m addr bytes (suc n) mode tame =
    if-elim (EndsLike m) (is_ok r.1.result)
      (λ _.
        later_end _ went
          (misaligned_access-EndsLike fuel r.1.machine _ r.1.bytes _ mode (still_tame went tame)))
      (λ _. a_result went)
  where
    r : ℕ × Accessed D
    r = round m addr bytes (suc n) mode

    went : SameShape m r.1.machine
    went = round-SameShape m addr bytes (suc n) mode tame

pub in_parts-SameShape :
    {D : Type 0} (m : Machine D) (addr : ℕ) (bytes : Buffer) (size : ℕ) (mode : Access)
    → AllTame m.mmio
    → SameShape m (in_parts m addr bytes size mode).machine
in_parts-SameShape m addr bytes size mode tame =
    finished-SameShape (done access_fault bytes m) _ (SameShape-refl m)
      (misaligned_access-EndsLike size m addr bytes size mode tame)

two_passes-SameShape :
    {D : Type 0} (m : Machine D) (addr : ℕ) (bytes : List ℕ) (size : ℕ) (mode : Access)
    → AllTame m.mmio
    → SameShape m (two_passes m addr bytes size mode).machine
unfolding two_passes
two_passes-SameShape {D = D} m addr bytes size mode tame =
    if-elim (λ (a : Accessed D). SameShape m a.machine) (is_ok first.result)
      (λ _.
        SameShape-trans checked
          (in_parts-SameShape first.machine addr (some bytes) size mode (still_tame checked tame)))
      (λ _. checked)
  where
    first : Accessed D
    first = in_parts m addr none size mode

    checked : SameShape m first.machine
    checked = in_parts-SameShape m addr none size mode tame

whole_region-SameShape :
    {D : Type 0} {test : Region D → Bool} (m : Machine D) (addr : ℕ) (bytes : List ℕ) (size : ℕ)
    (mode : Access) (region : Option (Region D))
    → IsFound test region
    → SameShape m (whole_region m addr bytes size mode region).machine
unfolding whole_region
whole_region-SameShape m addr bytes size mode none not_found = SameShape-refl m
whole_region-SameShape m addr bytes size mode (some r) (tame_one tame held) =
    SameShape-mmio_dispatch m r addr (some bytes) _ mode tame

dispatch-SameShape :
    {D : Type 0} (m : Machine D) (addr : ℕ) (bytes : List ℕ) (size_exp : ℕ) (mode : Access)
    → AllTame m.mmio
    → SameShape m (dispatch m addr bytes size_exp mode).machine
unfolding dispatch
dispatch-SameShape {D = D} m addr bytes size_exp mode tame =
    if-elim like (in_ram m addr (2 ^ size_exp))
      (λ _.
        if-elim like (leb size_exp 3)
          (λ _. SameShape-copy_ram m addr (some bytes) (2 ^ size_exp) mode) (λ _. SameShape-refl m))
      (λ _.
        if-elim like (truth (addr % 2 ^ size_exp))
          (λ _. two_passes-SameShape m addr bytes (2 ^ size_exp) mode tame)
          (λ _.
            whole_region-SameShape m addr bytes (2 ^ size_exp) mode _
              (find_region-IsFound (holds_all addr (2 ^ size_exp)) m.mmio tame)))
  where
    like : Accessed D → Type 0
    like a = SameShape m a.machine

pub access_phys-SameShape :
    {D : Type 0} (m : Machine D) (h addr : ℕ) (bytes : List ℕ) (size_exp : ℕ) (mode : Access)
    (ignore_pmp : Bool)
    → AllTame m.mmio
    → SameShape m (access_phys m h addr bytes size_exp mode ignore_pmp).machine
unfolding access_phys
access_phys-SameShape {D = D} m h addr bytes size_exp mode ignore_pmp tame =
    if-elim (λ (a : Accessed D). SameShape m a.machine)
      (not ignore_pmp && not (pmp_allows m h addr (2 ^ size_exp) mode)) (λ _. SameShape-refl m)
      (λ _. dispatch-SameShape m addr bytes size_exp mode tame)

pub access_phys_partial-SameShape :
    {D : Type 0} (m : Machine D) (h addr : ℕ) (bytes : List ℕ) (size : ℕ) (mode : Access)
    (ignore_pmp : Bool)
    → AllTame m.mmio
    → SameShape m (access_phys_partial m h addr bytes size mode ignore_pmp).machine
unfolding access_phys_partial
access_phys_partial-SameShape {D = D} m h addr bytes size mode ignore_pmp tame =
    if-elim (λ (a : Accessed D). SameShape m a.machine)
      (not ignore_pmp && not (pmp_allows m h addr size mode)) (λ _. SameShape-refl m)
      (λ _. two_passes-SameShape m addr bytes size mode tame)
