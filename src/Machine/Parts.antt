-- ===== src/Machine/Parts.antt =====
-- The loop of misaligned_access in emulator/src/emu_machine.c ends, and stays inside RAM.
use riscmulator.Base.{
  refl, zero, sub64, none, some, subst, sym, suc, ◌&&◌, leb, if-elim, Option, true, ◌≡◌, ◌+◌, u64,
  arith, ◌≤◌, ◌^◌, ◌<◌, ℕ,
}
use riscmulator.Machine.Shape.{
  not_found, tame_one, find_region-IsFound, SameShape-copy_ram, AllTame, SameShape-mmio_dispatch,
  IsFound, SameShape-trans, SameShape-refl, IsFound, SameShape,
}
use riscmulator.Machine.{
  ok, done, misaligned_access, round, Region, Access, Buffer, is_ok, Accessed, holds_byte, Machine,
  region_round, part_size,
}
use riscmulator.Memory.{Access, is_ok}

-- A part of an access that whose first byte ends at `end` at the latest has at least one byte and at most all of them.
pub part_size-bounds :
    (addr size end : ℕ)
    → u64 (addr + 1) ≤ end
    → addr < 2 ^ 64
    → end < 2 ^ 64
    → 0 < size
    → size < 2 ^ 63
    → (0 < part_size addr size end) × (part_size addr size end ≤ size)
unfolding part_size
part_size-bounds addr size end reach lo hi pos small = ground arith

-- A round of the loop keeps the shape and, where it does not fail, makes progress.
pub record IsRound {D : Type 0} (m : Machine D) (size : ℕ) (r : ℕ × Accessed D) : Type 0 where
  pub shape : SameShape m r.1.machine
  pub progress : is_ok r.1.result ≡ true → (0 < r.0) × (r.0 ≤ size)

region_round-IsRound :
    {D : Type 0} (m : Machine D) (addr : ℕ) (bytes : Buffer) (size : ℕ) (mode : Access)
    (region : Option (Region D))
    → addr < 2 ^ 64
    → 0 < size
    → size < 2 ^ 63
    → IsFound (holds_byte addr) region
    → IsRound m size (region_round m addr bytes size mode region)
unfolding region_round holds_byte
region_round-IsRound m addr bytes size mode none lo pos small not_found = record {
  shape = SameShape-refl m;
  progress = λ h. ground arith;
}
region_round-IsRound m addr bytes size mode (some r) lo pos small (tame_one tame held) = record {
  shape = SameShape-mmio_dispatch m r addr bytes _ mode tame;
  progress = λ _.
      part_size-bounds addr size (u64 (r.base + r.size)) (ground arith) lo (omega arith) pos small;
}

pub round-IsRound :
    {D : Type 0} (m : Machine D) (addr : ℕ) (bytes : Buffer) (size : ℕ) (mode : Access)
    → m.ram_end < 2 ^ 64
    → AllTame m.mmio
    → addr < 2 ^ 64
    → 0 < size
    → size < 2 ^ 63
    → IsRound m size (round m addr bytes size mode)
unfolding round
round-IsRound m addr bytes size mode sized tame lo pos small =
    if-elim (IsRound m size) (leb m.ram_start addr && leb (u64 (addr + 1)) m.ram_end)
      (λ h. record {
        shape = SameShape-copy_ram m addr bytes _ mode;
        progress = λ _. part_size-bounds addr size m.ram_end (ground arith) lo sized pos small;
      })
      (λ _.
        region_round-IsRound m addr bytes size mode _ lo pos small
          (find_region-IsFound (holds_byte addr) m.mmio tame))

-- The loop with enough fuel: a result, with the shape as before.
pub IsTotal : {D : Type 0} → Machine D → Option (Accessed D) → Type 0
IsTotal {D} m o = (accessed : Accessed D) × (o ≡ some accessed) × SameShape m accessed.machine

after_round :
    {D : Type 0} (m n : Machine D) (o : Option (Accessed D))
    → SameShape m n
    → IsTotal n o
    → IsTotal m o
unfolding IsTotal
after_round m n o same (accessed, e, rest) = (accessed, e, SameShape-trans same rest)

-- The loop of `misaligned_access` with as much fuel as there are bytes gives a result, whatever
-- the devices answer, and the shape of the machine stays.
pub misaligned_access-IsTotal :
    {D : Type 0} (fuel : ℕ) (m : Machine D) (addr : ℕ) (bytes : Buffer) (size : ℕ) (mode : Access)
    → m.ram_end < 2 ^ 64
    → AllTame m.mmio
    → addr < 2 ^ 64
    → size < 2 ^ 63
    → size ≤ fuel
    → IsTotal m (misaligned_access fuel m addr bytes size mode)
unfolding misaligned_access IsTotal
misaligned_access-IsTotal fuel m addr bytes zero mode sized tame lo small enough =
    (done ok bytes m, refl, SameShape-refl m)
misaligned_access-IsTotal zero m addr bytes (suc n) mode sized tame lo small enough =
    absurd (omega arith)
misaligned_access-IsTotal {D = D} (suc fuel) m addr bytes (suc n) mode sized tame lo small enough =
    if-elim (IsTotal m) (is_ok r.1.result)
      (λ h.
        let went = good.progress h in
        after_round m r.1.machine _ good.shape (
          misaligned_access-IsTotal fuel r.1.machine (u64 (addr + r.0)) r.1.bytes
            (sub64 (suc n) r.0) mode (omega (arith, good.shape.end))
            (subst AllTame (sym good.shape.regions) tame) (omega arith)
            (omega (arith, went.0, went.1)) (omega (arith, went.0, went.1))))
      (λ _. (r.1, refl, good.shape))
  where
    r : ℕ × Accessed D
    r = round m addr bytes (suc n) mode

    good : IsRound m (suc n) r
    good = round-IsRound m addr bytes (suc n) mode sized tame lo (omega arith) small
