-- ===== src/Machine/Shape.antt =====
-- What accesses to memory leave alone: the bounds and the size of RAM, the regions, the numbers of
-- harts and reservations.
use riscmulator.Base.{
  ◌||◌, sym, subst, ◌+◌, ◌-◌, ltb, ℕ, ◌≡◌, refl, ◌∙◌, List, [], ◌∷◌, Option, none, some, Bool, true,
  length, if-elim,
}
use riscmulator.Machine.{
  take, is_store, Access, after_write, on_hart, Cpu, after_read, copy_ram, find_region,
  mmio_dispatch, Machine, Region, Accessed, Buffer,
}
use riscmulator.Memory.{take, is_store, Access}
use riscmulator.Memory.Bytes.{length-store_bytes}
use riscmulator.Cpu.Update.{length-update_hart}
use riscmulator.Cpu.{Cpu}

pub record SameShape {D : Type 0} (m n : Machine D) : Type 0 where
  pub start : n.ram_start ≡ m.ram_start
  pub end : n.ram_end ≡ m.ram_end
  pub size : length n.ram ≡ length m.ram
  pub harts : length n.cpus ≡ length m.cpus
  pub reserved : length n.reservations ≡ length m.reservations
  pub regions : n.mmio ≡ m.mmio

pub SameShape-refl : {D : Type 0} (m : Machine D) → SameShape m m
SameShape-refl m = record {
  start = refl;
  end = refl;
  size = refl;
  harts = refl;
  reserved = refl;
  regions = refl;
}

pub SameShape-trans :
    {D : Type 0} {m n o : Machine D} → SameShape m n → SameShape n o → SameShape m o
SameShape-trans p q = record {
  start = q.start ∙ p.start;
  end = q.end ∙ p.end;
  size = q.size ∙ p.size;
  harts = q.harts ∙ p.harts;
  reserved = q.reserved ∙ p.reserved;
  regions = q.regions ∙ p.regions;
}

-- A device whose callbacks keep the number of harts.
pub record IsTame {D : Type 0} (r : Region D) : Type 0 where
  pub read_harts :
      (d : D) (cpus : List Cpu) (offset size : ℕ)
      → length (r.read d cpus offset size).2 ≡ length cpus
  pub write_harts :
      (d : D) (cpus : List Cpu) (offset size value : ℕ)
      → length (r.write d cpus offset size value).2 ≡ length cpus

pub data AllTame {D : Type 0} : List (Region D) → Type 0 where
  none_left : AllTame []
  one_more : {r : Region D} {rs : List (Region D)} → IsTame r → AllTame rs → AllTame (r ∷ rs)

pub SameShape-on_hart :
    {D : Type 0} (m : Machine D) (h : ℕ) (f : Cpu → Cpu) → SameShape m (on_hart m h f)
SameShape-on_hart m h f = record {
  start = refl;
  end = refl;
  size = refl;
  harts = length-update_hart m.cpus h f;
  reserved = refl;
  regions = refl;
}

-- A machine with other contents of RAM; and one that is marked.
SameShape-ram :
    {D : Type 0} (m : Machine D) (ram : List ℕ)
    → length ram ≡ length m.ram
    → SameShape m (record m { ram = ram })
SameShape-ram m ram h = record {
  start = refl;
  end = refl;
  size = h;
  harts = refl;
  reserved = refl;
  regions = refl;
}

pub SameShape-overran :
    {D : Type 0} (m : Machine D) (b : Bool) → SameShape m (record m { overran = b })
SameShape-overran m b = record {
  start = refl;
  end = refl;
  size = refl;
  harts = refl;
  reserved = refl;
  regions = refl;
}

pub SameShape-copy_ram :
    {D : Type 0} (m : Machine D) (addr : ℕ) (bytes : Buffer) (size : ℕ) (mode : Access)
    → SameShape m (copy_ram m addr bytes size mode).machine
unfolding copy_ram
SameShape-copy_ram m addr none size mode = SameShape-refl m
SameShape-copy_ram m addr (some bytes) size mode =
    if-elim (λ (a : Accessed _). SameShape m a.machine)
      (ltb addr m.ram_start || ltb (length m.ram) (addr - m.ram_start + size))
      (λ _. SameShape-overran m true)
      (λ _.
        if-elim (λ (a : Accessed _). SameShape m a.machine) (is_store mode)
          (λ _. SameShape-ram m _ (length-store_bytes m.ram (addr - m.ram_start) (take size bytes)))
          (λ _. SameShape-refl m))

SameShape-devices :
    {D : Type 0} (m : Machine D) (devices : D) (cpus : List Cpu)
    → length cpus ≡ length m.cpus
    → SameShape m (record m { devices = devices; cpus = cpus })
SameShape-devices m devices cpus h = record {
  start = refl;
  end = refl;
  size = refl;
  harts = h;
  reserved = refl;
  regions = refl;
}

SameShape-after_read :
    {D : Type 0} (m : Machine D) (bytes : List ℕ) (size : ℕ) (answer : Option ℕ × D × List Cpu)
    → length answer.2 ≡ length m.cpus
    → SameShape m (after_read m bytes size answer).machine
unfolding after_read
SameShape-after_read m bytes size (none, devices, cpus) h = SameShape-devices m devices cpus h
SameShape-after_read m bytes size (some val, devices, cpus) h = SameShape-devices m devices cpus h

pub SameShape-mmio_dispatch :
    {D : Type 0} (m : Machine D) (r : Region D) (addr : ℕ) (bytes : Buffer) (size : ℕ)
    (mode : Access)
    → IsTame r
    → SameShape m (mmio_dispatch m r addr bytes size mode).machine
unfolding mmio_dispatch after_write
SameShape-mmio_dispatch m r addr none size mode tame = SameShape-refl m
SameShape-mmio_dispatch m r addr (some bytes) size mode tame =
    if-elim (λ (a : Accessed _). SameShape m a.machine) (is_store mode)
      (λ _. SameShape-devices m _ _ (tame.write_harts m.devices m.cpus _ _ _))
      (λ _. SameShape-after_read m bytes size _ (tame.read_harts m.devices m.cpus _ _))

-- What a search can return: nothing, or a tame region that satisfies the test.
pub data IsFound {D : Type 0} (test : Region D → Bool) : Option (Region D) → Type 0 where
  not_found : IsFound test none
  tame_one : {r : Region D} → IsTame r → test r ≡ true → IsFound test (some r)

pub find_region-IsFound :
    {D : Type 0} (test : Region D → Bool) (rs : List (Region D))
    → AllTame rs
    → IsFound test (find_region test rs)
unfolding find_region
find_region-IsFound test [] none_left = not_found
find_region-IsFound test (r ∷ rs) (one_more tame rest) =
    if-elim (IsFound test) (test r) (λ h. tame_one tame h) (λ _. find_region-IsFound test rs rest)

pub still_tame : {D : Type 0} {m n : Machine D} → SameShape m n → AllTame m.mmio → AllTame n.mmio
still_tame same tame = subst AllTame (sym same.regions) tame
