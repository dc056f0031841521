-- ===== src/Machine/Control.antt =====
-- The devices of emulator/include/emu_device.h get the harts of the machine. Here they leave the
-- CSRs of a hart and the privilege of its memory accesses as they are, and so do accesses to
-- physical memory.
use riscmulator.Base.{subst, if-elim, ◌∷◌, Bool, [], none, some, ◌∙◌, ◌≡◌, List, Option, ℕ}
use riscmulator.Machine.Kept.{copy_ram-keeps, access_phys-keeps, IsKept}
use riscmulator.Machine.{
  is_store, Accessed, Access, Buffer, hart_of, Machine, after_write, hart, Region, after_read,
  find_region, mmio_dispatch,
}
use riscmulator.Memory.{is_store, Access}
use riscmulator.Machine.Phys.{access_phys}
use riscmulator.Cpu.Update.{hart}
use riscmulator.Cpu.{Cpu}

pub record SameControl (a b : Cpu) : Type 0 where
  pub csr : b.csr ≡ a.csr
  pub mem_privilege : b.mem_privilege ≡ a.mem_privilege

-- A device that does not control hart `h`; and several.
pub record LeavesControl {D : Type 0} (h : ℕ) (r : Region D) : Type 0 where
  pub reads :
      (d : D) (cpus : List Cpu) (offset size : ℕ)
      → SameControl (hart cpus h) (hart (r.read d cpus offset size).2 h)
  pub writes :
      (d : D) (cpus : List Cpu) (offset size value : ℕ)
      → SameControl (hart cpus h) (hart (r.write d cpus offset size value).2 h)

pub data AllLeaveControl {D : Type 0} (h : ℕ) : List (Region D) → Type 0 where
  none_left : AllLeaveControl h []
  one_more :
      {r : Region D} {rs : List (Region D)}
      → LeavesControl h r
      → AllLeaveControl h rs
      → AllLeaveControl h (r ∷ rs)

-- A hart whose control is that of `cpu`, on a machine whose devices leave it.
pub record IsControlled {D : Type 0} (h : ℕ) (cpu : Cpu) (m : Machine D) : Type 0 where
  pub regions : AllLeaveControl h m.mmio
  pub control : SameControl cpu (hart_of m h)

SameControl-trans : {a b c : Cpu} → SameControl a b → SameControl b c → SameControl a c
SameControl-trans p q = record {
  csr = q.csr ∙ p.csr;
  mem_privilege = q.mem_privilege ∙ p.mem_privilege;
}

data Leaves {D : Type 0} (h : ℕ) : Option (Region D) → Type 0 where
  no_region : Leaves h none
  a_region : {r : Region D} → LeavesControl h r → Leaves h (some r)

find_region-Leaves :
    {D : Type 0} (h : ℕ) (test : Region D → Bool) (rs : List (Region D))
    → AllLeaveControl h rs
    → Leaves h (find_region test rs)
unfolding find_region
find_region-Leaves h test [] none_left = no_region
find_region-Leaves h test (r ∷ rs) (one_more one rest) =
    if-elim (Leaves h) (test r) (λ _. a_region one) (λ _. find_region-Leaves h test rs rest)

region_found : {D : Type 0} (h : ℕ) (r : Region D) → Leaves h (some r) → LeavesControl h r
region_found h r (a_region one) = one

after_read-IsControlled :
    {D : Type 0} (h : ℕ) (cpu : Cpu) (m : Machine D) (bytes : List ℕ) (size : ℕ)
    (answer : Option ℕ × D × List Cpu)
    → AllLeaveControl h m.mmio
    → SameControl cpu (hart answer.2 h)
    → IsControlled h cpu (after_read m bytes size answer).machine
unfolding after_read
after_read-IsControlled h cpu m bytes size (none, devices, cpus) all same = record {
  regions = all;
  control = same;
}
after_read-IsControlled h cpu m bytes size (some val, devices, cpus) all same = record {
  regions = all;
  control = same;
}

mmio_dispatch-IsControlled :
    {D : Type 0} (h : ℕ) (cpu : Cpu) (m : Machine D) (r : Region D) (addr : ℕ) (bytes : Buffer)
    (size : ℕ) (mode : Access)
    → LeavesControl h r
    → IsControlled h cpu m
    → IsControlled h cpu (mmio_dispatch m r addr bytes size mode).machine
unfolding mmio_dispatch after_write
mmio_dispatch-IsControlled h cpu m r addr none size mode one good = good
mmio_dispatch-IsControlled h cpu m r addr (some bytes) size mode one good =
    if-elim (λ (a : Accessed _). IsControlled h cpu a.machine) (is_store mode)
      (λ _. record {
        regions = good.regions;
        control = SameControl-trans good.control (one.writes m.devices m.cpus _ _ _);
      })
      (λ _.
        after_read-IsControlled h cpu m bytes size _ good.regions
          (SameControl-trans good.control (one.reads m.devices m.cpus _ _)))

control-IsKept : {D : Type 0} (h : ℕ) (cpu : Cpu) → IsKept {D = D} (IsControlled h cpu)
control-IsKept h cpu = record {
  ram = λ m addr bytes size mode good.
      copy_ram-keeps (IsControlled h cpu) m addr bytes size mode
        (λ ram overran. record { regions = good.regions; control = good.control });
  device = λ m test r addr bytes size mode e good.
      mmio_dispatch-IsControlled h cpu m r addr bytes size mode
        (region_found h r (subst (Leaves h) e (find_region-Leaves h test m.mmio good.regions)))
        good;
}

pub access_phys-IsControlled :
    {D : Type 0} (h : ℕ) (cpu : Cpu) (m : Machine D) (addr : ℕ) (bytes : List ℕ) (size_exp : ℕ)
    (mode : Access) (ignore_pmp : Bool)
    → IsControlled h cpu m
    → IsControlled h cpu (access_phys m h addr bytes size_exp mode ignore_pmp).machine
access_phys-IsControlled h cpu m addr bytes size_exp mode ignore_pmp good =
    access_phys-keeps (IsControlled h cpu) (control-IsKept h cpu) m h addr bytes size_exp mode
      ignore_pmp good
