-- ===== src/LoadStore/RoundTrip.antt =====
-- A store and a load of emulator/src/cpu/rv_impl/base.c at the same address of RAM.
use riscmulator.LoadStore.{le_value, Access, xreg_read}
use riscmulator.Base.{List, false, true, ◌^◌, ℕ, ◌≡◌, ◌≤◌, ◌<◌, ◌+◌, refl}
use riscmulator.Memory.{le_value, Access, load, store}
use riscmulator.Cpu.{xreg_read}
use riscmulator.Machine.Phys.{access_phys, in_ram}
use riscmulator.Machine.Safety.{IsSized}
use riscmulator.Machine.Ram.{is_permitted}
use riscmulator.Paging.Virt.{is_bare, access_virt}
use riscmulator.Machine.{Machine, hart_of}

-- A hart may store to and load from an address of RAM, without translation.
pub record IsPlain {D : Type 0} (m : Machine D) (h addr size_exp : ℕ) : Type 0 where
  pub sized : IsSized m
  pub store_bare : is_bare (hart_of m h) store ≡ true
  pub load_bare : is_bare (hart_of m h) load ≡ true
  pub may_store : is_permitted m h addr (2 ^ size_exp) store false ≡ true
  pub may_load : is_permitted m h addr (2 ^ size_exp) load false ≡ true
  pub inside : in_ram m addr (2 ^ size_exp) ≡ true
  pub fits : addr + 2 ^ size_exp < 2 ^ 64
  pub small : size_exp ≤ 3

pub access_virt-bare :
    {D : Type 0} (m : Machine D) (h vaddr : ℕ) (bytes : List ℕ) (size_exp : ℕ) (mode : Access)
    → is_bare (hart_of m h) mode ≡ true
    → access_virt m h vaddr bytes size_exp mode ≡ access_phys m h vaddr bytes size_exp mode false
unfolding access_virt
access_virt-bare m h vaddr bytes size_exp mode e = rw e refl
