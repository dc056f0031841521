-- ===== src/Machine/Ram.antt =====
-- Accesses to RAM in emulator/src/emu_machine.c: what is stored is loaded again, and the rest stays.
use riscmulator.Memory.Bytes.{
  load_bytes-same, get_or-store_bytes, length-load_bytes, load_bytes-store_bytes, take-all,
  overwrite-all, length-store_bytes,
}
use riscmulator.Base.{
  get_or, ◌⊎◌, sym, ap, ◌∙◌, ◌<◌, some, true, length, ◌^◌, ◌||◌, Bool, ◌-◌, ℕ, ◌≡◌, ◌≤◌, ◌+◌, arith,
  List,
}
use riscmulator.Machine.{
  Accessed, load_bytes, take, overwrite, store_bytes, ok, done, Access, copy_ram, Machine,
}
use riscmulator.Machine.Safety.{in_ram-inside, IsSized}
use riscmulator.Memory.{load_bytes, take, overwrite, store_bytes, Access, load, store}
use riscmulator.Machine.Phys.{in_ram, pmp_allows, dispatch, access_phys}

-- A copy that lies inside the array.
pub copy_ram-store :
    {D : Type 0} (m : Machine D) (addr : ℕ) (bytes : List ℕ) (size : ℕ)
    → (m.ram_start ≤ addr) × (addr - m.ram_start + size ≤ length m.ram)
    → copy_ram m addr (some bytes) size store
      ≡ done ok
          (some bytes)
          (record m { ram = store_bytes m.ram (addr - m.ram_start) (take size bytes) })
unfolding copy_ram
copy_ram-store m addr bytes size inside = ground arith

pub copy_ram-load :
    {D : Type 0} (m : Machine D) (addr : ℕ) (bytes : List ℕ) (size : ℕ)
    → (m.ram_start ≤ addr) × (addr - m.ram_start + size ≤ length m.ram)
    → copy_ram m addr (some bytes) size load
      ≡ done ok (some (overwrite bytes (load_bytes m.ram (addr - m.ram_start) size))) m
unfolding copy_ram
copy_ram-load m addr bytes size inside = ground arith

-- An access that PMP permits, or that ignores it.
unfoldable pub is_permitted : {D : Type 0} → Machine D → ℕ → ℕ → ℕ → Access → Bool → Bool
is_permitted m h addr size mode ignore_pmp = ignore_pmp || pmp_allows m h addr size mode

-- A permitted access inside RAM is a copy.
pub access_phys-in_ram :
    {D : Type 0} (m : Machine D) (h addr : ℕ) (bytes : List ℕ) (size_exp : ℕ) (mode : Access)
    (ignore_pmp : Bool)
    → is_permitted m h addr (2 ^ size_exp) mode ignore_pmp ≡ true
    → in_ram m addr (2 ^ size_exp) ≡ true
    → size_exp ≤ 3
    → access_phys m h addr bytes size_exp mode ignore_pmp
      ≡ copy_ram m addr (some bytes) (2 ^ size_exp) mode
unfolding is_permitted access_phys dispatch
access_phys-in_ram m h addr bytes size_exp mode ignore_pmp permitted inside small = ground arith

-- The machine after a store to RAM.
unfoldable pub after_store : {D : Type 0} → Machine D → ℕ → List ℕ → Machine D
after_store m addr bytes = record m { ram = store_bytes m.ram (addr - m.ram_start) bytes }

-- A permitted store of as many bytes as it has a size.
pub access_phys-store :
    {D : Type 0} (m : Machine D) (h addr : ℕ) (bytes : List ℕ) (size_exp : ℕ) (ignore_pmp : Bool)
    → IsSized m
    → is_permitted m h addr (2 ^ size_exp) store ignore_pmp ≡ true
    → in_ram m addr (2 ^ size_exp) ≡ true
    → addr + 2 ^ size_exp < 2 ^ 64
    → size_exp ≤ 3
    → length bytes ≡ 2 ^ size_exp
    → access_phys m h addr bytes size_exp store ignore_pmp
      ≡ done ok (some bytes) (after_store m addr bytes)
unfolding after_store
access_phys-store m h addr bytes size_exp ignore_pmp sized permitted inside fits small full =
    access_phys-in_ram m h addr bytes size_exp store ignore_pmp permitted inside small
    ∙ copy_ram-store m addr bytes (2 ^ size_exp)
        (in_ram-inside m addr (2 ^ size_exp) sized fits inside)
    ∙ ap
        (λ (bs : List ℕ).
          done ok (some bytes) (record m { ram = store_bytes m.ram (addr - m.ram_start) bs }))
        (ap (λ (n : ℕ). take n bytes) (sym full) ∙ take-all bytes)

-- A permitted load into a buffer of its size.
pub access_phys-load :
    {D : Type 0} (m : Machine D) (h addr : ℕ) (buffer : List ℕ) (size_exp : ℕ) (ignore_pmp : Bool)
    → IsSized m
    → is_permitted m h addr (2 ^ size_exp) load ignore_pmp ≡ true
    → in_ram m addr (2 ^ size_exp) ≡ true
    → addr + 2 ^ size_exp < 2 ^ 64
    → size_exp ≤ 3
    → length buffer ≡ 2 ^ size_exp
    → access_phys m h addr buffer size_exp load ignore_pmp
      ≡ done ok (some (load_bytes m.ram (addr - m.ram_start) (2 ^ size_exp))) m
access_phys-load m h addr buffer size_exp ignore_pmp sized permitted inside fits small full =
    access_phys-in_ram m h addr buffer size_exp load ignore_pmp permitted inside small
    ∙ copy_ram-load m addr buffer (2 ^ size_exp)
        (in_ram-inside m addr (2 ^ size_exp) sized fits inside)
    ∙ ap (λ (bs : List ℕ). done ok (some bs) m)
        (overwrite-all buffer (load_bytes m.ram (addr - m.ram_start) (2 ^ size_exp))
          (full ∙ sym (length-load_bytes m.ram (addr - m.ram_start) (2 ^ size_exp))))

pub IsSized-after_store :
    {D : Type 0} (m : Machine D) (addr : ℕ) (bytes : List ℕ)
    → IsSized m
    → IsSized (after_store m addr bytes)
unfolding after_store
IsSized-after_store m addr bytes sized = record {
  bounds = omega (arith, sized.bounds, length-store_bytes m.ram (addr - m.ram_start) bytes);
  below = sized.below;
}

-- A store to RAM that is permitted, and a load of the same size at the same address, which gives the
-- bytes stored and no fault, and leaves the machine as the store did.
pub access_phys-load_store :
    {D : Type 0} (m : Machine D) (h addr : ℕ) (bytes buffer : List ℕ) (size_exp : ℕ)
    (ignore_pmp : Bool)
    → IsSized m
    → is_permitted m h addr (2 ^ size_exp) store ignore_pmp ≡ true
    → is_permitted m h addr (2 ^ size_exp) load ignore_pmp ≡ true
    → in_ram m addr (2 ^ size_exp) ≡ true
    → addr + 2 ^ size_exp < 2 ^ 64
    → size_exp ≤ 3
    → length bytes ≡ 2 ^ size_exp
    → length buffer ≡ 2 ^ size_exp
    → access_phys
        (access_phys m h addr bytes size_exp store ignore_pmp).machine
        h
        addr
        buffer
        size_exp
        load
        ignore_pmp
      ≡ done ok (some bytes) (after_store m addr bytes)
unfolding is_permitted pmp_allows in_ram after_store
access_phys-load_store {D = D} m h addr bytes buffer size_exp ignore_pmp sized may_store may_load
      inside fits small full full' =
    ap (λ (a : Accessed _). access_phys a.machine h addr buffer size_exp load ignore_pmp)
      (access_phys-store m h addr bytes size_exp ignore_pmp sized may_store inside fits small full)
    ∙ access_phys-load n h addr buffer size_exp ignore_pmp (IsSized-after_store m addr bytes sized)
        may_load inside fits small full'
    ∙ ap (λ (bs : List ℕ). done ok (some bs) n)
        (ap (λ (k : ℕ). load_bytes n.ram (addr - m.ram_start) k) (sym full)
          ∙ load_bytes-store_bytes m.ram (addr - m.ram_start) bytes
              (omega (arith, full, in_ram-inside m addr (2 ^ size_exp) sized fits inside)))
  where
    n : Machine D
    n = after_store m addr bytes

-- A load from RAM after a store to RAM that it does not meet gives what it would have given before.
pub access_phys-load_elsewhere :
    {D : Type 0} (m : Machine D) (h addr other : ℕ) (bytes buffer : List ℕ) (size_exp other_exp : ℕ)
    (ignore_pmp : Bool)
    → IsSized m
    → is_permitted m h addr (2 ^ size_exp) store ignore_pmp ≡ true
    → is_permitted m h other (2 ^ other_exp) load ignore_pmp ≡ true
    → in_ram m addr (2 ^ size_exp) ≡ true
    → in_ram m other (2 ^ other_exp) ≡ true
    → (addr + 2 ^ size_exp < 2 ^ 64) × (other + 2 ^ other_exp < 2 ^ 64)
    → (size_exp ≤ 3) × (other_exp ≤ 3)
    → length bytes ≡ 2 ^ size_exp
    → length buffer ≡ 2 ^ other_exp
    → (addr + 2 ^ size_exp ≤ other) ⊎ (other + 2 ^ other_exp ≤ addr)
    → (access_phys
        (access_phys m h addr bytes size_exp store ignore_pmp).machine
        h
        other
        buffer
        other_exp
        load
        ignore_pmp).bytes
      ≡ (access_phys m h other buffer other_exp load ignore_pmp).bytes
unfolding is_permitted pmp_allows in_ram after_store
access_phys-load_elsewhere {D = D} m h addr other bytes buffer size_exp other_exp ignore_pmp sized
      may_store may_load inside inside' fits small full full' apart =
    ap (λ (a : Accessed D). (access_phys a.machine h other buffer other_exp load ignore_pmp).bytes)
      (access_phys-store m h addr bytes size_exp ignore_pmp sized may_store inside fits.0 small.0
        full)
    ∙ ap (λ (a : Accessed D). a.bytes)
        (access_phys-load n h other buffer other_exp ignore_pmp
          (IsSized-after_store m addr bytes sized) may_load inside' fits.1 small.1 full')
    ∙ ap some (load_bytes-same n.ram m.ram (other - m.ram_start) (2 ^ other_exp) same)
    ∙ sym (
        ap (λ (a : Accessed D). a.bytes)
          (access_phys-load m h other buffer other_exp ignore_pmp sized may_load inside' fits.1
            small.1 full'))
  where
    n : Machine D
    n = after_store m addr bytes

    same :
        (j : ℕ)
        → other - m.ram_start ≤ j
        → j < other - m.ram_start + 2 ^ other_exp
        → get_or n.ram j 0 ≡ get_or m.ram j 0
    same j lo hi = ground (
      arith,
      full,
      apart,
      in_ram-inside m addr (2 ^ size_exp) sized fits.0 inside,
      get_or-store_bytes m.ram (addr - m.ram_start) bytes j,
    )
