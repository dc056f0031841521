-- ===== src/Machine/Spec.antt =====
-- RAM of emulator/src/emu_machine.c as a function from addresses to bytes: what loads and stores
-- promise, without the array and its bounds.
use riscmulator.Base.{
  some, ltb, get_or, ◌&&◌, ap₂, leb, length, true, ◌^◌, Bool, if◌then◌else◌, ◌-◌, ℕ, ◌≡◌, ◌≤◌, ◌<◌,
  ◌+◌, ◌∙◌, arith, refl, ap, List, [], ◌∷◌, zero, suc,
}
use riscmulator.Machine.{ok, load_bytes, Machine, Accessed, done}
use riscmulator.Machine.Phys.{access_phys, in_ram}
use riscmulator.Memory.Bytes.{get_or-store_bytes}
use riscmulator.Memory.{load_bytes, load, store}
use riscmulator.Machine.Safety.{IsSized, in_ram-inside}
use riscmulator.Machine.Ram.{is_permitted, access_phys-store, access_phys-load, after_store}

-- The byte that a machine has at an address; 0 where it has no RAM.
unfoldable pub view : {D : Type 0} → Machine D → ℕ → ℕ
view m a = if leb m.ram_start a then get_or m.ram (a - m.ram_start) 0 else 0

-- A store and a load of bytes.
unfoldable pub spec_store : (ℕ → ℕ) → ℕ → List ℕ → ℕ → ℕ
spec_store mem addr bytes a =
    if leb addr a && ltb a (addr + length bytes) then get_or bytes (a - addr) 0 else mem a

unfoldable pub spec_load : (ℕ → ℕ) → ℕ → ℕ → List ℕ
spec_load mem addr zero = []
spec_load mem addr (suc n) = mem addr ∷ spec_load mem (addr + 1) n

view-after_store :
    {D : Type 0} (m : Machine D) (addr : ℕ) (bytes : List ℕ) (a : ℕ)
    → m.ram_start ≤ addr
    → addr - m.ram_start + length bytes ≤ length m.ram
    → view (after_store m addr bytes) a ≡ spec_store (view m) addr bytes a
unfolding view spec_store after_store
view-after_store m addr bytes a above room = ground (
  arith,
  get_or-store_bytes m.ram (addr - m.ram_start) bytes (a - m.ram_start) room,
  ap (λ (i : ℕ). get_or bytes i 0) {x = a - m.ram_start - (addr - m.ram_start)} {y = a - addr},
)

load_bytes-view :
    {D : Type 0} (m : Machine D) (addr n : ℕ)
    → m.ram_start ≤ addr
    → load_bytes m.ram (addr - m.ram_start) n ≡ spec_load (view m) addr n
unfolding load_bytes spec_load view
load_bytes-view m addr zero above = refl
load_bytes-view m addr (suc n) above =
    ap₂ (λ (b : ℕ) (bs : List ℕ). b ∷ bs) (ground arith)
      (ap (λ (i : ℕ). load_bytes m.ram i n) {y = addr + 1 - m.ram_start} (omega arith)
        ∙ load_bytes-view m (addr + 1) n (omega arith))

in_ram-above :
    {D : Type 0} (m : Machine D) (addr size : ℕ) → in_ram m addr size ≡ true → m.ram_start ≤ addr
unfolding in_ram
in_ram-above m addr size inside = ground arith

-- Permitted accesses to RAM implement the memory that is a function: a store changes it at the bytes
-- stored and nowhere else, and a load returns what it holds.
pub view-access_phys :
    {D : Type 0} (m : Machine D) (h addr a : ℕ) (bytes buffer : List ℕ) (size_exp : ℕ)
    (ignore_pmp : Bool)
    → IsSized m
    → is_permitted m h addr (2 ^ size_exp) store ignore_pmp ≡ true
    → is_permitted m h addr (2 ^ size_exp) load ignore_pmp ≡ true
    → in_ram m addr (2 ^ size_exp) ≡ true
    → addr + 2 ^ size_exp < 2 ^ 64
    → size_exp ≤ 3
    → length bytes ≡ 2 ^ size_exp
    → length buffer ≡ 2 ^ size_exp
    → (view (access_phys m h addr bytes size_exp store ignore_pmp).machine a
        ≡ spec_store (view m) addr bytes a)
      × (access_phys m h addr buffer size_exp load ignore_pmp
          ≡ done ok (some (spec_load (view m) addr (2 ^ size_exp))) m)
view-access_phys {D = D} m h addr a bytes buffer size_exp ignore_pmp sized may_store may_load inside
      fits small full full' =
    (
      ap (λ (t : Accessed D). view t.machine a)
            (access_phys-store m h addr bytes size_exp ignore_pmp sized may_store inside fits small
              full)
          ∙ view-after_store m addr bytes a above
              (omega (arith, full, in_ram-inside m addr (2 ^ size_exp) sized fits inside)),
      access_phys-load m h addr buffer size_exp ignore_pmp sized may_load inside fits small full'
          ∙ ap (λ (bs : List ℕ). done ok (some bs) m) (load_bytes-view m addr (2 ^ size_exp) above),
    )
  where
    above : m.ram_start ≤ addr
    above = in_ram-above m addr (2 ^ size_exp) inside
