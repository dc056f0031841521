-- ===== src/Atomics/Pair.antt =====
-- A pair of LR and SC of emulator/src/cpu/rv_impl/atomics.c at an address of RAM.
use riscmulator.Atomics.{
  Reservation, replicate, some, reservation, size_exp_of, atomic_read, atomic_write, load_reserved,
  store_conditional, rs2_of, sign_extend, xreg_read, bit_and, le_bytes, load, rd_of, size_of, store,
  truth, set_reservation, true, ◌∷◌, write_rd,
}
use riscmulator.Machine.{Reservation, done, hart_of, Machine}
use riscmulator.Base.{
  get_or-set_self, ap, length, ==_iff, ◌<◌, ◌∙◌, if◌then◌else◌, refl, ◌==◌, ◌^◌, zero, [], if-elim,
  ◌+◌, ◌-◌, suc, false, set, ◌≡◌, Bool, get_or, List, ℕ,
}
use riscmulator.Memory.Bytes.{length-le_bytes}
use riscmulator.Machine.Ram.{access_phys-load, access_phys-store, after_store, is_permitted}
use riscmulator.LoadStore.RoundTrip.{access_virt-bare, IsPlain}
use riscmulator.Memory.{amo, ok, fetch, le_bytes, load_bytes, le_value, Access}
use riscmulator.Insn.{rs2_of, rd_of}
use riscmulator.Machine.Phys.{pmp_bit, pmp_allows, in_ram}
use riscmulator.Cpu.{xreg_read, zero_cpu, xreg_write, Cpu}
use riscmulator.Cpu.Update.{update_hart}
use riscmulator.Paging.Virt.{is_bare}
use riscmulator.Pmp.{check_from, pmp_check}

-- A property of the hart that runs, which a write to a register keeps.
get_or-set_keeps :
    {A : Type 0} (P : A → Type 0) (xs : List A) (i : ℕ) (v d : A)
    → P (get_or xs i d)
    → P v
    → P (get_or (set xs i v) i d)
get_or-set_keeps P [] i v d old new = old
get_or-set_keeps P (x ∷ xs) zero v d old new = new
get_or-set_keeps P (x ∷ xs) (suc i) v d old new = get_or-set_keeps P xs i v d old new

IsBlind : (Cpu → Type 0) → Type 0
IsBlind P = (cpu : Cpu) (xregs : List ℕ) → P cpu → P (record cpu { xregs = xregs })

write_rd-keeps :
    {D : Type 0} (P : Cpu → Type 0) (m : Machine D) (h insn val : ℕ)
    → IsBlind P
    → P (hart_of m h)
    → P (hart_of (write_rd m h insn val) h)
unfolding IsBlind update_hart xreg_write
write_rd-keeps P m h insn val blind old =
    get_or-set_keeps P m.cpus h _ zero_cpu old
      (if-elim P (rd_of insn == 0) (λ _. old) (λ _. blind (hart_of m h) _ old))

-- PMP and translation do not look at the registers.
check_from-xregs :
    (left i : ℕ) (cpu : Cpu) (xregs : List ℕ) (addr last : ℕ) (m_mode : Bool)
    → check_from left i (record cpu { xregs = xregs }) addr last m_mode
      ≡ check_from left i cpu addr last m_mode
unfolding check_from
check_from-xregs zero i cpu xregs addr last m_mode = refl
check_from-xregs (suc left) i cpu xregs addr last m_mode =
    rw (check_from-xregs left (i + 1) cpu xregs addr last m_mode) refl

pmp_check-xregs :
    (cpu : Cpu) (xregs : List ℕ) (addr size : ℕ) (m_mode : Bool)
    → pmp_check (record cpu { xregs = xregs }) addr size m_mode ≡ pmp_check cpu addr size m_mode
unfolding pmp_check
pmp_check-xregs cpu xregs addr size m_mode = check_from-xregs 64 0 cpu xregs addr _ m_mode

is_permitted-write_rd :
    {D : Type 0} (m : Machine D) (h insn val addr size : ℕ) (mode : Access)
    → is_permitted m h addr size mode false ≡ true
    → is_permitted (write_rd m h insn val) h addr size mode false ≡ true
unfolding is_permitted pmp_allows IsBlind
is_permitted-write_rd m h insn val addr size mode old =
    write_rd-keeps
      (λ (cpu : Cpu).
        truth (bit_and (pmp_check cpu addr size (cpu.privilege == 3)) (2 ^ pmp_bit mode)) ≡ true)
      m h insn val (λ cpu xregs e. rw (pmp_check-xregs cpu xregs addr size (cpu.privilege == 3)) e)
      old

is_bare-write_rd :
    {D : Type 0} (m : Machine D) (h insn val : ℕ) (mode : Access)
    → is_bare (hart_of m h) mode ≡ true
    → is_bare (hart_of (write_rd m h insn val) h) mode ≡ true
unfolding IsBlind is_bare
is_bare-write_rd m h insn val load old =
    write_rd-keeps (λ (cpu : Cpu). is_bare cpu load ≡ true) m h insn val (λ cpu xregs e. e) old
is_bare-write_rd m h insn val store old =
    write_rd-keeps (λ (cpu : Cpu). is_bare cpu store ≡ true) m h insn val (λ cpu xregs e. e) old
is_bare-write_rd m h insn val fetch old =
    write_rd-keeps (λ (cpu : Cpu). is_bare cpu fetch ≡ true) m h insn val (λ cpu xregs e. e) old
is_bare-write_rd m h insn val amo old =
    write_rd-keeps (λ (cpu : Cpu). is_bare cpu amo ≡ true) m h insn val (λ cpu xregs e. e) old

-- The machine after an LR of RAM, and after an SC that stored.
abbrev pub linked : {D : Type 0} → Machine D → ℕ → ℕ → ℕ → Bool → Machine D
linked m h insn addr is_32 =
    let val = le_value (load_bytes m.ram (addr - m.ram_start) (size_of is_32)) in
    write_rd (set_reservation m (hart_of m h).csr.mhartid (record { addr = addr; valid = true })) h
      insn (if is_32 then sign_extend 32 val else val)

abbrev pub committed : {D : Type 0} → Machine D → ℕ → ℕ → ℕ → Bool → Machine D
committed m h insn addr is_32 =
    write_rd
      (set_reservation
        (after_store m addr (le_bytes (size_of is_32) (xreg_read (hart_of m h) (rs2_of insn))))
        (hart_of m h).csr.mhartid (record { addr = addr; valid = false }))
      h insn 0

linked-IsPlain :
    {D : Type 0} (m : Machine D) (h insn addr size_exp : ℕ) (is_32 : Bool)
    → IsPlain m h addr size_exp
    → IsPlain (linked m h insn addr is_32) h addr size_exp
unfolding in_ram is_permitted pmp_allows
linked-IsPlain {D = D} m h insn addr size_exp is_32 plain = record {
  sized = record { bounds = plain.sized.bounds; below = plain.sized.below };
  store_bare = is_bare-write_rd n h insn _ store plain.store_bare;
  load_bare = is_bare-write_rd n h insn _ load plain.load_bare;
  may_store = is_permitted-write_rd n h insn _ addr (2 ^ size_exp) store plain.may_store;
  may_load = is_permitted-write_rd n h insn _ addr (2 ^ size_exp) load plain.may_load;
  inside = plain.inside;
  fits = plain.fits;
  small = plain.small;
}
  where
    n : Machine D
    n = set_reservation m (hart_of m h).csr.mhartid (record { addr = addr; valid = true })

-- The accesses of LR and SC.
atomic_read-plain :
    {D : Type 0} (m : Machine D) (h addr : ℕ) (is_32 : Bool)
    → IsPlain m h addr (size_exp_of is_32)
    → atomic_read m h addr is_32 load
      ≡ done ok (some (load_bytes m.ram (addr - m.ram_start) (size_of is_32))) m
unfolding atomic_read
atomic_read-plain m h addr true plain =
    access_virt-bare m h addr (replicate 4 0) 2 load plain.load_bare
    ∙ access_phys-load m h addr (replicate 4 0) 2 false plain.sized plain.may_load plain.inside
        plain.fits plain.small refl
atomic_read-plain m h addr false plain =
    access_virt-bare m h addr (replicate 8 0) 3 load plain.load_bare
    ∙ access_phys-load m h addr (replicate 8 0) 3 false plain.sized plain.may_load plain.inside
        plain.fits plain.small refl

atomic_write-plain :
    {D : Type 0} (m : Machine D) (h addr val : ℕ) (is_32 : Bool)
    → IsPlain m h addr (size_exp_of is_32)
    → atomic_write m h addr is_32 val
      ≡ done ok
          (some (le_bytes (size_of is_32) val))
          (after_store m addr (le_bytes (size_of is_32) val))
unfolding atomic_write
atomic_write-plain m h addr val true plain =
    access_virt-bare m h addr (le_bytes 4 val) 2 store plain.store_bare
    ∙ access_phys-store m h addr (le_bytes 4 val) 2 false plain.sized plain.may_store plain.inside
        plain.fits plain.small (length-le_bytes 4 val)
atomic_write-plain m h addr val false plain =
    access_virt-bare m h addr (le_bytes 8 val) 3 store plain.store_bare
    ∙ access_phys-store m h addr (le_bytes 8 val) 3 false plain.sized plain.may_store plain.inside
        plain.fits plain.small (length-le_bytes 8 val)

load_reserved-linked :
    {D : Type 0} (m : Machine D) (h insn addr : ℕ) (is_32 : Bool)
    → rs2_of insn ≡ 0
    → IsPlain m h addr (size_exp_of is_32)
    → load_reserved m h insn addr is_32 ≡ linked m h insn addr is_32
unfolding load_reserved
load_reserved-linked m h insn addr is_32 no_rs2 plain =
    rw (no_rs2, atomic_read-plain m h addr is_32 plain) refl

store_conditional-committed :
    {D : Type 0} (m : Machine D) (h insn addr : ℕ) (is_32 : Bool)
    → reservation m (hart_of m h).csr.mhartid ≡ record { addr = addr; valid = true }
    → IsPlain m h addr (size_exp_of is_32)
    → store_conditional m h insn addr is_32 ≡ committed m h insn addr is_32
unfolding store_conditional after_store
store_conditional-committed {D = D} m h insn addr is_32 held plain =
    rw (held, atomic_write-plain m h addr val is_32 plain, (==_iff addr addr).1 refl)
      (ap
        (λ (res : Reservation).
          write_rd
            (set_reservation (after_store m addr (le_bytes (size_of is_32) val))
              (hart_of m h).csr.mhartid (record res { valid = false }))
            h insn 0)
        held)
  where
    val : ℕ
    val = xreg_read (hart_of m h) (rs2_of insn)

linked-mhartid :
    {D : Type 0} (m : Machine D) (h insn addr : ℕ) (is_32 : Bool)
    → (hart_of (linked m h insn addr is_32) h).csr.mhartid ≡ (hart_of m h).csr.mhartid
unfolding IsBlind
linked-mhartid m h insn addr is_32 =
    write_rd-keeps (λ (cpu : Cpu). cpu.csr.mhartid ≡ (hart_of m h).csr.mhartid)
      (set_reservation m (hart_of m h).csr.mhartid (record { addr = addr; valid = true })) h insn _
      (λ cpu xregs e. e) refl

linked-reservation :
    {D : Type 0} (m : Machine D) (h insn addr : ℕ) (is_32 : Bool)
    → (hart_of m h).csr.mhartid < length m.reservations
    → reservation (linked m h insn addr is_32) (hart_of (linked m h insn addr is_32) h).csr.mhartid
      ≡ record { addr = addr; valid = true }
linked-reservation m h insn addr is_32 small =
    ap (λ (i : ℕ). reservation (linked m h insn addr is_32) i) (linked-mhartid m h insn addr is_32)
    ∙ get_or-set_self m.reservations (hart_of m h).csr.mhartid _ _ small

-- An LR and then an SC of the same hart, address and width, in RAM that the hart may read and write
-- without translation: the LR writes the word of RAM, sign extended, to its register and
-- does not change memory, and the SC succeeds: it stores the low bytes of its register, writes 0 to
-- its destination and gives up the reservation.
pub store_conditional-load_reserved :
    {D : Type 0} (m : Machine D) (h linsn sinsn addr : ℕ) (is_32 : Bool)
    → rs2_of linsn ≡ 0
    → (hart_of m h).csr.mhartid < length m.reservations
    → IsPlain m h addr (size_exp_of is_32)
    → (load_reserved m h linsn addr is_32 ≡ linked m h linsn addr is_32)
      × (store_conditional (load_reserved m h linsn addr is_32) h sinsn addr is_32
          ≡ committed (linked m h linsn addr is_32) h sinsn addr is_32)
store_conditional-load_reserved {D = D} m h linsn sinsn addr is_32 no_rs2 small plain = (
  read,
  ap (λ (n : Machine D). store_conditional n h sinsn addr is_32) read
      ∙ store_conditional-committed (linked m h linsn addr is_32) h sinsn addr is_32
          (linked-reservation m h linsn addr is_32 small)
          (linked-IsPlain m h linsn addr (size_exp_of is_32) is_32 plain),
)
  where
    read : load_reserved m h linsn addr is_32 ≡ linked m h linsn addr is_32
    read = load_reserved-linked m h linsn addr is_32 no_rs2 plain
