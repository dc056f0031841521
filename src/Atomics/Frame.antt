-- ===== src/Atomics/Frame.antt =====
-- Atomic operations, emulator/src/cpu/rv_impl/atomics.c, keep the shape of the machine.
use riscmulator.Base.{
  [], if◌then◌else◌, suc, ap, length-set, refl, ◌&&◌, ◌≡◌, length, ◌==◌, ℕ, Option, none, some,
  Bool, if-elim,
}
use riscmulator.Memory.{is_ok, load, store, amo}
use riscmulator.Machine.Shape.{still_tame, SameShape-on_hart, SameShape, SameShape-trans, AllTame}
use riscmulator.Atomics.{
  bit_and, funct5_of, amo_value, truth, rs1_of, value_read, write_rd, ◌∷◌, rs2_of, xreg_read,
  atomic_write, is_ok, Reservation, atomic_read, funct3_of, not, List, amo_commit, amo_finish,
  amo_op, atomic_op, clear_reservations, load_reserved, store_conditional, reservation,
}
use riscmulator.Insn.{rs1_of, rs2_of, funct3_of}
use riscmulator.Cpu.{xreg_read}
use riscmulator.LoadStore.Frame.{mem_fault-SameShape}
use riscmulator.Paging.Frame.{access_virt-SameShape}
use riscmulator.Machine.{Reservation, Machine, Accessed, hart_of}

pub length-clear_reservations :
    (addr : ℕ) (rs : List Reservation) → length (clear_reservations addr rs) ≡ length rs
unfolding clear_reservations
length-clear_reservations addr [] = refl
length-clear_reservations addr (r ∷ rs) = ap suc (length-clear_reservations addr rs)

SameShape-reservations :
    {D : Type 0} (m : Machine D) (rs : List Reservation)
    → length rs ≡ length m.reservations
    → SameShape m (record m { reservations = rs })
SameShape-reservations m rs h = record {
  start = refl;
  end = refl;
  size = refl;
  harts = refl;
  reserved = h;
  regions = refl;
}

-- A reservation changed and a register written.
finish :
    {D : Type 0} {m : Machine D} (n : Machine D) (rs : List Reservation) (h insn val : ℕ)
    → SameShape m n
    → length rs ≡ length n.reservations
    → SameShape m (write_rd (record n { reservations = rs }) h insn val)
finish n rs h insn val went same =
    SameShape-trans went
      (SameShape-trans (SameShape-reservations n rs same) (SameShape-on_hart _ h _))

load_reserved-SameShape :
    {D : Type 0} (m : Machine D) (h insn addr : ℕ) (is_32 : Bool)
    → AllTame m.mmio
    → SameShape m (load_reserved m h insn addr is_32)
unfolding load_reserved
load_reserved-SameShape {D = D} m h insn addr is_32 tame =
    if-elim (SameShape m) (not (rs2_of insn == 0)) (λ _. SameShape-on_hart m h _)
      (λ _.
        if-elim (SameShape m) (not (is_ok got.result))
          (λ _. mem_fault-SameShape got h addr load went)
          (λ _.
            finish got.machine _ h insn _ went
              (length-set got.machine.reservations (hart_of m h).csr.mhartid _)))
  where
    got : Accessed D
    got = atomic_read m h addr is_32 load

    went : SameShape m got.machine
    went = access_virt-SameShape m h addr _ _ load tame

store_conditional-SameShape :
    {D : Type 0} (m : Machine D) (h insn addr : ℕ) (is_32 : Bool)
    → AllTame m.mmio
    → SameShape m (store_conditional m h insn addr is_32)
unfolding store_conditional
store_conditional-SameShape {D = D} m h insn addr is_32 tame =
    if-elim (SameShape m) (not (res.valid && (res.addr == addr))) (λ _. SameShape-on_hart m h _)
      (λ _.
        if-elim (SameShape m) (not (is_ok put.result))
          (λ _. mem_fault-SameShape put h addr store went)
          (λ _.
            finish put.machine _ h insn _ went
              (length-set put.machine.reservations (hart_of m h).csr.mhartid _)))
  where
    res : Reservation
    res = reservation m (hart_of m h).csr.mhartid

    put : Accessed D
    put = atomic_write m h addr is_32 (xreg_read (hart_of m h) (rs2_of insn))

    went : SameShape m put.machine
    went = access_virt-SameShape m h addr _ _ store tame

amo_finish-SameShape :
    {D : Type 0} {m : Machine D} (h insn addr old : ℕ) (put : Accessed D)
    → SameShape m put.machine
    → SameShape m (amo_finish h insn addr old put)
unfolding amo_finish
amo_finish-SameShape {m = m} h insn addr old put went =
    if-elim (SameShape m) (not (is_ok put.result)) (λ _. mem_fault-SameShape put h addr store went)
      (λ _.
        finish put.machine _ h insn _ went
          (length-clear_reservations addr put.machine.reservations))

amo_commit-SameShape :
    {D : Type 0} (m : Machine D) (h insn addr : ℕ) (is_32 : Bool) (old : ℕ) (val : Option ℕ)
    → AllTame m.mmio
    → SameShape m (amo_commit m h insn addr is_32 old val)
unfolding amo_commit
amo_commit-SameShape m h insn addr is_32 old none tame = SameShape-on_hart m h _
amo_commit-SameShape m h insn addr is_32 old (some newval) tame =
    amo_finish-SameShape h insn addr old (atomic_write m h addr is_32 newval)
      (access_virt-SameShape m h addr _ _ store tame)

amo_op-SameShape :
    {D : Type 0} (m : Machine D) (h insn addr : ℕ) (is_32 : Bool)
    → AllTame m.mmio
    → SameShape m (amo_op m h insn addr is_32)
unfolding amo_op
amo_op-SameShape {D = D} m h insn addr is_32 tame =
    if-elim (SameShape m) (not (is_ok got.result)) (λ _. mem_fault-SameShape got h addr amo went)
      (λ _. SameShape-trans went (
        amo_commit-SameShape got.machine h insn addr is_32 (value_read is_32 got)
          (amo_value (funct5_of insn) is_32 (value_read is_32 got)
            (xreg_read (hart_of m h) (rs2_of insn)))
          (still_tame went tame)))
  where
    got : Accessed D
    got = atomic_read m h addr is_32 amo

    went : SameShape m got.machine
    went = access_virt-SameShape m h addr _ _ amo tame

pub atomic_op-SameShape :
    {D : Type 0} (m : Machine D) (h insn : ℕ) → AllTame m.mmio → SameShape m (atomic_op m h insn)
unfolding atomic_op
atomic_op-SameShape m h insn tame =
    if-elim (SameShape m) (not (funct3_of insn == 2) && not (funct3_of insn == 3))
      (λ _. SameShape-on_hart m h _)
      (λ _.
        if-elim (SameShape m) (truth (bit_and addr (if is_32 then 3 else 7)))
          (λ _. SameShape-on_hart m h _)
          (λ _.
            if-elim (SameShape m) (funct5_of insn == 0x02)
              (λ _. load_reserved-SameShape m h insn addr is_32 tame)
              (λ _.
                if-elim (SameShape m) (funct5_of insn == 0x03)
                  (λ _. store_conditional-SameShape m h insn addr is_32 tame)
                  (λ _. amo_op-SameShape m h insn addr is_32 tame))))
  where
    is_32 : Bool
    is_32 = funct3_of insn == 2

    addr : ℕ
    addr = xreg_read (hart_of m h) (rs1_of insn)
