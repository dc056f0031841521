-- ===== src/Atomics.antt =====
-- emulator/src/cpu/rv_impl/atomics.c: the A extension. `atomic_lock` is held from the access to the
-- end, so an operation is one step with respect to those of other harts.
pub mod Frame
mod Examples
pub mod Reservations
pub mod Pair
use riscmulator.Base.{
  ltb, bit_or, bit_and, bit_xor, truth, ◌+◌, u64, not, replicate, sign_extend, u32, ◌&&◌, ◌==◌,
  get_or, if◌then◌else◌, set, ℕ, Bool, true, false, List, [], ◌∷◌, Option, none, some,
}
use riscmulator.Insn.{rs1_of, rd_of, rs2_of, field, funct3_of}
use riscmulator.Memory.{is_ok, le_bytes, le_value, Access, load, store, amo}
use riscmulator.Cpu.{xreg_read, xreg_write}
use riscmulator.Paging.Virt.{access_virt}
use riscmulator.Machine.{Machine, Accessed, Reservation, hart_of, on_hart}
use riscmulator.Paging.{bytes_of}
use riscmulator.Trap.{do_trap}
use riscmulator.LoadStore.{illegal, mem_fault}
use riscmulator.Alu.{signed_lt}

abbrev pub funct5_of : ℕ → ℕ
funct5_of insn = field insn 27 0x1f

abbrev pub size_exp_of : Bool → ℕ
size_exp_of is_32 = if is_32 then 2 else 3

abbrev pub size_of : Bool → ℕ
size_of is_32 = if is_32 then 4 else 8

-- A read of memory by an atomic operation, and the value read.
unfoldable pub atomic_read : {D : Type 0} → Machine D → ℕ → ℕ → Bool → Access → Accessed D
atomic_read machine h addr is_32 mode =
    access_virt machine h addr (replicate (size_of is_32) 0) (size_exp_of is_32) mode

abbrev pub value_read : {D : Type 0} → Bool → Accessed D → ℕ
value_read is_32 accessed =
    let val = le_value (bytes_of accessed.bytes) in if is_32 then sign_extend 32 val else val

unfoldable pub atomic_write : {D : Type 0} → Machine D → ℕ → ℕ → Bool → ℕ → Accessed D
atomic_write machine h addr is_32 val =
    access_virt machine h addr (le_bytes (size_of is_32) val) (size_exp_of is_32) store

abbrev zero_reservation : Reservation
zero_reservation = record { addr = 0; valid = false }

abbrev pub reservation : {D : Type 0} → Machine D → ℕ → Reservation
reservation machine i = get_or machine.reservations i zero_reservation

abbrev pub set_reservation : {D : Type 0} → Machine D → ℕ → Reservation → Machine D
set_reservation machine i res = record machine { reservations = set machine.reservations i res }

abbrev pub write_rd : {D : Type 0} → Machine D → ℕ → ℕ → ℕ → Machine D
write_rd machine h insn val = on_hart machine h (λ cpu. xreg_write cpu (rd_of insn) val)

-- LR, of the hart with an id.
unfoldable pub load_reserved : {D : Type 0} → Machine D → ℕ → ℕ → ℕ → Bool → Machine D
unfolding atomic_read
load_reserved machine h insn addr is_32 =
    let mhartid = (hart_of machine h).csr.mhartid in
    let got = atomic_read machine h addr is_32 load in
    if not (rs2_of insn == 0)
    then illegal machine h insn
    else if not (is_ok got.result)
    then mem_fault got h addr load
    else write_rd (set_reservation got.machine mhartid (record { addr = addr; valid = true })) h
        insn (value_read is_32 got)

-- SC.
unfoldable pub store_conditional : {D : Type 0} → Machine D → ℕ → ℕ → ℕ → Bool → Machine D
unfolding atomic_write
store_conditional machine h insn addr is_32 =
    let mhartid = (hart_of machine h).csr.mhartid in
    let res = reservation machine mhartid in
    let put = atomic_write machine h addr is_32 (xreg_read (hart_of machine h) (rs2_of insn)) in
    if not (res.valid && (res.addr == addr))
    then write_rd machine h insn 1
    else if not (is_ok put.result)
    then mem_fault put h addr store
    else write_rd
        (set_reservation put.machine mhartid
          (record (reservation put.machine mhartid) { valid = false }))
        h insn 0

-- The new value in memory; none for an unknown operation.
unfoldable pub amo_value : ℕ → Bool → ℕ → ℕ → Option ℕ
amo_value funct5 is_32 old rs2val =
    let lhs = if is_32 then u32 old else old in
    let rhs = if is_32 then u32 rs2val else rs2val in
    let lhs_s = if is_32 then sign_extend 32 old else old in
    let rhs_s = if is_32 then sign_extend 32 rs2val else rs2val in
    if funct5 == 0x01
    then some rhs
    else if funct5 == 0x00
    then some (u64 (lhs + rhs))
    else if funct5 == 0x04
    then some (bit_xor lhs rhs)
    else if funct5 == 0x08
    then some (bit_or lhs rhs)
    else if funct5 == 0x0c
    then some (bit_and lhs rhs)
    else if funct5 == 0x10
    then some (if signed_lt lhs_s rhs_s then lhs else rhs)
    else if funct5 == 0x14
    then some (if signed_lt rhs_s lhs_s then lhs else rhs)
    else if funct5 == 0x18
    then some (if ltb lhs rhs then lhs else rhs)
    else if funct5 == 0x1c
    then some (if ltb rhs lhs then lhs else rhs)
    else none

-- The loop that invalidates every hart's reservation of an address.
unfoldable pub clear_reservations : ℕ → List Reservation → List Reservation
clear_reservations addr [] = []
clear_reservations addr (r ∷ rs) =
    (if r.valid && (r.addr == addr) then record r { valid = false } else r)
    ∷ clear_reservations addr rs

-- After the write of an AMO.
unfoldable pub amo_finish : {D : Type 0} → ℕ → ℕ → ℕ → ℕ → Accessed D → Machine D
unfolding clear_reservations
amo_finish h insn addr old put =
    if not (is_ok put.result)
    then mem_fault put h addr store
    else write_rd
        (record (put.machine) { reservations = clear_reservations addr put.machine.reservations }) h
        insn old

unfoldable pub amo_commit : {D : Type 0} → Machine D → ℕ → ℕ → ℕ → Bool → ℕ → Option ℕ → Machine D
unfolding amo_finish atomic_write
amo_commit machine h insn addr is_32 old none = illegal machine h insn
amo_commit machine h insn addr is_32 old (some newval) =
    amo_finish h insn addr old (atomic_write machine h addr is_32 newval)

-- A read-modify-write operation.
unfoldable pub amo_op : {D : Type 0} → Machine D → ℕ → ℕ → ℕ → Bool → Machine D
unfolding atomic_read amo_commit amo_value
amo_op machine h insn addr is_32 =
    let rs2val = xreg_read (hart_of machine h) (rs2_of insn) in
    let got = atomic_read machine h addr is_32 amo in
    let old = value_read is_32 got in
    if not (is_ok got.result)
    then mem_fault got h addr amo
    else amo_commit got.machine h insn addr is_32 old (amo_value (funct5_of insn) is_32 old rs2val)

-- The trap of an address that is not a multiple of the size.
abbrev pub misaligned : {D : Type 0} → Machine D → ℕ → ℕ → ℕ → Machine D
misaligned machine h insn addr = on_hart machine h (λ cpu.
    do_trap machine.trap_hook cpu
      (record { epc = cpu.epc; cause = if funct5_of insn == 0x02 then 4 else 6; tval = addr }))

-- `rv_atomic_op`.
unfoldable pub atomic_op : {D : Type 0} → Machine D → ℕ → ℕ → Machine D
unfolding load_reserved store_conditional amo_op
atomic_op machine h insn =
    let funct3 = funct3_of insn in
    let is_32 = funct3 == 2 in
    let addr = xreg_read (hart_of machine h) (rs1_of insn) in
    if not (funct3 == 2) && not (funct3 == 3)
    then illegal machine h insn
    else if truth (bit_and addr (if is_32 then 3 else 7))
    then misaligned machine h insn addr
    else if funct5_of insn == 0x02
    then load_reserved machine h insn addr is_32
    else if funct5_of insn == 0x03
    then store_conditional machine h insn addr is_32
    else amo_op machine h insn addr is_32
