-- ===== src/Atomics/Reservations.antt =====
-- The reservations of emulator/src/cpu/rv_impl/atomics.c.
use riscmulator.Base.{
  length, inr, inl, Bool-cases, ◌==◌, ◌&&◌, Bool, if◌then◌else◌, ℕ, ◌≡◌, ◌<◌, ◌∙◌, arith, refl, ap,
  zero, suc, [], ◌∷◌,
}
use riscmulator.Atomics.{
  load, atomic_read, rs2_of, xreg_read, atomic_write, load_reserved, set, get_or, true, write_rd,
  List, false, is_ok, reservation, amo_finish, clear_reservations, store_conditional,
}
use riscmulator.Cpu.{xreg_read}
use riscmulator.Insn.{rs2_of}
use riscmulator.Memory.{is_ok}
use riscmulator.Machine.{Machine, Accessed, hart_of, Reservation}

-- What an SC asks of a reservation.
abbrev pub holds : Reservation → ℕ → Bool
holds res addr = res.valid && (res.addr == addr)

cleared :
    (addr : ℕ) (r : Reservation)
    → holds (if holds r addr then record r { valid = false } else r) addr ≡ false
cleared addr r = elim (Bool-cases (holds r addr)) [ inl e ↦ rw e refl | inr e ↦ rw e e ]

holds-clear_reservations :
    (addr : ℕ) (rs : List Reservation) (i : ℕ)
    → holds (get_or (clear_reservations addr rs) i (record { addr = 0; valid = false })) addr
      ≡ false
unfolding clear_reservations
holds-clear_reservations addr [] i = refl
holds-clear_reservations addr (r ∷ rs) zero = cleared addr r
holds-clear_reservations addr (r ∷ rs) (suc i) = holds-clear_reservations addr rs i

-- An SC whose hart holds no reservation of the address.
store_conditional-refused :
    {D : Type 0} (m : Machine D) (h insn addr : ℕ) (is_32 : Bool)
    → holds (reservation m (hart_of m h).csr.mhartid) addr ≡ false
    → store_conditional m h insn addr is_32 ≡ write_rd m h insn 1
unfolding store_conditional
store_conditional-refused m h insn addr is_32 e = ground arith

amo_finish-reservations :
    {D : Type 0} (put : Accessed D) (h insn addr old : ℕ)
    → is_ok put.result ≡ true
    → (amo_finish h insn addr old put).reservations
      ≡ clear_reservations addr put.machine.reservations
unfolding amo_finish
amo_finish-reservations put h insn addr old e = rw e refl

-- After an AMO whose write did not fault, an SC to the same address by any hart fails: it writes 1 to
-- its destination and changes nothing else.
pub store_conditional-amo_finish :
    {D : Type 0} (put : Accessed D) (h g insn sc_insn addr old : ℕ) (is_32 : Bool)
    → is_ok put.result ≡ true
    → store_conditional (amo_finish h insn addr old put) g sc_insn addr is_32
      ≡ write_rd (amo_finish h insn addr old put) g sc_insn 1
store_conditional-amo_finish {D = D} put h g insn sc_insn addr old is_32 e =
    store_conditional-refused n g sc_insn addr is_32 (
      ap (λ (rs : List Reservation). holds (get_or rs id (record { addr = 0; valid = false })) addr)
        (amo_finish-reservations put h insn addr old e)
      ∙ holds-clear_reservations addr put.machine.reservations id)
  where
    n : Machine D
    n = amo_finish h insn addr old put

    id : ℕ
    id = (hart_of n g).csr.mhartid

-- The reservations after an SC whose store did not fault.
store_conditional-reservations :
    {D : Type 0} (m : Machine D) (h insn addr : ℕ) (is_32 : Bool)
    → holds (reservation m (hart_of m h).csr.mhartid) addr ≡ true
    → is_ok (atomic_write m h addr is_32 (xreg_read (hart_of m h) (rs2_of insn))).result ≡ true
    → (rs : List Reservation) × (res : Reservation) × ((store_conditional m h insn addr
          is_32).reservations
        ≡ set rs (hart_of m h).csr.mhartid (record res { valid = false }))
unfolding store_conditional
store_conditional-reservations m h insn addr is_32 held stores = (
  (atomic_write m h addr is_32 (xreg_read (hart_of m h) (rs2_of insn))).machine.reservations,
  reservation (atomic_write m h addr is_32 (xreg_read (hart_of m h) (rs2_of insn))).machine
      (hart_of m h).csr.mhartid,
  rw (held, stores) refl,
)

invalid-set :
    (rs : List Reservation) (i addr : ℕ) (res : Reservation)
    → holds
        (get_or (set rs i (record res { valid = false })) i (record { addr = 0; valid = false }))
        addr
      ≡ false
invalid-set [] i addr res = refl
invalid-set (r ∷ rs) zero addr res = refl
invalid-set (r ∷ rs) (suc i) addr res = invalid-set rs i addr res

-- A reservation serves one SC: after an SC that stored, the next SC of the same hart fails, to
-- whatever address: it writes 1 to its destination and changes nothing else.
pub store_conditional-twice :
    {D : Type 0} (m : Machine D) (h insn next addr other : ℕ) (is_32 next_is_32 : Bool)
    → holds (reservation m (hart_of m h).csr.mhartid) addr ≡ true
    → is_ok (atomic_write m h addr is_32 (xreg_read (hart_of m h) (rs2_of insn))).result ≡ true
    → (hart_of (store_conditional m h insn addr is_32) h).csr.mhartid ≡ (hart_of m h).csr.mhartid
    → store_conditional (store_conditional m h insn addr is_32) h next other next_is_32
      ≡ write_rd (store_conditional m h insn addr is_32) h next 1
store_conditional-twice {D = D} m h insn next addr other is_32 next_is_32 held stores same =
    let (rs, res, e) = store_conditional-reservations m h insn addr is_32 held stores in
    store_conditional-refused n h next other next_is_32 (
      ap (λ (k : ℕ). holds (reservation n k) other) same
      ∙ ap
          (λ (t : List Reservation). holds (get_or t id (record { addr = 0; valid = false })) other)
          e
      ∙ invalid-set rs id other res)
  where
    n : Machine D
    n = store_conditional m h insn addr is_32

    id : ℕ
    id = (hart_of m h).csr.mhartid

get_or-set :
    {A : Type 0} (xs : List A) (i j : ℕ) (v d : A)
    → j < length xs
    → get_or (set xs i v) j d ≡ (if i == j then v else get_or xs j d)
get_or-set [] i j v d small = absurd (omega arith)
get_or-set (x ∷ xs) zero zero v d small = refl
get_or-set (x ∷ xs) zero (suc j) v d small = ground arith
get_or-set (x ∷ xs) (suc i) zero v d small = ground arith
get_or-set (x ∷ xs) (suc i) (suc j) v d small = get_or-set xs i j v d (omega arith) ∙ ground arith

load_reserved-reservations :
    {D : Type 0} (m : Machine D) (h insn addr : ℕ) (is_32 : Bool)
    → rs2_of insn ≡ 0
    → is_ok (atomic_read m h addr is_32 load).result ≡ true
    → (load_reserved m h insn addr is_32).reservations
      ≡ set
          (atomic_read m h addr is_32 load).machine.reservations
          (hart_of m h).csr.mhartid
          (record { addr = addr; valid = true })
unfolding load_reserved
load_reserved-reservations m h insn addr is_32 no_rs2 reads = rw (no_rs2, reads) refl

-- An LR whose read does not fault reserves its address for its hart, and no other hart's
-- reservation changes: `i` is any hart's id, `before` the reservations as the read leaves them.
reservation-load_reserved :
    {D : Type 0} (m : Machine D) (h insn addr i : ℕ) (is_32 : Bool)
    → rs2_of insn ≡ 0
    → is_ok (atomic_read m h addr is_32 load).result ≡ true
    → i < length (atomic_read m h addr is_32 load).machine.reservations
    → reservation (load_reserved m h insn addr is_32) i ≡ (
        if (hart_of m h).csr.mhartid == i
        then record { addr = addr; valid = true }
        else reservation (atomic_read m h addr is_32 load).machine i)
reservation-load_reserved m h insn addr i is_32 no_rs2 reads small =
    ap (λ (rs : List Reservation). get_or rs i (record { addr = 0; valid = false }))
      (load_reserved-reservations m h insn addr is_32 no_rs2 reads)
    ∙ get_or-set (atomic_read m h addr is_32 load).machine.reservations (hart_of m h).csr.mhartid i
        _ _ small
