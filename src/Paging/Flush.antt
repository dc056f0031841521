-- ===== src/Paging/Flush.antt =====
-- The TLB of emulator/src/cpu/rv_paging.c after a flush: a lookup is then a walk of the page table.
use riscmulator.Base.{
  ◌⊎◌, false, ==_iff, ◌%◌, subst, sym, ◌/◌, ℕ, zero, suc, ◌+◌, ◌≤◌, ◌<◌, ◌≡◌, inl, inr, true, List,
  [], ◌∷◌, get_or, set, refl, arith, ◌∙◌, Bool-cases, ◌==◌, bit_and, length, ap, ◌^◌,
}
use riscmulator.Base.Shifts.{zero-bit_and}
use riscmulator.Cpu.{Cpu}
use riscmulator.Cpu.Update.{hart-update_hart_self}
use riscmulator.Machine.{Machine, on_hart, hart_of}
use riscmulator.Memory.{Access, MemResult, ok, access_fault, page_fault, is_ok}
use riscmulator.Tlb.{flush_tlb, flush_rows}
use riscmulator.Paging.{Lookup, lookup, raw_lookup, refill, after_probe, probe, miss}

get_or-set_zero : (xs : List ℕ) (i : ℕ) → get_or (set xs i 0) i 0 ≡ 0
get_or-set_zero [] i = refl
get_or-set_zero (x ∷ xs) zero = refl
get_or-set_zero (x ∷ xs) (suc i) = get_or-set_zero xs i

-- A row that is clear stays clear.
set_zero-clear : (xs : List ℕ) (i j : ℕ) → get_or xs j 0 ≡ 0 → get_or (set xs i 0) j 0 ≡ 0
set_zero-clear [] i j e = e
set_zero-clear (x ∷ xs) zero zero e = refl
set_zero-clear (x ∷ xs) zero (suc j) e = e
set_zero-clear (x ∷ xs) (suc i) zero e = e
set_zero-clear (x ∷ xs) (suc i) (suc j) e = set_zero-clear xs i j e

flush_rows-clear :
    (left row j : ℕ) (valid : List ℕ)
    → get_or valid j 0 ≡ 0
    → get_or (flush_rows left row valid) j 0 ≡ 0
unfolding flush_rows
flush_rows-clear zero row j valid e = e
flush_rows-clear (suc left) row j valid e =
    flush_rows-clear left (row + 1) j (set valid row 0) (set_zero-clear valid row j e)

flush_rows-zero :
    (left row j : ℕ) (valid : List ℕ)
    → row ≤ j
    → j < row + left
    → get_or (flush_rows left row valid) j 0 ≡ 0
unfolding flush_rows
flush_rows-zero zero row j valid h k = absurd (omega arith)
flush_rows-zero (suc left) row j valid h k = elim (Bool-cases (row == j)) [
  | inl e ↦ flush_rows-clear left (row + 1) j (set valid row 0) (
      subst (λ (i : ℕ). get_or (set valid row 0) i 0 ≡ 0) ((==_iff row j).0 e)
        (get_or-set_zero valid row))
  | inr e ↦ flush_rows-zero left (row + 1) j (set valid row 0) (ground arith) (omega arith)
]

-- In a row without a valid entry there is nothing to find.
probe-miss :
    (left col : ℕ) (cpu : Cpu) (row vaddr : ℕ) (mode : Access)
    → get_or cpu.tlb.valid row 0 ≡ 0
    → probe left col cpu row vaddr mode ≡ miss
unfolding probe
probe-miss zero col cpu row vaddr mode e = refl
probe-miss (suc left) col cpu row vaddr mode e =
    rw (e, zero-bit_and (2 ^ col)) (probe-miss left (col + 1) cpu row vaddr mode e)

-- The insertion of what a walk has found does not change what the lookup answers.
ok_of : (r : MemResult) → is_ok r ≡ true → r ≡ ok
ok_of ok e = refl
ok_of access_fault e = cc
ok_of page_fault e = cc

refill_lem :
    {D : Type 0} (h row : ℕ) (walked : Lookup D)
    → ((refill h row walked).result ≡ walked.result)
      × ((is_ok walked.result ≡ false) ⊎ ((refill h row walked).entry ≡ walked.entry))
unfolding refill
refill_lem h row walked = elim (Bool-cases (is_ok walked.result)) [
  | inl fine ↦ elim (Bool-cases (bit_and walked.entry.pte 1 == 0)) [
    | inl invalid ↦ rw (fine, invalid) (refl, inr refl)
    | inr valid ↦ rw (fine, valid) (sym (ok_of walked.result fine), inr refl)
  ]
  | inr fault ↦ rw fault (refl, inl refl)
]

-- After a flush of the TLB of a hart, a lookup has the result of the page walk, and the entry of the
-- walk unless that fails, for every address and kind of access.
pub lookup-flush_tlb :
    {D : Type 0} (m : Machine D) (h vaddr : ℕ) (mode : Access)
    → h < length m.cpus
    → ((lookup (on_hart m h flush_tlb) h vaddr mode).result
        ≡ (raw_lookup (on_hart m h flush_tlb) h vaddr mode).result)
      × ((is_ok (raw_lookup (on_hart m h flush_tlb) h vaddr mode).result ≡ false)
          ⊎ ((lookup (on_hart m h flush_tlb) h vaddr mode).entry
              ≡ (raw_lookup (on_hart m h flush_tlb) h vaddr mode).entry))
unfolding lookup
lookup-flush_tlb m h vaddr mode exists =
    rw (probe-miss 16 0 (hart_of (on_hart m h flush_tlb) h) (vaddr / 4096 % 16) vaddr mode clear) (
      unfold after_probe in
      refill_lem h (vaddr / 4096 % 16) (raw_lookup (on_hart m h flush_tlb) h vaddr mode))
  where
    clear : get_or (hart_of (on_hart m h flush_tlb) h).tlb.valid (vaddr / 4096 % 16) 0 ≡ 0
    clear =
        ap (λ (c : Cpu). get_or c.tlb.valid (vaddr / 4096 % 16) 0)
          (hart-update_hart_self m.cpus h flush_tlb exists)
        ∙ (unfold flush_tlb in
            flush_rows-zero 16 0 (vaddr / 4096 % 16) (hart_of m h).tlb.valid (omega arith)
              (omega arith))
