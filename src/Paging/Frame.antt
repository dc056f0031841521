-- ===== src/Paging/Frame.antt =====
-- Accesses to virtual memory in emulator/src/cpu/rv_paging.c keep the shape of the machine.
use riscmulator.Machine.Phys.{access_phys_partial, access_phys}
use riscmulator.Paging.Virt.{
  paddr_of, is_bare, access_virt, access_virt_pageboundary, second_part, translated,
}
use riscmulator.Base.{
  sub64, ◌%◌, bit_or, ◌-◌, ◌^◌, ◌==◌, not, truth, replicate, ◌>>>◌, bit_and, ◌+◌, ◌/◌, u64, ◌*◌, ℕ,
  List, true, false, if-elim, zero, suc,
}
use riscmulator.Paging.{
  probe, satp_ppn, set_flags, leaf_entry, check_access, pmp_check, bytes_of, pte_ppn, failed,
  access_phys, drop_stale, Probe, TlbEntry, raw_lookup, set_leaf, Access, after_probe, flags_stored,
  leaf, refill, walk, Lookup, lookup, hit, stale, miss,
}
use riscmulator.Machine.{on_hart, hart_of, Machine, Accessed}
use riscmulator.Memory.{le_bytes, le_value, MemResult, load, store, is_ok, Access}
use riscmulator.Pmp.{pmp_check}
use riscmulator.Tlb.{is_canon_vaddr}
use riscmulator.Machine.Frame.{access_phys_partial-SameShape, access_phys-SameShape}
use riscmulator.Machine.Shape.{
  SameShape-overran, still_tame, SameShape-on_hart, SameShape, SameShape-refl, SameShape-trans,
  AllTame,
}
use riscmulator.Cpu.{TlbEntry}

-- The machine after a lookup, or after an access, has the shape of another.
record Like {D : Type 0} (m : Machine D) (l : Lookup D) : Type 0 where
  same : SameShape m l.machine

record Ends {D : Type 0} (m : Machine D) (a : Accessed D) : Type 0 where
  same : SameShape m a.machine

flags_stored-Like :
    {D : Type 0} (m : Machine D) (entry : TlbEntry) (stored : Accessed D)
    → SameShape m stored.machine
    → Like m (flags_stored entry stored)
unfolding flags_stored
flags_stored-Like m entry stored went =
    if-elim (Like m) (is_ok stored.result) (λ _. record { same = went })
      (λ _. record { same = went })

leaf-Like :
    {D : Type 0} (m : Machine D) (h vaddr level pte_paddr pte pte_pmp : ℕ) (mode : Access)
    → AllTame m.mmio
    → Like m (leaf m h vaddr level pte_paddr pte pte_pmp mode)
unfolding leaf set_leaf
leaf-Like {D = D} m h vaddr level pte_paddr pte pte_pmp mode tame =
    if-elim (Like m) (truth (bit_and (pte_ppn pte) (2 ^ (9 * level) - 1))) (λ _. stays)
      (λ _.
        if-elim (Like m) (is_ok (check_access (hart_of m h) entry mode))
          (λ _.
            if-elim (Like m) (bit_and pte (set_flags mode) == set_flags mode)
              (λ _. record { same = SameShape-refl m })
              (λ _.
                if-elim (Like m) (bit_and pte_pmp 2 == 0) (λ _. stays)
                  (λ _.
                    flags_stored-Like m (record entry { pte = bit_or entry.pte (set_flags mode) })
                      stored (access_phys-SameShape m h pte_paddr _ 3 store true tame))))
          (λ _. record { same = SameShape-refl m }))
  where
    entry : TlbEntry
    entry = leaf_entry (hart_of m h) vaddr level pte

    stored : Accessed D
    stored = access_phys m h pte_paddr (le_bytes 8 (bit_or pte (set_flags mode))) 3 store true

    stays : {result : MemResult} → Like m (failed result m)
    stays = record { same = SameShape-refl m }

walk-Like :
    {D : Type 0} (left : ℕ) (m : Machine D) (h vaddr ppn : ℕ) (mode : Access)
    → AllTame m.mmio
    → Like m (walk left m h vaddr ppn mode)
unfolding walk
walk-Like zero m h vaddr ppn mode tame = record { same = SameShape-refl m }
walk-Like {D = D} (suc level) m h vaddr ppn mode tame =
    if-elim (Like m) (bit_and (pmp_check (hart_of m h) pte_paddr 8 false) 1 == 0)
      (λ _. record { same = SameShape-refl m })
      (λ _.
        if-elim (Like m) (not (is_ok read.result)) (λ _. record { same = went })
          (λ _.
            if-elim (Like m) (bit_and pte 1 == 0) (λ _. record { same = went })
              (λ _.
                if-elim (Like m) (truth (bit_and pte 0x1e))
                  (λ _. record {
                    same =
                        SameShape-trans went
                          (leaf-Like read.machine h vaddr level pte_paddr _ _ mode
                            (still_tame went tame)).same;
                  })
                  (λ _. record {
                    same =
                        SameShape-trans went
                          (walk-Like level read.machine h vaddr _ mode (still_tame went tame)).same;
                  }))))
  where
    pte_paddr : ℕ
    pte_paddr = ppn * 4096 + bit_and (vaddr / 4096 >>> (9 * level)) 0x1ff * 8

    read : Accessed D
    read = access_phys m h pte_paddr (replicate 8 0) 3 load true

    pte : ℕ
    pte = le_value (bytes_of read.bytes)

    went : SameShape m read.machine
    went = access_phys-SameShape m h pte_paddr (replicate 8 0) 3 load true tame

refill-Like :
    {D : Type 0} {m : Machine D} (h row : ℕ) (walked : Lookup D)
    → SameShape m walked.machine
    → Like m (refill h row walked)
unfolding refill
refill-Like {m = m} h row walked went =
    if-elim (Like m) (not (is_ok walked.result)) (λ _. record { same = went })
      (λ _.
        if-elim (Like m) (bit_and walked.entry.pte 1 == 0) (λ _. record { same = went })
          (λ _. record {
            same =
                SameShape-trans (SameShape-trans went (SameShape-on_hart walked.machine h _))
                  (SameShape-overran _ _);
          }))

raw_lookup-Like :
    {D : Type 0} (m : Machine D) (h vaddr : ℕ) (mode : Access)
    → AllTame m.mmio
    → Like m (raw_lookup m h vaddr mode)
unfolding raw_lookup
raw_lookup-Like m h vaddr mode tame = walk-Like 3 m h vaddr (satp_ppn (hart_of m h)) mode tame

after_probe-Like :
    {D : Type 0} (m : Machine D) (h row vaddr : ℕ) (mode : Access) (found : Probe)
    → AllTame m.mmio
    → Like m (after_probe m h row vaddr mode found)
unfolding after_probe
after_probe-Like m h row vaddr mode (hit entry) tame = record { same = SameShape-refl m }
after_probe-Like m h row vaddr mode (stale col) tame =
    let n = on_hart m h (drop_stale row col) in
    let dropped = SameShape-on_hart m h (drop_stale row col) in
    refill-Like h row (raw_lookup n h vaddr mode)
      (SameShape-trans dropped (raw_lookup-Like n h vaddr mode (still_tame dropped tame)).same)
after_probe-Like m h row vaddr mode miss tame =
    refill-Like h row (raw_lookup m h vaddr mode) (raw_lookup-Like m h vaddr mode tame).same

pub lookup-SameShape :
    {D : Type 0} (m : Machine D) (h vaddr : ℕ) (mode : Access)
    → AllTame m.mmio
    → SameShape m (lookup m h vaddr mode).machine
unfolding lookup
lookup-SameShape m h vaddr mode tame =
    let row = vaddr / 4096 % 16 in
    (after_probe-Like m h row vaddr mode (probe 16 0 (hart_of m h) row vaddr mode) tame).same

second_part-Ends :
    {D : Type 0} {m : Machine D} (h paddr size0 size1 : ℕ) (mode : Access) (first : Accessed D)
    → AllTame m.mmio
    → SameShape m first.machine
    → Ends m (second_part h paddr size0 size1 mode first)
unfolding second_part
second_part-Ends {m = m} h paddr size0 size1 mode first tame went =
    if-elim (Ends m) (is_ok first.result)
      (λ _. record {
        same = SameShape-trans went (
            access_phys_partial-SameShape first.machine h paddr _ size1 mode true
              (still_tame went tame));
      })
      (λ _. record { same = went })

pageboundary-Ends :
    {D : Type 0} (m : Machine D) (h vaddr : ℕ) (bytes : List ℕ) (size_exp : ℕ) (mode : Access)
    → AllTame m.mmio
    → Ends m (access_virt_pageboundary m h vaddr bytes size_exp mode)
unfolding access_virt_pageboundary
pageboundary-Ends {D = D} m h vaddr bytes size_exp mode tame =
    if-elim (Ends m) (not (is_canon_vaddr (hart_of m h) (u64 ((vaddr / 4096 + 1) * 4096))))
      (λ _. record { same = SameShape-refl m })
      (λ _.
        if-elim (Ends m) (not (is_ok result0.result)) (λ _. record { same = went0 })
          (λ _.
            if-elim (Ends m) (not (is_ok result1.result)) (λ _. record { same = went1 })
              (λ _.
                second_part-Ends h (paddr_of result1.entry vaddr1) size0
                  (sub64 (u64 (vaddr + 2 ^ size_exp)) vaddr1) mode
                  (access_phys_partial result1.machine h (paddr_of result0.entry vaddr) bytes size0
                    mode true)
                  tame
                  (SameShape-trans went1 (
                    access_phys_partial-SameShape result1.machine h (paddr_of result0.entry vaddr)
                      bytes size0 mode true (still_tame went1 tame))))))
  where
    vaddr1 : ℕ
    vaddr1 = u64 ((vaddr / 4096 + 1) * 4096)

    size0 : ℕ
    size0 = sub64 vaddr1 vaddr

    result0 : Lookup D
    result0 = lookup m h vaddr mode

    went0 : SameShape m result0.machine
    went0 = lookup-SameShape m h vaddr mode tame

    result1 : Lookup D
    result1 = lookup result0.machine h (u64 ((vaddr / 4096 + 1) * 4096)) mode

    went1 : SameShape m result1.machine
    went1 =
        SameShape-trans went0 (lookup-SameShape result0.machine h _ mode (still_tame went0 tame))

translated-Ends :
    {D : Type 0} {m : Machine D} (h vaddr : ℕ) (bytes : List ℕ) (size_exp : ℕ) (mode : Access)
    (looked : Lookup D)
    → AllTame m.mmio
    → SameShape m looked.machine
    → Ends m (translated h vaddr bytes size_exp mode looked)
unfolding translated
translated-Ends {m = m} h vaddr bytes size_exp mode looked tame went =
    if-elim (Ends m) (is_ok looked.result)
      (λ _. record {
        same = SameShape-trans went (
            access_phys-SameShape looked.machine h _ bytes size_exp mode true
              (still_tame went tame));
      })
      (λ _. record { same = went })

access_virt-Ends :
    {D : Type 0} (m : Machine D) (h vaddr : ℕ) (bytes : List ℕ) (size_exp : ℕ) (mode : Access)
    → AllTame m.mmio
    → Ends m (access_virt m h vaddr bytes size_exp mode)
unfolding access_virt
access_virt-Ends m h vaddr bytes size_exp mode tame =
    if-elim (Ends m) (is_bare (hart_of m h) mode)
      (λ _. record { same = access_phys-SameShape m h vaddr bytes size_exp mode false tame })
      (λ _.
        if-elim (Ends m) (not (is_canon_vaddr (hart_of m h) vaddr))
          (λ _. record { same = SameShape-refl m })
          (λ _.
            if-elim (Ends m) (not (vaddr / 4096 == u64 (vaddr + 2 ^ size_exp - 1) / 4096))
              (λ _. pageboundary-Ends m h vaddr bytes size_exp mode tame)
              (λ _.
                translated-Ends h vaddr bytes size_exp mode (lookup m h vaddr mode) tame
                  (lookup-SameShape m h vaddr mode tame))))

pub access_virt-SameShape :
    {D : Type 0} (m : Machine D) (h vaddr : ℕ) (bytes : List ℕ) (size_exp : ℕ) (mode : Access)
    → AllTame m.mmio
    → SameShape m (access_virt m h vaddr bytes size_exp mode).machine
access_virt-SameShape m h vaddr bytes size_exp mode tame =
    (access_virt-Ends m h vaddr bytes size_exp mode tame).same
