-- ===== src/Clint/Examples.antt =====
-- Runs of the CLINT on a machine of two harts, and the theorems at them.
use riscmulator.Base.{
  get_or, ℕ, zero, suc, ◌<◌, ◌≡◌, refl, arith, List, [], ◌∷◌, some, true, false, length,
}
use riscmulator.Clint.{
  deadline_of, write_target, target, Clint, init, read, write, set_mtimecmp, check_timer, set_mtime,
}
use riscmulator.Cpu.{Cpu, zero_cpu, zero_csr}
use riscmulator.Cpu.Update.{hart, update_hart}
use riscmulator.Clint.Invariant.{
  IsConsistent, write-IsConsistent, check_timer-IsConsistent, init-IsConsistent,
}
use riscmulator.Clint.Registers.{mtimecmp_address, read-write_mtimecmp}

abbrev numbered : ℕ → Cpu
numbered h = record zero_cpu { csr = record zero_csr { mhartid = h } }

abbrev two_harts : List Cpu
two_harts = numbered 0 ∷ numbered 1 ∷ []

abbrev fresh : Clint
fresh = record { epoch_ns = 5000; mtimecmp = 0 ∷ 0 ∷ []; deadline_ns = 0 ∷ 0 ∷ []; cpu_count = 2 }

fresh_harts :
    (h : ℕ)
    → h < length two_harts
    → ((hart two_harts h).csr.mhartid ≡ h) × ((hart two_harts h).clint_timer_armed ≡ false)
fresh_harts zero lt = (refl, refl)
fresh_harts (suc zero) lt = (refl, refl)
fresh_harts (suc (suc h)) lt = absurd (omega arith)

init-IsConsistent_example : IsConsistent (init 5000 2) two_harts
init-IsConsistent_example = init-IsConsistent 5000 two_harts fresh_harts

-- Hart 1 armed for tick 30 of a clock whose epoch is 5000 ns.
abbrev armed_harts : List Cpu
armed_harts = numbered 0 ∷ record (numbered 1) { clint_timer_armed = true } ∷ []

abbrev armed_clint : Clint
armed_clint = record fresh { mtimecmp = 0 ∷ 30 ∷ []; deadline_ns = 0 ∷ 8000 ∷ [] }

armed-IsConsistent : IsConsistent armed_clint armed_harts
armed-IsConsistent = record {
  compares = refl;
  deadlines = refl;
  harts = refl;
  ids = ids;
  armed = armed;
}
  where
    ids : (h : ℕ) → h < 2 → (hart armed_harts h).csr.mhartid ≡ h
    ids zero lt = refl
    ids (suc zero) lt = refl
    ids (suc (suc h)) lt = absurd (omega arith)

    armed :
        (h : ℕ)
        → h < 2
        → (hart armed_harts h).clint_timer_armed ≡ true
        → get_or armed_clint.deadline_ns h 0
          ≡ deadline_of armed_clint.epoch_ns (get_or armed_clint.mtimecmp h 0)
    armed zero lt on = cc
    armed (suc zero) lt on = refl
    armed (suc (suc h)) lt on = absurd (omega arith)

write-IsConsistent_example : IsConsistent (set_mtime 9000 armed_clint 10) armed_harts
write-IsConsistent_example =
    write-IsConsistent 9000 armed_clint armed_harts 0xbff8 8 10 armed-IsConsistent
      (unfold write target write_target in refl)

check_timer-IsConsistent_example :
    IsConsistent armed_clint (update_hart armed_harts 1 (check_timer 8000 armed_clint))
check_timer-IsConsistent_example =
    check_timer-IsConsistent 8000 armed_clint armed_harts 1 armed-IsConsistent

read-write_mtimecmp_example :
    (write 0 fresh two_harts (mtimecmp_address 1) 8 77 ≡ some (set_mtimecmp fresh two_harts 1 77))
    × (read 0
          (set_mtimecmp fresh two_harts 1 77).0
          (set_mtimecmp fresh two_harts 1 77).1
          (mtimecmp_address 1)
          8
        ≡ some 77)
read-write_mtimecmp_example =
    read-write_mtimecmp 0 0 fresh two_harts 1 1 77 refl (omega arith) (omega arith) (omega arith)
