-- ===== src/Clint/Invariant.antt =====
-- The invariant of the timer, kept by every operation: an armed hart's deadline is that of its
-- compare value and the epoch.
use riscmulator.Clint.{
  drive_msip, target, Target, mtime_reg, mtimecmp_reg, msip_reg, init, write, write_target,
  arm_timer, Clint, set_mtime, set_mtimecmp, check_timer, deadline_of, reset_deadlines,
}
use mathlib.Core.Option
use riscmulator.Base.{
  subst, Option, none, some, length-replicate, ◌&&◌, ◌∙◌, ℕ, zero, suc, ◌+◌, ◌-◌, ◌^◌, ◌<◌, ◌≡◌,
  refl, arith, leb, ltb, if◌then◌else◌, true, false, List, length, length-set, get_or,
  get_or-set_self, get_or-set_ne, set,
}
use riscmulator.Cpu.{Cpu}
use riscmulator.Cpu.Update.{
  hart, update_hart, length-update_hart, hart-update_hart_self, hart-update_hart_ne,
}

-- Sizes, hart numbers, and the deadlines of the armed harts.
pub record IsConsistent (clint : Clint) (cpus : List Cpu) : Type 0 where
  pub compares : length clint.mtimecmp ≡ clint.cpu_count
  pub deadlines : length clint.deadline_ns ≡ clint.cpu_count
  pub harts : length cpus ≡ clint.cpu_count
  pub ids : (h : ℕ) → h < clint.cpu_count → (hart cpus h).csr.mhartid ≡ h
  pub armed :
      (h : ℕ)
      → h < clint.cpu_count
      → (hart cpus h).clint_timer_armed ≡ true
      → get_or clint.deadline_ns h 0 ≡ deadline_of clint.epoch_ns (get_or clint.mtimecmp h 0)

-- The loop over the harts stores the new deadline of each.
length-reset_deadlines :
    (epoch : ℕ) (cmps : List ℕ) (left i : ℕ) (ds : List ℕ)
    → length (reset_deadlines epoch cmps left i ds) ≡ length ds
unfolding reset_deadlines
length-reset_deadlines epoch cmps zero i ds = refl
length-reset_deadlines epoch cmps (suc left) i ds =
    length-reset_deadlines epoch cmps left (i + 1) (set ds i (deadline_of epoch (get_or cmps i 0)))
    ∙ length-set ds i (deadline_of epoch (get_or cmps i 0))

get_or-reset_deadlines :
    (epoch : ℕ) (cmps : List ℕ) (left i h : ℕ) (ds : List ℕ)
    → h < length ds
    → get_or (reset_deadlines epoch cmps left i ds) h 0
      ≡ (if leb i h && ltb h (i + left) then deadline_of epoch (get_or cmps h 0) else get_or ds h 0)
unfolding reset_deadlines
get_or-reset_deadlines epoch cmps zero i h ds lt = ground arith
get_or-reset_deadlines epoch cmps (suc left) i h ds lt =
    get_or-reset_deadlines epoch cmps left (i + 1) h
      (set ds i (deadline_of epoch (get_or cmps i 0))) (rw length-set lt)
    ∙ ground (
      arith,
      get_or-set_self ds i (deadline_of epoch (get_or cmps i 0)) 0,
      get_or-set_ne ds i h (deadline_of epoch (get_or cmps i 0)) 0,
    )

set_mtime-IsConsistent :
    (now value : ℕ) (clint : Clint) (cpus : List Cpu)
    → IsConsistent clint cpus
    → IsConsistent (set_mtime now clint value) cpus
unfolding set_mtime
set_mtime-IsConsistent now value clint cpus c = record {
  compares = c.compares;
  deadlines =
      length-reset_deadlines _ clint.mtimecmp clint.cpu_count 0 clint.deadline_ns ∙ c.deadlines;
  harts = c.harts;
  ids = c.ids;
  armed = λ h lt on.
      get_or-reset_deadlines _ clint.mtimecmp clint.cpu_count 0 h clint.deadline_ns
        (rw c.deadlines lt)
      ∙ ground arith;
}

-- A change of one hart's interrupt bits, and of its timer flag where its deadline is right.
update_hart-IsConsistent :
    (clint : Clint) (cpus : List Cpu) (h : ℕ) (f : Cpu → Cpu)
    → IsConsistent clint cpus
    → ((cpu : Cpu) → (f cpu).csr.mhartid ≡ cpu.csr.mhartid)
    → ((f (hart cpus h)).clint_timer_armed ≡ true
        → h < clint.cpu_count
        → get_or clint.deadline_ns h 0 ≡ deadline_of clint.epoch_ns (get_or clint.mtimecmp h 0))
    → IsConsistent clint (update_hart cpus h f)
update_hart-IsConsistent clint cpus h f c keeps right = record {
  compares = c.compares;
  deadlines = c.deadlines;
  harts = length-update_hart cpus h f ∙ c.harts;
  ids = λ j lt. ground (
    arith,
    hart-update_hart_self cpus h f,
    hart-update_hart_ne cpus h j f,
    c.harts,
    c.ids j lt,
    keeps (hart cpus h),
  );
  armed = λ j lt on. ground (
    arith,
    hart-update_hart_self cpus h f,
    hart-update_hart_ne cpus h j f,
    c.harts,
    c.armed j lt,
    right,
  );
}

set_mtimecmp-IsConsistent :
    (clint : Clint) (cpus : List Cpu) (h value : ℕ)
    → IsConsistent clint cpus
    → IsConsistent (set_mtimecmp clint cpus h value).0 (set_mtimecmp clint cpus h value).1
unfolding set_mtimecmp
set_mtimecmp-IsConsistent clint cpus h value c = record {
  compares = length-set clint.mtimecmp h value ∙ c.compares;
  deadlines = length-set clint.deadline_ns h _ ∙ c.deadlines;
  harts = length-update_hart cpus h arm_timer ∙ c.harts;
  ids = λ j lt. ground (
    arith,
    hart-update_hart_self cpus h arm_timer,
    hart-update_hart_ne cpus h j arm_timer,
    c.harts,
    c.ids j lt,
  );
  armed = λ j lt on. ground (
    arith,
    hart-update_hart_ne cpus h j arm_timer,
    get_or-set_self clint.mtimecmp h value 0,
    get_or-set_ne clint.mtimecmp h j value 0,
    get_or-set_self clint.deadline_ns h (deadline_of clint.epoch_ns value) 0,
    get_or-set_ne clint.deadline_ns h j (deadline_of clint.epoch_ns value) 0,
    c.compares,
    c.deadlines,
    c.armed j lt,
  );
}

drive_msip-keeps :
    (v : ℕ) (cpu : Cpu)
    → ((drive_msip v cpu).csr.mhartid ≡ cpu.csr.mhartid)
      × ((drive_msip v cpu).clint_timer_armed ≡ cpu.clint_timer_armed)
unfolding drive_msip
drive_msip-keeps v cpu = ground arith

write_target-IsConsistent :
    (now : ℕ) (clint : Clint) (cpus : List Cpu) (t : Target) (value : ℕ)
    → IsConsistent clint cpus
    → IsConsistent (write_target now clint cpus t value).0 (write_target now clint cpus t value).1
unfolding write_target
write_target-IsConsistent now clint cpus mtime_reg value c =
    set_mtime-IsConsistent now value clint cpus c
write_target-IsConsistent now clint cpus (mtimecmp_reg h) value c =
    set_mtimecmp-IsConsistent clint cpus h value c
write_target-IsConsistent now clint cpus (msip_reg h) value c =
    update_hart-IsConsistent clint cpus h (drive_msip value) c
      (λ cpu. (drive_msip-keeps value cpu).0)
      (λ on lt. ground (arith, c.armed h lt, drive_msip-keeps value (hart cpus h)))

-- What holds of the state that an accepted access leaves.
AfterWrite : Option (Clint × List Cpu) → Type 0
AfterWrite none = Unit
AfterWrite (some r) = IsConsistent r.0 r.1

map-AfterWrite :
    (f : Target → Clint × List Cpu) (o : Option Target)
    → ((t : Target) → IsConsistent (f t).0 (f t).1)
    → AfterWrite (Option.map f o)
unfolding AfterWrite
map-AfterWrite f none h = tt
map-AfterWrite f (some t) h = h t

write-AfterWrite :
    (now : ℕ) (clint : Clint) (cpus : List Cpu) (offset size value : ℕ)
    → IsConsistent clint cpus
    → AfterWrite (write now clint cpus offset size value)
unfolding write
write-AfterWrite now clint cpus offset size value c =
    map-AfterWrite (λ t. write_target now clint cpus t value) (target clint offset size)
      (λ t. write_target-IsConsistent now clint cpus t value c)

-- `clint_write` keeps the invariant, at every offset, size and value that it accepts.
pub write-IsConsistent :
    (now : ℕ) (clint : Clint) (cpus : List Cpu) (offset size value : ℕ) {clint' : Clint}
    {cpus' : List Cpu}
    → IsConsistent clint cpus
    → write now clint cpus offset size value ≡ some (clint', cpus')
    → IsConsistent clint' cpus'
unfolding AfterWrite
write-IsConsistent now clint cpus offset size value c e =
    subst AfterWrite e (write-AfterWrite now clint cpus offset size value c)

-- So does `rv_clint_check_timer` on any hart.
pub check_timer-IsConsistent :
    (now : ℕ) (clint : Clint) (cpus : List Cpu) (h : ℕ)
    → IsConsistent clint cpus
    → IsConsistent clint (update_hart cpus h (check_timer now clint))
unfolding check_timer
check_timer-IsConsistent now clint cpus h c =
    update_hart-IsConsistent clint cpus h (check_timer now clint) c (λ cpu. ground arith)
      (λ on lt. ground (arith, c.armed h lt))

-- And `rv_clint_init` sets it up, on harts that carry their numbers and are not armed.
pub init-IsConsistent :
    (now : ℕ) (cpus : List Cpu)
    → ((h : ℕ)
        → h < length cpus
        → ((hart cpus h).csr.mhartid ≡ h) × ((hart cpus h).clint_timer_armed ≡ false))
    → IsConsistent (init now (length cpus)) cpus
unfolding init
init-IsConsistent now cpus fresh = record {
  compares = length-replicate (length cpus) 0;
  deadlines = length-replicate (length cpus) (2 ^ 64 - 1);
  harts = refl;
  ids = λ h lt. (fresh h lt).0;
  armed = λ h lt on. cc (on, (fresh h lt).1);
}
