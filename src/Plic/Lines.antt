-- ===== src/Plic/Lines.antt =====
-- The interrupt lines: `plic_update_harts` makes MEIP and SEIP of every hart tell whether its
-- contexts have a claimable source, and changes nothing else of a hart.
use riscmulator.Base.{
  ◌↔◌, ℕ, zero, suc, ◌+◌, ◌*◌, ◌/◌, ◌≤◌, ◌<◌, ◌≡◌, refl, ap, arith, Bool, true, ltb, leb, ◌==◌,
  List, false, if◌then◌else◌, ==_iff, Bool-cases, inl, inr, length, to_nat, ◌&&◌, ◌||◌, ◌∙◌,
}
use riscmulator.Base.Bits.{bit, bit-set, bit-clear}
use riscmulator.Cpu.{Cpu}
use riscmulator.Cpu.Update.{hart, length-update_hart, hart-update_hart_self, hart-update_hart_ne}
use riscmulator.Plic.{
  Plic, claimable, has_irq, has_irq_from, irq_line, drive_line, update_context, update_harts_from,
  update_harts, num_sources,
}

-- `has_irq` is true exactly if some source is claimable.
has_irq_from-true :
    (p : Plic) (ctx left src : ℕ)
    → has_irq_from p ctx left src ≡ true
    → (t : ℕ) × (src ≤ t) × (t < src + left) × (claimable p ctx t ≡ true)
unfolding has_irq_from
has_irq_from-true p ctx zero src h = absurd (cc)
has_irq_from-true p ctx (suc left) src h = elim (Bool-cases (claimable p ctx src)) [
  | inl e ↦ (src, omega arith, omega arith, e)
  | inr e ↦
      let (t, lo, hi, c) = has_irq_from-true p ctx left (src + 1) (ground arith) in
      (t, omega arith, omega arith, c)
]

has_irq_from-intro :
    (p : Plic) (ctx left src t : ℕ)
    → src ≤ t
    → t < src + left
    → claimable p ctx t ≡ true
    → has_irq_from p ctx left src ≡ true
unfolding has_irq_from
has_irq_from-intro p ctx zero src t lo hi c = absurd (omega arith)
has_irq_from-intro p ctx (suc left) src t lo hi c = elim (Bool-cases (src == t)) [
  | inl e ↦ ground (arith, ap (λ (u : ℕ). claimable p ctx u) ((==_iff src t).0 e))
  | inr e ↦ ground (arith, has_irq_from-intro p ctx left (src + 1) t)
]

irq_pending-drive_line :
    (level : Bool) (line k : ℕ) (cpu : Cpu)
    → k < 64
    → bit (drive_line level line cpu).irq_pending k
      ≡ (if line == k then to_nat level else bit cpu.irq_pending k)
unfolding drive_line
irq_pending-drive_line level line k cpu h =
    ground (arith, bit-set cpu.irq_pending line k, bit-clear cpu.irq_pending line k)

-- The context that drives bit `k` of hart `h`.
abbrev pub driver : ℕ → ℕ → ℕ
driver h k = if k == 11 then 2 * h else 2 * h + 1

abbrev pub is_external : ℕ → Bool
is_external k = (k == 11) || (k == 9)

irq_pending-update_context :
    (p : Plic) (ctx h k : ℕ) (cpus : List Cpu)
    → k < 64
    → h < length cpus
    → bit (hart (update_context p ctx cpus) h).irq_pending k ≡ (
        if is_external k && (ctx == driver h k)
        then to_nat (has_irq p ctx)
        else bit (hart cpus h).irq_pending k)
unfolding update_context
irq_pending-update_context p ctx h k cpus hk hh = ground (
  arith,
  irq_pending-drive_line (has_irq p ctx) (irq_line ctx) k (hart cpus h),
  hart-update_hart_self cpus h (drive_line (has_irq p ctx) (irq_line ctx)),
  hart-update_hart_ne cpus (ctx / 2) h (drive_line (has_irq p ctx) (irq_line ctx)),
)

pub length-update_context :
    (p : Plic) (ctx : ℕ) (cpus : List Cpu) → length (update_context p ctx cpus) ≡ length cpus
unfolding update_context
length-update_context p ctx cpus =
    ground (arith, length-update_hart cpus (ctx / 2) (drive_line (has_irq p ctx) (irq_line ctx)))

irq_pending-update_harts_from :
    (p : Plic) (left ctx h k : ℕ) (cpus : List Cpu)
    → k < 64
    → h < length cpus
    → bit (hart (update_harts_from p left ctx cpus) h).irq_pending k ≡ (
        if is_external k && leb ctx (driver h k) && ltb (driver h k) (ctx + left)
        then to_nat (has_irq p (driver h k))
        else bit (hart cpus h).irq_pending k)
unfolding update_harts_from
irq_pending-update_harts_from p zero ctx h k cpus hk hh = ground arith
irq_pending-update_harts_from p (suc left) ctx h k cpus hk hh =
    irq_pending-update_harts_from p left (ctx + 1) h k (update_context p ctx cpus) hk
      (rw length-update_context hh)
    ∙ ground (
      arith,
      irq_pending-update_context p ctx h k cpus,
      ap (λ (c : ℕ). has_irq p c) {x = ctx} {y = driver h k},
    )

length-update_harts_from :
    (p : Plic) (left ctx : ℕ) (cpus : List Cpu)
    → length (update_harts_from p left ctx cpus) ≡ length cpus
unfolding update_harts_from
length-update_harts_from p zero ctx cpus = refl
length-update_harts_from p (suc left) ctx cpus =
    length-update_harts_from p left (ctx + 1) (update_context p ctx cpus)
    ∙ length-update_context p ctx cpus

pub length-update_harts : (p : Plic) (cpus : List Cpu) → length (update_harts p cpus) ≡ length cpus
unfolding update_harts
length-update_harts p cpus = length-update_harts_from p p.num_contexts 0 cpus

-- With two contexts for each hart, `plic_update_harts` sets MEIP (11) of a hart to whether its
-- M-mode context has a claimable source, SEIP (9) to whether its S-mode context has one, and
-- leaves every other bit of `irq_pending` as it was.
pub irq_pending-update_harts :
    (p : Plic) (cpus : List Cpu) (h k : ℕ)
    → p.num_contexts ≡ 2 * length cpus
    → k < 64
    → h < length cpus
    → bit (hart (update_harts p cpus) h).irq_pending k
      ≡ (if is_external k then to_nat (has_irq p (driver h k)) else bit (hart cpus h).irq_pending k)
unfolding update_harts
irq_pending-update_harts p cpus h k two hk hh =
    irq_pending-update_harts_from p p.num_contexts 0 h k cpus hk hh ∙ ground arith

-- A controller with nothing pending raises no line.
pub has_irq-quiet :
    (p : Plic) (ctx : ℕ) → ((t : ℕ) → claimable p ctx t ≡ false) → has_irq p ctx ≡ false
unfolding has_irq
has_irq-quiet p ctx quiet = scan num_sources 1
  where
    scan : (left src : ℕ) → has_irq_from p ctx left src ≡ false
    scan zero src = unfold has_irq_from in refl
    scan (suc left) src = unfold has_irq_from in rw (quiet src) (scan left (src + 1))

-- The line of a context is raised exactly if one of the sources 1 to 64 is claimable.
pub has_irq_iff :
    (p : Plic) (ctx : ℕ)
    → (has_irq p ctx ≡ true) ↔ ((t : ℕ) × (1 ≤ t) × (t ≤ num_sources) × (claimable p ctx t ≡ true))
unfolding has_irq
has_irq_iff p ctx = (
  λ h. let (t, lo, hi, c) = has_irq_from-true p ctx num_sources 1 h in (t, lo, omega arith, c),
  λ e. has_irq_from-intro p ctx num_sources 1 e.0 e.1 (omega (arith, e.2)) e.3,
)
