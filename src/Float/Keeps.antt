-- ===== src/Float/Keeps.antt =====
-- What an instruction of emulator/src/cpu/rv_impl/float.c may change: flags are added to `fcsr`, and
-- a single that is written to a register is boxed.
use riscmulator.Base.{
  zero, suc, [], ◌∷◌, ==_iff, Bool-cases, none, subst, ℕ, ◌<◌, ◌≡◌, ◌⊎◌, inl, inr, ◌>>>◌, Bool,
  false, bit_or, get_or, set, refl, arith, ◌∙◌, sym, ap, if-elim, ◌^◌, ◌==◌, u32, List,
}
use riscmulator.Base.Bits.{bit_or-lt}
use riscmulator.Base.Shifts.{shr-bit_or, bit_or-zero, bit_or_assoc}
use riscmulator.Cpu.{Cpu, freg_write, xreg_write}
use riscmulator.Trap.{Hooks, do_iillegal}
use riscmulator.Float.{freg_read_f32, is_nan}
use riscmulator.Float.Env.{accrue, accrue_if, check_fflags, Flags, pack, canon_nan, canonical_nan}

unfoldable pub IsBoxed : ℕ → Type 0
IsBoxed r = r >>> 32 ≡ 0xffffffff

-- From a hart to what it is after an instruction in a format.
pub record Keeps (f64 : Bool) (before after : Cpu) : Type 0 where
  pub accrued : (flags : ℕ) × (flags < 2 ^ 5) × (after.csr.fcsr ≡ bit_or before.csr.fcsr flags)
  pub boxed :
      f64 ≡ false
      → (i : ℕ)
      → (get_or after.fregs i 0 ≡ get_or before.fregs i 0) ⊎ IsBoxed (get_or after.fregs i 0)

-- The hooks for an illegal instruction leave `fcsr` and the float registers alone.
pub record IsQuiet (hooks : Hooks) : Type 0 where
  pub same_fcsr : (cpu : Cpu) (insn : ℕ) → (do_iillegal hooks cpu insn).csr.fcsr ≡ cpu.csr.fcsr
  pub same_fregs : (cpu : Cpu) (insn : ℕ) → (do_iillegal hooks cpu insn).fregs ≡ cpu.fregs

pub no_hooks-IsQuiet : IsQuiet (λ _. none)
unfolding do_iillegal
no_hooks-IsQuiet = record {
  same_fcsr =
      λ cpu insn. if-elim (λ (c : Cpu). c.csr.fcsr ≡ cpu.csr.fcsr) _ (λ _. refl) (λ _. refl);
  same_fregs = λ cpu insn. if-elim (λ (c : Cpu). c.fregs ≡ cpu.fregs) _ (λ _. refl) (λ _. refl);
}

pub Keeps-same :
    {f64 : Bool} {c d : Cpu} → d.csr.fcsr ≡ c.csr.fcsr → d.fregs ≡ c.fregs → Keeps f64 c d
Keeps-same {c = c} p q = record {
  accrued = (0, omega arith, p ∙ sym (bit_or-zero c.csr.fcsr));
  boxed = λ _ i. inl (ap (λ (l : List ℕ). get_or l i 0) q);
}

pub Keeps-refl : {f64 : Bool} (c : Cpu) → Keeps f64 c c
Keeps-refl c = Keeps-same refl refl

pub Keeps-trans : {f64 : Bool} {c d e : Cpu} → Keeps f64 c d → Keeps f64 d e → Keeps f64 c e
Keeps-trans {c = c} {d = d} {e = e} p q = record {
  accrued = both p.accrued q.accrued;
  boxed = λ s i. either (p.boxed s i) (q.boxed s i);
}
  where
    both :
        (f : ℕ) × (f < 2 ^ 5) × (d.csr.fcsr ≡ bit_or c.csr.fcsr f)
        → (f : ℕ) × (f < 2 ^ 5) × (e.csr.fcsr ≡ bit_or d.csr.fcsr f)
        → (f : ℕ) × (f < 2 ^ 5) × (e.csr.fcsr ≡ bit_or c.csr.fcsr f)
    both (f, u, x) (g, v, y) = (
      bit_or f g,
      bit_or-lt 5 f g u v,
      y ∙ ap (λ (t : ℕ). bit_or t g) x ∙ bit_or_assoc c.csr.fcsr f g,
    )

    either : {a b x : ℕ} → (b ≡ a) ⊎ IsBoxed b → (x ≡ b) ⊎ IsBoxed x → (x ≡ a) ⊎ IsBoxed x
    either _ (inr w) = inr w
    either (inl u) (inl v) = inl (v ∙ u)
    either (inr u) (inl v) = inr (subst IsBoxed (sym v) u)

pub do_iillegal-Keeps :
    {f64 : Bool} (hooks : Hooks) (c : Cpu) (insn : ℕ)
    → IsQuiet hooks
    → Keeps f64 c (do_iillegal hooks c insn)
do_iillegal-Keeps hooks c insn quiet = Keeps-same (quiet.same_fcsr c insn) (quiet.same_fregs c insn)

pub xreg_write-Keeps : {f64 : Bool} (c : Cpu) (i value : ℕ) → Keeps f64 c (xreg_write c i value)
unfolding xreg_write
xreg_write-Keeps {f64} c i value =
    if-elim (Keeps f64 c) (i == 0) (λ _. Keeps-refl c) (λ _. Keeps-same refl refl)

get_or-set-cases :
    (xs : List ℕ) (i j v : ℕ)
    → (get_or (set xs i v) j 0 ≡ get_or xs j 0) ⊎ (get_or (set xs i v) j 0 ≡ v)
get_or-set-cases [] i j v = inl refl
get_or-set-cases (x ∷ xs) zero zero v = inr refl
get_or-set-cases (x ∷ xs) zero (suc j) v = inl refl
get_or-set-cases (x ∷ xs) (suc i) zero v = inl refl
get_or-set-cases (x ∷ xs) (suc i) (suc j) v = get_or-set-cases xs i j v

pub freg_write-Keeps :
    {f64 : Bool} (c : Cpu) (i value : ℕ)
    → (f64 ≡ false → IsBoxed value)
    → Keeps f64 c (freg_write c i value)
unfolding freg_write
freg_write-Keeps c i value b = record {
  accrued = (0, omega arith, sym (bit_or-zero c.csr.fcsr));
  boxed = λ s j. written (b s) (get_or-set-cases c.fregs i j value);
}
  where
    written : {x y : ℕ} → IsBoxed value → (y ≡ x) ⊎ (y ≡ value) → (y ≡ x) ⊎ IsBoxed y
    written w (inl e) = inl e
    written w (inr e) = inr (subst IsBoxed (sym e) w)

pub accrue-Keeps : {f64 : Bool} (flags : ℕ) (c : Cpu) → flags < 2 ^ 5 → Keeps f64 c (accrue flags c)
unfolding accrue
accrue-Keeps flags c h = record { accrued = (flags, h, refl); boxed = λ _ i. inl refl }

pub accrue_if-Keeps :
    {f64 : Bool} (raised : Bool) (place : ℕ) (c : Cpu)
    → 2 ^ place < 2 ^ 5
    → Keeps f64 c (accrue_if raised place c)
accrue_if-Keeps {f64} raised place c h =
    if-elim (Keeps f64 c) raised (λ _. accrue-Keeps (2 ^ place) c h) (λ _. Keeps-refl c)

pub check_fflags-Keeps : {f64 : Bool} (flags : Flags) (c : Cpu) → Keeps f64 c (check_fflags flags c)
unfolding check_fflags
check_fflags-Keeps flags c = Keeps-trans (accrue_if-Keeps flags.invalid 4 c (omega arith)) (
    Keeps-trans (accrue_if-Keeps flags.inexact 0 _ (omega arith)) (
      Keeps-trans (accrue_if-Keeps flags.divbyzero 3 _ (omega arith)) (
        Keeps-trans (accrue_if-Keeps flags.overflow 2 _ (omega arith))
          (accrue_if-Keeps flags.underflow 1 _ (omega arith)))))

pub pack-IsBoxed : (bits : ℕ) → IsBoxed (pack false bits)
unfolding IsBoxed
pack-IsBoxed bits =
    shr-bit_or 0xffffffff00000000 (u32 bits) 32
    ∙ ap (λ (t : ℕ). bit_or 0xffffffff t) {y = 0} (omega arith)

pub canon_nan-IsBoxed : (res : ℕ) → IsBoxed res → IsBoxed (canon_nan false res)
unfolding canon_nan
canon_nan-IsBoxed res h =
    if-elim IsBoxed (is_nan false res) (λ _. pack-IsBoxed (canonical_nan false)) (λ _. h)

pub freg_read_f32-IsBoxed : (c : Cpu) (i : ℕ) → IsBoxed (freg_read_f32 c i)
unfolding freg_read_f32 IsBoxed
freg_read_f32-IsBoxed c i = elim (Bool-cases (riscmulator.Cpu.freg_read c i >>> 32 == 0xffffffff)) [
  | inl e ↦ rw e ((==_iff _ _).0 e)
  | inr e ↦ rw e refl
]
