-- ===== src/Platform/Delivery.antt =====
-- From a device to the handler: emulator/src/device/rv_plic.c raises the line of a hart, and
-- emulator/src/cpu/rv_privileged.c takes the interrupt.
use riscmulator.Plic.{
  irq_line, reg_words, Plic, set_pending, do_claim, claimable, is_enabled, priority_of, context,
  num_sources, update_harts, update_harts_from, update_context, drive_line, has_irq,
}
use riscmulator.Plic.Lines.{length-update_context, irq_pending-update_harts, has_irq_iff}
use riscmulator.Base.{
  ℕ, zero, suc, ◌+◌, ◌*◌, ◌/◌, ◌≤◌, ◌<◌, ◌≡◌, ◌⊎◌, inl, inr, Bool, true, List, length, refl, arith,
  ◌∙◌, ap, ltb, leb, ◌==◌, ◌||◌, bit_and, bit_or, u32, to_nat, truth, ◌>>>◌, ◌^◌, if-elim,
  Bool-cases, ==_iff, not64,
}
use riscmulator.Base.Bits.{
  bit, bit-zero, bit-bit_and, bit-not64, truth-bit_and-pow, bit_and-shr-one,
}
use riscmulator.Cpu.{Cpu}
use riscmulator.Cpu.Update.{hart, update_hart, hart-update_hart_self, hart-update_hart_ne}
use riscmulator.Trap.{
  Hooks, enter, check_interrupts, takeable, first_set, intr_flag, do_trap, take_irq,
}
use riscmulator.Plic.Pending.{is_pending-set_pending}
use riscmulator.Plic.Claim.{do_claim-IsTopSource}
use riscmulator.Plic.Invariant.{IsValid}

-- What the lines do not change of a hart, such as its registers.
module _ {A : Type 0} (f : Cpu → A)
    (same : (level : Bool) (line : ℕ) (c : Cpu) → f (drive_line level line c) ≡ f c) (h : ℕ) where
  driven-same :
      (cpus : List Cpu) (i : ℕ) (level : Bool) (line : ℕ)
      → h < length cpus
      → f (hart (update_hart cpus i (drive_line level line)) h) ≡ f (hart cpus h)
  driven-same cpus i level line exists = elim (Bool-cases (i == h)) [
    | inl e ↦
        ap (λ (j : ℕ). f (hart (update_hart cpus j (drive_line level line)) h)) ((==_iff i h).0 e)
        ∙ ap f (hart-update_hart_self cpus h (drive_line level line) exists)
        ∙ same level line (hart cpus h)
    | inr e ↦ ap f (hart-update_hart_ne cpus i h (drive_line level line) (ground arith))
  ]

  update_context-same :
      (p : Plic) (ctx : ℕ) (cpus : List Cpu)
      → h < length cpus
      → f (hart (update_context p ctx cpus) h) ≡ f (hart cpus h)
  unfolding update_context
  update_context-same p ctx cpus exists =
      if-elim (λ (l : List Cpu). f (hart l h) ≡ f (hart cpus h)) (leb (length cpus) (ctx / 2))
        (λ _. refl) (λ _. driven-same cpus (ctx / 2) (has_irq p ctx) (irq_line ctx) exists)

  update_harts_from-same :
      (p : Plic) (left ctx : ℕ) (cpus : List Cpu)
      → h < length cpus
      → f (hart (update_harts_from p left ctx cpus) h) ≡ f (hart cpus h)
  unfolding update_harts_from
  update_harts_from-same p zero ctx cpus exists = refl
  update_harts_from-same p (suc left) ctx cpus exists =
      update_harts_from-same p left (ctx + 1) (update_context p ctx cpus)
        (omega (arith, length-update_context p ctx cpus))
      ∙ update_context-same p ctx cpus exists

-- A number with a digit set is not zero.
truth-bit : (x k : ℕ) → bit x k ≡ 1 → truth x ≡ true
truth-bit x k e = elim (Bool-cases (x == 0)) [
  | inl z ↦ absurd (omega (arith, ap (λ (t : ℕ). bit t k) ((==_iff x 0).0 z), bit-zero k))
  | inr nz ↦ rw nz refl
]

-- The hart takes machine interrupts, and MEI is enabled and not delegated.
pub record IsListening (cpu : Cpu) : Type 0 where
  pub enabled : bit cpu.csr.mie 11 ≡ 1
  pub kept : bit cpu.csr.mideleg 11 ≡ 0
  pub level : (cpu.privilege < 3) ⊎ (bit cpu.csr.mstatus 3 ≡ 1)

takeable-mei :
    (cpu : Cpu) → IsListening cpu → bit cpu.irq_pending 11 ≡ 1 → bit (takeable cpu) 11 ≡ 1
unfolding takeable
takeable-mei cpu listens raised =
    let pending = bit_and cpu.irq_pending cpu.csr.mie in
    let m = bit_and pending (not64 cpu.csr.mideleg) in
    let a : bit pending 11 ≡ 1 =
      omega (arith, bit-bit_and cpu.irq_pending cpu.csr.mie 11, raised, listens.enabled) in
    let b : bit m 11 ≡ 1 = omega (
      arith,
      bit-bit_and pending (not64 cpu.csr.mideleg) 11,
      a,
      bit-not64 cpu.csr.mideleg 11 (omega arith),
      listens.kept,
    ) in
    let on : (ltb cpu.privilege 3 || truth (bit_and (cpu.csr.mstatus >>> 3) 1)) ≡ true =
      ground (arith, bit_and-shr-one cpu.csr.mstatus 3, listens.level) in
    rw (truth-bit pending 11 a, on, truth-bit m 11 b) b

-- MEI comes before every other interrupt.
check_interrupts-mei :
    (hooks : Hooks) (cpu : Cpu)
    → IsListening cpu
    → bit cpu.irq_pending 11 ≡ 1
    → check_interrupts hooks cpu
      ≡ enter cpu (record { epc = cpu.pc; cause = bit_or intr_flag 11; tval = 0 })
unfolding check_interrupts first_set take_irq do_trap
check_interrupts-mei hooks cpu listens raised =
    rw (truth-bit_and-pow (takeable cpu) 11, takeable-mei cpu listens raised) refl

-- Making a source pending changes no other register of the controller.
set_pending-same :
    {A : Type 0} (g : Plic → A) (p : Plic) (cpus : List Cpu) (s : ℕ)
    → ((pending : List ℕ) → g (record p { pending = pending }) ≡ g p)
    → ((padding : ℕ) → g (record p { padding = padding }) ≡ g p)
    → g (set_pending p cpus s).0 ≡ g p
unfolding set_pending
set_pending-same g p cpus s u v =
    if-elim (λ (r : Plic × List Cpu). g r.0 ≡ g p) ((s == 0) || ltb num_sources s) (λ _. refl)
      (λ _. if-elim (λ (q : Plic). g q ≡ g p) (ltb (s / 32) reg_words) (λ _. u _) (λ _. v _))

claimable-set_pending :
    (p : Plic) (cpus : List Cpu) (ctx s : ℕ)
    → length p.pending ≡ reg_words
    → 1 ≤ s
    → s ≤ num_sources
    → is_enabled p ctx s ≡ true
    → (context p ctx).threshold < priority_of p s
    → claimable (set_pending p cpus s).0 ctx s ≡ true
unfolding claimable is_enabled
claimable-set_pending p cpus ctx s len lo hi on above = ground (
  arith,
  is_pending-set_pending p cpus s s len lo hi hi,
  set_pending-same (λ (q : Plic). is_enabled q ctx s) p cpus s (λ _. refl) (λ _. refl),
  set_pending-same (λ (q : Plic). (context q ctx).threshold) p cpus s (λ _. refl) (λ _. refl),
  set_pending-same (λ (q : Plic). priority_of q s) p cpus s (λ _. refl) (λ _. refl),
)

-- The harts after it are those that the lines are driven for.
harts-set_pending :
    (p : Plic) (cpus : List Cpu) (s : ℕ)
    → 1 ≤ s
    → s ≤ num_sources
    → (set_pending p cpus s).1 ≡ update_harts (set_pending p cpus s).0 cpus
unfolding set_pending
harts-set_pending p cpus s lo hi = ground arith

module _ (p : Plic) (cpus : List Cpu) (h s : ℕ) (valid : IsValid p cpus) (exists : h < length cpus)
    (lo : 1 ≤ s) (hi : s ≤ num_sources) where
  hart-set_pending :
      {A : Type 0} (f : Cpu → A)
      → ((level : Bool) (line : ℕ) (c : Cpu) → f (drive_line level line c) ≡ f c)
      → f (hart (set_pending p cpus s).1 h) ≡ f (hart cpus h)
  hart-set_pending f same =
      ap (λ (l : List Cpu). f (hart l h)) (harts-set_pending p cpus s lo hi)
      ∙ (unfold update_harts in
          update_harts_from-same f same h (set_pending p cpus s).0
            (set_pending p cpus s).0.num_contexts 0 cpus exists)

  raised-set_pending :
      is_enabled p (2 * h) s ≡ true
      → (context p (2 * h)).threshold < priority_of p s
      → bit (hart (set_pending p cpus s).1 h).irq_pending 11 ≡ 1
  raised-set_pending on above =
      let p' = (set_pending p cpus s).0 in
      let claims = claimable-set_pending p cpus (2 * h) s valid.shape.words lo hi on above in
      ap (λ (l : List Cpu). bit (hart l h).irq_pending 11) (harts-set_pending p cpus s lo hi)
      ∙ irq_pending-update_harts p' cpus h 11
          (set_pending-same (λ (q : Plic). q.num_contexts) p cpus s (λ _. refl) (λ _. refl)
            ∙ valid.shape.two)
          (omega arith) exists
      ∙ ap to_nat ((has_irq_iff p' (2 * h)).1 (s, lo, hi, claims))

  IsListening-set_pending :
      IsListening (hart cpus h) → IsListening (hart (set_pending p cpus s).1 h)
  unfolding drive_line
  IsListening-set_pending listens = record {
    enabled = hart-set_pending (λ c. bit c.csr.mie 11) (λ b l c. refl) ∙ listens.enabled;
    kept = hart-set_pending (λ c. bit c.csr.mideleg 11) (λ b l c. refl) ∙ listens.kept;
    level = ground (
      arith,
      listens.level,
      hart-set_pending (λ (c : Cpu). c.privilege) (λ b l c. refl),
      hart-set_pending (λ (c : Cpu). bit c.csr.mstatus 3) (λ b l c. refl),
    );
  }

-- On a valid controller, when a device makes a source pending that the M-mode context of a hart has
-- enabled above its threshold, and the hart takes machine interrupts with MEI enabled and not
-- delegated, then its next check for interrupts enters the trap for MEI at its program counter; and a
-- claim of that context returns a source that is claimable, of at least the priority of that one.
pub set_pending-IsDelivered :
    (hooks : Hooks) (p : Plic) (cpus : List Cpu) (h s : ℕ)
    → IsValid p cpus
    → h < length cpus
    → length cpus < 2 ^ 31
    → 1 ≤ s
    → s ≤ num_sources
    → is_enabled p (2 * h) s ≡ true
    → (context p (2 * h)).threshold < priority_of p s
    → IsListening (hart cpus h)
    → (check_interrupts hooks (hart (set_pending p cpus s).1 h)
        ≡ enter
            (hart (set_pending p cpus s).1 h)
            (record { epc = (hart cpus h).pc; cause = bit_or intr_flag 11; tval = 0 }))
      × (claimable
            (set_pending p cpus s).0
            (2 * h)
            (do_claim (set_pending p cpus s).0 (set_pending p cpus s).1 (2 * h)).0
          ≡ true)
      × (priority_of (set_pending p cpus s).0 s
          ≤ priority_of
              (set_pending p cpus s).0
              (do_claim (set_pending p cpus s).0 (set_pending p cpus s).1 (2 * h)).0)
unfolding drive_line
set_pending-IsDelivered hooks p cpus h s valid exists few lo hi on above listens =
    let c = hart (set_pending p cpus s).1 h in
    let top =
      do_claim-IsTopSource (set_pending p cpus s).0 (set_pending p cpus s).1 (2 * h)
        (omega (arith, contexts)) in
    let best =
      top.top s lo hi (claimable-set_pending p cpus (2 * h) s valid.shape.words lo hi on above) in
    (
      check_interrupts-mei hooks c (IsListening-set_pending p cpus h s valid exists lo hi listens)
            (raised-set_pending p cpus h s valid exists lo hi on above)
          ∙ ap (λ (pc : ℕ). enter c (record { epc = pc; cause = bit_or intr_flag 11; tval = 0 }))
              (hart-set_pending p cpus h s valid exists lo hi (λ k. k.pc) (λ b l k. refl)),
      top.is_claimable best.0,
      best.1,
    )
  where
    contexts : u32 (set_pending p cpus s).0.num_contexts ≡ 2 * length cpus
    contexts = omega (
      arith,
      set_pending-same (λ (q : Plic). q.num_contexts) p cpus s (λ _. refl) (λ _. refl),
      valid.shape.two,
    )
