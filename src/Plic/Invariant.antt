-- ===== src/Plic/Invariant.antt =====
-- The invariant of the controller, kept by every operation: its arrays have their sizes, and
-- MEIP and SEIP of every hart tell whether the hart's contexts have a claimable source.
use riscmulator.Base.{
  ap, replicate, set, refl, ◌%◌, zero, suc, get_or, length-replicate, ◌∙◌, [], ◌∷◌, ◌^◌, ℕ, ◌*◌,
  ◌<◌, ◌≡◌, arith, Bool, true, false, ltb, leb, ◌==◌, List, if◌then◌else◌, length, to_nat,
  length-set, Option, none, some, u32, if-elim, not, ◌||◌, truth, ◌/◌,
}
use riscmulator.Plic.{
  enable_index, enable_ctx, context, claimable, is_pending, init, zero_context, Plic, Context,
  num_sources, reg_words, has_irq, store_pending, update_harts, do_claim, clear_pending, read,
  write, commit, write_priority, write_enable, write_block, read_block, set_pending, set_context,
  claim_from, block_ctx, block_reg, pending_base, enable_base, ctx_base,
}
use native.Mathlib.Nat.{zero-div}
use riscmulator.Base.Bits.{bit_and-mask, bit}
use riscmulator.Plic.Lines.{
  has_irq-quiet, driver, is_external, irq_pending-update_harts, length-update_harts,
}
use riscmulator.Cpu.{Cpu}
use riscmulator.Cpu.Update.{hart}

-- The sizes of the arrays, for a machine of `n` harts.
pub record IsShaped (n : ℕ) (p : Plic) : Type 0 where
  pub two : p.num_contexts ≡ 2 * n
  pub priorities : length p.priority ≡ 65
  pub words : length p.pending ≡ reg_words
  pub all_contexts : length p.contexts ≡ p.num_contexts
  pub enables : (ctx : ℕ) → length (context p ctx).enable ≡ reg_words

pub record IsValid (p : Plic) (cpus : List Cpu) : Type 0 where
  pub shape : IsShaped (length cpus) p
  pub lines :
      (h k : ℕ)
      → h < length cpus
      → is_external k ≡ true
      → bit (hart cpus h).irq_pending k ≡ to_nat (has_irq p (driver h k))

external-lt : (k : ℕ) → is_external k ≡ true → k < 64
external-lt k h = ground arith

-- Whatever `plic_update_harts` is run on is valid after it.
update_harts-IsValid :
    (p : Plic) (cpus : List Cpu) → IsShaped (length cpus) p → IsValid p (update_harts p cpus)
update_harts-IsValid p cpus s = record {
  shape = rw length-update_harts s;
  lines = λ h k hh ext.
      let hh' : h < length cpus = omega (arith, length-update_harts p cpus) in
      irq_pending-update_harts p cpus h k s.two (external-lt k ext) hh' ∙ rw ext;
}

store_pending-IsShaped :
    (n : ℕ) (p : Plic) (w v : ℕ) → IsShaped n p → IsShaped n (store_pending p w v)
store_pending-IsShaped n p w v s =
    if-elim (IsShaped n) (ltb w reg_words)
      (λ _. record {
        two = s.two;
        priorities = s.priorities;
        words = length-set p.pending w v ∙ s.words;
        all_contexts = s.all_contexts;
        enables = s.enables;
      })
      (λ _. record {
        two = s.two;
        priorities = s.priorities;
        words = s.words;
        all_contexts = s.all_contexts;
        enables = s.enables;
      })

-- The state after an operation is valid, by the shape of its result.
record ValidState (r : Plic × List Cpu) : Type 0 where
  valid : IsValid r.0 r.1

record ValidRead (r : ℕ × Plic × List Cpu) : Type 0 where
  valid : IsValid r.1 r.2

record ValidReply (r : Bool × (ℕ × Plic × List Cpu)) : Type 0 where
  valid : ValidRead r.1

record ValidDone (r : Bool × (Plic × List Cpu)) : Type 0 where
  valid : ValidState r.1

set_pending-ValidState :
    (p : Plic) (cpus : List Cpu) (source : ℕ)
    → IsValid p cpus
    → ValidState (set_pending p cpus source)
unfolding set_pending
set_pending-ValidState p cpus source v =
    if-elim ValidState ((source == 0) || ltb num_sources source) (λ _. record { valid = v })
      λ _. record { valid = update_harts-IsValid _ cpus (store_pending-IsShaped _ p _ _ v.shape) }

-- `rv_plic_set_pending` keeps the invariant, for any source number.
pub set_pending-IsValid :
    (p : Plic) (cpus : List Cpu) (source : ℕ)
    → IsValid p cpus
    → IsValid (set_pending p cpus source).0 (set_pending p cpus source).1
set_pending-IsValid p cpus source v = (set_pending-ValidState p cpus source v).valid

do_claim-ValidRead :
    (p : Plic) (cpus : List Cpu) (ctx : ℕ) → IsValid p cpus → ValidRead (do_claim p cpus ctx)
unfolding do_claim clear_pending
do_claim-ValidRead p cpus ctx v =
    if-elim ValidRead (leb (u32 p.num_contexts) ctx) (λ _. record { valid = v })
      λ _.
        if-elim ValidRead (truth (claim_from p ctx num_sources 1 0 0))
          (λ _. record {
            valid = update_harts-IsValid _ cpus (store_pending-IsShaped _ p _ _ v.shape);
          })
          (λ _. record { valid = v })

read_block-ValidRead :
    (p : Plic) (cpus : List Cpu) (offset : ℕ)
    → IsValid p cpus
    → ValidRead (read_block p cpus offset)
unfolding read_block
read_block-ValidRead p cpus offset v =
    if-elim ValidRead (ltb (block_ctx offset) (u32 p.num_contexts))
      (λ _.
        if-elim ValidRead (block_reg offset == 0) (λ _. record { valid = v })
          λ _.
            if-elim ValidRead (block_reg offset == 4) (λ _. do_claim-ValidRead p cpus _ v)
              (λ _. record { valid = v }))
      (λ _. record { valid = v })

read-ValidReply :
    (p : Plic) (cpus : List Cpu) (offset size : ℕ)
    → IsValid p cpus
    → ValidReply (read p cpus offset size)
unfolding read
read-ValidReply p cpus offset size v =
    if-elim ValidReply (not (size == 4)) (λ _. same)
      λ _.
        if-elim ValidReply (ltb offset pending_base) (λ _. same)
          λ _.
            if-elim ValidReply (ltb offset enable_base) (λ _. same)
              λ _.
                if-elim ValidReply (ltb offset ctx_base) (λ _. same)
                  λ _. record { valid = read_block-ValidRead p cpus offset v }
  where
    same : {n : ℕ} {b : Bool} → ValidReply (b, (n, p, cpus))
    same = record { valid = record { valid = v } }

-- `plic_read` keeps the invariant, a claim by a read included.
pub read-IsValid :
    (p : Plic) (cpus : List Cpu) (offset size : ℕ)
    → IsValid p cpus
    → IsValid (read p cpus offset size).1.1 (read p cpus offset size).1.2
read-IsValid p cpus offset size v = (read-ValidReply p cpus offset size v).valid.valid

-- A write that goes through leaves the arrays at their sizes.
Shaped : ℕ → Option Plic → Type 0
Shaped n none = Unit
Shaped n (some p) = IsShaped n p

commit-IsValid :
    (p : Plic) (cpus : List Cpu) (o : Option Plic)
    → IsValid p cpus
    → Shaped (length cpus) o
    → IsValid (commit p cpus o).0 (commit p cpus o).1
unfolding Shaped
commit-IsValid p cpus none v s = v
commit-IsValid p cpus (some p') v s = update_harts-IsValid p' cpus s

-- Every element of a list whose element is replaced by one that fits.
get_or-set_every :
    {A : Type 0} (P : A → Type 0) (xs : List A) (i : ℕ) (v d : A)
    → ((j : ℕ) → P (get_or xs j d))
    → P v
    → (j : ℕ) → P (get_or (set xs i v) j d)
get_or-set_every P [] i v d old new j = old j
get_or-set_every P (x ∷ xs) zero v d old new zero = new
get_or-set_every P (x ∷ xs) zero v d old new (suc j) = old (suc j)
get_or-set_every P (x ∷ xs) (suc i) v d old new zero = old zero
get_or-set_every P (x ∷ xs) (suc i) v d old new (suc j) =
    get_or-set_every P xs i v d (λ k. old (suc k)) new j

set_context-IsShaped :
    (n : ℕ) (p : Plic) (ctx : ℕ) (c : Context)
    → length c.enable ≡ reg_words
    → IsShaped n p
    → IsShaped n (set_context p ctx c)
set_context-IsShaped n p ctx c h s = record {
  two = s.two;
  priorities = s.priorities;
  words = s.words;
  all_contexts = length-set p.contexts ctx c ∙ s.all_contexts;
  enables =
      get_or-set_every (λ (t : Context). length t.enable ≡ reg_words) p.contexts ctx c zero_context
        s.enables h;
}

Shaped-if : (n : ℕ) (b : Bool) (p : Plic) → IsShaped n p → Shaped n (if b then some p else none)
unfolding Shaped
Shaped-if n true p s = s
Shaped-if n false p s = tt

write_priority-Shaped :
    (n : ℕ) (p : Plic) (offset v : ℕ) → IsShaped n p → Shaped n (write_priority p offset v)
unfolding write_priority
write_priority-Shaped n p offset v s = Shaped-if n _ _ (record {
  two = s.two;
  priorities = length-set p.priority (u32 (offset / 4)) v ∙ s.priorities;
  words = s.words;
  all_contexts = s.all_contexts;
  enables = s.enables;
})

write_enable-Shaped :
    (n : ℕ) (p : Plic) (offset v : ℕ) → IsShaped n p → Shaped n (write_enable p offset v)
unfolding write_enable
write_enable-Shaped n p offset v s = Shaped-if n _ _ (
    set_context-IsShaped n p _ _
      (length-set (context p (enable_ctx offset)).enable (enable_index offset) v
        ∙ s.enables (enable_ctx offset))
      s)

write_block-Shaped :
    (n : ℕ) (p : Plic) (offset v : ℕ) → IsShaped n p → Shaped n (write_block p offset v)
unfolding write_block
write_block-Shaped n p offset v s = Shaped-if n _ _ (set_context-IsShaped n p _ _ (s.enables _) s)

write-ValidDone :
    (p : Plic) (cpus : List Cpu) (offset size value : ℕ)
    → IsValid p cpus
    → ValidDone (write p cpus offset size value)
unfolding write
write-ValidDone p cpus offset size value v =
    if-elim ValidDone (not (size == 4)) (λ _. same)
      λ _.
        if-elim ValidDone (ltb offset pending_base)
          (λ _. committed _ (write_priority-Shaped _ p offset _ v.shape))
          λ _.
            if-elim ValidDone (ltb offset enable_base) (λ _. same)
              λ _.
                if-elim ValidDone (ltb offset ctx_base)
                  (λ _. committed _ (write_enable-Shaped _ p offset _ v.shape))
                  (λ _. committed _ (write_block-Shaped _ p offset _ v.shape))
  where
    same : {b : Bool} → ValidDone (b, (p, cpus))
    same = record { valid = record { valid = v } }

    committed : (o : Option Plic) → Shaped (length cpus) o → ValidDone (true, commit p cpus o)
    committed o s = record { valid = record { valid = commit-IsValid p cpus o v s } }

-- `plic_write` keeps the invariant, at any offset, size and value.
pub write-IsValid :
    (p : Plic) (cpus : List Cpu) (offset size value : ℕ)
    → IsValid p cpus
    → IsValid (write p cpus offset size value).1.0 (write p cpus offset size value).1.1
write-IsValid p cpus offset size value v = (write-ValidDone p cpus offset size value v).valid.valid

zero_words : (w : ℕ) → get_or {A = ℕ} (0 ∷ 0 ∷ []) w 0 ≡ 0
zero_words zero = refl
zero_words (suc zero) = refl
zero_words (suc (suc w)) = refl

claimable-init : (n ctx t : ℕ) → claimable (init n) ctx t ≡ false
unfolding claimable is_pending init
claimable-init n ctx t =
    ground (arith, zero_words (t / 32), bit_and-mask 1 (0 / 2 ^ (t % 32)), zero-div (2 ^ (t % 32)))

get_or-replicate_self : {A : Type 0} (n i : ℕ) (x : A) → get_or (replicate n x) i x ≡ x
get_or-replicate_self zero i x = refl
get_or-replicate_self (suc n) zero x = refl
get_or-replicate_self (suc n) (suc i) x = get_or-replicate_self n i x

-- A controller that `rv_plic_init` has set up is valid, on harts that have no external interrupt
-- pending.
pub init-IsValid :
    (cpus : List Cpu)
    → ((h k : ℕ) → h < length cpus → is_external k ≡ true → bit (hart cpus h).irq_pending k ≡ 0)
    → IsValid (init (length cpus)) cpus
init-IsValid cpus quiet = record {
  shape =
      unfold init in
      record {
        two = omega arith;
        priorities = refl;
        words = refl;
        all_contexts = length-replicate (length cpus * 2) zero_context;
        enables = λ ctx.
            ap (λ (c : Context). length c.enable)
              (get_or-replicate_self (length cpus * 2) ctx zero_context);
      };
  lines = λ h k hh ext.
      quiet h k hh ext
      ∙ rw (
          has_irq-quiet (init (length cpus)) (driver h k)
            (claimable-init (length cpus) (driver h k)));
}
