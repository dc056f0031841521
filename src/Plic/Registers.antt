-- ===== src/Plic/Registers.antt =====
-- The memory-mapped registers: the address map of the PLIC, and what `plic_write` stores for
-- `plic_read`.
use riscmulator.Base.{
  ℕ, ◌+◌, ◌*◌, ◌/◌, ◌≤◌, ◌<◌, ◌≡◌, refl, ap, arith, Bool, false, ◌==◌, List, if◌then◌else◌, length,
  set, get_or, get_or-set_self, get_or-set_ne, u32, ◌∙◌, ◌&&◌, some,
}
use riscmulator.Cpu.{Cpu}
use riscmulator.Plic.{
  Plic, Context, num_sources, reg_words, read, write, read_priority, read_enable, read_block,
  write_priority, write_enable, write_block, context, set_context, priority_of, enable_ctx,
  enable_index, block_ctx, block_reg, zero_context,
}
use riscmulator.Plic.Invariant.{IsShaped}

-- The registers that hold a value: a source's priority, a word of a context's enable bits, a
-- context's threshold; and where the PLIC specification puts them.
pub data Register : Type 0 where
  priority_reg : ℕ → Register
  enable_reg : ℕ → ℕ → Register
  threshold_reg : ℕ → Register

abbrev pub address : Register → ℕ
address (priority_reg s) = 4 * s
address (enable_reg ctx w) = 0x2000 + 0x80 * ctx + 4 * w
address (threshold_reg ctx) = 0x200000 + 0x1000 * ctx

abbrev pub IsPresent : Plic → Register → Type 0
IsPresent p (priority_reg s) = (1 ≤ s) × (s ≤ num_sources)
IsPresent p (enable_reg ctx w) = (ctx < p.num_contexts) × (w < reg_words)
IsPresent p (threshold_reg ctx) = ctx < p.num_contexts

abbrev pub same_register : Register → Register → Bool
same_register (priority_reg s) (priority_reg t) = s == t
same_register (enable_reg c w) (enable_reg d x) = (c == d) && (w == x)
same_register (threshold_reg c) (threshold_reg d) = c == d
same_register _ _ = false

value : Plic → Register → ℕ
value p (priority_reg s) = priority_of p s
value p (enable_reg ctx w) = get_or (context p ctx).enable w 0
value p (threshold_reg ctx) = (context p ctx).threshold

store : Plic → Register → ℕ → Plic
store p (priority_reg s) v = record p { priority = set p.priority s v }
store p (enable_reg ctx w) v =
    set_context p ctx (record (context p ctx) { enable = set (context p ctx).enable w v })
store p (threshold_reg ctx) v = set_context p ctx (record (context p ctx) { threshold = v })

-- The offset of a register decodes to it. The enable region has room for 16320 contexts.
decode_enable :
    (ctx w : ℕ)
    → ctx < 16320
    → w < 2
    → (enable_ctx (address (enable_reg ctx w)) ≡ ctx)
      × (enable_index (address (enable_reg ctx w)) ≡ w)
decode_enable ctx w h k = omega arith

decode_block :
    (ctx : ℕ)
    → ctx < 16320
    → (block_ctx (address (threshold_reg ctx)) ≡ ctx)
      × (block_reg (address (threshold_reg ctx)) ≡ 0)
decode_block ctx h = omega arith

read_enable-address :
    (p : Plic) (ctx w : ℕ)
    → ctx < p.num_contexts
    → p.num_contexts ≤ 16320
    → w < reg_words
    → read_enable p (address (enable_reg ctx w)) ≡ get_or (context p ctx).enable w 0
unfolding read_enable
read_enable-address p ctx w h small k =
    rw ((decode_enable ctx w (omega arith) k).0, (decode_enable ctx w (omega arith) k).1)
      (ground arith)

read_block-address :
    (p : Plic) (cpus : List Cpu) (ctx : ℕ)
    → ctx < p.num_contexts
    → p.num_contexts ≤ 16320
    → (read_block p cpus (address (threshold_reg ctx))).0 ≡ (context p ctx).threshold
unfolding read_block
read_block-address p cpus ctx h small =
    rw ((decode_block ctx (omega arith)).0, (decode_block ctx (omega arith)).1) (ground arith)

read-address :
    (p : Plic) (cpus : List Cpu) (r : Register)
    → p.num_contexts ≤ 16320
    → IsPresent p r
    → (read p cpus (address r) 4).1.0 ≡ value p r
unfolding read read_priority value
read-address p cpus (priority_reg s) small h =
    ground (arith, ap (λ (t : ℕ). priority_of p t) {x = u32 (4 * s / 4)} {y = s})
read-address p cpus (enable_reg ctx w) small h =
    ground (arith, read_enable-address p ctx w h.0 small h.1)
read-address p cpus (threshold_reg ctx) small h =
    ground (arith, read_block-address p cpus ctx h small)

write_enable-address :
    (p : Plic) (ctx w v : ℕ)
    → ctx < p.num_contexts
    → p.num_contexts ≤ 16320
    → w < reg_words
    → write_enable p (address (enable_reg ctx w)) v ≡ some (store p (enable_reg ctx w) v)
unfolding write_enable store
write_enable-address p ctx w v h small k =
    rw ((decode_enable ctx w (omega arith) k).0, (decode_enable ctx w (omega arith) k).1)
      (ground arith)

write_block-address :
    (p : Plic) (ctx v : ℕ)
    → ctx < p.num_contexts
    → p.num_contexts ≤ 16320
    → write_block p (address (threshold_reg ctx)) v ≡ some (store p (threshold_reg ctx) v)
unfolding write_block store
write_block-address p ctx v h small =
    rw ((decode_block ctx (omega arith)).0, (decode_block ctx (omega arith)).1) (ground arith)

write_priority-address :
    (p : Plic) (s v : ℕ)
    → 1 ≤ s
    → s ≤ num_sources
    → write_priority p (address (priority_reg s)) v ≡ some (store p (priority_reg s) v)
unfolding write_priority store
write_priority-address p s v lo hi =
    let e : u32 (4 * s / 4) ≡ s = omega arith in rw e (ground arith)

-- A write at the address of a register stores the low 32 bits, and updates the lines.
write-address :
    (p : Plic) (cpus : List Cpu) (r : Register) (v : ℕ)
    → p.num_contexts ≤ 16320
    → IsPresent p r
    → (write p cpus (address r) 4 v).1.0 ≡ store p r (u32 v)
unfolding write
write-address p cpus (priority_reg s) v small h =
    ground (arith, write_priority-address p s (u32 v) h.0 h.1)
write-address p cpus (enable_reg ctx w) v small h =
    ground (arith, write_enable-address p ctx w (u32 v) h.0 small h.1)
write-address p cpus (threshold_reg ctx) v small h =
    ground (arith, write_block-address p ctx (u32 v) h small)

context-set_context :
    (p : Plic) (c d : ℕ) (k : Context)
    → c < length p.contexts
    → context (set_context p c k) d ≡ (if c == d then k else context p d)
context-set_context p c d k h = ground (
  arith,
  get_or-set_self p.contexts c k zero_context,
  get_or-set_ne p.contexts c d k zero_context,
)

-- The registers are independent cells.
value-store :
    (n : ℕ) (p : Plic) (r q : Register) (v : ℕ)
    → IsShaped n p
    → ((c : ℕ) → c < p.num_contexts → length (context p c).enable ≡ reg_words)
    → IsPresent p r
    → IsPresent p q
    → value (store p r v) q ≡ (if same_register r q then v else value p q)
unfolding value store
value-store n p (priority_reg s) (priority_reg t) v sh len hr hq =
    ground (arith, get_or-set_self p.priority s v 0, get_or-set_ne p.priority s t v 0)
value-store n p (priority_reg s) (enable_reg d x) v sh len hr hq = refl
value-store n p (priority_reg s) (threshold_reg d) v sh len hr hq = refl
value-store n p (enable_reg c w) (priority_reg t) v sh len hr hq = refl
value-store n p (enable_reg c w) (enable_reg d x) v sh len hr hq = ground (
  arith,
  context-set_context p c d (record (context p c) { enable = set (context p c).enable w v }),
  get_or-set_self (context p c).enable w v 0,
  get_or-set_ne (context p c).enable w x v 0,
  len c hr.0,
)
value-store n p (enable_reg c w) (threshold_reg d) v sh len hr hq = ground (
  arith,
  context-set_context p c d (record (context p c) { enable = set (context p c).enable w v }),
)
value-store n p (threshold_reg c) (priority_reg t) v sh len hr hq = refl
value-store n p (threshold_reg c) (enable_reg d x) v sh len hr hq =
    ground (arith, context-set_context p c d (record (context p c) { threshold = v }))
value-store n p (threshold_reg c) (threshold_reg d) v sh len hr hq =
    ground (arith, context-set_context p c d (record (context p c) { threshold = v }))

store-num_contexts : (p : Plic) (r : Register) (v : ℕ) → (store p r v).num_contexts ≡ p.num_contexts
unfolding store
store-num_contexts p (priority_reg s) v = refl
store-num_contexts p (enable_reg c w) v = refl
store-num_contexts p (threshold_reg c) v = refl

IsPresent-store : (p : Plic) (r q : Register) (v : ℕ) → IsPresent p q → IsPresent (store p r v) q
IsPresent-store p r (priority_reg t) v h = h
IsPresent-store p r (enable_reg d x) v h = rw store-num_contexts h
IsPresent-store p r (threshold_reg d) v h = rw store-num_contexts h

-- With arrays of their sizes and at most 16320 contexts, the registers at the addresses of the
-- specification are independent cells: a 4-byte write of one present register stores the low
-- 32 bits of the value there, and a later read of any present register returns these, or what it
-- returned before if it is another register.
pub read-write :
    (n : ℕ) (p : Plic) (cpus cpus' : List Cpu) (r q : Register) (v : ℕ)
    → IsShaped n p
    → ((c : ℕ) → c < p.num_contexts → length (context p c).enable ≡ reg_words)
    → p.num_contexts ≤ 16320
    → IsPresent p r
    → IsPresent p q
    → (read (write p cpus (address r) 4 v).1.0 cpus' (address q) 4).1.0
      ≡ (if same_register r q then u32 v else (read p cpus (address q) 4).1.0)
read-write n p cpus cpus' r q v sh len small hr hq = rw (write-address p cpus r v small hr) (
    read-address (store p r (u32 v)) cpus' q (rw store-num_contexts small)
      (IsPresent-store p r q (u32 v) hq)
    ∙ value-store n p r q (u32 v) sh len hr hq
    ∙ rw (read-address p cpus q small hq))
