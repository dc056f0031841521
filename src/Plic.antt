-- ===== src/Plic.antt =====
-- emulator/src/device/rv_plic.c: the platform-level interrupt controller.
-- The lock is not modelled: each operation holds it throughout, so calls are atomic.
pub mod Lines
pub mod Claim
pub mod Pending
pub mod Invariant
pub mod Registers
pub mod Overrun
mod Examples
use riscmulator.Base.{
  ℕ, zero, suc, ◌+◌, ◌-◌, ◌*◌, ◌/◌, ◌%◌, ◌^◌, bit_and, bit_or, Bool, true, false, ◌&&◌, ◌||◌, not,
  List, [], ◌∷◌, Option, none, some, truth, ltb, leb, ◌==◌, if◌then◌else◌, length, get_or, set,
  replicate, ◌<<<◌, ◌>>>◌, u32, not32, not64,
}
use riscmulator.Cpu.{Cpu}
use riscmulator.Cpu.Update.{update_hart}

abbrev pub num_sources : ℕ
num_sources = 64

abbrev pub reg_words : ℕ
reg_words = 2

-- Region offsets within the PLIC address space.
abbrev pub pending_base : ℕ
pending_base = 0x1000

abbrev pub enable_base : ℕ
enable_base = 0x2000

abbrev pub ctx_base : ℕ
ctx_base = 0x200000

-- `struct rv_plic_context`.
pub record Context : Type 0 where
  pub threshold : ℕ
  pub enable : List ℕ

-- `struct rv_plic`, without the back-reference and the lock. Source 64 is bit 0 of word 2, one
-- past the end of `pending` and of `enable`: `padding` is the word that follows `pending` in the
-- struct, and `beyond` the one that follows the array of contexts.
pub record Plic : Type 0 where
  pub priority : List ℕ
  pub pending : List ℕ
  pub padding : ℕ
  pub contexts : List Context
  pub beyond : ℕ
  pub num_contexts : ℕ

abbrev pub zero_context : Context
zero_context = record { threshold = 0; enable = 0 ∷ 0 ∷ [] }

abbrev pub context : Plic → ℕ → Context
context p ctx = get_or p.contexts ctx zero_context

-- `plic->pending[word]`, at the addresses that the code computes.
abbrev pub pending_word : Plic → ℕ → ℕ
pending_word p word = if ltb word reg_words then get_or p.pending word 0 else p.padding

-- `c->enable[word]`: past its end stands the next context's `threshold`.
abbrev pub enable_word : Plic → ℕ → ℕ → ℕ
enable_word p ctx word =
    if ltb word reg_words
    then get_or (context p ctx).enable word 0
    else if ltb (ctx + 1) p.num_contexts
    then (context p (ctx + 1)).threshold
    else p.beyond

abbrev pub store_pending : Plic → ℕ → ℕ → Plic
store_pending p word value =
    if ltb word reg_words
    then record p { pending = set p.pending word value }
    else record p { padding = value }

unfoldable pub is_pending : Plic → ℕ → Bool
is_pending p src = truth (bit_and (pending_word p (src / 32) >>> (src % 32)) 1)

unfoldable pub is_enabled : Plic → ℕ → ℕ → Bool
is_enabled p ctx src = truth (bit_and (enable_word p ctx (src / 32) >>> (src % 32)) 1)

abbrev pub priority_of : Plic → ℕ → ℕ
priority_of p src = get_or p.priority src 0

-- The test of both scans: pending, enabled, and above the context's threshold.
unfoldable pub claimable : Plic → ℕ → ℕ → Bool
claimable p ctx src =
    is_pending p src && is_enabled p ctx src && ltb (context p ctx).threshold (priority_of p src)

-- The inner loop of `plic_update_harts`, with `left` sources to go from `src` on.
unfoldable pub has_irq_from : Plic → ℕ → ℕ → ℕ → Bool
has_irq_from p ctx zero src = false
has_irq_from p ctx (suc left) src = claimable p ctx src || has_irq_from p ctx left (src + 1)

unfoldable pub has_irq : Plic → ℕ → Bool
unfolding has_irq_from
has_irq p ctx = has_irq_from p ctx num_sources 1

-- The bit of `irq_pending` that a context drives: MEIP for M-mode, SEIP for S-mode.
abbrev pub irq_line : ℕ → ℕ
irq_line ctx = if ctx % 2 == 0 then 11 else 9

unfoldable pub drive_line : Bool → ℕ → Cpu → Cpu
drive_line level line cpu = record cpu {
  irq_pending =
      if level
      then bit_or cpu.irq_pending (2 ^ line)
      else bit_and cpu.irq_pending (not64 (2 ^ line));
}

-- One round of the outer loop of `plic_update_harts`.
unfoldable pub update_context : Plic → ℕ → List Cpu → List Cpu
unfolding drive_line
update_context p ctx cpus =
    if leb (length cpus) (ctx / 2)
    then cpus
    else update_hart cpus (ctx / 2) (drive_line (has_irq p ctx) (irq_line ctx))

unfoldable pub update_harts_from : Plic → ℕ → ℕ → List Cpu → List Cpu
update_harts_from p zero ctx cpus = cpus
update_harts_from p (suc left) ctx cpus =
    update_harts_from p left (ctx + 1) (update_context p ctx cpus)

-- `plic_update_harts`. The machine's `cpu_count` is the length of its list of harts.
unfoldable pub update_harts : Plic → List Cpu → List Cpu
unfolding update_harts_from
update_harts p cpus = update_harts_from p p.num_contexts 0 cpus

-- The loop of `plic_do_claim`: the best source so far and its priority.
unfoldable pub claim_from : Plic → ℕ → ℕ → ℕ → ℕ → ℕ → ℕ
claim_from p ctx zero src best_src best_pri = best_src
claim_from p ctx (suc left) src best_src best_pri =
    let better = claimable p ctx src && ltb best_pri (priority_of p src) in
    claim_from p ctx left (src + 1) (if better then src else best_src)
      (if better then priority_of p src else best_pri)

unfoldable pub clear_pending : Plic → ℕ → Plic
clear_pending p src =
    store_pending p (src / 32) (bit_and (pending_word p (src / 32)) (not32 (2 ^ (src % 32))))

-- `plic_do_claim`.
unfoldable pub do_claim : Plic → List Cpu → ℕ → ℕ × Plic × List Cpu
do_claim p cpus ctx =
    if leb (u32 p.num_contexts) ctx
    then (0, p, cpus)
    else let best_src = claim_from p ctx num_sources 1 0 0 in
      if truth best_src
      then (best_src, clear_pending p best_src, update_harts (clear_pending p best_src) cpus)
      else (0, p, cpus)

-- The four regions of `plic_read`.
unfoldable pub read_priority : Plic → ℕ → ℕ
read_priority p offset =
    let src = u32 (offset / 4) in if leb 1 src && leb src num_sources then priority_of p src else 0

unfoldable pub read_pending : Plic → ℕ → ℕ
read_pending p offset =
    let word = u32 ((offset - pending_base) / 4) in
    if ltb word reg_words then get_or p.pending word 0 else 0

-- The context and the word that an offset of the enable region selects.
abbrev pub enable_ctx : ℕ → ℕ
enable_ctx offset = u32 ((offset - enable_base) / 0x80)

abbrev pub enable_index : ℕ → ℕ
enable_index offset = u32 ((offset - enable_base) % 0x80 / 4)

unfoldable pub read_enable : Plic → ℕ → ℕ
read_enable p offset =
    if ltb (enable_ctx offset) (u32 p.num_contexts) && ltb (enable_index offset) reg_words
    then get_or (context p (enable_ctx offset)).enable (enable_index offset) 0
    else 0

-- The context and the register that an offset of the context region selects.
abbrev pub block_ctx : ℕ → ℕ
block_ctx offset = u32 ((offset - ctx_base) / 0x1000)

abbrev pub block_reg : ℕ → ℕ
block_reg offset = u32 ((offset - ctx_base) % 0x1000)

unfoldable pub read_block : Plic → List Cpu → ℕ → ℕ × Plic × List Cpu
unfolding do_claim
read_block p cpus offset =
    if ltb (block_ctx offset) (u32 p.num_contexts)
    then if block_reg offset == 0
      then ((context p (block_ctx offset)).threshold, p, cpus)
      else if block_reg offset == 4
      then do_claim p cpus (block_ctx offset)
      else (0, p, cpus)
    else (0, p, cpus)

-- `plic_read`: the result, the value read, and the state after.
unfoldable pub read : Plic → List Cpu → ℕ → ℕ → Bool × (ℕ × Plic × List Cpu)
unfolding read_priority read_pending read_enable read_block
read p cpus offset size =
    if not (size == 4)
    then (false, (0, p, cpus))
    else if ltb offset pending_base
    then (true, (read_priority p offset, p, cpus))
    else if ltb offset enable_base
    then (true, (read_pending p offset, p, cpus))
    else if ltb offset ctx_base
    then (true, (read_enable p offset, p, cpus))
    else (true, read_block p cpus offset)

abbrev pub set_context : Plic → ℕ → Context → Plic
set_context p ctx c = record p { contexts = set p.contexts ctx c }

-- The three writable regions of `plic_write`: the state after, if the write goes through.
unfoldable pub write_priority : Plic → ℕ → ℕ → Option Plic
write_priority p offset v32 =
    let src = u32 (offset / 4) in
    if leb 1 src && leb src num_sources
    then some (record p { priority = set p.priority src v32 })
    else none

unfoldable pub write_enable : Plic → ℕ → ℕ → Option Plic
write_enable p offset v32 =
    let c = context p (enable_ctx offset) in
    if ltb (enable_ctx offset) (u32 p.num_contexts) && ltb (enable_index offset) reg_words
    then some (
        set_context p (enable_ctx offset)
          (record c { enable = set c.enable (enable_index offset) v32 }))
    else none

-- A write of the claim register completes an interrupt, and changes nothing.
unfoldable pub write_block : Plic → ℕ → ℕ → Option Plic
write_block p offset v32 =
    let c = context p (block_ctx offset) in
    if ltb (block_ctx offset) (u32 p.num_contexts) && (block_reg offset == 0)
    then some (set_context p (block_ctx offset) (record c { threshold = v32 }))
    else none

-- Each write that goes through ends in `plic_update_harts`.
abbrev pub commit : Plic → List Cpu → Option Plic → Plic × List Cpu
commit p cpus none = (p, cpus)
commit p cpus (some p') = (p', update_harts p' cpus)

-- `plic_write`.
unfoldable pub write : Plic → List Cpu → ℕ → ℕ → ℕ → Bool × (Plic × List Cpu)
unfolding write_priority write_enable write_block
write p cpus offset size value =
    if not (size == 4)
    then (false, (p, cpus))
    else if ltb offset pending_base
    then (true, commit p cpus (write_priority p offset (u32 value)))
    else if ltb offset enable_base
    then (true, (p, cpus))
    else if ltb offset ctx_base
    then (true, commit p cpus (write_enable p offset (u32 value)))
    else (true, commit p cpus (write_block p offset (u32 value)))

-- `rv_plic_init`, after allocations that succeed, and on a zeroed struct.
unfoldable pub init : ℕ → Plic
init cpu_count = record {
  priority = replicate 65 0;
  pending = 0 ∷ 0 ∷ [];
  padding = 0;
  contexts = replicate (cpu_count * 2) zero_context;
  beyond = 0;
  num_contexts = cpu_count * 2;
}

-- `rv_plic_set_pending`.
unfoldable pub set_pending : Plic → List Cpu → ℕ → Plic × List Cpu
set_pending p cpus source =
    if (source == 0) || ltb num_sources source
    then (p, cpus)
    else let p' =
        store_pending p (source / 32) (bit_or (pending_word p (source / 32)) (2 ^ (source % 32))) in
      (p', update_harts p' cpus)
