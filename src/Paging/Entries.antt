-- ===== src/Paging/Entries.antt =====
-- What makes an entry of emulator/src/cpu/rv_paging.c usable, and what check_access sees of it.
use riscmulator.Memory.{fetch, amo, load, store, dirties, is_ok, Access}
use riscmulator.Paging.Pages.{low_bits-lt, pte_ppn-bit_or_high, low_bits, pte_ppn-bit_or_low}
use riscmulator.Base.{
  inr, inl, sym, Bool-cases, ap, zero, ◌<<<◌, ◌>>>◌, ◌∙◌, true, ◌+◌, ◌-◌, arith, bit_or, false,
  subst, suc, ◌^◌, ◌≤◌, ◌⊎◌, Bool, to_nat, ◌*◌, ◌<◌, ◌≡◌, bit_and, refl, ℕ,
}
use riscmulator.Base.Bits.{bit-shl, bit_le_one, bit-bit_and, bit-bit_or, truth-bit_and-pow, bit}
use riscmulator.Cpu.{CsrState, TlbEntry, Cpu}
use riscmulator.Paging.{
  satp_asid, pte_bit, pte_ppn, pmp_bit, set_flags, vpn_mask, check_access, leaf_entry, user_refused,
}
use riscmulator.Machine.Control.{SameControl}
use riscmulator.Machine.Phys.{pmp_bit}
use riscmulator.Tlb.{vpn_mask}
use riscmulator.Pmp.{check_from, pmp_check}

-- Whether a hart may use a page by its U bit: in U-mode only the pages of users, in S-mode
-- these only with SUM.
abbrev pub MayUse : Cpu → ℕ → Type 0
MayUse cpu u =
    ((cpu.mem_privilege ≡ 0) × (u ≡ 1))
    ⊎ ((0 < cpu.mem_privilege) × ((u ≡ 0) ⊎ (bit cpu.csr.mstatus 18 ≡ 1)))

-- The PMP permissions of a page.
abbrev pub page_pmp : Cpu → ℕ → ℕ
page_pmp cpu page = pmp_check cpu (page * 4096) 4096 false

-- The leaf of a walk for an address: the page that its PTE names, on its level, whose first
-- 4096 bytes have PMP permissions that allow the access; the entry names this page with the low bits
-- of the address.
pub record IsLeaf (cpu : Cpu) (vaddr : ℕ) (mode : Access) (entry : TlbEntry) : Type 0 where
  pub page : ℕ
  pub level : ℕ
  pub below : level < 3
  pub aligned : bit_and page (2 ^ (9 * level) - 1) ≡ 0
  pub checked : bit (page_pmp cpu page) (pmp_bit mode) ≡ 1
  pub named : pte_ppn entry.pte ≡ bit_or page (low_bits vaddr level)

-- An entry that an access may use: it is valid, its PTE has the bit of the access, the U bit admits
-- the hart, its PMP permissions have the bit of the access, its flags are set, and it is that of a
-- leaf.
pub record IsGranted (cpu : Cpu) (vaddr : ℕ) (mode : Access) (entry : TlbEntry) : Type 0 where
  pub valid : bit entry.pte 0 ≡ 1
  pub permitted : bit entry.pte (pte_bit mode) ≡ 1
  pub user : MayUse cpu (bit entry.pte 4)
  pub protected : bit entry.vma (pmp_bit mode) ≡ 1
  pub accessed : bit entry.pte 6 ≡ 1
  pub dirty : to_nat (dirties mode) ≤ bit entry.pte 7
  pub leaf_of : IsLeaf cpu vaddr mode entry

-- What `check_access` has seen of an entry that it lets pass.
user_refused_lem :
    (cpu : Cpu) (entry : TlbEntry) → user_refused cpu entry ≡ false → MayUse cpu (bit entry.pte 4)
unfolding user_refused
user_refused_lem cpu entry h = ground (
  arith,
  truth-bit_and-pow entry.pte 4,
  truth-bit_and-pow cpu.csr.mstatus 18,
  bit_le_one entry.pte 4,
  bit_le_one cpu.csr.mstatus 18,
)

pub check_access-user :
    (cpu : Cpu) (entry : TlbEntry) (mode : Access)
    → is_ok (check_access cpu entry mode) ≡ true
    → MayUse cpu (bit entry.pte 4)
unfolding check_access
check_access-user cpu entry mode h = elim (Bool-cases (user_refused cpu entry)) [
  | inl e ↦ cc (rw e at h)
  | inr e ↦ user_refused_lem cpu entry e
]

pub check_access-permits :
    (cpu : Cpu) (entry : TlbEntry) (mode : Access)
    → is_ok (check_access cpu entry mode) ≡ true
    → (bit entry.pte (pte_bit mode) ≡ 1) × (bit entry.vma (pmp_bit mode) ≡ 1)
unfolding check_access
check_access-permits cpu entry mode h =
    ground (
      arith,
      truth-bit_and-pow entry.pte (pte_bit mode),
      truth-bit_and-pow entry.vma (pmp_bit mode),
    )

-- A hart with the same control may use the same pages.
pub MayUse-SameControl :
    (cpu other : Cpu) (u : ℕ) → SameControl cpu other → MayUse other u → MayUse cpu u
MayUse-SameControl cpu other u same may =
    subst (λ (p : ℕ). ((p ≡ 0) × (u ≡ 1)) ⊎ ((0 < p) × ((u ≡ 0) ⊎ (bit cpu.csr.mstatus 18 ≡ 1))))
      same.mem_privilege
      (subst
        (λ (c : CsrState).
          ((other.mem_privilege ≡ 0) × (u ≡ 1))
          ⊎ ((0 < other.mem_privilege) × ((u ≡ 0) ⊎ (bit c.mstatus 18 ≡ 1))))
        same.csr may)

check_from-csr :
    (left i : ℕ) (cpu other : Cpu) (addr last : ℕ) (m_mode : Bool)
    → other.csr ≡ cpu.csr
    → check_from left i other addr last m_mode ≡ check_from left i cpu addr last m_mode
unfolding check_from
check_from-csr zero i cpu other addr last m_mode e = refl
check_from-csr (suc left) i cpu other addr last m_mode e =
    rw (check_from-csr left (i + 1) cpu other addr last m_mode e, e) refl

page_pmp-csr :
    (cpu other : Cpu) (page : ℕ) → other.csr ≡ cpu.csr → page_pmp other page ≡ page_pmp cpu page
unfolding pmp_check
page_pmp-csr cpu other page e = check_from-csr 64 0 cpu other (page * 4096) _ false e

-- The PMP bits of the entry of a leaf are those of its page.
vpn_mask-low : (mode : Access) → bit vpn_mask (pmp_bit mode) ≡ 0
unfolding bit
vpn_mask-low fetch = refl
vpn_mask-low amo = refl
vpn_mask-low load = refl
vpn_mask-low store = refl

pmp_bit_small : (mode : Access) → pmp_bit mode < 48
pmp_bit_small fetch = omega arith
pmp_bit_small amo = omega arith
pmp_bit_small load = omega arith
pmp_bit_small store = omega arith

leaf_entry-protected :
    (cpu : Cpu) (vaddr level pte : ℕ) (mode : Access)
    → bit (leaf_entry cpu vaddr level pte).vma (pmp_bit mode)
      ≡ bit (page_pmp cpu (pte_ppn pte)) (pmp_bit mode)
unfolding leaf_entry
leaf_entry-protected cpu vaddr level pte mode =
    let k : ℕ = pmp_bit mode in
    let asid : bit (satp_asid cpu <<< 48) k ≡ 0 =
      ground (arith, bit-shl (satp_asid cpu) 48 k, pmp_bit_small mode) in
    omega (
      arith,
      asid,
      bit-bit_or (bit_or (satp_asid cpu <<< 48) (bit_and vaddr vpn_mask))
          (page_pmp cpu (pte_ppn pte)) k,
      bit-bit_or (satp_asid cpu <<< 48) (bit_and vaddr vpn_mask) k,
      bit-bit_and vaddr vpn_mask k,
      vpn_mask-low mode,
    )

pub leaf_entry-IsLeaf :
    (cpu other : Cpu) (vaddr level pte : ℕ) (mode : Access)
    → level < 3
    → other.csr ≡ cpu.csr
    → bit_and (pte_ppn pte) (2 ^ (9 * level) - 1) ≡ 0
    → bit (leaf_entry other vaddr level pte).vma (pmp_bit mode) ≡ 1
    → IsLeaf cpu vaddr mode (leaf_entry other vaddr level pte)
leaf_entry-IsLeaf cpu other vaddr level pte mode below same aligned protected = record {
  page = pte_ppn pte;
  level = level;
  below = below;
  aligned = aligned;
  checked =
      ap (λ (t : ℕ). bit t (pmp_bit mode)) (sym (page_pmp-csr cpu other (pte_ppn pte) same))
      ∙ sym (leaf_entry-protected other vaddr level pte mode)
      ∙ protected;
  named =
      unfold leaf_entry in
      pte_ppn-bit_or_high pte (low_bits vaddr level) (low_bits-lt vaddr level below);
}

set_flags-lt : (mode : Access) → set_flags mode < 2 ^ 10
set_flags-lt fetch = omega arith
set_flags-lt amo = omega arith
set_flags-lt load = omega arith
set_flags-lt store = omega arith

-- The flags do not change the page of an entry.
pub flagged-IsLeaf :
    (cpu : Cpu) (vaddr : ℕ) (mode : Access) (entry : TlbEntry)
    → IsLeaf cpu vaddr mode entry
    → IsLeaf cpu vaddr mode (record entry { pte = bit_or entry.pte (set_flags mode) })
flagged-IsLeaf cpu vaddr mode entry l = record {
  page = l.page;
  level = l.level;
  below = l.below;
  aligned = l.aligned;
  checked = l.checked;
  named = pte_ppn-bit_or_low entry.pte (set_flags mode) (set_flags-lt mode) ∙ l.named;
}

pub has_bit : (x s k : ℕ) → bit_and x s ≡ s → bit s k ≡ 1 → bit x k ≡ 1
has_bit x s k h e = omega (arith, bit-bit_and x s k, ap (λ (t : ℕ). bit t k) h, bit_le_one x k)

pub flag_user : (mode : Access) → bit (set_flags mode) 4 ≡ 0
unfolding bit
flag_user fetch = refl
flag_user amo = refl
flag_user load = refl
flag_user store = refl

pub flag_accessed : (mode : Access) → bit (set_flags mode) 6 ≡ 1
unfolding bit
flag_accessed fetch = refl
flag_accessed amo = refl
flag_accessed load = refl
flag_accessed store = refl

-- The flags of a PTE that has them, and of one after they are set.
pub flags_present :
    (pte : ℕ) (mode : Access)
    → bit_and pte (set_flags mode) ≡ set_flags mode
    → (bit pte 6 ≡ 1) × (to_nat (dirties mode) ≤ bit pte 7)
unfolding bit
flags_present pte fetch h = (has_bit pte 0x40 6 h refl, omega arith)
flags_present pte amo h = (has_bit pte 0xc0 6 h refl, omega (arith, has_bit pte 0xc0 7 h refl))
flags_present pte load h = (has_bit pte 0x40 6 h refl, omega arith)
flags_present pte store h = (has_bit pte 0xc0 6 h refl, omega (arith, has_bit pte 0xc0 7 h refl))

pub flag_dirty : (mode : Access) → to_nat (dirties mode) ≤ bit (set_flags mode) 7
unfolding bit
flag_dirty fetch = omega arith
flag_dirty amo = omega arith
flag_dirty load = omega arith
flag_dirty store = omega arith

-- The entry of a leaf has the low bits of its PTE.
pub leaf_entry-low :
    (cpu : Cpu) (vaddr level pte k : ℕ)
    → k < 10
    → bit pte k ≤ bit (leaf_entry cpu vaddr level pte).pte k
unfolding leaf_entry
leaf_entry-low cpu vaddr level pte k h =
    omega (arith, bit-bit_or pte (bit_and (vaddr >>> 12) (2 ^ (9 * level) - 1) <<< 10) k)
