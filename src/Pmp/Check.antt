-- ===== src/Pmp/Check.antt =====
-- Which entry decides.
use riscmulator.Base.{
  subst, ◌≤◌, not, ◌^◌, ◌||◌, if◌then◌else◌, truth, ◌&&◌, ℕ, zero, suc, ◌+◌, ◌<◌, ◌≡◌, arith, Bool,
  true, false, get_or, bit_and,
}
use riscmulator.Pmp.{last_byte, pmp_check, check_from, pmpaddr_match}
use riscmulator.Cpu.{Cpu}

module _ (cpu : Cpu) (paddr paddr1 : ℕ) (m_mode : Bool) where
  -- Whether entry `i` applies: it is enabled, and in M-mode locked.
  abbrev pub applies : ℕ → Bool
  applies i =
      truth (bit_and (get_or cpu.csr.pmpcfg i 0) (2 ^ 4))
      && (not m_mode || truth (bit_and (get_or cpu.csr.pmpcfg i 0) (2 ^ 7)))

  abbrev pub first_matches : ℕ → Bool
  first_matches i = pmpaddr_match paddr (get_or cpu.csr.pmpaddr i 0)

  abbrev pub last_matches : ℕ → Bool
  last_matches i = pmpaddr_match paddr1 (get_or cpu.csr.pmpaddr i 0)

  -- Whether entry `i` decides: it applies, and holds the first or the last byte.
  abbrev pub decides : ℕ → Bool
  decides i = applies i && (first_matches i || last_matches i)

  -- What it decides: its permissions if it holds both bytes, else none.
  abbrev pub outcome : ℕ → ℕ
  outcome i = if first_matches i && last_matches i then bit_and (get_or cpu.csr.pmpcfg i 0) 7 else 0

  decided :
      (d left base i : ℕ)
      → i ≡ base + d
      → d < left
      → ((j : ℕ) → base ≤ j → j < i → decides j ≡ false)
      → decides i ≡ true
      → check_from left base cpu paddr paddr1 m_mode ≡ outcome i
  unfolding check_from
  decided d zero base i e h before at = absurd (omega arith)
  decided zero (suc left) base i e h before at =
      let same : i ≡ base = omega arith in
      let here : decides base ≡ true = subst (λ t. decides t ≡ true) same at in
      rw same (ground (arith, here))
  decided (suc d) (suc left) base i e h before at =
      let skipped = before base (omega arith) (omega arith) in
      let later =
        decided d left (base + 1) i (omega arith) (omega arith)
          (λ j lo hi. before j (omega arith) hi) at in
      ground (arith, skipped, later)

-- The first of the 64 entries that applies (enabled, and in M-mode locked) and holds the first or
-- the last byte of an access decides: its permissions if it holds both bytes, none otherwise.
pub pmp_check-decided :
    (cpu : Cpu) (paddr size : ℕ) (m_mode : Bool) (i : ℕ)
    → i < 64
    → ((j : ℕ) → j < i → decides cpu paddr (last_byte paddr size) m_mode j ≡ false)
    → decides cpu paddr (last_byte paddr size) m_mode i ≡ true
    → pmp_check cpu paddr size m_mode ≡ outcome cpu paddr (last_byte paddr size) m_mode i
unfolding pmp_check
pmp_check-decided cpu paddr size m_mode i h before at =
    decided cpu paddr (last_byte paddr size) m_mode i 64 0 i (omega arith) h
      (λ j lo hi. before j hi) at
