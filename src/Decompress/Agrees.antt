-- ===== src/Decompress/Agrees.antt =====
-- emulator/src/cpu/rv_decompress.c against the tables of the manual, word by word.
use riscmulator.Base.{
  inr, &&-eq-true, subst, inl, Bool-cases, ◌/◌, ==_iff, arith, ◌*◌, ◌^◌, ap, ◌<◌, ◌≤◌, ℕ, zero, suc,
  ◌+◌, ◌≡◌, Bool, true, false, Option, none, some, ◌==◌, ◌&&◌, refl, if◌then◌else◌,
}
use riscmulator.Decompress.{decompress}
use riscmulator.Decompress.Reference.{expansion, is_hint}

same : Option ℕ → Option ℕ → Bool
same none none = true
same none (some b) = false
same (some a) none = false
same (some a) (some b) = a == b

agrees : ℕ → Bool
unfolding same
agrees x = same (decompress x) (if is_hint x then none else expansion x)

all_from : ℕ → ℕ → (ℕ → Bool) → Bool
all_from zero start p = true
all_from (suc n) start p = p start && all_from n (start + 1) p

chunk0 : all_from 8192 0 agrees ≡ true
unfolding all_from agrees decompress expansion is_hint
chunk0 = refl

chunk1 : all_from 8192 8192 agrees ≡ true
unfolding all_from agrees decompress expansion is_hint
chunk1 = refl

chunk2 : all_from 8192 16384 agrees ≡ true
unfolding all_from agrees decompress expansion is_hint
chunk2 = refl

chunk3 : all_from 8192 24576 agrees ≡ true
unfolding all_from agrees decompress expansion is_hint
chunk3 = refl

chunk4 : all_from 8192 32768 agrees ≡ true
unfolding all_from agrees decompress expansion is_hint
chunk4 = refl

chunk5 : all_from 8192 40960 agrees ≡ true
unfolding all_from agrees decompress expansion is_hint
chunk5 = refl

chunk6 : all_from 8192 49152 agrees ≡ true
unfolding all_from agrees decompress expansion is_hint
chunk6 = refl

chunk7 : all_from 8192 57344 agrees ≡ true
unfolding all_from agrees decompress expansion is_hint
chunk7 = refl

all_from_lem :
    (n start : ℕ) (p : ℕ → Bool) (x : ℕ)
    → all_from n start p ≡ true
    → start ≤ x
    → x < start + n
    → p x ≡ true
unfolding all_from
all_from_lem zero start p x h lo hi = absurd (omega arith)
all_from_lem (suc n) start p x h lo hi = elim (Bool-cases (start == x)) [
  | inl e ↦
      subst (λ (y : ℕ). p y ≡ true) ((==_iff start x).0 e)
        (&&-eq-true (p start) (all_from n (start + 1) p) h).0
  | inr e ↦
      all_from_lem n (start + 1) p x (&&-eq-true (p start) (all_from n (start + 1) p) h).1
        (ground arith) (omega arith)
]

chunk : (k : ℕ) → k < 8 → all_from 8192 (k * 8192) agrees ≡ true
chunk zero h = chunk0
chunk (suc zero) h = chunk1
chunk (suc (suc zero)) h = chunk2
chunk (suc (suc (suc zero))) h = chunk3
chunk (suc (suc (suc (suc zero)))) h = chunk4
chunk (suc (suc (suc (suc (suc zero))))) h = chunk5
chunk (suc (suc (suc (suc (suc (suc zero)))))) h = chunk6
chunk (suc (suc (suc (suc (suc (suc (suc zero))))))) h = chunk7
chunk (suc (suc (suc (suc (suc (suc (suc (suc k)))))))) h = absurd (omega arith)

same-eq : (a b : Option ℕ) → same a b ≡ true → a ≡ b
unfolding same
same-eq none none h = refl
same-eq none (some b) h = cc
same-eq (some a) none h = cc
same-eq (some a) (some b) h = ap some ((==_iff a b).0 h)

-- Every 16-bit word decompresses to the instruction that the tables of the manual give it, field by
-- field, and what they reserve is refused; but the hints of C.LUI and C.SLLI with the destination x0
-- are refused too.
pub decompress-expansion :
    (x : ℕ) → x < 2 ^ 16 → decompress x ≡ (if is_hint x then none else expansion x)
unfolding agrees
decompress-expansion x h = same-eq (decompress x) (if is_hint x then none else expansion x) (
    all_from_lem 8192 (x / 8192 * 8192) agrees x (chunk (x / 8192) (omega arith)) (omega arith)
      (omega arith))
