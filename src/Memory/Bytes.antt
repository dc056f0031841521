-- ===== src/Memory/Bytes.antt =====
-- Laws of bytes in memory.
use riscmulator.Base.{
  replicate, u8, sym, ◌-◌, ◌∙◌, ℕ, zero, suc, ◌+◌, ◌*◌, ◌/◌, ◌%◌, ◌^◌, ◌<◌, ◌≤◌, ◌≡◌, arith, refl,
  ap, ap₂, List, [], ◌∷◌, length, get_or, set, length-set, get_or-set_self, get_or-set_ne,
  if◌then◌else◌, ◌&&◌, ltb, leb,
}
use native.Mathlib.Nat.{mul_assoc, div-div-eq-div-mul, mod-add-div, pow-suc}
use riscmulator.Memory.{load_bytes, store_bytes, overwrite, take, le_bytes, le_value}

pub length-store_bytes :
    (ram : List ℕ) (i : ℕ) (bs : List ℕ) → length (store_bytes ram i bs) ≡ length ram
unfolding store_bytes
length-store_bytes ram i [] = refl
length-store_bytes ram i (b ∷ bs) = length-store_bytes (set ram i b) (i + 1) bs ∙ length-set ram i b

pub length-load_bytes : (ram : List ℕ) (i n : ℕ) → length (load_bytes ram i n) ≡ n
unfolding load_bytes
length-load_bytes ram i zero = refl
length-load_bytes ram i (suc n) = ap suc (length-load_bytes ram (i + 1) n)

pub length-le_bytes : (n v : ℕ) → length (le_bytes n v) ≡ n
unfolding le_bytes
length-le_bytes zero v = refl
length-le_bytes (suc n) v = ap suc (length-le_bytes n (v / 256))

-- A byte after a store: the byte stored there, or the old one.
pub get_or-store_bytes :
    (ram : List ℕ) (i : ℕ) (bs : List ℕ) (j : ℕ)
    → i + length bs ≤ length ram
    → get_or (store_bytes ram i bs) j 0
      ≡ (if leb i j && ltb j (i + length bs) then get_or bs (j - i) 0 else get_or ram j 0)
unfolding store_bytes
get_or-store_bytes ram i [] j h = ground arith
get_or-store_bytes ram i (b ∷ bs) j h = ground (
  arith,
  get_or-store_bytes (set ram i b) (i + 1) bs j,
  length-set ram i b,
  get_or-set_self ram i b 0,
  get_or-set_ne ram i j b 0,
  ap (λ (t : ℕ). get_or (set ram i b) t 0) {x = i} {y = j},
  ap (λ (t : ℕ). get_or (b ∷ bs) t 0) {x = suc (j - (i + 1))} {y = j - i},
  ap (λ (t : ℕ). get_or (b ∷ bs) t 0) {x = 0} {y = j - i},
)

-- Bytes of which every one agrees are loaded alike.
pub load_bytes-same :
    (ram ram' : List ℕ) (i n : ℕ)
    → ((j : ℕ) → i ≤ j → j < i + n → get_or ram j 0 ≡ get_or ram' j 0)
    → load_bytes ram i n ≡ load_bytes ram' i n
unfolding load_bytes
load_bytes-same ram ram' i zero h = refl
load_bytes-same ram ram' i (suc n) h =
    ap₂ (λ (b : ℕ) (bs : List ℕ). b ∷ bs) (h i (omega arith) (omega arith))
      (load_bytes-same ram ram' (i + 1) n (λ j lo hi. h j (omega arith) (omega arith)))

-- A load of what was stored.
pub load_bytes-store_bytes :
    (ram : List ℕ) (i : ℕ) (bs : List ℕ)
    → i + length bs ≤ length ram
    → load_bytes (store_bytes ram i bs) i (length bs) ≡ bs
unfolding store_bytes load_bytes
load_bytes-store_bytes ram i [] h = refl
load_bytes-store_bytes ram i (b ∷ bs) h =
    ap₂ (λ (c : ℕ) (cs : List ℕ). c ∷ cs) first
      (load_bytes-store_bytes (set ram i b) (i + 1) bs (omega (arith, length-set ram i b)))
  where
    first : get_or (store_bytes (set ram i b) (i + 1) bs) i 0 ≡ b
    first = ground (
      arith,
      get_or-store_bytes (set ram i b) (i + 1) bs i,
      length-set ram i b,
      get_or-set_self ram i b 0,
    )

pub overwrite-all : (bs cs : List ℕ) → length bs ≡ length cs → overwrite bs cs ≡ cs
unfolding overwrite
overwrite-all [] [] h = refl
overwrite-all [] (c ∷ cs) h = absurd (omega arith)
overwrite-all (b ∷ bs) [] h = absurd (omega arith)
overwrite-all (b ∷ bs) (c ∷ cs) h = ap (λ (t : List ℕ). c ∷ t) (overwrite-all bs cs (omega arith))

pub take-all : (bs : List ℕ) → take (length bs) bs ≡ bs
unfolding take
take-all [] = refl
take-all (b ∷ bs) = ap (λ (t : List ℕ). b ∷ t) (take-all bs)

-- A remainder by the low byte and what is above it.
mod-byte : (v m : ℕ) → v % (256 * m) ≡ v % 256 + 256 * (v / 256 % m)
mod-byte v m = omega (
  arith,
  mod-add-div v (256 * m),
  mod-add-div (v / 256) m,
  ap (λ (k : ℕ). 256 * m * k) (sym (div-div-eq-div-mul v 256 m)),
  mul_assoc 256 m (v / 256 / m),
)

pow-byte : (n : ℕ) → 2 ^ (8 * suc n) ≡ 256 * 2 ^ (8 * n)
pow-byte n =
    ap (λ (t : ℕ). 2 ^ t) {y = suc (suc (suc (suc (suc (suc (suc (suc (8 * n))))))))} (omega arith)
    ∙ omega (
      arith,
      pow-suc 2 (8 * n),
      pow-suc 2 (suc (8 * n)),
      pow-suc 2 (suc (suc (8 * n))),
      pow-suc 2 (suc (suc (suc (8 * n)))),
      pow-suc 2 (suc (suc (suc (suc (8 * n))))),
      pow-suc 2 (suc (suc (suc (suc (suc (8 * n)))))),
      pow-suc 2 (suc (suc (suc (suc (suc (suc (8 * n))))))),
      pow-suc 2 (suc (suc (suc (suc (suc (suc (suc (8 * n)))))))),
    )

-- Reading back the bytes of a word.
pub le_value-le_bytes : (n v : ℕ) → le_value (le_bytes n v) ≡ v % 2 ^ (8 * n)
unfolding le_value le_bytes
le_value-le_bytes zero v = omega arith
le_value-le_bytes (suc n) v =
    ap (λ (t : ℕ). v % 256 + 256 * t) (le_value-le_bytes n (v / 256))
    ∙ sym (mod-byte v (2 ^ (8 * n)))
    ∙ ap (λ (t : ℕ). v % t) (sym (pow-byte n))

-- The first bytes of a word are those of a narrower one.
pub take-le_bytes : (n k v : ℕ) → n ≤ k → take n (le_bytes k v) ≡ le_bytes n v
unfolding take le_bytes
take-le_bytes zero k v h = refl
take-le_bytes (suc n) zero v h = absurd (omega arith)
take-le_bytes (suc n) (suc k) v h =
    ap (λ (bs : List ℕ). u8 v ∷ bs) (take-le_bytes n k (v / 256) (omega arith))

le_value-zeros : (n : ℕ) → le_value (replicate n 0) ≡ 0
unfolding le_value
le_value-zeros zero = refl
le_value-zeros (suc n) = omega (arith, le_value-zeros n)

-- Bytes read over zeros.
pub le_value-overwrite :
    (n : ℕ) (bs : List ℕ) → length bs ≤ n → le_value (overwrite (replicate n 0) bs) ≡ le_value bs
unfolding overwrite le_value
le_value-overwrite zero [] h = refl
le_value-overwrite zero (b ∷ bs) h = absurd (omega arith)
le_value-overwrite (suc n) [] h = omega (arith, le_value-zeros n)
le_value-overwrite (suc n) (b ∷ bs) h =
    ap (λ (t : ℕ). b + 256 * t) (le_value-overwrite n bs (omega arith))
