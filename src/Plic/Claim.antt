-- ===== src/Plic/Claim.antt =====
-- What `plic_do_claim` returns: the claimable source of the highest priority, and among equals
-- the one of the lowest number.
use riscmulator.Base.{
  u32, ℕ, zero, suc, ◌+◌, ◌≤◌, ◌<◌, ◌≡◌, ◌≢◌, refl, ap, arith, true, false, ◌&&◌, ltb, ◌==◌, List,
  ==_iff, subst, Bool-cases, inl, inr,
}
use riscmulator.Cpu.{Cpu}
use riscmulator.Plic.{Plic, context, claimable, claim_from, do_claim, priority_of, num_sources}

-- `s`, of priority `q`, is the best claimable source below `hi`; 0 stands for none.
record IsBest (p : Plic) (ctx hi s q : ℕ) : Type 0 where
  in_range : s < hi
  pri : (s ≡ 0 → q ≡ 0) × (s ≢ 0 → q ≡ priority_of p s)
  is_claimable : s ≢ 0 → claimable p ctx s ≡ true
  best :
      (t : ℕ)
      → 1 ≤ t
      → t < hi
      → claimable p ctx t ≡ true
      → (s ≢ 0) × (priority_of p t ≤ q) × (priority_of p t ≡ q → s ≤ t)

-- A claimable source has a priority above the threshold, hence above 0.
pub claimable-above :
    (p : Plic) (ctx t : ℕ) → claimable p ctx t ≡ true → (context p ctx).threshold < priority_of p t
unfolding claimable
claimable-above p ctx t h = ground arith

module _ (p : Plic) (ctx : ℕ) where
  take-IsBest :
      (hi s q : ℕ)
      → 1 ≤ hi
      → IsBest p ctx hi s q
      → (claimable p ctx hi && ltb q (priority_of p hi)) ≡ true
      → IsBest p ctx (hi + 1) hi (priority_of p hi)
  take-IsBest hi s q pos b h = record {
    in_range = omega arith;
    pri = (λ e. absurd (omega arith), λ _. refl);
    is_claimable = λ _. ground arith;
    best = λ t lo up c. elim (Bool-cases (t == hi)) [
      | inl e ↦ ground arith
      | inr ne ↦ ground (arith, b.best t)
    ];
  }

  keep-IsBest :
      (hi s q : ℕ)
      → 1 ≤ hi
      → IsBest p ctx hi s q
      → (claimable p ctx hi && ltb q (priority_of p hi)) ≡ false
      → IsBest p ctx (hi + 1) s q
  keep-IsBest hi s q pos b h = record {
    in_range = omega (arith, b.in_range);
    pri = b.pri;
    is_claimable = b.is_claimable;
    best = λ t lo up c. elim (Bool-cases (t == hi)) [
      | inl e ↦ at_hi t ((==_iff t hi).0 e) c
      | inr ne ↦ ground (arith, b.best t)
    ];
  }
    where
      below : (t : ℕ) → t ≡ hi → claimable p ctx t ≡ true → priority_of p t ≤ q
      below t e c = ground (
        arith,
        subst (λ (u : ℕ). claimable p ctx u ≡ true) e c,
        ap (λ (u : ℕ). priority_of p u) e,
      )

      at_hi :
          (t : ℕ)
          → t ≡ hi
          → claimable p ctx t ≡ true
          → (s ≢ 0) × (priority_of p t ≤ q) × (priority_of p t ≡ q → s ≤ t)
      at_hi t e c =
          let low : priority_of p t ≤ q = below t e c in
          let above : (context p ctx).threshold < priority_of p t = claimable-above p ctx t c in
          (λ z. absurd (omega (arith, b.pri.0 z)), omega arith, λ _. omega (arith, b.in_range))

  claim_from-IsBest :
      (left hi end s q : ℕ)
      → hi + left ≡ end
      → 1 ≤ hi
      → IsBest p ctx hi s q
      → (r : ℕ) × IsBest p ctx end (claim_from p ctx left hi s q) r
  unfolding claim_from
  claim_from-IsBest zero hi end s q e pos b =
      let same : hi ≡ end = omega arith in (q, rw (← same) b)
  claim_from-IsBest (suc left) hi end s q e pos b =
      elim (Bool-cases (claimable p ctx hi && ltb q (priority_of p hi))) [
        | inl t ↦ rw t (
            claim_from-IsBest left (hi + 1) end hi (priority_of p hi) (omega arith) (omega arith)
              (take-IsBest hi s q pos b t))
        | inr t ↦ rw t (
            claim_from-IsBest left (hi + 1) end s q (omega arith) (omega arith)
              (keep-IsBest hi s q pos b t))
      ]

  scan-IsBest : (r : ℕ) × IsBest p ctx 65 (claim_from p ctx num_sources 1 0 0) r
  scan-IsBest = claim_from-IsBest 64 1 65 0 0 (omega arith) (omega arith) (record {
    in_range = omega arith;
    pri = (λ _. refl, λ z. absurd (z refl));
    is_claimable = λ z. absurd (z refl);
    best = λ t lo up c. absurd (omega arith);
  })

-- What a claim may return: 0 if nothing is claimable, else a claimable source that no other
-- exceeds in priority, nor equals under a lower number.
pub record IsTopSource (p : Plic) (ctx s : ℕ) : Type 0 where
  pub in_range : s ≤ num_sources
  pub is_claimable : s ≢ 0 → claimable p ctx s ≡ true
  pub top :
      (t : ℕ)
      → 1 ≤ t
      → t ≤ num_sources
      → claimable p ctx t ≡ true
      → (s ≢ 0) × (priority_of p t ≤ priority_of p s) × (priority_of p t ≡ priority_of p s → s ≤ t)

top_source : (p : Plic) (ctx s q : ℕ) → IsBest p ctx 65 s q → IsTopSource p ctx s
top_source p ctx s q b = record {
  in_range = omega (arith, b.in_range);
  is_claimable = b.is_claimable;
  top = λ t lo up c. ground (arith, b.best t lo (omega arith) c, b.pri);
}

pub do_claim-source :
    (p : Plic) (cpus : List Cpu) (ctx : ℕ)
    → ctx < u32 p.num_contexts
    → (do_claim p cpus ctx).0 ≡ claim_from p ctx num_sources 1 0 0
unfolding do_claim
do_claim-source p cpus ctx h = ground arith

pub claim_from-le : (p : Plic) (ctx : ℕ) → claim_from p ctx num_sources 1 0 0 ≤ num_sources
claim_from-le p ctx = omega (arith, (scan-IsBest p ctx).1.in_range)

-- For a context that exists, the source that `plic_do_claim` returns is the claimable source of
-- the highest priority, the lowest number among equals, and 0 exactly if none is claimable.
pub do_claim-IsTopSource :
    (p : Plic) (cpus : List Cpu) (ctx : ℕ)
    → ctx < u32 p.num_contexts
    → IsTopSource p ctx (do_claim p cpus ctx).0
do_claim-IsTopSource p cpus ctx h = rw (do_claim-source p cpus ctx h) (
    top_source p ctx (claim_from p ctx num_sources 1 0 0) (scan-IsBest p ctx).0
      (scan-IsBest p ctx).1)
