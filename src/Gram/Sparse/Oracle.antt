-- ===== src/Gram/Sparse/Oracle.antt =====
-- What `SparseGramExtractor::grams` of gram.rs extracts is what its selection predicate describes.
use gitpixel.Base.{
  ℕ, zero, suc, ◌+◌, ◌≤◌, ◌<◌, ◌≡◌, Bool, true, ◌&&◌, ◌⊎◌, inl, inr, List, ◌∷◌, max, arith,
}
use gitpixel.Base.{leb, if◌then◌else◌, elem}
use native.Mathlib.Decide.{dec_lt}
use gitpixel.Gram.Sparse.Hull.{scan, recent}

elem-chosen :
    (c : Bool) (i j : ℕ) (rest : List ℕ)
    → elem i (if c then j ∷ rest else rest) ≡ true
    → ((c ≡ true) × (i ≡ j)) ⊎ (elem i rest ≡ true)
elem-chosen c i j rest h = ground arith

elem-behind :
    (c : Bool) (i j : ℕ) (rest : List ℕ)
    → elem i rest ≡ true
    → elem i (if c then j ∷ rest else rest) ≡ true
elem-behind c i j rest h = ground arith

module _ (W : ℕ → ℕ) where
  -- Every window strictly between is lighter than both ends.
  abbrev pub Dominates : ℕ → ℕ → ℕ → Type 0
  Dominates i j weight = (k : ℕ) → i < k → k < j → (W k < W i) × (W k < weight)

  Dominates-suc :
      (i j weight : ℕ)
      → W j < W i
      → W j < weight
      → Dominates i j weight
      → Dominates i (suc j) weight
  Dominates-suc i j weight h h' d k lo hi = elim (dec_lt k j) [
    | yes p ↦ d k lo p
    | no p ↦ let e : k ≡ j = omega arith in rw e (h, h')
  ]

  -- What a scan over the newest `n` windows before `j` finds.
  pub record Found (bound n j weight i : ℕ) : Type 0 where
    pub before : i < j
    pub near : j ≤ i + n
    pub heavy : bound ≤ W i
    pub heavy_end : bound ≤ weight
    pub dominates : Dominates i j weight

  pub scan-Found :
      (bound n j weight i : ℕ)
      → elem i (scan bound (recent W n j) weight) ≡ true
      → Found bound n j weight i
  unfolding scan recent
  scan-Found bound zero j weight i h = cc
  scan-Found bound (suc n) zero weight i h = cc
  scan-Found bound (suc n) (suc j) weight i h =
      elim (elem-chosen (leb bound (W j) && leb bound weight) i j
        (scan (max bound (suc (W j))) (recent W n j) weight) h) [
          | inl (c, e) ↦ record {
            before = omega arith;
            near = omega arith;
            heavy = rw e (ground arith);
            heavy_end = ground arith;
            dominates = λ k lo hi. absurd (omega arith);
          }
          | inr later ↦
              let f = scan-Found (max bound (suc (W j))) n j weight i later in
              record {
                before = omega (arith, f.before);
                near = omega (arith, f.near);
                heavy = omega (arith, f.heavy);
                heavy_end = omega (arith, f.heavy_end);
                dominates =
                    Dominates-suc i j weight (omega (arith, f.heavy)) (omega (arith, f.heavy_end))
                      f.dominates;
              }
        ]

  pub Found-scan :
      (bound n j weight i : ℕ)
      → Found bound n j weight i
      → elem i (scan bound (recent W n j) weight) ≡ true
  unfolding scan recent
  Found-scan bound zero j weight i f = absurd (omega arith)
  Found-scan bound (suc n) zero weight i f = absurd (omega arith)
  Found-scan bound (suc n) (suc j) weight i f = elim (dec_lt i j) [
    | no last ↦
        let e : i ≡ j = omega (arith, f.before) in
        let heavy : bound ≤ W j = rw (← e) f.heavy in ground (arith, heavy, f.heavy_end, e)
    | yes p ↦
        let (a, b) = f.dominates j p (omega arith) in
        let ih : elem i (scan (max bound (suc (W j))) (recent W n j) weight) ≡ true =
          Found-scan (max bound (suc (W j))) n j weight i (record {
            before = p;
            near = omega (arith, f.near);
            heavy = omega (arith, f.heavy);
            heavy_end = omega (arith, f.heavy_end);
            dominates = λ k lo hi. f.dominates k lo (omega arith);
          }) in
        elem-behind (leb bound (W j) && leb bound weight) i j _ ih
  ]
