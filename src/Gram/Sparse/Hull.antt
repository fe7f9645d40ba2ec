-- ===== src/Gram/Sparse/Hull.antt =====
-- The hull of `SparseGramExtractor` in gram.rs holds the windows that dominate all later ones, and a
-- round emits what a scan over the recent windows finds.
use gitpixel.Base.{ℕ, zero, suc, ◌+◌, ◌-◌, ◌≤◌, ◌<◌, ◌≡◌, refl, ◌&&◌, List, [], ◌∷◌, max, arith}
use gitpixel.Base.{inl, inr, Bool-cases, leb, if◌then◌else◌}
use gitpixel.Gram.Sparse.{HullEntry, expire, pop_loop, round_lefts}

-- The entries that no later entry reaches: `bound` is above the weights of the later ones.
unfoldable pub visible : ℕ → List HullEntry → List HullEntry
visible bound [] = []
visible bound (e ∷ es) =
    if leb bound e.weight then e ∷ visible (suc e.weight) es else visible bound es

-- A scan from the newest entry: an end pairs with the window of the given weight if the windows between
-- are lighter than both.
unfoldable pub scan : ℕ → List HullEntry → ℕ → List ℕ
scan bound [] weight = []
scan bound (e ∷ es) weight =
    let rest = scan (max bound (suc e.weight)) es weight in
    if leb bound e.weight && leb bound weight then e.left ∷ rest else rest

scan_heavy :
    (bound : ℕ) (es : List HullEntry) (weight : ℕ) → weight < bound → scan bound es weight ≡ []
unfolding scan
scan_heavy bound [] weight h = refl
scan_heavy bound (e ∷ es) weight h = ground (arith, scan_heavy (max bound (suc e.weight)) es weight)

pub pop_loop-visible_rest :
    (bound : ℕ) (es : List HullEntry) (weight : ℕ)
    → bound ≤ suc weight
    → (pop_loop (visible bound es) weight).rest ≡ visible (suc weight) es
unfolding visible pop_loop
pop_loop-visible_rest bound [] weight h = refl
pop_loop-visible_rest bound (e ∷ es) weight h =
    ground
      (arith, pop_loop-visible_rest (suc e.weight) es weight, pop_loop-visible_rest bound es weight)

pub round_lefts-visible :
    (bound : ℕ) (es : List HullEntry) (weight : ℕ)
    → bound ≤ weight
    → round_lefts (pop_loop (visible bound es) weight) ≡ scan bound es weight
unfolding visible pop_loop scan round_lefts
round_lefts-visible bound [] weight h = refl
round_lefts-visible bound (e ∷ es) weight h = elim (Bool-cases (leb bound e.weight)) [
  | inl seen ↦
      let m : max bound (suc e.weight) ≡ suc e.weight = ground arith in
      rw (seen, m)
        (ground (
          arith,
          round_lefts-visible (suc e.weight) es weight,
          scan_heavy (suc e.weight) es weight,
        ))
  | inr hidden ↦
      let m : max bound (suc e.weight) ≡ bound = ground arith in
      rw (hidden, m) (round_lefts-visible bound es weight h)
]

-- The newest `n` of the windows before `j`, whose weights are `W`.
module _ (W : ℕ → ℕ) where
  unfoldable pub recent : ℕ → ℕ → List HullEntry
  recent zero j = []
  recent (suc n) zero = []
  recent (suc n) (suc j) = record { left = j; weight = W j } ∷ recent n j

  -- Of the newest windows the round at `right` drops the one that has become too far away.
  pub expire-visible :
      (w max_len right : ℕ) (bound n j : ℕ)
      → w ≤ max_len
      → j + (max_len - w) ≡ right + n
      → n ≤ max_len - w
      → expire w max_len right (visible bound (recent (suc n) j)) ≡ visible bound (recent n j)
  unfolding visible expire recent
  expire-visible w max_len right bound zero zero h e k = refl
  expire-visible w max_len right bound (suc n) zero h e k = refl
  expire-visible w max_len right bound zero (suc j) h e k = ground arith
  expire-visible w max_len right bound (suc n) (suc j) h e k = ground (
    arith,
    expire-visible w max_len right (suc (W j)) n j,
    expire-visible w max_len right bound n j,
  )
