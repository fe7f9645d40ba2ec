-- ===== src/Posting/Gallop.antt =====
-- `gallop` of posting.rs against the position of the first element that is not below the target.
use gitpixel.Base.{
  ℕ, zero, suc, ◌+◌, ◌-◌, ◌*◌, ◌/◌, ◌≤◌, ◌<◌, min, ◌≡◌, refl, ap, ◌⊎◌, inl, inr, List, [], ◌∷◌,
}
use gitpixel.Base.{arith, length, get_or, take, drop, length-drop, drop-drop, Ascends, IsSorted}
use gitpixel.Base.{Ascends-drop}
use native.Mathlib.Decide.{dec_lt}
use gitpixel.Posting.{binary_search, gallop_bound, gallop}

module _ (t : ℕ) where
  pub binary_search-le-length : (xs : List ℕ) → binary_search xs t ≤ length xs
  unfolding binary_search
  binary_search-le-length [] = omega arith
  binary_search-le-length (x ∷ xs) = ground (arith, binary_search-le-length xs)

  binary_search-take :
      (n : ℕ) (xs : List ℕ) → binary_search (take n xs) t ≡ min n (binary_search xs t)
  unfolding binary_search
  binary_search-take zero xs = omega arith
  binary_search-take (suc n) [] = omega arith
  binary_search-take (suc n) (x ∷ xs) = ground (arith, binary_search-take n xs)

  binary_search_stop :
      (m : ℕ) (xs : List ℕ) → m < length xs → t ≤ get_or xs m 0 → binary_search xs t ≤ m
  unfolding binary_search
  binary_search_stop m [] h e = omega arith
  binary_search_stop zero (x ∷ xs) h e = ground arith
  binary_search_stop (suc m) (x ∷ xs) h e = ground (arith, binary_search_stop m xs)

pub get_or-ge : (m lo : ℕ) (xs : List ℕ) → Ascends lo xs → m < length xs → lo ≤ get_or xs m 0
get_or-ge m lo [] s h = absurd (omega arith)
get_or-ge zero lo (x ∷ xs) s h = s.0
get_or-ge (suc m) lo (x ∷ xs) s h = omega (arith, get_or-ge m (suc x) xs s.1)

pub get_or-drop : (n m : ℕ) (xs : List ℕ) → get_or (drop n xs) m 0 ≡ get_or xs (n + m) 0
get_or-drop zero m xs = ground arith
get_or-drop (suc n) m [] = refl
get_or-drop (suc n) m (x ∷ xs) = ground (arith, get_or-drop n m xs)

drop-take : (m n k : ℕ) (xs : List ℕ) → n ≡ m + k → drop m (take n xs) ≡ take k (drop m xs)
drop-take zero n k xs e = let e' : n ≡ k = omega arith in rw e' refl
drop-take (suc m) zero k xs e = absurd (omega arith)
drop-take (suc m) (suc n) zero [] e = refl
drop-take (suc m) (suc n) (suc k) [] e = refl
drop-take (suc m) (suc n) k (x ∷ xs) e = drop-take m n k xs (omega arith)

module _ (t : ℕ) where
  binary_search-drop :
      (m lo : ℕ) (xs : List ℕ)
      → Ascends lo xs
      → m < length xs
      → get_or xs m 0 < t
      → binary_search xs t ≡ m + binary_search (drop m xs) t
  unfolding binary_search
  binary_search-drop m lo [] s h e = absurd (omega arith)
  binary_search-drop zero lo (x ∷ xs) s h e = ground arith
  binary_search-drop (suc m) lo (x ∷ xs) s h e =
      ground (arith, binary_search-drop m (suc x) xs, get_or-ge m (suc x) xs)

  -- What holds when the doubling loop ends, for the fuel that `gallop` gives it.
  record Ends (xs : List ℕ) (start b : ℕ) : Type 0 where
    before : (b / 2 ≡ 0) ⊎ ((start + b / 2 < length xs) × (get_or xs (start + b / 2) 0 < t))
    after : (length xs ≤ start + b) ⊎ (t ≤ get_or xs (start + b) 0)

  gallop_bound-Ends :
      (fuel : ℕ) (xs : List ℕ) (start b : ℕ)
      → 0 < b
      → length xs ≤ start + b + fuel
      → (b / 2 ≡ 0) ⊎ ((start + b / 2 < length xs) × (get_or xs (start + b / 2) 0 < t))
      → Ends xs start (gallop_bound fuel xs start t b)
  unfolding gallop_bound
  gallop_bound-Ends zero xs start b pos f h = ground arith
  gallop_bound-Ends (suc fuel) xs start b pos f h =
      let e : b * 2 / 2 ≡ b = omega arith in ground (arith, gallop_bound-Ends fuel xs start (b * 2))

  window :
      (lo start b : ℕ) (xs : List ℕ)
      → lo ≤ start + b
      → lo < length xs
      → (length xs ≤ start + b) ⊎ (t ≤ get_or xs (start + b) 0)
      → lo + binary_search (drop lo (take (min (start + b) (length xs - 1) + 1) xs)) t
        ≡ lo + binary_search (drop lo xs) t
  window lo start b xs hl hx after =
      let n : ℕ = min (start + b) (length xs - 1) + 1 in
      rw (drop-take lo n (n - lo) xs (omega arith), binary_search-take t (n - lo) (drop lo xs))
        (elim after [
          | inl e ↦ omega (arith, binary_search-le-length t (drop lo xs), length-drop lo xs)
          | inr e ↦ elim (dec_lt (start + b) (length xs)) [
            | yes inside ↦
                let i : ℕ = start + b - lo in
                let at : get_or (drop lo xs) i 0 ≡ get_or xs (start + b) 0 =
                  rw (get_or-drop lo i xs) (ap (λ k. get_or xs k 0) (omega arith)) in
                omega (
                  arith,
                  length-drop lo xs,
                  binary_search_stop t i (drop lo xs) (omega (arith, length-drop lo xs))
                      (omega arith),
                )
            | no outside ↦ omega (arith, binary_search-le-length t (drop lo xs), length-drop lo xs)
          ]
        ])

  window_at :
      (xs : List ℕ) (start b : ℕ)
      → start < length xs
      → Ends xs start b
      → start
          + b / 2
          + binary_search (drop (start + b / 2) (take (min (start + b) (length xs - 1) + 1) xs)) t
        ≡ start + b / 2 + binary_search (drop (start + b / 2) xs) t
  window_at xs start b h e =
      window (start + b / 2) start b xs (omega arith) (ground (arith, e.before)) e.after

  landing :
      (xs : List ℕ) (start b : ℕ)
      → IsSorted xs
      → start < length xs
      → Ends xs start b
      → start + b / 2 + binary_search (drop (start + b / 2) xs) t
        ≡ start + binary_search (drop start xs) t
  landing xs start b s h e = elim e.before [
    | inl z ↦ rw z (let z' : start + 0 ≡ start = omega arith in rw z' refl)
    | inr (inside, below) ↦
        let k : ℕ = b / 2 in
        let found : binary_search (drop start xs) t ≡ k + binary_search (drop k (drop start xs)) t =
          binary_search-drop k 0 (drop start xs) (Ascends-drop start 0 xs s)
            (omega (arith, length-drop start xs)) (rw (get_or-drop start k xs) below) in
        rw (found, drop-drop start k (start + k) xs refl) (omega arith)
  ]

  -- The galloping search finds what a search of everything from `start` on finds.
  pub gallop-binary_search :
      (xs : List ℕ) (start : ℕ)
      → IsSorted xs
      → start ≤ length xs
      → gallop xs start t ≡ start + binary_search (drop start xs) t
  unfolding gallop
  gallop-binary_search xs start s h = elim (dec_lt start (length xs)) [
    | no out ↦ ground (arith, binary_search-le-length t (drop start xs), length-drop start xs)
    | yes inside ↦
        let b : ℕ = gallop_bound (length xs) xs start t 1 in
        let e : Ends xs start b =
          gallop_bound-Ends (length xs) xs start 1 (omega arith) (omega arith)
            (inl (omega arith)) in
        ground (arith, landing xs start b s inside e, window_at xs start b inside e)
  ]

  binary_search_before : (j : ℕ) (xs : List ℕ) → j < binary_search xs t → get_or xs j 0 < t
  unfolding binary_search
  binary_search_before j [] h = absurd (omega arith)
  binary_search_before zero (x ∷ xs) h = ground arith
  binary_search_before (suc j) (x ∷ xs) h = ground (arith, binary_search_before j xs)

  pub binary_search_at :
      (xs : List ℕ) → binary_search xs t < length xs → t ≤ get_or xs (binary_search xs t) 0
  unfolding binary_search
  binary_search_at [] h = absurd (omega arith)
  binary_search_at (x ∷ xs) h = ground (arith, binary_search_at xs)

  -- On a strictly ascending list, from a start within it, `gallop` returns an index between the
  -- start and the length; every element from the start up to that index is below the target, and
  -- the element at the index, if there is one, is not.
  pub gallop_lem :
      (xs : List ℕ) (start : ℕ)
      → IsSorted xs
      → start ≤ length xs
      → (start ≤ gallop xs start t)
        × (gallop xs start t ≤ length xs)
        × ((j : ℕ) → start ≤ j → j < gallop xs start t → get_or xs j 0 < t)
        × (gallop xs start t < length xs → t ≤ get_or xs (gallop xs start t) 0)
  gallop_lem xs start s h =
      let D : List ℕ = drop start xs in
      let n : ℕ = binary_search D t in
      let le : n ≤ length D = binary_search-le-length t D in
      let len : length D ≡ length xs - start = length-drop start xs in
      rw (gallop-binary_search xs start s h) (
        omega arith,
        omega arith,
        λ j lo hi.
            let at : get_or D (j - start) 0 ≡ get_or xs j 0 =
              rw (get_or-drop start (j - start) xs) (ap (λ k. get_or xs k 0) (omega arith)) in
            rw at at (binary_search_before (j - start) D (omega arith)),
        λ inside. rw (get_or-drop start n xs) at (binary_search_at D (omega arith)),
      )
