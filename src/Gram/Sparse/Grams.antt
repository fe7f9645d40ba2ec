-- ===== src/Gram/Sparse/Grams.antt =====
-- `SparseGramExtractor::grams` of gram.rs against its selection predicate: the whole loop.
use gitpixel.Base.{
  ℕ, zero, suc, ◌+◌, ◌-◌, ◌≤◌, ◌<◌, ◌≡◌, ◌↔◌, refl, ap, true, ◌⊎◌, inl, inr, List, [], ◌∷◌, ◌++◌,
  some, arith,
}
use gitpixel.Base.{ltb, ◌==◌, length, elem, Bool-cases}
use native.Mathlib.Decide.{dec_lt}
use gitpixel.Gram.{GramHit}
use gitpixel.Gram.Sparse.{
  SparseGramExtractor, with_lengths, HullEntry, window, expire, pop_loop, round_lefts,
}
use gitpixel.Gram.Sparse.{emit, window_weight, emit_all, grams_loop, sparse_grams}
use gitpixel.Gram.Sparse.Hull.{
  visible, scan, recent, pop_loop-visible_rest, round_lefts-visible, expire-visible,
}
use gitpixel.Gram.Sparse.Oracle.{Dominates, scan-Found, Found-scan}

-- The hit is one of the list.
abbrev pub In : GramHit → List GramHit → Type 0
In h [] = ⊥
In h (k ∷ ks) = (h ≡ k) ⊎ In h ks

pub In-append : (h : GramHit) (xs ys : List GramHit) → In h (xs ++ ys) ↔ (In h xs ⊎ In h ys)
In-append h [] ys = (λ m. inr m, λ m. elim m [ inl x ↦ absurd x | inr y ↦ y ])
In-append h (x ∷ xs) ys = (
  λ m. elim m [
    | inl e ↦ inl (inl e)
    | inr r ↦ elim ((In-append h xs ys).0 r) [ inl a ↦ inl (inr a) | inr b ↦ inr b ]
  ],
  λ m. elim m [
    | inl a ↦ elim a [ inl e ↦ inl e | inr r ↦ inr ((In-append h xs ys).1 (inl r)) ]
    | inr b ↦ inr ((In-append h xs ys).1 (inr b))
  ],
)

-- What `with_lengths` asserts and the proofs use.
pub record IsValid (e : SparseGramExtractor) : Type 0 where
  pub min_bound : 3 ≤ e.min_len
  pub ordered : e.min_len ≤ e.max_len
  pub max_bound : e.max_len ≤ 65535

-- An extractor that `with_lengths` makes has its assertions.
pub with_lengths-IsValid :
    (weigher : List ℕ → ℕ) (min max : ℕ) (e : SparseGramExtractor)
    → with_lengths weigher min max ≡ some e
    → IsValid e
unfolding with_lengths
with_lengths-IsValid weigher min max e h = ground arith

module _ (gram_hash : List ℕ → ℕ) (e : SparseGramExtractor) (text : List ℕ) where
  abbrev pub weights : ℕ → ℕ
  weights = window_weight gram_hash e text

  -- The selection predicate for the windows `i` and `j`.
  pub record IsGram (i j : ℕ) : Type 0 where
    pub before : i < j
    pub in_text : j + window e ≤ length text
    pub in_length : j + window e ≤ i + e.max_len
    pub dominates : Dominates weights i j (weights j)

  In-emit_all :
      (hit : GramHit) (right : ℕ) (lefts : List ℕ)
      → In hit (emit_all gram_hash e text right lefts)
        ↔ ((i : ℕ) × (elem i lefts ≡ true) × (hit ≡ emit gram_hash e text i right))
  unfolding emit_all
  In-emit_all hit right [] = (λ m. absurd m, λ (i, m, h). cc)
  In-emit_all hit right (left ∷ lefts) = (
    λ m. elim m [
      | inl h ↦ (left, ground arith, h)
      | inr r ↦ let (i, m', h) = (In-emit_all hit right lefts).0 r in (i, ground arith, h)
    ],
    λ (i, m, h). elim (Bool-cases (i == left)) [
      | inl same ↦ inl (rw h (ap (λ k. emit gram_hash e text k right) (ground arith)))
      | inr other ↦ inr ((In-emit_all hit right lefts).1 (i, ground arith, h))
    ],
  )

  abbrev reach : ℕ
  reach = e.max_len - window e

  -- The hull before the round at `right`.
  abbrev hull_at : ℕ → List HullEntry
  hull_at right = visible 0 (recent weights (suc reach) right)

  hull_at-zero : [] ≡ hull_at 0
  unfolding visible recent
  hull_at-zero = refl

  hull-suc :
      (right : ℕ)
      → record { left = right; weight = weights right }
          ∷ visible (suc (weights right)) (recent weights reach right)
        ≡ hull_at (suc right)
  unfolding visible recent
  hull-suc right = ground arith

  module _ (valid : IsValid e) where
    expire-hull_at :
        (right : ℕ)
        → expire (window e) e.max_len right (hull_at right) ≡ visible 0 (recent weights reach right)
    expire-hull_at right =
        expire-visible weights (window e) e.max_len right 0 reach right
          (omega (arith, valid.ordered)) refl (omega arith)

    round_scan :
        (right : ℕ)
        → round_lefts (pop_loop (expire (window e) e.max_len right (hull_at right)) (weights right))
          ≡ scan 0 (recent weights reach right) (weights right)
    round_scan right =
        rw (expire-hull_at right) (round_lefts-visible 0 _ (weights right) (omega arith))

    round_hull :
        (right : ℕ)
        → record { left = right; weight = weights right }
            ∷ (pop_loop (expire (window e) e.max_len right (hull_at right)) (weights right)).rest
          ≡ hull_at (suc right)
    round_hull right =
        rw (expire-hull_at right, pop_loop-visible_rest 0 _ (weights right) (omega arith))
          (hull-suc right)

    -- A gram of the rounds from `right` on.
    abbrev GramFrom : ℕ → ℕ → GramHit → Type 0
    GramFrom right n hit =
        (i : ℕ) × (j : ℕ) × (right ≤ j)
        × (j < right + n)
        × (i < j)
        × (j ≤ i + reach)
        × Dominates weights i j (weights j)
        × (hit ≡ emit gram_hash e text i j)

    first :
        (right i : ℕ) (hit : GramHit)
        → i < right
        → right ≤ i + reach
        → Dominates weights i right (weights right)
        → hit ≡ emit gram_hash e text i right
        → In hit
            (emit_all gram_hash e text right (scan 0 (recent weights reach right) (weights right)))
    first right i hit before near d h = (In-emit_all hit right _).1 (
      i,
      Found-scan weights 0 reach right (weights right) i (record {
        before = before;
        near = near;
        heavy = omega arith;
        heavy_end = omega arith;
        dominates = d;
      }),
      h,
    )

    loop_step :
        (n right : ℕ)
        → grams_loop gram_hash e text (suc n) right (hull_at right)
          ≡ emit_all gram_hash e text right (scan 0 (recent weights reach right) (weights right))
            ++ grams_loop gram_hash e text n (suc right) (hull_at (suc right))
    unfolding grams_loop
    loop_step n right = rw (round_scan right, round_hull right)

    loop_sound :
        (n right : ℕ) (hit : GramHit)
        → In hit (grams_loop gram_hash e text n right (hull_at right))
        → GramFrom right n hit
    loop_sound zero right hit m = absurd (unfold grams_loop in m)
    loop_sound (suc n) right hit m = elim ((In-append hit _ _).0 (rw (loop_step n right) at m)) [
      | inl here ↦
          let (i, found, h) = (In-emit_all hit right _).0 here in
          let f = scan-Found weights 0 reach right (weights right) i found in
          (i, right, omega arith, omega arith, f.before, f.near, f.dominates, h)
      | inr later ↦
          let (i, j, lo, hi, before, near, d, h) = loop_sound n (suc right) hit later in
          (i, j, omega arith, omega arith, before, near, d, h)
    ]

    loop-complete :
        (n right : ℕ) (hit : GramHit)
        → GramFrom right n hit
        → In hit (grams_loop gram_hash e text n right (hull_at right))
    loop-complete zero right hit (i, j, lo, hi, before, near, d, h) = absurd (omega arith)
    loop-complete (suc n) right hit (i, j, lo, hi, before, near, d, h) = rw (loop_step n right) (
        (In-append hit _ _).1 (elim (dec_lt right j) [
          | yes p ↦ inr (loop-complete n (suc right) hit (i, j, p, omega arith, before, near, d, h))
          | no p ↦
              let same : j ≡ right = omega arith in
              inl (
                first right i hit (rw same at before) (rw same at near) (rw same at d)
                  (rw same at h))
        ]))

-- For an extractor that `with_lengths` allows, `grams` emits a hit for a text exactly if it is the gram
-- from a window `i` to a later window `j` of the text, such that the gram is no longer than the
-- maximal length and every window strictly between weighs less than both.
pub sparse_grams_iff :
    (gram_hash : List ℕ → ℕ) (e : SparseGramExtractor) (text : List ℕ) (hit : GramHit)
    → IsValid e
    → In hit (sparse_grams gram_hash e text)
      ↔ ((i : ℕ) × (j : ℕ) × IsGram gram_hash e text i j × (hit ≡ emit gram_hash e text i j))
unfolding sparse_grams
sparse_grams_iff gram_hash e text hit valid = elim (Bool-cases (ltb (length text) e.min_len)) [
  | inl short ↦
      rw short (
        λ m. absurd m,
        λ (i, j, g, h). absurd (ground (arith, valid.min_bound, g.in_text, g.before)),
      )
  | inr long ↦
      let n : ℕ = length text - window e + 1 in
      rw (long, hull_at-zero gram_hash e text)
        (
          λ m.
              let (i, j, lo, hi, before, near, d, h) =
                loop_sound gram_hash e text valid n 0 hit m in
              (
                i,
                j,
                record {
                  before = before;
                  in_text = ground (arith, valid.min_bound);
                  in_length = omega (arith, valid.ordered);
                  dominates = d;
                },
                h,
              ),
          λ (i, j, g, h). loop-complete gram_hash e text valid n 0 hit (
            i,
            j,
            omega arith,
            ground (arith, valid.min_bound, g.in_text),
            g.before,
            omega (arith, g.in_length, valid.ordered),
            g.dominates,
            h,
          ),
        )
]
