-- ===== src/Gram/Sparse/Sound.antt =====
-- The covering of `SparseGramExtractor` in gram.rs never asks for a gram that a text with the literal lacks.
use gitpixel.Base.{
  ℕ, zero, suc, ◌+◌, ◌-◌, ◌≤◌, ◌<◌, ◌≡◌, refl, sym, ap, ◌∙◌, true, ◌⊎◌, inl, inr, List, [], ◌∷◌,
  ◌++◌, arith,
}
use gitpixel.Base.{
  ◌==◌, length, take, drop, elem, Bool-cases, length-append, elem-dedup-sort_unstable,
}
use gitpixel.Gram.{GramHit, GramExtractor, hashes}
use gitpixel.Gram
use gitpixel.Gram.Sparse.{
  SparseGramExtractor, window, emit, window_weight, sparse_grams, sparse_covering, sparse,
  covering_of,
}
use gitpixel.Gram.Sparse.{contained_in, keep_longest, in_order, insert_hit, sort_hits}
use gitpixel.Gram.Sparse.Oracle.{Dominates}
use gitpixel.Gram.Sparse.Grams.{In, In-append, IsValid, IsGram, sparse_grams_iff}

-- A slice of a literal is the slice of any text around the literal, moved by what stands before it.
take-append_left : (n : ℕ) (xs ys : List ℕ) → n ≤ length xs → take n (xs ++ ys) ≡ take n xs
take-append_left zero xs ys h = refl
take-append_left (suc n) [] ys h = absurd (omega arith)
take-append_left (suc n) (x ∷ xs) ys h = ap (λ zs. x ∷ zs) (take-append_left n xs ys (omega arith))

slice-append_left :
    (n i : ℕ) (xs ys : List ℕ) → i + n ≤ length xs → take n (drop i (xs ++ ys)) ≡ take n (drop i xs)
slice-append_left n zero xs ys h = take-append_left n xs ys (omega arith)
slice-append_left zero (suc i) xs ys h = refl
slice-append_left (suc n) (suc i) [] ys h = absurd (omega arith)
slice-append_left (suc n) (suc i) (x ∷ xs) ys h = slice-append_left (suc n) i xs ys (omega arith)

drop-append_right : (i k : ℕ) (xs ys : List ℕ) → k ≡ length xs + i → drop k (xs ++ ys) ≡ drop i ys
drop-append_right i k [] ys h = let e : k ≡ i = omega arith in rw e refl
drop-append_right i zero (x ∷ xs) ys h = absurd (omega arith)
drop-append_right i (suc k) (x ∷ xs) ys h = drop-append_right i k xs ys (omega arith)

slice_within :
    (n i k : ℕ) (before literal after : List ℕ)
    → k ≡ length before + i
    → i + n ≤ length literal
    → take n (drop k (before ++ (literal ++ after))) ≡ take n (drop i literal)
slice_within n i k before literal after e h =
    rw (drop-append_right i k before (literal ++ after) e) (slice-append_left n i literal after h)

-- Sorting and keeping the longest drop hits and add none.
In-insert_hit :
    (h k : GramHit) (hits : List GramHit) → In h (insert_hit k hits) → (h ≡ k) ⊎ In h hits
unfolding insert_hit
In-insert_hit h k [] m = m
In-insert_hit h k (x ∷ hits) m = elim (Bool-cases (in_order k x)) [
  | inl e ↦ rw e at m
  | inr e ↦ elim (rw e at m) [
    | inl same ↦ inr (inl same)
    | inr later ↦ elim (In-insert_hit h k hits later) [ inl a ↦ inl a | inr b ↦ inr (inr b) ]
  ]
]

In-sort_hits : (h : GramHit) (hits : List GramHit) → In h (sort_hits hits) → In h hits
unfolding sort_hits
In-sort_hits h [] m = m
In-sort_hits h (x ∷ hits) m = elim (In-insert_hit h x (sort_hits hits) m) [
  | inl same ↦ inl same
  | inr later ↦ inr (In-sort_hits h hits later)
]

In-keep_longest :
    (h : GramHit) (kept hits : List GramHit) → In h (keep_longest kept hits) → In h kept ⊎ In h hits
unfolding keep_longest
In-keep_longest h kept [] m = inl m
In-keep_longest h kept (x ∷ hits) m = elim (Bool-cases (contained_in x kept)) [
  | inl drops ↦ elim (In-keep_longest h kept hits (rw drops at m)) [
    | inl a ↦ inl a
    | inr b ↦ inr (inr b)
  ]
  | inr keeps ↦ elim (In-keep_longest h (kept ++ x ∷ []) hits (rw keeps at m)) [
    | inl a ↦ elim ((In-append h kept (x ∷ [])).0 a) [
      | inl old ↦ inl old
      | inr new ↦ elim new [ inl same ↦ inr (inl same) | inr none_left ↦ absurd none_left ]
    ]
    | inr b ↦ inr (inr b)
  ]
]

In-of_hash :
    (k : ℕ) (hits : List GramHit)
    → elem k (hashes hits) ≡ true
    → (h : GramHit) × In h hits × (h.hash ≡ k)
In-of_hash k [] e = cc
In-of_hash k (h ∷ hits) e = elim (Bool-cases (k == h.hash)) [
  | inl same ↦ (h, inl refl, ground arith)
  | inr other ↦ let (g, m, f) = In-of_hash k hits (ground arith) in (g, inr m, f)
]

hash-In : (h : GramHit) (hits : List GramHit) → In h hits → elem h.hash (hashes hits) ≡ true
hash-In h [] m = absurd m
hash-In h (x ∷ hits) (inl e) = rw e (ground arith)
hash-In h (x ∷ hits) (inr m) = ground (arith, hash-In h hits m)

module _ (gram_hash : List ℕ → ℕ) (e : SparseGramExtractor) (valid : IsValid e)
    (before literal after : List ℕ) where
  abbrev text : List ℕ
  text = before ++ (literal ++ after)

  abbrev offset : ℕ
  offset = length before

  -- The window `k` of the literal is the window `offset + k` of the text.
  window_weight-shift :
      (k : ℕ)
      → k + window e ≤ length literal
      → window_weight gram_hash e text (offset + k) ≡ window_weight gram_hash e literal k
  unfolding window_weight
  window_weight-shift k h =
      ap e.weight (slice_within (window e) k (offset + k) before literal after refl h)

  hash-emit_shift :
      (i j : ℕ)
      → i < j
      → j + window e ≤ length literal
      → (emit gram_hash e text (offset + i) (offset + j)).hash ≡ (emit gram_hash e literal i j).hash
  unfolding emit
  hash-emit_shift i j lt h =
      let n : ℕ = j + window e - i in
      let m : offset + j + window e - (offset + i) ≡ n = omega arith in
      rw (m, slice_within n i (offset + i) before literal after refl (omega arith))

  length-text : length literal + offset ≤ length text
  length-text =
      rw (length-append before (literal ++ after), length-append literal after) (omega arith)

  Dominates-shift :
      (i j : ℕ)
      → i < j
      → j + window e ≤ length literal
      → Dominates (window_weight gram_hash e literal) i j (window_weight gram_hash e literal j)
      → Dominates
          (window_weight gram_hash e text)
          (offset + i)
          (offset + j)
          (window_weight gram_hash e text (offset + j))
  Dominates-shift i j lt h d k lo hi =
      let m : ℕ = k - offset in
      let back : k ≡ offset + m = omega arith in
      rw
        (
          back,
          window_weight-shift m (omega arith),
          window_weight-shift i (omega arith),
          window_weight-shift j h,
        )
        (d m (omega arith) (omega arith))

  IsGram-shift :
      (i j : ℕ) → IsGram gram_hash e literal i j → IsGram gram_hash e text (offset + i) (offset + j)
  IsGram-shift i j g = record {
    before = omega (arith, g.before);
    in_text = omega (arith, g.in_text, length-text);
    in_length = omega (arith, g.in_length);
    dominates = Dominates-shift i j g.before g.in_text g.dominates;
  }

  hash_within :
      (h : GramHit)
      → In h (sparse_grams gram_hash e literal)
      → elem h.hash (hashes (sparse_grams gram_hash e text)) ≡ true
  hash_within h m =
      let (i, j, g, made) = (sparse_grams_iff gram_hash e literal h valid).0 m in
      let there : In (emit gram_hash e text (offset + i) (offset + j))
          (sparse_grams gram_hash e text) =
        (sparse_grams_iff gram_hash e text _ valid).1
          (offset + i, offset + j, IsGram-shift i j g, refl) in
      let same : h.hash ≡ (emit gram_hash e text (offset + i) (offset + j)).hash =
        ap (λ (k : GramHit). k.hash) made ∙ sym (hash-emit_shift i j g.before g.in_text) in
      rw same (hash-In _ _ there)

covering_of-In :
    (hits : List GramHit) (k : ℕ)
    → elem k (covering_of hits) ≡ true
    → (h : GramHit) × In h hits × (h.hash ≡ k)
unfolding covering_of
covering_of-In [] k m = cc
covering_of-In (x ∷ hits) k m =
    let kept : List GramHit = keep_longest [] (sort_hits (x ∷ hits)) in
    let (h, found, same) = In-of_hash k kept (rw (elem-dedup-sort_unstable k (hashes kept)) at m) in
    elim (In-keep_longest h [] (sort_hits (x ∷ hits)) found) [
      | inl nothing ↦ absurd nothing
      | inr sorted ↦ (h, In-sort_hits h (x ∷ hits) sorted, same)
    ]

covering-In :
    (gram_hash : List ℕ → ℕ) (e : SparseGramExtractor) (literal : List ℕ) (k : ℕ)
    → elem k (sparse_covering gram_hash e literal) ≡ true
    → (h : GramHit) × In h (sparse_grams gram_hash e literal) × (h.hash ≡ k)
unfolding sparse_covering
covering-In gram_hash e literal k m = covering_of-In (sparse_grams gram_hash e literal) k m

-- For an extractor that `with_lengths` allows: every gram with which `SparseGramExtractor` covers a
-- literal is among the grams that it extracts from any text that contains the literal.
pub sparse-IsSound :
    (gram_hash : List ℕ → ℕ) (e : SparseGramExtractor)
    → IsValid e
    → Gram.IsSound (sparse gram_hash e)
unfolding sparse
sparse-IsSound gram_hash e valid = record {
  covered = λ before literal after k m.
      let (h, found, same) = covering-In gram_hash e literal k m in
      rw (← same) (hash_within gram_hash e valid before literal after h found);
}
