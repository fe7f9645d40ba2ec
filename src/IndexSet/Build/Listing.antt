-- ===== src/IndexSet/Build/Listing.antt =====
-- Which files `build_shard_from` extracts.
use gitpixel.Base.{
  ℕ, ◌≡◌, ◌↔◌, ◌⊎◌, inl, inr, refl, ap, ◌∙◌, true, false, List, [], ◌∷◌, Option, none, some, arith,
}
use gitpixel.Base.{
  String, str_eq, eq_iff, str_leb, ltb, if◌then◌else◌, has, Bool-cases, Option-cases,
}
use gitpixel.Gram.{GramExtractor}
use gitpixel.IndexSet.{is_internal}
use gitpixel.IndexSet.Build.{
  extract_content, extract_blob, push_extracted, extract_all, insert_extracted, sort_extracted,
  max_file_bytes,
}

abbrev pub Listed : String → List ℕ → List (String × List ℕ) → Type 0
Listed p set [] = ⊥
Listed p set ((q, s) ∷ xs) = ((p ≡ q) × (set ≡ s)) ⊎ Listed p set xs

Listed-insert_extracted :
    (p : String) (set : List ℕ) (x : String × List ℕ) (xs : List (String × List ℕ))
    → Listed p set (insert_extracted x xs) ↔ Listed p set (x ∷ xs)
unfolding insert_extracted
Listed-insert_extracted p set x [] = (λ m. m, λ m. m)
Listed-insert_extracted p set x (y ∷ ys) = elim (Bool-cases (str_leb x.0 y.0)) [
  | inl e ↦ rw e (λ m. m, λ m. m)
  | inr e ↦
      let (to, from) = Listed-insert_extracted p set x ys in
      rw e (
        λ m. elim m [
          | inl h ↦ inr (inl h)
          | inr t ↦ elim (to t) [ inl h ↦ inl h | inr u ↦ inr (inr u) ]
        ],
        λ m. elim m [
          | inl h ↦ inr (from (inl h))
          | inr t ↦ elim t [ inl h ↦ inl h | inr u ↦ inr (from (inr u)) ]
        ],
      )
]

pub Listed-sort_extracted :
    (p : String) (set : List ℕ) (xs : List (String × List ℕ))
    → Listed p set (sort_extracted xs) ↔ Listed p set xs
unfolding sort_extracted
Listed-sort_extracted p set [] = (λ m. m, λ m. m)
Listed-sort_extracted p set (x ∷ xs) =
    let (to, from) = Listed-sort_extracted p set xs in
    let (to_one, from_one) = Listed-insert_extracted p set x (sort_extracted xs) in
    (
      λ m. elim (to_one m) [ inl h ↦ inl h | inr t ↦ inr (to t) ],
      λ m. from_one (elim m [ inl h ↦ inl h | inr t ↦ inr (from t) ]),
    )

Listed-push_extracted :
    (p : String) (set : List ℕ) (o : Option (String × List ℕ)) (rest : List (String × List ℕ))
    → Listed p set (push_extracted o rest) ↔ (o ≡ some (p, set)) ⊎ Listed p set rest
unfolding push_extracted
Listed-push_extracted p set none rest = (λ m. inr m, λ m. elim m [ inl a ↦ cc | inr b ↦ b ])
Listed-push_extracted p set (some (q, s)) rest = (
  λ m. elim m [ inl (e, f) ↦ inl cc | inr b ↦ inr b ],
  λ m. elim m [ inl a ↦ inl (cc, cc) | inr b ↦ inr b ],
)

not_same : (p rel : String) → is_internal p ≡ false → is_internal rel ≡ true → str_eq p rel ≡ false
not_same p rel i e = elim (Bool-cases (str_eq p rel)) [
  | inl s ↦ (let same : p ≡ rel = (eq_iff p rel).0 s in cc)
  | inr other ↦ other
]

module _ (extractor : GramExtractor) (blob_size : String → Option ℕ)
    (show_blob : String → Option (List ℕ)) where
  abbrev blob : String → Option (String × List ℕ)
  blob = extract_blob extractor blob_size show_blob

  extract_content-path :
      (rel q : String) (content : Option (List ℕ)) (set : List ℕ)
      → extract_content extractor rel content ≡ some (q, set)
      → q ≡ rel
  unfolding extract_content
  extract_content-path rel q none set e = cc
  extract_content-path rel q (some []) set e = cc
  extract_content-path rel q (some (b ∷ content)) set e = ground arith

  extract_blob-path : (rel q : String) (set : List ℕ) → blob rel ≡ some (q, set) → q ≡ rel
  unfolding extract_blob
  extract_blob-path rel q set e = elim (Option-cases (blob_size rel)) [
    | inl absent ↦ ground arith
    | inr (size, at) ↦ ground (arith, extract_content-path rel q (show_blob rel) set)
  ]

  pub Listed-extract_all :
      (p : String) (set : List ℕ) (rels : List String)
      → Listed p set (extract_all extractor blob_size show_blob rels)
        ↔ ((has p rels ≡ true) × (is_internal p ≡ false) × (blob p ≡ some (p, set)))
  unfolding extract_all
  Listed-extract_all p set [] = (λ m. absurd m, λ m. cc)
  Listed-extract_all p set (rel ∷ rels) =
      let (to, from) = Listed-extract_all p set rels in
      let (to_one, from_one) =
        Listed-push_extracted p set (blob rel) (extract_all extractor blob_size show_blob rels) in
      elim (Bool-cases (is_internal rel)) [
        | inl e ↦ rw e (
          λ m. let (h, i, b) = to m in (ground arith, i, b),
          λ (h, i, b). from (ground (arith, not_same p rel i e), i, b),
        )
        | inr e ↦ rw e (
          λ m. elim (to_one m) [
            | inl b ↦
                (let same : p ≡ rel = extract_blob-path rel p set b in
                  (ground (arith, (eq_iff p rel).1 same), cc, cc))
            | inr t ↦ (let (h, i, b) = to t in (ground arith, i, b))
          ],
          λ (h, i, b). from_one (elim (Bool-cases (str_eq p rel)) [
            | inl s ↦ (let same : p ≡ rel = (eq_iff p rel).0 s in inl cc)
            | inr other ↦ inr (from (ground arith, i, b))
          ]),
        )
      ]

-- A blob that git does not have is not extracted, and what is extracted depends on the blob only.
pub extract_blob_absent :
    (extractor : GramExtractor) (blob_size : String → Option ℕ)
    (show_blob : String → Option (List ℕ)) (p : String)
    → blob_size p ≡ none
    → extract_blob extractor blob_size show_blob p ≡ none
unfolding extract_blob
extract_blob_absent extractor blob_size show_blob p e = rw (e, extract_blob) refl

pub extract_blob_same :
    (extractor : GramExtractor) (size size' : String → Option ℕ)
    (show show' : String → Option (List ℕ)) (p : String)
    → size p ≡ size' p
    → show p ≡ show' p
    → extract_blob extractor size show p ≡ extract_blob extractor size' show' p
unfolding extract_blob
extract_blob_same extractor size size' show show' p e f =
    ap (λ (s : Option ℕ). sized s (show p)) e ∙ ap (λ (c : Option (List ℕ)). sized (size' p) c) f
  where
    sized : Option ℕ → Option (List ℕ) → Option (String × List ℕ)
    sized s content = elim s [
      | none ↦ none
      | some n ↦ if ltb max_file_bytes n then none else extract_content extractor p content
    ]
