-- ===== src/IndexSet/Candidates.antt =====
-- Which files the index set takes for candidates: exactly the live ones whose grams satisfy the query.
use gitpixel.Base.{
  ℕ, ◌^◌, ◌<◌, ◌≡◌, ◌↔◌, ◌⊎◌, inl, inr, refl, sym, ◌∙◌, subst, ap, Bool, true, false, ◌||◌, List,
  [], Option, none, some, arith,
}
use gitpixel.Base.{String, length, has, find, elem, IsSorted}
use gitpixel.Posting.{GramQuery}
use gitpixel.Posting.Resolve.{resolve_query-eval}
use gitpixel.Overlay.{eval, matching_files}
use gitpixel.Overlay.Laws.{IsValid, satisfied, matching_files_lem}
use gitpixel.IndexSet.{
  Layer, file_count, path_of, IndexSet, collect, base_hidden, delta_hidden, collect_delta, resolved,
  candidates,
}
use gitpixel.IndexSet.Collect.{
  At, has-collect, has-insert_all, path_of-below, or_cases, or_left, or_right,
}

-- The postings of a layer are those of its files, whose gram sets are `sets`.
pub record IsIndex (layer : Layer) (sets : ℕ → List ℕ) : Type 0 where
  pub fits : length layer.files < 2 ^ 32
  pub sorted : (h : ℕ) → IsSorted (layer.postings h)
  pub exact : (x h : ℕ) → x < length layer.files → elem x (layer.postings h) ≡ elem h (sets x)

-- A file of the layer has the path and the gram set.
abbrev pub Holds : Layer → (ℕ → List ℕ) → String → List ℕ → Type 0
Holds layer sets p set = (x : ℕ) × (path_of layer.files x ≡ some p) × (set ≡ sets x)

resolved_agree :
    (layer : Layer) (sets : ℕ → List ℕ) (q : GramQuery) (x : ℕ)
    → IsIndex layer sets
    → x < length layer.files
    → elem x (resolved q layer) ≡ eval q (sets x)
resolved_agree layer sets q x v lt =
    (resolve_query-eval (file_count layer) x (sets x) layer.postings (omega (arith, v.fits))
      v.sorted (λ h. v.exact x h lt) q).1

At-resolved :
    (layer : Layer) (sets : ℕ → List ℕ) (q : GramQuery) (p : String)
    → IsIndex layer sets
    → At layer.files (resolved q layer) p
      ↔ ((set : List ℕ) × Holds layer sets p set × (eval q set ≡ true))
At-resolved layer sets q p v = (
  λ (x, e, at). (
    sets x,
    (x, at, refl),
    sym (resolved_agree layer sets q x v (path_of-below layer.files x p at)) ∙ e,
  ),
  λ (set, (x, at, same), e). (
    x,
    resolved_agree layer sets q x v (path_of-below layer.files x p at)
        ∙ subst (λ (s : List ℕ). eval q s ≡ true) same e,
    at,
  ),
)

-- The gram set under which the index holds a path: the overlay's, else the delta shard's, else the base
-- shard's, each unless a newer layer supersedes it.
pub data Live (set : IndexSet) (base_sets delta_sets : ℕ → List ℕ) (p : String) (grams : List ℕ)
    : Type 0 where
  in_overlay : find p set.overlay.files ≡ some grams → Live set base_sets delta_sets p grams
  in_delta :
      (delta : Layer)
      → set.delta ≡ some delta
      → has p set.overlay.tombstones ≡ false
      → Holds delta delta_sets p grams
      → Live set base_sets delta_sets p grams
  in_base :
      has p set.delta_tombstones ≡ false
      → has p set.overlay.tombstones ≡ false
      → Holds set.base base_sets p grams
      → Live set base_sets delta_sets p grams

-- The shards are indexes of their files, and the overlay is valid.
pub record IsIndexSet (set : IndexSet) (base_sets delta_sets : ℕ → List ℕ) : Type 0 where
  pub base_index : IsIndex set.base base_sets
  pub delta_index : (delta : Layer) → set.delta ≡ some delta → IsIndex delta delta_sets
  pub overlay_valid : IsValid set.overlay

has-collect_delta :
    (q : GramQuery) (set : IndexSet) (delta_sets : ℕ → List ℕ) (o : Option Layer) (p : String)
    (paths : List String)
    → ((delta : Layer) → o ≡ some delta → IsIndex delta delta_sets)
    → has p (collect_delta (resolved q) set o paths) ≡ true
      ↔ ((delta : Layer) × (grams : List ℕ) × (o ≡ some delta)
          × (delta_hidden set p ≡ false)
          × Holds delta delta_sets p grams
          × (eval q grams ≡ true))
        ⊎ (has p paths ≡ true)
unfolding collect_delta
has-collect_delta q set delta_sets none p paths v =
    (λ m. inr m, λ m. elim m [ inl a ↦ cc | inr b ↦ b ])
has-collect_delta q set delta_sets (some d) p paths v =
    let (to, from) = has-collect (delta_hidden set) d.files (resolved q d) p paths in
    let (at_to, at_from) = At-resolved d delta_sets q p (v d refl) in
    (
      λ m. elim (to m) [
        | inl (a, h) ↦ (let (grams, held, e) = at_to a in inl (d, grams, refl, h, held, e))
        | inr b ↦ inr b
      ],
      λ m. elim m [
        | inl (d', grams, same, h, held, e) ↦
            (let e' : d' ≡ d = cc in
              from (
                inl (
                  at_from (grams, subst (λ (l : Layer). Holds l delta_sets p grams) e' held, e),
                  h,
                )))
        | inr b ↦ from (inr b)
      ],
    )

satisfied-some :
    (q : GramQuery) (o : Option (List ℕ))
    → satisfied q o ≡ true ↔ ((grams : List ℕ) × (o ≡ some grams) × (eval q grams ≡ true))
satisfied-some q none = (λ m. cc, λ (grams, e, h). cc)
satisfied-some q (some g) = (λ m. (g, refl, m), λ (grams, e, h). cc)

-- In an index set whose shards are indexes of their files and whose overlay is valid, a path is a candidate
-- exactly if the index holds it, in a layer that no newer layer supersedes, under a gram set that satisfies the
-- query.
pub candidates_iff :
    (q : GramQuery) (set : IndexSet) (base_sets delta_sets : ℕ → List ℕ) (p : String)
    → IsIndexSet set base_sets delta_sets
    → has p (candidates q set) ≡ true
      ↔ ((grams : List ℕ) × Live set base_sets delta_sets p grams × (eval q grams ≡ true))
unfolding candidates
candidates_iff q set base_sets delta_sets p v =
    let (to_all, from_all) = has-collect_delta q set delta_sets set.delta p older v.delta_index in
    let (to_base, from_base) =
      has-collect (base_hidden set) set.base.files (resolved q set.base) p [] in
    let (at_to, at_from) = At-resolved set.base base_sets q p v.base_index in
    let (sat_to, sat_from) = satisfied-some q (find p set.overlay.files) in
    let found : has p (matching_files q set.overlay) ≡ satisfied q (find p set.overlay.files) =
      matching_files_lem q p set.overlay v.overlay_valid in
    let split : has p (candidates q set) ≡ (
        satisfied q (find p set.overlay.files)
        || has p (collect_delta (resolved q) set set.delta older)) =
      has-insert_all (matching_files q set.overlay) p
        (collect_delta (resolved q) set set.delta older)
      ∙ ap (λ (b : Bool). b || has p (collect_delta (resolved q) set set.delta older)) found in
    (
      λ m. elim (or_cases _ _ (sym split ∙ m)) [
        | inl s ↦ (let (grams, e, h) = sat_to s in (grams, in_overlay e, h))
        | inr c ↦ elim (to_all c) [
          | inl (d, grams, e, h, held, r) ↦ (grams, in_delta d e h held, r)
          | inr b ↦ elim (to_base b) [
            | inl (a, h) ↦
                (let (grams, held, e) = at_to a in
                  (grams, in_base (ground arith) (ground arith) held, e))
            | inr absent ↦ cc
          ]
        ]
      ],
      λ (grams, live, e). split ∙ elim live [
        | in_overlay at ↦ or_left _ _ (sat_from (grams, at, e))
        | in_delta d at h held ↦ or_right _ _ (from_all (inl (d, grams, at, h, held, e)))
        | in_base h h' held ↦
            or_right _ _ (from_all (inr (from_base (inl (at_from (grams, held, e), ground arith)))))
      ],
    )
  where
    older : List String
    older = collect (base_hidden set) set.base.files (resolved q set.base) []
