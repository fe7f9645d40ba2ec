-- ===== src/IndexSet/Reconcile/Fresh.antt =====
-- After `reconcile_delta` the two shards hold the files of `HEAD`.
use gitpixel.Base.{
  ℕ, ◌≡◌, ◌↔◌, ◌⊎◌, inl, inr, refl, sym, ◌∙◌, subst, true, false, List, [], ◌∷◌, Option, none, some,
  arith,
}
use gitpixel.Base.{String, ◌==◌, has, Bool-cases}
use gitpixel.Gram.{GramExtractor}
use gitpixel.IndexSet.Build.Listing.{extract_blob_absent, extract_blob_same}
use gitpixel.IndexSet.{Layer, layer_of, IndexSet, is_internal}
use gitpixel.IndexSet.Candidates.{Holds}
use gitpixel.IndexSet.Build.{extract_blob}
use gitpixel.IndexSet.Build.Index.{build_shard_from_lem, extracted, built, sets_of}
use gitpixel.IndexSet.Reconcile.{
  split_diff, tombstone_set, delta_layer, reconcile_delta, DeltaState, reusable,
}
use gitpixel.IndexSet.Reconcile.Diff.{
  Entry, has_other, has-tombstone_set, has_other_iff, changed-has_other, tombstones-has_other,
}

module _ (extractor : GramExtractor) (extractor_id : String)
    (blob_size : String → String → Option ℕ) (show_blob : String → String → Option (List ℕ)) where
  -- What the index extracts of the path at the commit.
  abbrev pub at_commit : String → String → Option (String × List ℕ)
  at_commit oid p = extract_blob extractor (blob_size oid) (show_blob oid) p

  -- What `git diff --name-status --no-renames` between two commits says of one path, which is a directory at neither of
  -- them: without an entry, git prints the same blob for it at both, or none; an added path has no object at the first
  -- commit, a deleted one none at the second.
  pub record IsDiff (from_oid to_oid : String) (diff : List (ℕ × String)) (p : String)
      : Type 0 where
    pub unchanged :
        ((status : ℕ) → ¬ Entry diff status p)
        → (blob_size from_oid p ≡ blob_size to_oid p) × (show_blob from_oid p ≡ show_blob to_oid p)
    pub added : Entry diff 65 p → blob_size from_oid p ≡ none
    pub deleted : Entry diff 68 p → blob_size to_oid p ≡ none

  abbrev pub head_sets : String → List (ℕ × String) → ℕ → List ℕ
  head_sets head_oid diff = sets_of (
      extracted extractor (blob_size head_oid) (show_blob head_oid) extractor_id head_oid
        (split_diff diff).changed)

  delta_layer_lem :
      (head_oid p : String) (changed : List String) (grams : List ℕ)
      → is_internal p ≡ false
      → ((delta : Layer) × (delta_layer extractor extractor_id blob_size show_blob head_oid changed
            ≡ some delta)
          × Holds delta
              (sets_of (
                extracted extractor
                  (blob_size head_oid)
                  (show_blob head_oid)
                  extractor_id
                  head_oid
                  changed))
              p
              grams)
        ↔ ((has p changed ≡ true) × (at_commit head_oid p ≡ some (p, grams)))
  unfolding delta_layer
  delta_layer_lem head_oid p [] grams i = (λ (d, e, h). cc, λ (h, e). cc)
  delta_layer_lem head_oid p (q ∷ changed) grams i =
      let rels : List String = q ∷ changed in
      let (to, from) =
        build_shard_from_lem extractor (blob_size head_oid) (show_blob head_oid) extractor_id
          head_oid rels p grams in
      (
        λ (d, e, h).
            (let same : layer_of (
                    built extractor (blob_size head_oid) (show_blob head_oid) extractor_id head_oid
                      rels)
                  ≡ d =
                cc in
              let (m, _, b) = to (
                subst
                  (λ (l : Layer).
                    Holds l
                      (sets_of (
                        extracted extractor (blob_size head_oid) (show_blob head_oid) extractor_id
                          head_oid rels))
                      p grams)
                  (sym same) h) in
              (m, b)),
        λ (m, b). (
          layer_of (
              built extractor (blob_size head_oid) (show_blob head_oid) extractor_id head_oid rels),
          refl,
          from (m, i, b),
        ),
      )

  module _ (from_oid to_oid : String) (diff : List (ℕ × String)) (p : String)
      (d : IsDiff from_oid to_oid diff p) where
    kept : ((status : ℕ) → ¬ Entry diff status p) → at_commit from_oid p ≡ at_commit to_oid p
    kept none_such =
        let (e, f) = d.unchanged none_such in
        extract_blob_same extractor (blob_size from_oid) (blob_size to_oid) (show_blob from_oid)
          (show_blob to_oid) p e f

    -- A file of the first commit whose entries are additions has none.
    no-Entry_from :
        (grams : List ℕ)
        → at_commit from_oid p ≡ some (p, grams)
        → has_other 65 p diff ≡ false
        → (status : ℕ) → ¬ Entry diff status p
    no-Entry_from grams e only status entry = elim (Bool-cases (status == 65)) [
      | inl a ↦
          (let same : status ≡ 65 = ground arith in
            let gone : at_commit from_oid p ≡ none =
              extract_blob_absent extractor (blob_size from_oid) (show_blob from_oid) p
                (d.added (subst (λ (s : ℕ). Entry diff s p) same entry)) in
            cc)
      | inr n ↦
          (let found : has_other 65 p diff ≡ true =
              (has_other_iff 65 p diff).1 (status, entry, n) in
            cc)
    ]

    -- A file of the second commit whose entries are deletions has none.
    no-Entry_to :
        (grams : List ℕ)
        → at_commit to_oid p ≡ some (p, grams)
        → has_other 68 p diff ≡ false
        → (status : ℕ) → ¬ Entry diff status p
    no-Entry_to grams e only status entry = elim (Bool-cases (status == 68)) [
      | inl a ↦
          (let same : status ≡ 68 = ground arith in
            let gone : at_commit to_oid p ≡ none =
              extract_blob_absent extractor (blob_size to_oid) (show_blob to_oid) p
                (d.deleted (subst (λ (s : ℕ). Entry diff s p) same entry)) in
            cc)
      | inr n ↦
          (let found : has_other 68 p diff ≡ true =
              (has_other_iff 68 p diff).1 (status, entry, n) in
            cc)
    ]

    no_other :
        (except : ℕ) → ((status : ℕ) → ¬ Entry diff status p) → has_other except p diff ≡ false
    no_other except none_such = elim (Bool-cases (has_other except p diff)) [
      | inl found ↦
          (let (status, entry, n) = (has_other_iff except p diff).0 found in
            absurd (none_such status entry))
      | inr lacks ↦ lacks
    ]

  -- Take a delta that is built anew from a diff between the commit of the base and `HEAD`, and a path that is not
  -- internal and a directory at neither commit, of which the base shard holds what is extracted at its commit. Then the shards hold the path under a
  -- gram set, in the delta or, if it is not a tombstone, in the base, exactly if this set is extracted from the
  -- path at `HEAD`.
  pub reconcile_delta_lem :
      (state : Option DeltaState) (opened : Option Layer) (diff : List (ℕ × String))
      (base_oid head_oid : String) (set : IndexSet) (base_sets : ℕ → List ℕ) (p : String)
      (grams : List ℕ)
      → reusable base_oid head_oid extractor_id state opened ≡ none
      → IsDiff base_oid head_oid diff p
      → is_internal p ≡ false
      → (Holds set.base base_sets p grams ↔ (at_commit base_oid p ≡ some (p, grams)))
      → (let after : IndexSet =
            (reconcile_delta extractor extractor_id blob_size show_blob state opened diff base_oid
              head_oid set).0 in
          ((has p after.delta_tombstones ≡ false) × Holds after.base base_sets p grams)
          ⊎ ((delta : Layer) × (after.delta ≡ some delta)
              × Holds delta (head_sets head_oid diff) p grams))
        ↔ (at_commit head_oid p ≡ some (p, grams))
  unfolding reconcile_delta
  reconcile_delta_lem state opened diff base_oid head_oid set base_sets p grams anew d i
        (to_base, from_base) =
      let (to_delta, from_delta) = delta_layer_lem head_oid p (split_diff diff).changed grams i in
      let tomb : has p (tombstone_set (split_diff diff).tombstones) ≡ has_other 65 p diff =
        has-tombstone_set p (split_diff diff).tombstones ∙ tombstones-has_other p diff i in
      rw (anew, reconcile_delta)
        (
          λ m. elim m [
            | inl (t, held) ↦
                (let e : at_commit base_oid p ≡ some (p, grams) = to_base held in
                  sym (
                    kept base_oid head_oid diff p d
                      (no-Entry_from base_oid head_oid diff p d grams e (sym tomb ∙ t)))
                  ∙ e)
            | inr delta ↦ (to_delta delta).1
          ],
          λ e. elim (Bool-cases (has_other 68 p diff)) [
            | inl found ↦ inr (from_delta (changed-has_other p diff i ∙ found, e))
            | inr lacks ↦
                (let none_such : (status : ℕ) → ¬ Entry diff status p =
                    no-Entry_to base_oid head_oid diff p d grams e lacks in
                  inl (
                    tomb ∙ no_other base_oid head_oid diff p d 65 none_such,
                    from_base (kept base_oid head_oid diff p d none_such ∙ e),
                  ))
          ],
        )
