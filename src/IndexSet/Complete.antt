-- ===== src/IndexSet/Complete.antt =====
-- The search loses no file: a live file with a match is a candidate.
use gitpixel.Base.{ℕ, ◌≡◌, ◌↔◌, refl, sym, ◌∙◌, true, List, Option, some, arith}
use gitpixel.Base.{String, str_eq, eq_iff, has, find, elem}
use gitpixel.Posting.{GramQuery, GramQueries, literal, and, or, all, nil, cons}
use gitpixel.Gram.{GramExtractor, IsSound, hashes}
use gitpixel.Overlay.Laws.{grams_of, refresh_file_lem, refresh_file-IsValid}
use gitpixel.Overlay.{eval, eval_all, eval_any}
use gitpixel.Plan.{plan_pattern}
use gitpixel.Plan.Syntax.{Hir, Language}
use gitpixel.Plan.Query.Sound.{Contains}
use gitpixel.Plan.Sound.{plan_pattern_sound}
use gitpixel.IndexSet.{IndexSet, candidates, refresh_file}
use gitpixel.IndexSet.Candidates.{Live, in_overlay, in_delta, in_base, IsIndexSet, candidates_iff}

module _ (s t : List ℕ) (same : (h : ℕ) → elem h s ≡ elem h t) where
  mutual
    unfolding eval

    eval_same : (q : GramQuery) → eval q s ≡ eval q t
    eval_same (literal h) = same h
    eval_same (and qs) = eval_all_same qs
    eval_same (or qs) = eval_any_same qs
    eval_same all = refl

    eval_all_same : (qs : GramQueries) → eval_all qs s ≡ eval_all qs t
    eval_all_same nil = refl
    eval_all_same (cons q qs) = rw (eval_same q, eval_all_same qs) refl

    eval_any_same : (qs : GramQueries) → eval_any qs s ≡ eval_any qs t
    eval_any_same nil = refl
    eval_any_same (cons q qs) = rw (eval_same q, eval_any_same qs) refl

-- Take an index set whose shards are indexes of their files and whose overlay is valid, a sound extractor, and
-- a pattern that parses to a node. If the index holds a path under the grams of a text, and the text contains a
-- byte string that the node accepts, then the path is a candidate for the query of the pattern.
pub candidates_complete :
    (language : Language) (extractor : GramExtractor)
    → IsSound extractor
    → (set : IndexSet) (base_sets delta_sets : ℕ → List ℕ) → IsIndexSet set base_sets delta_sets
    → (parse : List ℕ → Option Hir) (pattern : List ℕ) (hir : Hir) (q : GramQuery)
    → parse pattern ≡ some hir
    → plan_pattern parse pattern extractor ≡ some q
    → (p : String) (grams s text : List ℕ) → Live set base_sets delta_sets p grams
    → ((h : ℕ) → elem h grams ≡ elem h (hashes (extractor.grams text)))
    → language.Accepts hir s
    → Contains s text
    → has p (candidates q set) ≡ true
candidates_complete language extractor sound set base_sets delta_sets v parse pattern hir q e
      planned p grams s text live same a c =
    (candidates_iff q set base_sets delta_sets p v).1 (
      grams,
      live,
      eval_same grams (hashes (extractor.grams text)) same q
          ∙ plan_pattern_sound language extractor sound parse pattern hir q s text e planned a c,
    )

refresh_file-IsIndexSet :
    (extractor : GramExtractor) (set : IndexSet) (base_sets delta_sets : ℕ → List ℕ) (p : String)
    (content : Option (List ℕ))
    → IsIndexSet set base_sets delta_sets
    → IsIndexSet (refresh_file extractor p content set) base_sets delta_sets
unfolding refresh_file
refresh_file-IsIndexSet extractor set base_sets delta_sets p content v = record {
  base_index = v.base_index;
  delta_index = v.delta_index;
  overlay_valid =
      refresh_file-IsValid (λ text. hashes (extractor.grams text)) p content v.overlay_valid;
}

-- In an index set whose shards are indexes of their files and whose overlay is valid, once a file is refreshed
-- it is a candidate exactly if the content that was read is there, is not binary and has grams that satisfy the
-- query, whatever the older layers hold.
pub candidates-refresh_file :
    (q : GramQuery) (extractor : GramExtractor) (set : IndexSet) (base_sets delta_sets : ℕ → List ℕ)
    (p : String) (content : Option (List ℕ))
    → IsIndexSet set base_sets delta_sets
    → has p (candidates q (refresh_file extractor p content set)) ≡ true ↔ (
        (grams : List ℕ) × (grams_of (λ text. hashes (extractor.grams text)) content ≡ some grams)
        × (eval q grams ≡ true))
unfolding refresh_file
candidates-refresh_file q extractor set base_sets delta_sets p content v =
    let after : IndexSet = refresh_file extractor p content set in
    let extract : List ℕ → List ℕ = λ text. hashes (extractor.grams text) in
    let (to, from) =
      candidates_iff q after base_sets delta_sets p
        (refresh_file-IsIndexSet extractor set base_sets delta_sets p content v) in
    let (at, tomb) = refresh_file_lem extract p p content set.overlay in
    let same : str_eq p p ≡ true = (eq_iff p p).1 refl in
    let found : find p after.overlay.files ≡ grams_of extract content = rw same at at in
    let hidden : has p after.overlay.tombstones ≡ true = ground arith in
    (
      λ m.
          (let (grams, l, e) = to m in
            elim l [
              | in_overlay f ↦ (grams, sym found ∙ f, e)
              | in_delta d g h held ↦ cc
              | in_base h h' held ↦ cc
            ]),
      λ (grams, e, h). from (grams, in_overlay (found ∙ e), h),
    )
