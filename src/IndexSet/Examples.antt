-- ===== src/IndexSet/Examples.antt =====
-- The theorems of the index set at a repository of two commits.
use gitpixel.Base.{
  ℕ, ◌^◌, ◌<◌, ◌≡◌, ◌↔◌, ◌⊎◌, inl, inr, refl, subst, Bool, true, false, ◌&&◌, ◌||◌, List, [], ◌∷◌,
  Option, none, some, arith,
}
use gitpixel.Base.{
  String, str_eq, eq_iff, ltb, if◌then◌else◌, length, take, drop, has, dedup, sort_unstable,
  elem-dedup-sort_unstable,
}
use gitpixel.Gram.{GramExtractor, hashes}
use gitpixel.Gram.Trigram.{trigram, trigram-IsSound}
use gitpixel.Overlay
use gitpixel.Overlay.{eval, is_binary}
use gitpixel.Overlay.Laws.{new-IsValid, grams_of}
use gitpixel.Plan.Examples.{
  sum_hash, node, parse, matched, sample, planned, denotation, accepted, plan_runs,
}
use gitpixel.Verify.{MatchLine, Reading}
use gitpixel.IndexSet.{Layer, layer_of, IndexSet, is_internal, candidates, refresh_file}
use gitpixel.IndexSet.Candidates.{Live, in_base, IsIndex, Holds, IsIndexSet, candidates_iff}
use gitpixel.IndexSet.Complete.{candidates_complete, candidates-refresh_file}
use gitpixel.IndexSet.Build.{
  extract_content, extract_blob, push_extracted, extract_all, insert_extracted, sort_extracted,
}
use gitpixel.IndexSet.Build.Index.{
  sets_of, extracted, built, build_shard_from-IsIndex, build_shard_from_lem,
}
use gitpixel.IndexSet.Search.{ok, is_all, only_regular, retain_prefixes, search_page_in}
use gitpixel.IndexSet.Search.Pages.{total, NoneFails, search_page_in_lem}
use gitpixel.IndexSet.Reconcile.{reusable, reconcile_delta}
use gitpixel.IndexSet.Reconcile.Fresh.{IsDiff, at_commit, head_sets, reconcile_delta_lem}

abbrev extractor : GramExtractor
extractor = trigram sum_hash

-- The commit `c2` adds `b.rs` to `a.rs`.
abbrev exists : String → String → Bool
exists oid p = str_eq p "a.rs" || (str_eq p "b.rs" && str_eq oid "c2")

abbrev blob_size : String → String → Option ℕ
blob_size oid p = if exists oid p then some (length sample) else none

abbrev show_blob : String → String → Option (List ℕ)
show_blob oid p = if exists oid p then some sample else none

abbrev tracked : List String
tracked = "a.rs" ∷ []

abbrev base_sets : ℕ → List ℕ
base_sets = sets_of (extracted extractor (blob_size "c1") (show_blob "c1") "trigram" "c1" tracked)

abbrev base : Layer
base = layer_of (built extractor (blob_size "c1") (show_blob "c1") "trigram" "c1" tracked)

abbrev two_layers : IndexSet
two_layers = record { base = base; delta = none; delta_tombstones = []; overlay = Overlay.new }

fits :
    length (extracted extractor (blob_size "c1") (show_blob "c1") "trigram" "c1" tracked) < 2 ^ 32
unfolding extract_all sort_extracted insert_extracted push_extracted extract_blob extract_content
    is_binary is_internal
fits = omega arith

abbrev sample_grams : List ℕ
sample_grams = dedup (sort_unstable (hashes (extractor.grams sample)))

not_internal : is_internal "a.rs" ≡ false
unfolding is_internal
not_internal = refl

extracts :
    extract_blob extractor (blob_size "c1") (show_blob "c1") "a.rs" ≡ some ("a.rs", sample_grams)
unfolding extract_blob extract_content is_binary
extracts = refl

build_shard_from-IsIndex_example : IsIndex base base_sets
build_shard_from-IsIndex_example =
    build_shard_from-IsIndex extractor (blob_size "c1") (show_blob "c1") "trigram" "c1" tracked fits

build_shard_from_lem_example : Holds base base_sets "a.rs" sample_grams ↔ (
    (has "a.rs" tracked ≡ true)
    × (is_internal "a.rs" ≡ false)
    × (extract_blob extractor (blob_size "c1") (show_blob "c1") "a.rs"
        ≡ some ("a.rs", sample_grams)))
build_shard_from_lem_example =
    build_shard_from_lem extractor (blob_size "c1") (show_blob "c1") "trigram" "c1" tracked "a.rs"
      sample_grams

holds : Holds base base_sets "a.rs" sample_grams
holds =
    (build_shard_from_lem extractor (blob_size "c1") (show_blob "c1") "trigram" "c1" tracked "a.rs"
        sample_grams).1
      (refl, not_internal, extracts)

indexed : IsIndexSet two_layers base_sets base_sets
indexed = record {
  base_index =
      build_shard_from-IsIndex extractor (blob_size "c1") (show_blob "c1") "trigram" "c1" tracked
        fits;
  delta_index = λ delta e. cc;
  overlay_valid = new-IsValid;
}

live : Live two_layers base_sets base_sets "a.rs" sample_grams
unfolding Overlay.new
live = in_base refl refl holds

candidates_iff_example : has "a.rs" (candidates planned two_layers) ≡ true ↔ (
    (grams : List ℕ) × Live two_layers base_sets base_sets "a.rs" grams
    × (eval planned grams ≡ true))
candidates_iff_example = candidates_iff planned two_layers base_sets base_sets "a.rs" indexed

candidates_complete_example : has "a.rs" (candidates planned two_layers) ≡ true
candidates_complete_example =
    candidates_complete denotation extractor (trigram-IsSound sum_hash) two_layers base_sets
      base_sets indexed parse [] node planned refl plan_runs "a.rs" sample_grams matched sample live
      (λ h. elem-dedup-sort_unstable h (hashes (extractor.grams sample))) accepted
      (32 ∷ [], 10 ∷ [], refl)

candidates-refresh_file_example :
    has "a.rs" (candidates planned (refresh_file extractor "a.rs" (some (1 ∷ [])) two_layers))
      ≡ true
    ↔ ((grams : List ℕ) × (grams_of (λ text. hashes (extractor.grams text)) (some (1 ∷ []))
          ≡ some grams)
        × (eval planned grams ≡ true))
candidates-refresh_file_example =
    candidates-refresh_file planned extractor two_layers base_sets base_sets "a.rs" (some (1 ∷ []))
      indexed

abbrev read : String → Reading
read p = record {
  lines =
      record { path = p; line_number = 1; line = "abcde" }
      ∷ record { path = p; line_number = 2; line = "abcde" }
      ∷ [];
  fails = false;
}

abbrev always : String → Bool
always p = true

none_fails : (rels : List String) → NoneFails (only_regular always read) rels
unfolding only_regular
none_fails [] = tt
none_fails (rel ∷ rels) = (
  λ reading e.
      let same : read rel ≡ reading = cc in subst (λ (r : Reading). r.fails ≡ false) same refl,
  none_fails rels,
)

abbrev starts : String → String → Bool
starts rel p = str_eq rel p

search_page_in_lem_example :
    (let rels : List String = retain_prefixes starts none (candidates planned two_layers) in
      let found : List MatchLine = drop 1 (total (only_regular always read) rels) in
      search_page_in parse
        (λ pattern. some read)
        always
        starts
        extractor
        two_layers
        []
        1
        (some 3)
        none
      ≡ ok (take 3 found) (record {
        candidates = length rels;
        scanned_all = is_all planned;
        matches = length (take 3 found);
        truncated = ltb 3 (length found);
      }))
search_page_in_lem_example =
    search_page_in_lem parse (λ pattern. some read) always starts extractor two_layers [] 1 3 none
      planned read plan_runs refl (omega arith)
      (none_fails (retain_prefixes starts none (candidates planned two_layers)))

abbrev diff : List (ℕ × String)
diff = (65, "b.rs") ∷ []

other_path : ¬ ◌≡◌ {A = String} "a.rs" "b.rs"
other_path e = (let same : str_eq "a.rs" "b.rs" ≡ true = (eq_iff "a.rs" "b.rs").1 e in cc)

is_diff : IsDiff extractor "trigram" blob_size show_blob "c1" "c2" diff "a.rs"
is_diff = record {
  unchanged = λ none_such. (refl, refl);
  added = λ entry. elim entry [ inl (s, e) ↦ absurd (other_path e) | inr nothing ↦ absurd nothing ];
  deleted =
      λ entry. elim entry [ inl (s, e) ↦ absurd (omega arith) | inr nothing ↦ absurd nothing ];
}

base-Holds :
    Holds base base_sets "a.rs" sample_grams
    ↔ (at_commit extractor "trigram" blob_size show_blob "c1" "a.rs" ≡ some ("a.rs", sample_grams))
base-Holds = (λ h. extracts, λ e. holds)

nothing_saved : reusable "c1" "c2" "trigram" none none ≡ none
unfolding reusable
nothing_saved = refl

reconcile_delta_lem_example :
    (let after : IndexSet =
        (reconcile_delta extractor "trigram" blob_size show_blob none none diff "c1" "c2"
          two_layers).0 in
      ((has "a.rs" after.delta_tombstones ≡ false) × Holds after.base base_sets "a.rs" sample_grams)
      ⊎ ((delta : Layer) × (after.delta ≡ some delta)
          × Holds delta
              (head_sets extractor "trigram" blob_size show_blob "c2" diff)
              "a.rs"
              sample_grams))
    ↔ (at_commit extractor "trigram" blob_size show_blob "c2" "a.rs" ≡ some ("a.rs", sample_grams))
reconcile_delta_lem_example =
    reconcile_delta_lem extractor "trigram" blob_size show_blob none none diff "c1" "c2" two_layers
      base_sets "a.rs" sample_grams nothing_saved is_diff not_internal base-Holds
