-- ===== src/IndexSet/Build.antt =====
-- `build_shard_from` of indexset.rs: the shard of a commit, from a list of paths.
pub mod Listing
pub mod Index
use gitpixel.Base.{
  ℕ, ◌+◌, ◌*◌, ◌%◌, ◌^◌, ◌<◌, ◌≤◌, ◌≡◌, refl, sym, ap, ◌∙◌, Bool, true, false, ◌||◌, List, [], ◌∷◌,
  ◌++◌, Option, none, some, arith,
}
use gitpixel.Base.{String, str_leb, ltb, if◌then◌else◌, length, elem, dedup, sort_unstable}
use gitpixel.Gram.{GramExtractor, hashes}
use gitpixel.Overlay.{is_binary}
use gitpixel.Shard.Builder.{ShardBuilder, new, set_commit_oid, add_file}
use gitpixel.IndexSet.{is_internal}

abbrev pub max_file_bytes : ℕ
max_file_bytes = 4 * 1024 * 1024

unfoldable pub extract_content : GramExtractor → String → Option (List ℕ) → Option (String × List ℕ)
extract_content extractor rel none = none
extract_content extractor rel (some []) = none
extract_content extractor rel (some (b ∷ content)) =
    if is_binary (b ∷ content)
    then none
    else some (rel, dedup (sort_unstable (hashes (extractor.grams (b ∷ content)))))

unfoldable pub push_extracted :
    Option (String × List ℕ) → List (String × List ℕ) → List (String × List ℕ)
push_extracted none rest = rest
push_extracted (some x) rest = x ∷ rest

-- `blob_size` and `show_blob` are git's answers for the commit, by path.
module _ (extractor : GramExtractor) (blob_size : String → Option ℕ)
    (show_blob : String → Option (List ℕ)) where
  unfoldable pub extract_blob : String → Option (String × List ℕ)
  unfolding extract_content
  extract_blob rel = elim (blob_size rel) [
    | none ↦ none
    | some size ↦
        if ltb max_file_bytes size then none else extract_content extractor rel (show_blob rel)
  ]

  -- The two filters of `build_shard_from`, in the order of the paths.
  unfoldable pub extract_all : List String → List (String × List ℕ)
  unfolding push_extracted extract_blob
  extract_all [] = []
  extract_all (rel ∷ rel_paths) =
      let rest = extract_all rel_paths in
      if is_internal rel then rest else push_extracted (extract_blob rel) rest

unfoldable pub insert_extracted : String × List ℕ → List (String × List ℕ) → List (String × List ℕ)
insert_extracted x [] = x ∷ []
insert_extracted x (y ∷ ys) = if str_leb x.0 y.0 then x ∷ y ∷ ys else y ∷ insert_extracted x ys

-- `extracted.sort_by(|a, b| a.0.cmp(&b.0))`, a stable sort.
unfoldable pub sort_extracted : List (String × List ℕ) → List (String × List ℕ)
unfolding insert_extracted
sort_extracted [] = []
sort_extracted (x ∷ xs) = insert_extracted x (sort_extracted xs)

unfoldable pub add_files : List (String × List ℕ) → ShardBuilder → ShardBuilder
add_files [] b = b
add_files ((rel, hs) ∷ extracted) b = add_files extracted (add_file rel hs b).0

-- The builder that `build_shard_from` writes.
pub build_shard_from :
    GramExtractor
    → (String → Option ℕ)
    → (String → Option (List ℕ))
    → String
    → String
    → List String
    → ShardBuilder
unfolding extract_all sort_extracted add_files
build_shard_from extractor blob_size show_blob extractor_id commit_oid rel_paths =
    add_files (sort_extracted (extract_all extractor blob_size show_blob rel_paths))
      (set_commit_oid commit_oid (new extractor_id))
