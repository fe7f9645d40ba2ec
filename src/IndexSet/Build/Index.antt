-- ===== src/IndexSet/Build/Index.antt =====
-- The builder that `build_shard_from` of indexset.rs writes is an index of the files that it extracts.
use gitpixel.Base.{
  ℕ, zero, suc, ◌+◌, ◌-◌, ◌^◌, ◌<◌, ◌≡◌, ◌↔◌, ◌⊎◌, inl, inr, refl, sym, ap, ◌∙◌, Bool, true, false,
  List, [], ◌∷◌, ◌++◌, Option, some, arith,
}
use gitpixel.Base.{String, ltb, ◌==◌, if◌then◌else◌, length, elem, has, length-append, Bool-cases}
use mathlib.Core.List.{append_assoc, append-nil}
use gitpixel.Gram.{GramExtractor}
use gitpixel.Shard.Builder.{ShardBuilder, new, set_commit_oid, add_file, ids_of}
use gitpixel.Shard.Builder.Index.{
  IsValid, new-IsValid, add_file-IsValid, add_file_lem, add_file-files, add_file_id,
}
use gitpixel.IndexSet.{layer_of, path_of, is_internal, keys}
use gitpixel.IndexSet.Candidates.{IsIndex, Holds}
use gitpixel.IndexSet.Build.{extract_blob, extract_all, sort_extracted, add_files, build_shard_from}
use gitpixel.IndexSet.Build.Listing.{Listed, Listed-sort_extracted, Listed-extract_all}

abbrev pub sets_of : List (String × List ℕ) → ℕ → List ℕ
sets_of [] x = []
sets_of ((p, hs) ∷ xs) zero = hs
sets_of ((p, hs) ∷ xs) (suc x) = sets_of xs x

pub add_files-files :
    (xs : List (String × List ℕ)) (b : ShardBuilder) → (add_files xs b).files ≡ b.files ++ keys xs
unfolding add_files
add_files-files [] b = sym (append-nil b.files)
add_files-files ((p, hs) ∷ xs) b =
    add_files-files xs (add_file p hs b).0
    ∙ ap (λ (l : List String). l ++ keys xs) (add_file-files p hs b)
    ∙ append_assoc b.files (p ∷ []) (keys xs)

pub length-keys : (xs : List (String × List ℕ)) → length (keys xs) ≡ length xs
length-keys [] = refl
length-keys (x ∷ xs) = ap suc (length-keys xs)

add_files-IsValid :
    (xs : List (String × List ℕ)) (b : ShardBuilder)
    → length b.files + length xs < 2 ^ 32
    → IsValid b
    → IsValid (add_files xs b)
unfolding add_files
add_files-IsValid [] b fits v = v
add_files-IsValid ((p, hs) ∷ xs) b fits v =
    add_files-IsValid xs (add_file p hs b).0
      (omega (arith, ap length (add_file-files p hs b), length-append b.files (p ∷ [])))
      (add_file-IsValid p hs b (omega arith) v)

next_file :
    (p : String) (hs : List ℕ) (xs : List (String × List ℕ)) (b : ShardBuilder) (x h : ℕ)
    → length b.files < 2 ^ 32
    → IsValid b
    → (if ltb x (length (add_file p hs b).0.files)
        then elem x (ids_of h (add_file p hs b).0.postings)
        else elem h (sets_of xs (x - length (add_file p hs b).0.files)))
      ≡ (if ltb x (length b.files)
          then elem x (ids_of h b.postings)
          else elem h (sets_of ((p, hs) ∷ xs) (x - length b.files)))
next_file p hs xs b x h fits v =
    let len : length (add_file p hs b).0.files ≡ length b.files + 1 =
      ap length (add_file-files p hs b) ∙ length-append b.files (p ∷ []) in
    rw (len, add_file_lem p hs b x h fits v, add_file_id p hs b fits)
      (elim (Bool-cases (ltb x (length b.files))) [
        | inl before ↦ ground arith
        | inr not_before ↦ elim (Bool-cases (x == length b.files)) [
          | inl here ↦
              let d : x - length b.files ≡ 0 = ground arith in
              let near : ltb x (length b.files + 1) ≡ true = ground arith in
              rw (d, near, here, not_before) refl
          | inr after ↦
              let d : x - length b.files ≡ suc (x - (length b.files + 1)) = ground arith in
              let far : ltb x (length b.files + 1) ≡ false = ground arith in
              rw (d, far, not_before) refl
        ]
      ])

elem-add_files :
    (xs : List (String × List ℕ)) (b : ShardBuilder) (x h : ℕ)
    → length b.files + length xs < 2 ^ 32
    → IsValid b
    → x < length b.files + length xs
    → elem x (ids_of h (add_files xs b).postings) ≡ (
        if ltb x (length b.files)
        then elem x (ids_of h b.postings)
        else elem h (sets_of xs (x - length b.files)))
unfolding add_files
elem-add_files [] b x h fits v lt =
    let e : ltb x (length b.files) ≡ true = ground arith in rw e refl
elem-add_files ((p, hs) ∷ xs) b x h fits v lt =
    let b' : ShardBuilder = (add_file p hs b).0 in
    let len : length b'.files ≡ length b.files + 1 =
      ap length (add_file-files p hs b) ∙ length-append b.files (p ∷ []) in
    let ih : elem x (ids_of h (add_files xs b').postings) ≡ (
        if ltb x (length b'.files)
        then elem x (ids_of h b'.postings)
        else elem h (sets_of xs (x - length b'.files))) =
      elem-add_files xs b' x h (omega arith) (add_file-IsValid p hs b (omega arith) v)
        (omega arith) in
    ih ∙ next_file p hs xs b x h (omega arith) v

Spot : List (String × List ℕ) → String → List ℕ → Type 0
Spot xs p set = (x : ℕ) × (path_of (keys xs) x ≡ some p) × (set ≡ sets_of xs x)

Spot-cons :
    (q : String) (hs : List ℕ) (xs : List (String × List ℕ)) (p : String) (set : List ℕ)
    → Spot ((q, hs) ∷ xs) p set ↔ ((p ≡ q) × (set ≡ hs)) ⊎ Spot xs p set
unfolding Spot path_of
Spot-cons q hs xs p set = (
  λ (x, at, same). first x at same,
  λ m. elim m [ inl (e, f) ↦ (0, ap some (sym e), f) | inr (x, at, same) ↦ (suc x, at, same) ],
)
  where
    first :
        (x : ℕ)
        → path_of (q ∷ keys xs) x ≡ some p
        → set ≡ sets_of ((q, hs) ∷ xs) x
        → ((p ≡ q) × (set ≡ hs)) ⊎ Spot xs p set
    first zero at same = inl (cc, same)
    first (suc x) at same = inr (x, at, same)

Spot-Listed :
    (xs : List (String × List ℕ)) (p : String) (set : List ℕ) → Spot xs p set ↔ Listed p set xs
unfolding Spot path_of
Spot-Listed [] p set = (λ (x, e, s). cc, λ m. absurd m)
Spot-Listed ((q, hs) ∷ xs) p set =
    let (to, from) = Spot-cons q hs xs p set in
    let (later, back) = Spot-Listed xs p set in
    (
      λ m. elim (to m) [ inl h ↦ inl h | inr t ↦ inr (later t) ],
      λ m. from (elim m [ inl h ↦ inl h | inr t ↦ inr (back t) ]),
    )

from_start :
    (xs : List (String × List ℕ)) (before : Bool) (x h : ℕ)
    → (if ltb x 0 then before else elem h (sets_of xs (x - 0))) ≡ elem h (sets_of xs x)
from_start xs before x h =
    let e : x - 0 ≡ x = omega arith in let no : ltb x 0 ≡ false = ground arith in rw (no, e) refl

-- A builder without files, to which files are added, is an index of them.
pub add_files-IsIndex :
    (xs : List (String × List ℕ)) (b : ShardBuilder)
    → length b.files ≡ 0
    → IsValid b
    → length xs < 2 ^ 32
    → IsIndex (layer_of (add_files xs b)) (sets_of xs)
add_files-IsIndex xs b none_yet v fits =
    let len : length (add_files xs b).files ≡ length xs =
      ap length (add_files-files xs b)
      ∙ length-append b.files (keys xs)
      ∙ (omega (arith, none_yet, length-keys xs)) in
    let done : IsValid (add_files xs b) =
      add_files-IsValid xs b (omega (arith, none_yet, fits)) v in
    record {
      fits = omega (arith, len, fits);
      sorted = done.ascends;
      exact = λ x h lt.
          elem-add_files xs b x h (omega (arith, none_yet, fits)) v (omega (arith, len, lt))
          ∙ (rw none_yet (from_start xs (elem x (ids_of h b.postings)) x h));
    }

module _ (extractor : GramExtractor) (blob_size : String → Option ℕ)
    (show_blob : String → Option (List ℕ)) (extractor_id commit_oid : String)
    (rels : List String) where
  abbrev pub extracted : List (String × List ℕ)
  extracted = sort_extracted (extract_all extractor blob_size show_blob rels)

  abbrev pub built : ShardBuilder
  built = build_shard_from extractor blob_size show_blob extractor_id commit_oid rels

  -- The layer that `build_shard_from` makes is an index of its files under the gram sets extracted, if these are
  -- fewer than `2 ^ 32` files.
  pub build_shard_from-IsIndex :
      length extracted < 2 ^ 32 → IsIndex (layer_of built) (sets_of extracted)
  unfolding build_shard_from set_commit_oid new
  build_shard_from-IsIndex fits =
      let start : ShardBuilder = set_commit_oid commit_oid (new extractor_id) in
      let valid : IsValid start =
        let v : IsValid (new extractor_id) = new-IsValid extractor_id in
        record { ascends = v.ascends; below = v.below } in
      add_files-IsIndex extracted start refl valid fits

  -- The layer that `build_shard_from` makes holds a path under a gram set exactly if the path is listed, is not
  -- internal, and the set is extracted from its blob.
  pub build_shard_from_lem :
      (p : String) (set : List ℕ)
      → Holds (layer_of built) (sets_of extracted) p set ↔ (
          (has p rels ≡ true)
          × (is_internal p ≡ false)
          × (extract_blob extractor blob_size show_blob p ≡ some (p, set)))
  unfolding build_shard_from set_commit_oid new Spot
  build_shard_from_lem p set =
      let files : built.files ≡ keys extracted =
        add_files-files extracted (set_commit_oid commit_oid (new extractor_id)) in
      let (to, from) = Spot-Listed extracted p set in
      let (to_all, from_all) =
        Listed-sort_extracted p set (extract_all extractor blob_size show_blob rels) in
      let (to_blob, from_blob) = Listed-extract_all extractor blob_size show_blob p set rels in
      rw files (λ m. to_blob (to_all (to m)), λ m. from (from_all (from_blob m)))
