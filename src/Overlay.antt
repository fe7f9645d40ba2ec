-- ===== src/Overlay.antt =====
-- crates/gitpixel-core/src/overlay.rs: gram sets of the files that are newer than any shard.
-- Paths are texts; the content that `read_regular_bounded` returns from the disk is an argument.
pub mod Laws
mod Examples
use gitpixel.Base.{ℕ, Bool, true, false, List, [], ◌∷◌, ◌&&◌, ◌||◌, Option, none, some}
use gitpixel.Base.{String, if◌then◌else◌, take, elem, add, insert, remove}
use gitpixel.Posting.{GramQuery, literal, and, or, all, GramQueries, nil, cons}

unfoldable mutual
  pub eval : GramQuery → List ℕ → Bool
  eval (literal h) set = elem h set
  eval (and children) set = eval_all children set
  eval (or children) set = eval_any children set
  eval all set = true

  pub eval_all : GramQueries → List ℕ → Bool
  eval_all nil set = true
  eval_all (cons c cs) set = eval c set && eval_all cs set

  pub eval_any : GramQueries → List ℕ → Bool
  eval_any nil set = false
  eval_any (cons c cs) set = eval c set || eval_any cs set

pub record Overlay : Type 0 where
  pub files : List (String × List ℕ)
  pub tombstones : List String

unfoldable pub new : Overlay
new = record { files = []; tombstones = [] }

-- `content[..content.len().min(8192)].contains(&0)`
unfoldable pub is_binary : List ℕ → Bool
is_binary content = elem 0 (take 8192 content)

-- The hash set of a file's grams; `grams` is the extractor.
unfoldable pub refresh_file : (List ℕ → List ℕ) → String → Option (List ℕ) → Overlay → Overlay
refresh_file grams rel_path none o = record {
  files = remove rel_path o.files;
  tombstones = add rel_path o.tombstones;
}
refresh_file grams rel_path (some content) o = record {
  files =
      if is_binary content
      then remove rel_path o.files
      else insert rel_path (grams content) o.files;
  tombstones = add rel_path o.tombstones;
}

unfoldable pub remove_file : String → Overlay → Overlay
remove_file rel_path o = record {
  files = remove rel_path o.files;
  tombstones = add rel_path o.tombstones;
}

unfoldable pub matching : GramQuery → List (String × List ℕ) → List String
matching query [] = []
matching query ((path, set) ∷ files) =
    let rest = matching query files in if eval query set then path ∷ rest else rest

unfoldable pub matching_files : GramQuery → Overlay → List String
unfolding matching
matching_files query o = matching query o.files
