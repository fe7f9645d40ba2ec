-- ===== src/IndexSet.antt =====
-- crates/gitpixel-core/src/indexset.rs: the base shard, the delta shard and the overlay as one index. Files,
-- git and the parser of patterns are arguments of the operations that use them.
pub mod Search
pub mod Reconcile
pub mod Collect
pub mod Candidates
pub mod Complete
pub mod Build
mod Examples
use gitpixel.Base.{
  ℕ, zero, suc, ◌+◌, ◌%◌, ◌^◌, Bool, true, false, not, ◌||◌, List, [], ◌∷◌, ◌++◌, Option, none,
  some,
}
use gitpixel.Base.{String, str_eq, starts_with, if◌then◌else◌, length, has, insert_path}
use gitpixel.Posting.{GramQuery, resolve_query, all_docs}
use gitpixel.Gram.{GramExtractor, hashes}
use gitpixel.Overlay
use gitpixel.Overlay.{Overlay, matching_files}
use gitpixel.Shard.Builder.{ShardBuilder, ids_of}

-- What the index set uses of an open `Shard`.
pub record Layer : Type 0 where
  pub files : List String
  pub postings : ℕ → List ℕ
  pub extractor_id : String
  pub commit_oid : Option String

-- The layer that holds what a builder has.
abbrev pub layer_of : ShardBuilder → Layer
layer_of b = record {
  files = b.files;
  postings = λ h. ids_of h b.postings;
  extractor_id = b.extractor_id;
  commit_oid = b.commit_oid;
}

abbrev pub file_count : Layer → ℕ
file_count layer = length layer.files % 2 ^ 32

unfoldable pub path_of : List String → ℕ → Option String
path_of [] id = none
path_of (p ∷ files) zero = some p
path_of (p ∷ files) (suc id) = path_of files id

pub record IndexSet : Type 0 where
  pub base : Layer
  pub delta : Option Layer
  pub delta_tombstones : List String
  pub overlay : Overlay

abbrev pub shard_dir : String
shard_dir = ".gitpixel"

unfoldable pub is_internal : String → Bool
is_internal rel = str_eq rel shard_dir || starts_with rel ".gitpixel/"

unfoldable pub insert_visible : (String → Bool) → Option String → List String → List String
insert_visible hidden none paths = paths
insert_visible hidden (some p) paths = if hidden p then paths else insert_path p paths

-- One of the loops over the ids of a shard, which leaves out what a newer layer supersedes.
unfoldable pub collect : (String → Bool) → List String → List ℕ → List String → List String
unfolding insert_visible
collect hidden files [] paths = paths
collect hidden files (id ∷ ids) paths =
    collect hidden files ids (insert_visible hidden (path_of files id) paths)

unfoldable pub insert_all : List String → List String → List String
insert_all [] paths = paths
insert_all (p ∷ ps) paths = insert_all ps (insert_path p paths)

abbrev pub base_hidden : IndexSet → String → Bool
base_hidden set p = has p set.delta_tombstones || has p set.overlay.tombstones

abbrev pub delta_hidden : IndexSet → String → Bool
delta_hidden set p = has p set.overlay.tombstones

unfoldable pub collect_delta :
    (Layer → List ℕ) → IndexSet → Option Layer → List String → List String
unfolding collect
collect_delta ids set none paths = paths
collect_delta ids set (some delta) paths = collect (delta_hidden set) delta.files (ids delta) paths

abbrev pub resolved : GramQuery → Layer → List ℕ
resolved query layer = resolve_query query (file_count layer) layer.postings

-- The paths that `search_page_in` collects before it looks at the prefixes.
unfoldable pub candidates : GramQuery → IndexSet → List String
unfolding insert_all collect_delta collect
candidates query set = insert_all (matching_files query set.overlay) (
    collect_delta (resolved query) set set.delta
      (collect (base_hidden set) set.base.files (resolved query set.base) []))

abbrev pub keys : List (String × List ℕ) → List String
keys [] = []
keys ((p, set) ∷ files) = p ∷ keys files

unfoldable pub paths : IndexSet → List String
unfolding insert_all collect_delta collect
paths set = insert_all (keys set.overlay.files) (
    collect_delta (λ layer. all_docs (file_count layer)) set set.delta
      (collect (base_hidden set) set.base.files (all_docs (file_count set.base)) []))

-- `content` is what is read from the disk at the path.
unfoldable pub refresh_file : GramExtractor → String → Option (List ℕ) → IndexSet → IndexSet
refresh_file extractor rel_path content set = record set {
  overlay =
      Overlay.refresh_file (λ text. hashes (extractor.grams text)) rel_path content set.overlay;
}

unfoldable pub remove_file : String → IndexSet → IndexSet
remove_file rel_path set = record set { overlay = Overlay.remove_file rel_path set.overlay }
