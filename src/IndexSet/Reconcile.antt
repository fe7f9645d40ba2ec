-- ===== src/IndexSet/Reconcile.antt =====
-- `reconcile_delta` and the git part of `open_or_build` of indexset.rs. What git answers and what is on the disk
-- are arguments; a shard that is written and opened again is the layer of its builder.
pub mod Diff
pub mod Fresh
use gitpixel.Base.{ℕ, ◌+◌, Bool, true, false, not, ◌&&◌, ◌||◌, List, [], ◌∷◌, Option, none, some}
use gitpixel.Base.{String, str_eq, ◌==◌, if◌then◌else◌, has, add}
use gitpixel.Gram.{GramExtractor}
use gitpixel.Overlay
use gitpixel.IndexSet.{Layer, layer_of, IndexSet, is_internal, refresh_file, remove_file}
use gitpixel.IndexSet.Build.{build_shard_from}

pub record DeltaState : Type 0 where
  pub base_oid : String
  pub delta_oid : Option String
  pub tombstones : List String

-- The two lists that the loop over the diff pushes to; a status is the code of its character.
pub record Changes : Type 0 where
  pub changed : List String
  pub tombstones : List String

push_change : ℕ → String → Changes → Changes
push_change status path c =
    if status == 65
    then record c { changed = path ∷ c.changed }
    else if status == 68
    then record c { tombstones = path ∷ c.tombstones }
    else record { changed = path ∷ c.changed; tombstones = path ∷ c.tombstones }

pub split_diff : List (ℕ × String) → Changes
unfolding push_change
split_diff [] = record { changed = []; tombstones = [] }
split_diff ((status, path) ∷ diff) =
    let rest = split_diff diff in if is_internal path then rest else push_change status path rest

oid_eq : Option String → String → Bool
oid_eq none oid = false
oid_eq (some o) oid = str_eq o oid

-- `tombstones.into_iter().collect()` of a `HashSet`.
pub tombstone_set : List String → List String
tombstone_set [] = []
tombstone_set (p ∷ ps) = add p (tombstone_set ps)

-- A delta that is pinned to this `HEAD`: its state and its shard, if they are usable.
unfoldable pub reusable :
    String → String → String → Option DeltaState → Option Layer → Option (List String × Layer)
unfolding oid_eq
reusable base_oid head_oid extractor_id none opened = none
reusable base_oid head_oid extractor_id (some state) none = none
reusable base_oid head_oid extractor_id (some state) (some s) =
    if str_eq state.base_oid base_oid
      && (oid_eq state.delta_oid head_oid && str_eq s.extractor_id extractor_id)
    then some (state.tombstones, s)
    else none

module _ (extractor : GramExtractor) (extractor_id : String)
    (blob_size : String → String → Option ℕ) (show_blob : String → String → Option (List ℕ)) where
  pub delta_layer : String → List String → Option Layer
  delta_layer head_oid [] = none
  delta_layer head_oid (p ∷ changed) = some (
      layer_of (
        build_shard_from extractor (blob_size head_oid) (show_blob head_oid) extractor_id head_oid
          (p ∷ changed)))

  -- The set with its new delta, and the state that is saved if it is not reused.
  pub reconcile_delta :
      Option DeltaState
      → Option Layer
      → List (ℕ × String)
      → String
      → String
      → IndexSet
      → IndexSet × Option DeltaState
  unfolding split_diff tombstone_set delta_layer reusable
  reconcile_delta state opened diff base_oid head_oid set =
      elim (reusable base_oid head_oid extractor_id state opened) [
        | some (tombstones, s) ↦
            (record set { delta = some s; delta_tombstones = tombstone_set tombstones }, none)
        | none ↦ (
          record set {
            delta = delta_layer head_oid (split_diff diff).changed;
            delta_tombstones = tombstone_set (split_diff diff).tombstones;
          },
          some (record {
            base_oid = base_oid;
            delta_oid = some head_oid;
            tombstones = (split_diff diff).tombstones;
          }),
        )
      ]

-- The loop over `git status`: whether the status has a `D`, and the path; `read` is what the disk has.
pub apply_status :
    GramExtractor → (String → Option (List ℕ)) → List (Bool × String) → IndexSet → IndexSet
apply_status extractor read [] set = set
apply_status extractor read ((deleted, path) ∷ status) set =
    if is_internal path
    then apply_status extractor read status set
    else if deleted
    then apply_status extractor read status (remove_file path set)
    else apply_status extractor read status (refresh_file extractor path (read path) set)

has_oid : Option String → Bool
has_oid none = false
has_oid (some oid) = true

-- Whether `open_or_build` keeps the base shard that it could open; `fresh` is the comparison of the signatures,
-- which only a directory outside git makes.
pub keep_base : String → Option String → Bool → Layer → Bool
unfolding has_oid
keep_base extractor_id head fresh base =
    str_eq base.extractor_id extractor_id
    && (not (has_oid head && not (has_oid base.commit_oid))
        && not (not (has_oid head) && (not (has_oid base.commit_oid) && not fresh)))
