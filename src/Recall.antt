-- ===== src/Recall.antt =====
-- The turns of crates/gitpixel-recall that segment.rs indexes and search.rs searches. A turn has a row id and the bytes of
-- its text; the table lists the turns by ascending id. A file of the segment directory holds the layer of the builder
-- that was written to it. `name` is the format of the file names, `to_string` and `parse_id` write and read an id.
pub mod Segment
pub mod Batches
pub mod Indexed
pub mod Rows
pub mod Search
pub mod Visit
pub mod Hits
mod Examples
use gitpixel.Base.{
  ℕ, zero, suc, ◌+◌, ◌%◌, ◌^◌, Bool, true, false, not, ◌||◌, List, [], ◌∷◌, ◌++◌, Option, none,
  some, max,
}
use gitpixel.Base.{String, ltb, leb, ◌==◌, if◌then◌else◌, length, take, elem, find, insert, remove}
use gitpixel.Posting.{GramQuery, GramQueries, literal, and, or, all, resolve_query}
use gitpixel.Gram.{GramExtractor, hashes}
use gitpixel.Shard.Builder.{ShardBuilder, new, add_file}
use gitpixel.IndexSet.{Layer, layer_of, file_count, path_of}

pub record Turn : Type 0 where
  pub id : ℕ
  pub text : List ℕ

pub record SegmentEntry : Type 0 where
  pub file : String
  pub doc_count : ℕ

pub record Manifest : Type 0 where
  pub generation : ℕ
  pub last_turn_id : ℕ
  pub segments : List SegmentEntry

-- `Manifest::default()`
abbrev pub empty_manifest : Manifest
empty_manifest = record { generation = 0; last_turn_id = 0; segments = [] }

abbrev pub fresh_manifest : Option Manifest → Manifest → Manifest
fresh_manifest none own = own
fresh_manifest (some fresh) own = fresh

-- The manifest with the files of the directory.
pub record SegmentSet : Type 0 where
  pub manifest : Manifest
  pub files : List (String × Layer)

pub record IndexReport : Type 0 where
  pub turns_indexed : ℕ
  pub segments_written : ℕ

abbrev pub segment_target : ℕ
segment_target = 65536

-- `SELECT id, text FROM turns WHERE id > ?1 ORDER BY id LIMIT ?2`
unfoldable pub newer : ℕ → List Turn → List Turn
newer after [] = []
newer after (t ∷ turns) = let rest = newer after turns in if ltb after t.id then t ∷ rest else rest

unfoldable pub turns_for_indexing : ℕ → ℕ → List Turn → List Turn
turns_for_indexing after limit turns = take limit (newer after turns)

unfoldable pub max_id : ℕ → List Turn → ℕ
max_id m [] = m
max_id m (t ∷ batch) = max_id (max t.id m) batch

module _ (extractor : GramExtractor) (to_string : ℕ → String) where
  unfoldable pub add_turns : List Turn → ShardBuilder → ShardBuilder
  add_turns [] b = b
  add_turns (t ∷ batch) b =
      add_turns batch (add_file (to_string t.id) (hashes (extractor.grams t.text)) b).0

module _ (extractor : GramExtractor) (extractor_id : String) (name to_string : ℕ → String) where
  -- One round of the loop on a batch that is not empty.
  unfoldable pub write_segment : List Turn → ℕ → SegmentSet → SegmentSet
  write_segment batch after set =
      let m = set.manifest in
      let file = name (m.generation + length m.segments + 1) in
      record {
        manifest = record {
          generation = m.generation;
          last_turn_id = max_id after batch;
          segments = m.segments ++ record { file = file; doc_count = length batch % 2 ^ 32 } ∷ [];
        };
        files =
            insert file (layer_of (add_turns extractor to_string batch (new extractor_id)))
              set.files;
      }

  -- The loop of `index_new`. Each round indexes a turn at least, so one round more than there are turns is enough.
  unfoldable pub index_loop :
      ℕ → List Turn → ℕ → SegmentSet × IndexReport → SegmentSet × IndexReport
  index_loop zero turns after (set, report) = (set, report)
  index_loop (suc fuel) turns after (set, report) =
      let batch = turns_for_indexing after segment_target turns in
      elim batch [
        | [] ↦ (set, report)
        | t ∷ ts ↦ index_loop fuel turns (max_id after (t ∷ ts)) (
          write_segment (t ∷ ts) after set,
          record {
            turns_indexed = report.turns_indexed + length (t ∷ ts);
            segments_written = report.segments_written + 1;
          },
        )
      ]

  -- `fresh` is what is read of the manifest while the lock is held.
  unfoldable pub index_new : Option Manifest → List Turn → SegmentSet → SegmentSet × IndexReport
  index_new fresh turns set =
      let m = fresh_manifest fresh set.manifest in
      index_loop (suc (length turns)) turns m.last_turn_id
        (record set { manifest = m }, record { turns_indexed = 0; segments_written = 0 })

  unfoldable pub remove_entries : List SegmentEntry → List (String × Layer) → List (String × Layer)
  remove_entries [] files = files
  remove_entries (e ∷ entries) files = remove_entries entries (remove e.file files)

  unfoldable pub rebuild : List Turn → SegmentSet → SegmentSet × IndexReport
  rebuild turns set =
      let m = record empty_manifest { generation = set.manifest.generation + 1 } in
      index_new (some m) turns
        (record { manifest = m; files = remove_entries set.manifest.segments set.files })

unfoldable pub push_opened : Option Layer → List Layer → List Layer
push_opened none shards = shards
push_opened (some layer) shards = layer ∷ shards

-- An entry whose file does not open is left out.
unfoldable pub open_entries : List (String × Layer) → List SegmentEntry → List Layer
open_entries files [] = []
open_entries files (e ∷ entries) = push_opened (find e.file files) (open_entries files entries)

unfoldable pub open_shards : SegmentSet → List Layer
open_shards set = open_entries set.files set.manifest.segments

module _ (parse_id : String → Option ℕ) where
  -- `set.insert(turn_id)` of the `HashSet`, for a path that is an id.
  unfoldable pub insert_id : Option ℕ → List ℕ → List ℕ
  insert_id none ids = ids
  insert_id (some id) ids = if elem id ids then ids else id ∷ ids

  unfoldable pub parsed : Option String → Option ℕ
  parsed none = none
  parsed (some path) = parse_id path

  unfoldable pub insert_locals : List String → List ℕ → List ℕ → List ℕ
  insert_locals files [] ids = ids
  insert_locals files (local ∷ locals) ids =
      insert_locals files locals (insert_id (parsed (path_of files local)) ids)

  unfoldable pub collect_shards : GramQuery → List Layer → List ℕ → List ℕ
  collect_shards plan [] ids = ids
  collect_shards plan (shard ∷ shards) ids =
      collect_shards plan shards
        (insert_locals shard.files (resolve_query plan (file_count shard) shard.postings) ids)

  -- The candidates of `search`; `none` stands for every turn.
  unfoldable pub turn_candidates : GramQuery → SegmentSet → Option (List ℕ)
  turn_candidates all set = none
  turn_candidates (literal h) set = some (collect_shards (literal h) (open_shards set) [])
  turn_candidates (and qs) set = some (collect_shards (and qs) (open_shards set) [])
  turn_candidates (or qs) set = some (collect_shards (or qs) (open_shards set) [])

-- `tail_turn_ids` and the ids of the targeted fetch.
unfoldable pub tail_turn_ids : ℕ → List Turn → List ℕ
tail_turn_ids floor [] = []
tail_turn_ids floor (t ∷ turns) =
    let rest = tail_turn_ids floor turns in if ltb floor t.id then t.id ∷ rest else rest

unfoldable pub up_to : ℕ → List ℕ → List ℕ
up_to floor [] = []
up_to floor (id ∷ ids) = let rest = up_to floor ids in if leb id floor then id ∷ rest else rest

unfoldable pub fetch_ids : List ℕ → ℕ → List Turn → List ℕ
fetch_ids ids floor turns = up_to floor ids ++ tail_turn_ids floor turns

-- The rows with one of the ids.
unfoldable pub fetch_rows_by_ids : List ℕ → List Turn → List Turn
fetch_rows_by_ids ids [] = []
fetch_rows_by_ids ids (t ∷ turns) =
    let rest = fetch_rows_by_ids ids turns in if elem t.id ids then t ∷ rest else rest

-- The test with which the ordered scan passes over a row.
unfoldable pub passes : Option (List ℕ) → ℕ → Turn → Bool
passes none floor t = true
passes (some ids) floor t = not (leb t.id floor) || elem t.id ids

unfoldable pub scan_rows : Option (List ℕ) → ℕ → List Turn → List Turn
scan_rows ids floor [] = []
scan_rows ids floor (t ∷ turns) =
    let rest = scan_rows ids floor turns in if passes ids floor t then t ∷ rest else rest

abbrev pub candidate_fetch_max : ℕ
candidate_fetch_max = 10000

unfoldable pub use_fetch : Option (List ℕ) → ℕ → List Turn → Bool
use_fetch none floor turns = false
use_fetch (some ids) floor turns =
    leb (length ids + length (tail_turn_ids floor turns)) candidate_fetch_max

-- The rows that the filters let pass, which both statements select with the same condition.
unfoldable pub where_rows : (Turn → Bool) → List Turn → List Turn
where_rows accepts [] = []
where_rows accepts (t ∷ turns) =
    let rest = where_rows accepts turns in if accepts t then t ∷ rest else rest

-- The rows that either path selects, before they are put in order; `visit` goes through them until a page is full.
unfoldable pub considered : (Turn → Bool) → Option (List ℕ) → ℕ → List Turn → List Turn
considered accepts none floor turns = scan_rows none floor (where_rows accepts turns)
considered accepts (some ids) floor turns =
    if use_fetch (some ids) floor turns
    then fetch_rows_by_ids (fetch_ids ids floor turns) (where_rows accepts turns)
    else scan_rows (some ids) floor (where_rows accepts turns)
