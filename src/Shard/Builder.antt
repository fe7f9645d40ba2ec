-- ===== src/Shard/Builder.antt =====
-- `ShardBuilder` of crates/gitpixel-core/src/shard.rs: the inverted map, and the runs that `write` makes of it.
pub mod Index
pub mod Runs
use gitpixel.Base.{ℕ, zero, suc, ◌+◌, ◌-◌, ◌%◌, ◌^◌, List, [], ◌∷◌, ◌++◌, Option, none, some}
use gitpixel.Base.{String, ltb, leb, ◌==◌, if◌then◌else◌, length, dedup, sort_unstable}
use gitpixel.Shard.Varint.{write_varint, read_varint}

-- Paths and the two identifiers are texts.
pub record ShardBuilder : Type 0 where
  pub postings : List (ℕ × List ℕ)
  pub files : List String
  pub extractor_id : String
  pub commit_oid : Option String

unfoldable pub new : String → ShardBuilder
new extractor_id = record {
  postings = [];
  files = [];
  extractor_id = extractor_id;
  commit_oid = none;
}

unfoldable pub set_commit_oid : String → ShardBuilder → ShardBuilder
set_commit_oid oid b = record b { commit_oid = some oid }

-- The ids of a gram; a gram with no entry has none.
unfoldable pub ids_of : ℕ → List (ℕ × List ℕ) → List ℕ
ids_of h [] = []
ids_of h ((k, ids) ∷ postings) = if k == h then ids else ids_of h postings

-- `self.postings.entry(h).or_default().push(id)`
unfoldable pub push_id : ℕ → ℕ → List (ℕ × List ℕ) → List (ℕ × List ℕ)
push_id h id [] = (h, id ∷ []) ∷ []
push_id h id ((k, ids) ∷ postings) =
    if k == h then (k, ids ++ id ∷ []) ∷ postings else (k, ids) ∷ push_id h id postings

unfoldable pub push_ids : List ℕ → ℕ → List (ℕ × List ℕ) → List (ℕ × List ℕ)
push_ids [] id postings = postings
push_ids (h ∷ hs) id postings = push_ids hs id (push_id h id postings)

-- The id is `files.len() as u32`.
unfoldable pub add_file : String → List ℕ → ShardBuilder → ShardBuilder × ℕ
add_file path hs b =
    let id = length b.files % 2 ^ 32 in
    (
      record b {
        files = b.files ++ path ∷ [];
        postings = push_ids (dedup (sort_unstable hs)) id b.postings;
      },
      id,
    )

-- The run of one gram in `write`: the first id, then the differences; `id - prev` is on ascending ids.
unfoldable pub write_deltas : ℕ → List ℕ → List ℕ
write_deltas prev [] = []
write_deltas prev (id ∷ ids) = write_varint (id - prev) ++ write_deltas id ids

unfoldable pub write_run : List ℕ → List ℕ
unfolding write_deltas
write_run [] = []
write_run (id ∷ ids) = write_varint id ++ write_deltas id ids

-- The loop of `Shard::postings` over a run. `prev` is `none` while `ids` is empty; `none` is one of its early
-- returns of an empty list. Each round takes a byte at least, so the length of the run is enough fuel.
pub next_id : Option ℕ → ℕ → Option ℕ
next_id none delta = some delta
next_id (some prev) delta = if ltb (prev + delta) (2 ^ 32) then some (prev + delta) else none

pub push_read : ℕ → Option (List ℕ) → Option (List ℕ)
push_read id none = none
push_read id (some ids) = some (id ∷ ids)

pub read_ids : ℕ → List ℕ → Option ℕ → ℕ → Option (List ℕ)
read_ids fuel [] prev file_count = some []
read_ids zero (b ∷ run) prev file_count = none
read_ids (suc fuel) (b ∷ run) prev file_count = elim (read_varint (b ∷ run)) [
  | none ↦ none
  | some (delta, rest) ↦ elim (next_id prev delta) [
    | none ↦ none
    | some id ↦
        if leb file_count id then none else push_read id (read_ids fuel rest (some id) file_count)
  ]
]

pub or_empty : Option (List ℕ) → List ℕ
or_empty none = []
or_empty (some ids) = ids

pub read_run : List ℕ → ℕ → List ℕ
unfolding or_empty
read_run run file_count = or_empty (read_ids (length run) run none file_count)
