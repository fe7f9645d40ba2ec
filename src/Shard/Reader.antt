-- ===== src/Shard/Reader.antt =====
-- `Shard::open` and `Shard::postings` of crates/gitpixel-core/src/shard.rs, on the bytes of the file. `from_utf8`
-- is that of the standard library. A `usize` has 64 bits.
pub mod Bounds
mod Written
mod Examples
use gitpixel.Base.{
  ℕ, zero, suc, ◌+◌, ◌*◌, ◌/◌, ◌%◌, ◌^◌, Bool, true, false, not, ◌&&◌, ◌||◌, List, [], ◌∷◌, Option,
  none, some,
}
use gitpixel.Base.{String, ltb, leb, ◌==◌, if◌then◌else◌, length, take, drop}
use gitpixel.Shard.Builder.{read_run}
use gitpixel.Shard.Writer.{magic}

pub data ShardError : Type 0 where
  corrupt : String → ShardError
  version_mismatch : ℕ → ShardError

pub record Shard : Type 0 where
  pub mmap : List ℕ
  pub files : List String
  pub gram_count : ℕ
  pub lookup_off : ℕ
  pub postings_off : ℕ
  pub postings_len : ℕ
  pub extractor_id : String
  pub commit_oid : Option String

pub data Outcome {ℓ} (A : Type ℓ) : Type ℓ where
  err : ShardError → Outcome A
  ok : A → Outcome A

pub from_le_bytes : List ℕ → ℕ
from_le_bytes [] = 0
from_le_bytes (b ∷ bs) = b + 256 * from_le_bytes bs

-- The little-endian number in the `n` bytes from `off`.
pub number_at : List ℕ → ℕ → ℕ → ℕ
unfolding from_le_bytes
number_at mmap off n = from_le_bytes (take n (drop off mmap))

pub bytes_eq : List ℕ → List ℕ → Bool
bytes_eq [] [] = true
bytes_eq [] (b ∷ bs) = false
bytes_eq (a ∷ more) [] = false
bytes_eq (a ∷ more) (b ∷ bs) = a == b && bytes_eq more bs

-- The bytes before the first zero.
pub until_zero : List ℕ → List ℕ
until_zero [] = []
until_zero (b ∷ bs) = let rest = until_zero bs in if b == 0 then [] else b ∷ rest

abbrev check_section : List ℕ → ℕ → ℕ → Bool
check_section mmap off len = ltb (off + len) (2 ^ 64) && leb (off + len) (length mmap)

pub record Header : Type 0 where
  pub file_count : ℕ
  pub gram_count : ℕ
  pub files_off : ℕ
  pub files_len : ℕ
  pub lookup_off : ℕ
  pub lookup_len : ℕ
  pub postings_off : ℕ
  pub postings_len : ℕ

pub read_header : List ℕ → Header
unfolding number_at
read_header mmap = record {
  file_count = number_at mmap 120 4;
  gram_count = number_at mmap 124 8;
  files_off = number_at mmap 132 8;
  files_len = number_at mmap 140 8;
  lookup_off = number_at mmap 148 8;
  lookup_len = number_at mmap 156 8;
  postings_off = number_at mmap 164 8;
  postings_len = number_at mmap 172 8;
}

-- The checks of the numbers in the header, in their order; `none` is a pass.
pub check_header : List ℕ → Header → Option ShardError
check_header mmap h =
    if ltb 1000000 h.file_count
    then some (corrupt "file_count exceeds safety cap")
    else if ltb 268435456 h.gram_count
    then some (corrupt "gram_count exceeds safety cap")
    else if not (check_section mmap h.files_off h.files_len)
        || (not (check_section mmap h.lookup_off h.lookup_len)
            || not (check_section mmap h.postings_off h.postings_len))
    then some (corrupt "section bounds exceed file")
    else if not (ltb (h.gram_count * 20) (2 ^ 64) && h.gram_count * 20 == h.lookup_len)
    then some (corrupt "lookup length mismatch")
    else if not (
        leb 192 h.files_off
        && (leb (h.files_off + h.files_len) h.lookup_off
            && leb (h.lookup_off + h.lookup_len) h.postings_off))
    then some (corrupt "sections out of order or overlapping")
    else if ltb (h.files_len / 4) h.file_count
    then some (corrupt "file_count exceeds file table capacity")
    else none

module _ (from_utf8 : List ℕ → Option String) where
  pub push_path : Option String → Outcome (List String) → Outcome (List String)
  push_path none rest = err (corrupt "path not utf8")
  push_path (some p) (err e) = err e
  push_path (some p) (ok files) = ok (p ∷ files)

  -- `fbuf` is what the position has not reached. An error in a path comes before one in a later path.
  pub read_paths : ℕ → List ℕ → Outcome (List String)
  unfolding number_at push_path
  read_paths zero fbuf = ok []
  read_paths (suc count) fbuf =
      let len = number_at fbuf 0 4 in
      let rest = read_paths count (drop len (drop 4 fbuf)) in
      if ltb (length fbuf) 4
      then err (corrupt "truncated file table")
      else if ltb 4096 len
      then err (corrupt "file path exceeds safety cap")
      else if ltb (length fbuf) (4 + len)
      then err (corrupt "truncated file path")
      else push_path (from_utf8 (take len (drop 4 fbuf))) rest

  pub read_oid : List ℕ → Outcome (Option String)
  read_oid [] = ok none
  read_oid (b ∷ bs) = elim (from_utf8 (b ∷ bs)) [
    | none ↦ err (corrupt "commit oid not utf8")
    | some oid ↦ ok (some oid)
  ]

  pub read_id : List ℕ → Outcome String
  read_id bs = elim (from_utf8 bs) [
    | none ↦ err (corrupt "extractor id not utf8")
    | some id ↦ ok id
  ]

  abbrev pub opened : List ℕ → Header → Option String → String → List String → Shard
  opened mmap h commit_oid extractor_id files = record {
    mmap = mmap;
    files = files;
    gram_count = h.gram_count;
    lookup_off = h.lookup_off;
    postings_off = h.postings_off;
    postings_len = h.postings_len;
    extractor_id = extractor_id;
    commit_oid = commit_oid;
  }

  pub with_files : List ℕ → Header → Option String → String → Outcome (List String) → Outcome Shard
  with_files mmap h commit_oid extractor_id (err e) = err e
  with_files mmap h commit_oid extractor_id (ok files) =
      ok (opened mmap h commit_oid extractor_id files)

  pub after_ids : List ℕ → Header → Outcome (Option String) → Outcome String → Outcome Shard
  unfolding with_files read_paths
  after_ids mmap h (err e) id = err e
  after_ids mmap h (ok oid) (err e) = err e
  after_ids mmap h (ok oid) (ok id) = elim (check_header mmap h) [
    | some e ↦ err e
    | none ↦
        with_files mmap h oid id
          (read_paths h.file_count (take h.files_len (drop h.files_off mmap)))
  ]

  pub open_shard : List ℕ → Outcome Shard
  unfolding bytes_eq until_zero read_oid read_id after_ids number_at
  open_shard mmap =
      if ltb (length mmap) 192
      then err (corrupt "file shorter than header")
      else if not (bytes_eq (take 8 mmap) magic)
      then err (corrupt "bad magic")
      else if not (number_at mmap 8 4 == 1)
      then err (version_mismatch (number_at mmap 8 4))
      else after_ids mmap (read_header mmap) (read_oid (until_zero (take 40 (drop 16 mmap))))
          (read_id (until_zero (take 64 (drop 56 mmap))))

-- The hash of the record `i` of the lookup section.
pub record_hash : Shard → ℕ → ℕ
unfolding number_at
record_hash s i = number_at s.mmap (s.lookup_off + i * 20) 8

-- The binary search; each round halves the range, so its length is enough fuel.
pub lower_bound : (ℕ → ℕ) → ℕ → ℕ → ℕ → ℕ → ℕ
lower_bound key hash zero lo hi = lo
lower_bound key hash (suc fuel) lo hi =
    let mid = (lo + hi) / 2 in
    let right = lower_bound key hash fuel (mid + 1) hi in
    let left = lower_bound key hash fuel lo mid in
    if ltb lo hi then if ltb (key mid) hash then right else left else lo

-- The run of a record, if it lies within the postings section.
run_of : Shard → ℕ → List ℕ
unfolding number_at
run_of s i =
    let off = number_at s.mmap (s.lookup_off + i * 20 + 8) 8 in
    let len = number_at s.mmap (s.lookup_off + i * 20 + 16) 4 in
    if ltb (off + len) (2 ^ 64) && leb (off + len) s.postings_len
    then read_run (take len (drop (s.postings_off + off) s.mmap)) (length s.files % 2 ^ 32)
    else []

pub postings : Shard → ℕ → List ℕ
unfolding record_hash lower_bound run_of
postings s hash =
    let n = s.gram_count in
    let i = lower_bound (record_hash s) hash n 0 n in
    if leb (s.lookup_off + n * 20) (length s.mmap) && (ltb i n && record_hash s i == hash)
    then run_of s i
    else []
