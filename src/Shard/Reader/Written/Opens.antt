-- ===== src/Shard/Reader/Written/Opens.antt =====
-- `Shard::open` of shard.rs on the file that `ShardBuilder::write` made.
use gitpixel.Base.{ℕ, ◌%◌, ◌^◌, ◌≤◌, ◌≡◌, refl, false, List, [], Option, none, some, arith}
use gitpixel.Base.{String, ltb, length, take, drop, take-append, length-sort_unstable}
use mathlib.Core.List.{flatten}
use gitpixel.Shard.Builder.{ShardBuilder}
use gitpixel.Shard.Writer.{keys, write_files, oid_text, shard_bytes}
use gitpixel.Shard.Reader.{
  ok, check_header, read_paths, after_ids, with_files, open_shard, bytes_eq,
}
use gitpixel.Shard.Reader.Written.Head.{ReadsAs}
use gitpixel.Shard.Reader.Written.Texts.{
  until_zero-text_field, read_id-to_utf8, read_oid-oid_text, read_paths-write_files,
  length-write_files,
}
use gitpixel.Shard.Reader.Written.Sizes.{
  numbers_of, Fits, shard_of, check_header-none, length-shard_bytes, length-lookup,
  shard_bytes-ReadsAs,
}

numbers_of-passes :
    (to_utf8 : String → List ℕ) (b : ShardBuilder)
    → Fits to_utf8 b
    → check_header (shard_bytes to_utf8 b) (numbers_of to_utf8 b) ≡ none
numbers_of-passes to_utf8 b f =
    let grams : _ = length-sort_unstable (keys b.postings) in
    check_header-none (shard_bytes to_utf8 b) (numbers_of to_utf8 b) (omega (arith, f.files))
      (omega (arith, grams, f.grams)) (omega (arith, f.files, length-write_files to_utf8 b.files))
      refl refl (length-lookup b.postings) refl (length-shard_bytes to_utf8 b f) f.size

files_section :
    (to_utf8 : String → List ℕ) (b : ShardBuilder)
    → Fits to_utf8 b
    → take (length (write_files to_utf8 b.files)) (drop 192 (shard_bytes to_utf8 b))
      ≡ write_files to_utf8 b.files
unfolding flatten
files_section to_utf8 b f =
    rw (shard_bytes-ReadsAs to_utf8 b f).after (take-append (write_files to_utf8 b.files) _)

at_least : (n : ℕ) → 192 ≤ n → ltb n 192 ≡ false
at_least n h = ground arith

module _ (to_utf8 : String → List ℕ) (from_utf8 : List ℕ → Option String)
    (from_utf8-to_utf8 : (s : String) → from_utf8 (to_utf8 s) ≡ some s)
    (to_utf8_empty : to_utf8 "" ≡ []) where
  paths_of :
      (b : ShardBuilder)
      → Fits to_utf8 b
      → read_paths from_utf8
          (length b.files % 2 ^ 32)
          (take (length (write_files to_utf8 b.files)) (drop 192 (shard_bytes to_utf8 b)))
        ≡ ok b.files
  paths_of b f =
      let count : length b.files % 2 ^ 32 ≡ length b.files = omega (arith, f.files) in
      rw (count, files_section to_utf8 b f)
        (read_paths-write_files to_utf8 from_utf8 from_utf8-to_utf8 to_utf8_empty b.files f.paths)

  after_ids-numbers_of :
      (b : ShardBuilder)
      → Fits to_utf8 b
      → after_ids from_utf8
          (shard_bytes to_utf8 b)
          (numbers_of to_utf8 b)
          (ok b.commit_oid)
          (ok b.extractor_id)
        ≡ ok (shard_of to_utf8 from_utf8 b)
  unfolding after_ids with_files
  after_ids-numbers_of b f =
      rw (numbers_of-passes to_utf8 b f, paths_of b f, after_ids, with_files) refl

  -- A builder within the limits of the reader is written to a file that opens as the shard with its files, its
  -- extractor, its commit and its number of grams, where decoding inverts the encoding of texts.
  pub open_shard-shard_bytes :
      (b : ShardBuilder)
      → Fits to_utf8 b
      → open_shard from_utf8 (shard_bytes to_utf8 b) ≡ ok (shard_of to_utf8 from_utf8 b)
  unfolding open_shard bytes_eq
  open_shard-shard_bytes b f =
      let r : ReadsAs _ _ _ _ _ = shard_bytes-ReadsAs to_utf8 b f in
      let long : ltb (length (shard_bytes to_utf8 b)) 192 ≡ false =
        at_least (length (shard_bytes to_utf8 b)) (omega (arith, length-shard_bytes to_utf8 b f)) in
      rw
        (
          long,
          r.starts,
          r.version,
          r.numbers,
          r.oid_raw,
          r.id_raw,
          until_zero-text_field 40 (to_utf8 (oid_text b.commit_oid)) f.oid_fits f.oid_clean,
          until_zero-text_field 64 (to_utf8 b.extractor_id) f.id_fits f.id_clean,
          read_oid-oid_text to_utf8 from_utf8 from_utf8-to_utf8 to_utf8_empty b.commit_oid
              f.oid_given,
          read_id-to_utf8 to_utf8 from_utf8 from_utf8-to_utf8 to_utf8_empty b.extractor_id,
        )
        (after_ids-numbers_of b f)
