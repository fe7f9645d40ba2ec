-- ===== src/Shard/Reader/Written/Sizes.antt =====
-- The sizes and numbers of the file that `ShardBuilder::write` of shard.rs makes, and the checks of `open` on them.
use mathlib.Core.List.{flatten}
use gitpixel.Base.{ℕ, ◌+◌, ◌*◌, ◌%◌, ◌^◌, ◌<◌, ◌≤◌, ◌≡◌, refl, List, [], ◌∷◌, Option, none, arith}
use gitpixel.Base.{String, length, All, length-append, sort_unstable, length-sort_unstable}
use gitpixel.Shard.Builder.{ShardBuilder}
use gitpixel.Shard.Writer.{
  text_field, keys, gram_buffers, write_files, oid_text, write_header, shard_bytes,
}
use gitpixel.Shard.Reader.{Shard, Header, check_header, opened}
use gitpixel.Shard.Reader.Written.Fields.{length-to_le_bytes, length-zero_bytes}
use gitpixel.Shard.Reader.Written.Head.{header_fields, FitsWidths, ReadsAs, header_fields-ReadsAs}
use gitpixel.Shard.Reader.Written.Texts.{NoZero, Given, length-text_field}
use gitpixel.Shard.Reader.Written.Layout.{gram_buffers_lem, length-records_of}

pub check_header-none :
    (mmap : List ℕ) (h : Header)
    → h.file_count ≤ 1000000
    → h.gram_count ≤ 268435456
    → h.file_count * 4 ≤ h.files_len
    → h.files_off ≡ 192
    → h.lookup_off ≡ 192 + h.files_len
    → h.lookup_len ≡ h.gram_count * 20
    → h.postings_off ≡ h.lookup_off + h.lookup_len
    → length mmap ≡ h.postings_off + h.postings_len
    → length mmap < 2 ^ 64
    → check_header mmap h ≡ none
unfolding check_header
check_header-none mmap h fc gc cap fo lo ll po total fits = ground arith

abbrev total : List (List ℕ) → ℕ
total [] = 0
total (x ∷ xs) = length x + total xs

length-flatten : (xs : List (List ℕ)) → length (flatten xs) ≡ total xs
unfolding flatten
length-flatten [] = refl
length-flatten (x ∷ xs) = omega (arith, length-append x (flatten xs), length-flatten xs)

length-header :
    (oid id : List ℕ) (h : Header)
    → length oid ≡ 40
    → length id ≡ 64
    → length (flatten (header_fields oid id h)) ≡ 192
length-header oid id h oid_len id_len = omega (
  arith,
  length-flatten (header_fields oid id h),
  length-to_le_bytes 4 1,
  length-zero_bytes 4,
  oid_len,
  id_len,
  length-to_le_bytes 4 h.file_count,
  length-to_le_bytes 8 h.gram_count,
  length-to_le_bytes 8 h.files_off,
  length-to_le_bytes 8 h.files_len,
  length-to_le_bytes 8 h.lookup_off,
  length-to_le_bytes 8 h.lookup_len,
  length-to_le_bytes 8 h.postings_off,
  length-to_le_bytes 8 h.postings_len,
  length-zero_bytes 12,
)

-- The numbers that `write` puts into the header.
abbrev pub numbers_of : (String → List ℕ) → ShardBuilder → Header
numbers_of to_utf8 b = record {
  file_count = length b.files % 2 ^ 32;
  gram_count = length (sort_unstable (keys b.postings));
  files_off = 192;
  files_len = length (write_files to_utf8 b.files);
  lookup_off = 192 + length (write_files to_utf8 b.files);
  lookup_len = length (gram_buffers b.postings).lookup;
  postings_off =
      192 + length (write_files to_utf8 b.files) + length (gram_buffers b.postings).lookup;
  postings_len = length (gram_buffers b.postings).runs;
}

-- The builder keeps the limits of the reader, and its ids fit their fields of the header.
pub record Fits (to_utf8 : String → List ℕ) (b : ShardBuilder) : Type 0 where
  pub files : length b.files ≤ 1000000
  pub paths : All (λ p. length (to_utf8 p) ≤ 4096) b.files
  pub grams : length (keys b.postings) ≤ 268435456
  pub oid_given : Given to_utf8 b.commit_oid
  pub oid_fits : length (to_utf8 (oid_text b.commit_oid)) ≤ 40
  pub oid_clean : NoZero (to_utf8 (oid_text b.commit_oid))
  pub id_fits : length (to_utf8 b.extractor_id) ≤ 64
  pub id_clean : NoZero (to_utf8 b.extractor_id)
  pub size : length (shard_bytes to_utf8 b) < 2 ^ 64

-- The shard that `open` is to make of the file.
abbrev pub shard_of : (String → List ℕ) → (List ℕ → Option String) → ShardBuilder → Shard
shard_of to_utf8 from_utf8 b =
    opened from_utf8 (shard_bytes to_utf8 b) (numbers_of to_utf8 b) b.commit_oid b.extractor_id
      b.files

abbrev pub sections : (String → List ℕ) → ShardBuilder → List ℕ
sections to_utf8 b = flatten (
    write_files to_utf8 b.files
    ∷ (gram_buffers b.postings).lookup
    ∷ (gram_buffers b.postings).runs
    ∷ [])

pub length-shard_bytes :
    (to_utf8 : String → List ℕ) (b : ShardBuilder)
    → Fits to_utf8 b
    → length (shard_bytes to_utf8 b)
      ≡ (numbers_of to_utf8 b).postings_off + (numbers_of to_utf8 b).postings_len
unfolding shard_bytes write_header
length-shard_bytes to_utf8 b f =
    let oid : List ℕ = text_field 40 (to_utf8 (oid_text b.commit_oid)) in
    let id : List ℕ = text_field 64 (to_utf8 b.extractor_id) in
    let header : List ℕ = flatten (header_fields oid id (numbers_of to_utf8 b)) in
    omega (
      arith,
      length-flatten (
          header
          ∷ write_files to_utf8 b.files
          ∷ (gram_buffers b.postings).lookup
          ∷ (gram_buffers b.postings).runs
          ∷ []),
      length-header oid id (numbers_of to_utf8 b)
          (length-text_field 40 (to_utf8 (oid_text b.commit_oid)) f.oid_fits)
          (length-text_field 64 (to_utf8 b.extractor_id) f.id_fits),
    )

pub length-lookup :
    (m : List (ℕ × List ℕ)) → length (gram_buffers m).lookup ≡ length (sort_unstable (keys m)) * 20
length-lookup m = rw (gram_buffers_lem m) (length-records_of m 0 (sort_unstable (keys m)))

numbers_of-FitsWidths :
    (to_utf8 : String → List ℕ) (b : ShardBuilder)
    → Fits to_utf8 b
    → FitsWidths (numbers_of to_utf8 b)
numbers_of-FitsWidths to_utf8 b f =
    let total : _ = length-shard_bytes to_utf8 b f in
    record {
      file_count = omega (arith, f.files);
      gram_count = omega (arith, f.grams, length-sort_unstable (keys b.postings));
      files_off = omega arith;
      files_len = omega (arith, total, f.size);
      lookup_off = omega (arith, total, f.size);
      lookup_len = omega (arith, total, f.size);
      postings_off = omega (arith, total, f.size);
      postings_len = omega (arith, total, f.size);
    }

pub shard_bytes-ReadsAs :
    (to_utf8 : String → List ℕ) (b : ShardBuilder)
    → Fits to_utf8 b
    → ReadsAs
        (shard_bytes to_utf8 b)
        (text_field 40 (to_utf8 (oid_text b.commit_oid)))
        (text_field 64 (to_utf8 b.extractor_id))
        (sections to_utf8 b)
        (numbers_of to_utf8 b)
shard_bytes-ReadsAs to_utf8 b f =
    header_fields-ReadsAs (shard_bytes to_utf8 b) _ _ (sections to_utf8 b) (numbers_of to_utf8 b)
      (unfold shard_bytes in unfold write_header in unfold flatten in refl)
      (length-text_field 40 (to_utf8 (oid_text b.commit_oid)) f.oid_fits)
      (length-text_field 64 (to_utf8 b.extractor_id) f.id_fits) (numbers_of-FitsWidths to_utf8 b f)
