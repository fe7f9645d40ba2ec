-- ===== src/Shard/Reader/Written/Reads.antt =====
-- What stands at the record of each gram in the file that `ShardBuilder::write` of shard.rs made.
use mathlib.Core.List.{flatten}
use gitpixel.Base.{
  ℕ, suc, ◌+◌, ◌*◌, ◌^◌, ◌<◌, ◌≤◌, ◌≡◌, refl, sym, ◌∙◌, subst, true, List, [], ◌∷◌, ◌++◌, arith,
  inl, inr,
}
use gitpixel.Base.{
  String, ◌==◌, length, get_or, take, drop, elem, All, sort_unstable, elem-sort_unstable,
  Bool-cases, drop-drop,
}
use gitpixel.Shard.Builder.{ShardBuilder, ids_of, write_run}
use gitpixel.Shard.Writer.{keys, gram_buffers, write_files, shard_bytes}
use gitpixel.Shard.Reader.{number_at}
use gitpixel.Shard.Reader.Written.Fields.{drop-field, take-field}
use gitpixel.Shard.Reader.Written.Layout.{record_of, records_of, runs_of, gram_buffers_lem}
use gitpixel.Shard.Reader.Written.Records.{
  start_of, drop-records_of, drop-runs_of, run_within, record_of-number_at,
}
use gitpixel.Shard.Reader.Written.Search.{elem-get_or}
use gitpixel.Shard.Reader.Written.Sizes.{numbers_of, Fits, length-shard_bytes, shard_bytes-ReadsAs}

-- The hashes are numbers of 64 bits, and the length of every run fits 32 bits.
pub record FitsRecords (m : List (ℕ × List ℕ)) : Type 0 where
  pub hashes : All (λ h. h < 2 ^ 64) (keys m)
  pub runs : All (λ h. length (write_run (ids_of h m)) < 2 ^ 32) (keys m)

All-elem : (P : ℕ → Type 0) (hs : List ℕ) (h : ℕ) → All P hs → elem h hs ≡ true → P h
All-elem P [] h a e = cc
All-elem P (x ∷ hs) h a e = elim (Bool-cases (h == x)) [
  | inl same ↦ (let eq : x ≡ h = ground arith in subst P eq a.0)
  | inr other ↦ (let later : elem h hs ≡ true = ground arith in All-elem P hs h a.1 later)
]

module _ (to_utf8 : String → List ℕ) (b : ShardBuilder) (f : Fits to_utf8 b) where
  abbrev pub whole : List ℕ
  whole = shard_bytes to_utf8 b

  abbrev pub hashes : List ℕ
  hashes = sort_unstable (keys b.postings)

  abbrev pub off : ℕ
  off = (numbers_of to_utf8 b).lookup_off

  abbrev pub runs : List ℕ
  runs = runs_of b.postings hashes

  lookup_at :
      drop off whole ≡ (gram_buffers b.postings).lookup ++ ((gram_buffers b.postings).runs ++ [])
  unfolding flatten
  lookup_at =
      drop-field whole (write_files to_utf8 b.files) _ 192 (length (write_files to_utf8 b.files))
        (shard_bytes-ReadsAs to_utf8 b f).after refl

  pub lookup_section : drop off whole ≡ records_of b.postings 0 hashes ++ (runs ++ [])
  lookup_section =
      subst (λ t. drop off whole ≡ t.lookup ++ (t.runs ++ [])) (gram_buffers_lem b.postings)
        lookup_at

  abbrev pub postings_off : ℕ
  postings_off = (numbers_of to_utf8 b).postings_off

  pub runs_section : drop postings_off whole ≡ runs ++ []
  runs_section =
      subst (λ t. drop postings_off whole ≡ t.runs ++ []) (gram_buffers_lem b.postings)
        (drop-field whole (gram_buffers b.postings).lookup ((gram_buffers b.postings).runs ++ [])
          off (length (gram_buffers b.postings).lookup) lookup_at refl)

  length-runs : length (gram_buffers b.postings).runs ≡ length runs
  length-runs = rw (gram_buffers_lem b.postings) refl

  abbrev pub hash_at : ℕ → ℕ
  hash_at i = get_or hashes i 0

  abbrev pub start_at : ℕ → ℕ
  start_at i = start_of b.postings hashes i

  abbrev pub run_at : ℕ → List ℕ
  run_at i = write_run (ids_of (hash_at i) b.postings)

  abbrev later_records : ℕ → List ℕ
  later_records i =
      records_of b.postings (0 + start_at (suc i)) (drop (suc i) hashes) ++ (runs ++ [])

  record_at :
      (i : ℕ)
      → i < length hashes
      → drop (off + i * 20) whole ≡ record_of b.postings (start_at i) (hash_at i) ++ later_records i
  record_at i h =
      let zero_sum : 0 + start_at i ≡ start_at i = omega arith in
      subst (λ n. drop (off + i * 20) whole ≡ record_of b.postings n (hash_at i) ++ later_records i)
        zero_sum
        (sym (drop-drop off (i * 20) (off + i * 20) whole refl)
          ∙ (rw lookup_section (drop-records_of b.postings hashes 0 i (runs ++ []) h)))

  pub run_at_start :
      (i : ℕ)
      → i < length hashes
      → take (length (run_at i)) (drop (postings_off + start_at i) whole) ≡ run_at i
  run_at_start i h =
      rw
        (
          sym (drop-drop postings_off (start_at i) (postings_off + start_at i) whole refl),
          runs_section,
          drop-runs_of b.postings hashes i [] h,
        )
        (take-field (run_at i) _ (length (run_at i)) refl)

  pub run_in_bounds :
      (i : ℕ)
      → i < length hashes
      → start_at i + length (run_at i) ≤ (numbers_of to_utf8 b).postings_len
  run_in_bounds i h = omega (arith, run_within b.postings hashes i h, length-runs)

  pub short : (numbers_of to_utf8 b).postings_len < 2 ^ 64
  short = omega (arith, length-shard_bytes to_utf8 b f, f.size)

  module _ (r : FitsRecords b.postings) where
    pub reads :
        (i : ℕ)
        → i < length hashes
        → (number_at whole (off + i * 20) 8 ≡ hash_at i)
          × (number_at whole (off + i * 20 + 8) 8 ≡ start_at i)
          × (number_at whole (off + i * 20 + 16) 4 ≡ length (run_at i))
    reads i h =
        let is_key : elem (hash_at i) (keys b.postings) ≡ true =
          sym (elem-sort_unstable (hash_at i) (keys b.postings)) ∙ elem-get_or hashes i h in
        record_of-number_at whole (later_records i) b.postings (off + i * 20) (start_at i)
          (hash_at i) (record_at i h)
          (All-elem (λ x. x < 2 ^ 64) (keys b.postings) (hash_at i) r.hashes is_key)
          (omega (arith, run_in_bounds i h, short))
          (All-elem (λ x. length (write_run (ids_of x b.postings)) < 2 ^ 32) (keys b.postings)
            (hash_at i) r.runs is_key)
