-- ===== src/Shard/Reader/Written/Lookup.antt =====
-- `Shard::postings` of shard.rs on the file that `ShardBuilder::write` made.
use gitpixel.Base.{
  ℕ, ◌+◌, ◌*◌, ◌%◌, ◌^◌, ◌<◌, ◌≤◌, ◌≡◌, sym, ◌∙◌, ap, true, ◌&&◌, List, Option, arith, inl, inr,
}
use gitpixel.Base.{
  String, ltb, leb, ◌==◌, length, elem, elem-sort_unstable, sort_unstable-Rises, Bool-cases,
}
use gitpixel.Shard.Builder.{ShardBuilder, ids_of}
use gitpixel.Shard.Builder.Index.{IsValid}
use gitpixel.Shard.Builder.Runs.{read_run-write_run}
use gitpixel.Shard.Writer.{keys, shard_bytes}
use gitpixel.Shard.Reader.{record_hash, lower_bound, run_of, postings}
use gitpixel.Shard.Reader.Written.Reads.{
  FitsRecords, hashes, off, hash_at, start_at, run_at, reads, run_at_start, run_in_bounds, short,
}
use gitpixel.Shard.Reader.Written.Search.{ids_of-absent, lower_bound-elem}
use gitpixel.Shard.Reader.Written.Sizes.{
  numbers_of, Fits, shard_of, length-shard_bytes, length-lookup,
}

in_bounds : (x y n : ℕ) → x + y ≤ n → n < 2 ^ 64 → (ltb (x + y) (2 ^ 64) && leb (x + y) n) ≡ true
in_bounds x y n h fits = ground arith

fits_le : (x n : ℕ) → x ≤ n → leb x n ≡ true
fits_le x n h = ground arith

both : (i n k x h : ℕ) → (ltb i n && k == h) ≡ true → (i < n → k ≡ x) → (i < n) × (x ≡ h)
both i n k x h e at = ground arith

module _ (to_utf8 : String → List ℕ) (from_utf8 : List ℕ → Option String) (b : ShardBuilder)
    (f : Fits to_utf8 b) (r : FitsRecords b.postings) (v : IsValid b) where
  run_of-shard_of :
      (i : ℕ)
      → i < length (hashes to_utf8 b f)
      → run_of (shard_of to_utf8 from_utf8 b) i ≡ ids_of (hash_at to_utf8 b f i) b.postings
  unfolding run_of
  run_of-shard_of i h =
      let h_i : ℕ = hash_at to_utf8 b f i in
      let count : length b.files % 2 ^ 32 ≡ length b.files = omega (arith, f.files) in
      rw
        (
          (reads to_utf8 b f r i h).1,
          (reads to_utf8 b f r i h).2,
          in_bounds (start_at to_utf8 b f i) (length (run_at to_utf8 b f i))
              (numbers_of to_utf8 b).postings_len (run_in_bounds to_utf8 b f i h)
              (short to_utf8 b f),
          run_at_start to_utf8 b f i h,
          count,
        )
        (read_run-write_run (length b.files) (ids_of h_i b.postings) (v.ascends h_i) (v.below h_i)
          (omega (arith, f.files)))

  key_at :
      (i : ℕ)
      → i < length (hashes to_utf8 b f)
      → record_hash (shard_of to_utf8 from_utf8 b) i ≡ hash_at to_utf8 b f i
  unfolding record_hash
  key_at i h = (reads to_utf8 b f r i h).0

  whole_table :
      leb (off to_utf8 b f + length (hashes to_utf8 b f) * 20) (length (shard_bytes to_utf8 b))
      ≡ true
  whole_table =
      fits_le _ _ (omega (arith, length-shard_bytes to_utf8 b f, length-lookup b.postings))

  abbrev place : ℕ → ℕ
  place h =
      lower_bound (record_hash (shard_of to_utf8 from_utf8 b)) h (length (hashes to_utf8 b f)) 0
        (length (hashes to_utf8 b f))

  found :
      (h : ℕ)
      → (ltb (place h) (length (hashes to_utf8 b f))
          && record_hash (shard_of to_utf8 from_utf8 b) (place h) == h)
        ≡ elem h (hashes to_utf8 b f)
  found h =
      lower_bound-elem (hashes to_utf8 b f) (sort_unstable-Rises (keys b.postings))
        (record_hash (shard_of to_utf8 from_utf8 b)) key_at h

  place-hash_at :
      (h : ℕ)
      → elem h (hashes to_utf8 b f) ≡ true
      → (place h < length (hashes to_utf8 b f)) × (hash_at to_utf8 b f (place h) ≡ h)
  place-hash_at h e = both _ _ _ _ _ (found h ∙ e) (key_at (place h))

  -- In the file that a builder is written to, `postings` finds for every gram the ids that the builder has for it,
  -- and none for a gram that the builder does not have, within the limits of the reader.
  pub postings-shard_bytes :
      (h : ℕ) → postings (shard_of to_utf8 from_utf8 b) h ≡ ids_of h b.postings
  unfolding postings
  postings-shard_bytes h = elim (Bool-cases (elem h (hashes to_utf8 b f))) [
    | inl e ↦
        let (inside, same) = place-hash_at h e in
        rw (whole_table, found h, e)
          (run_of-shard_of (place h) inside ∙ ap (λ x. ids_of x b.postings) same)
    | inr e ↦
        rw (whole_table, found h, e)
          (sym (ids_of-absent h b.postings (sym (elem-sort_unstable h (keys b.postings)) ∙ e)))
  ]
