-- ===== src/Shard/Writer.antt =====
-- The bytes that `ShardBuilder::write` of crates/gitpixel-core/src/shard.rs puts into the file of a shard. `to_utf8` is
-- `as_bytes` of the standard library. A `usize` has 64 bits.
use gitpixel.Base.{ℕ, zero, suc, ◌+◌, ◌-◌, ◌/◌, ◌%◌, ◌^◌, List, [], ◌∷◌, ◌++◌, Option, none, some}
use gitpixel.Base.{String, length, take, sort_unstable}
use mathlib.Core.List.{flatten}
use gitpixel.Shard.Builder.{ShardBuilder, ids_of, write_run}

-- `v.to_le_bytes()` of a number of `n` bytes.
unfoldable pub to_le_bytes : ℕ → ℕ → List ℕ
to_le_bytes zero v = []
to_le_bytes (suc n) v = v % 256 ∷ to_le_bytes n (v / 256)

unfoldable pub zero_bytes : ℕ → List ℕ
zero_bytes zero = []
zero_bytes (suc n) = 0 ∷ zero_bytes n

-- A text field of the header, which was zero before: what fits of the text is copied to its start.
unfoldable pub text_field : ℕ → List ℕ → List ℕ
text_field n bs = take n bs ++ zero_bytes (n - length bs)

unfoldable pub keys : List (ℕ × List ℕ) → List ℕ
keys [] = []
keys ((h, ids) ∷ postings) = h ∷ keys postings

-- `lookup_buf` and `postings_buf` of the loop over the sorted hashes.
pub record Buffers : Type 0 where
  pub lookup : List ℕ
  pub runs : List ℕ

unfoldable pub push_gram : List (ℕ × List ℕ) → ℕ → Buffers → Buffers
push_gram postings h b =
    let start = length b.runs in
    let runs = b.runs ++ write_run (ids_of h postings) in
    record {
      lookup =
          b.lookup
          ++ flatten (
              to_le_bytes 8 h
              ∷ to_le_bytes 8 start
              ∷ to_le_bytes 4 ((length runs - start) % 2 ^ 32)
              ∷ []);
      runs = runs;
    }

unfoldable pub push_grams : List (ℕ × List ℕ) → List ℕ → Buffers → Buffers
push_grams postings [] b = b
push_grams postings (h ∷ hashes) b = push_grams postings hashes (push_gram postings h b)

unfoldable pub gram_buffers : List (ℕ × List ℕ) → Buffers
gram_buffers postings =
    push_grams postings (sort_unstable (keys postings)) (record { lookup = []; runs = [] })

abbrev pub magic : List ℕ
magic = 71 ∷ 80 ∷ 88 ∷ 83 ∷ 72 ∷ 65 ∷ 82 ∷ 68 ∷ []

-- `self.commit_oid.as_deref().unwrap_or("")`
unfoldable pub oid_text : Option String → String
oid_text none = ""
oid_text (some oid) = oid

module _ (to_utf8 : String → List ℕ) where
  unfoldable pub write_files : List String → List ℕ
  write_files [] = []
  write_files (p ∷ files) =
      to_le_bytes 4 (length (to_utf8 p) % 2 ^ 32) ++ (to_utf8 p ++ write_files files)

  -- The header by its fields, from byte 0 to byte 191.
  unfoldable pub write_header : ShardBuilder → List ℕ → Buffers → List ℕ
  write_header b files_buf bufs =
      let files_off : ℕ = 192 in
      let lookup_off = files_off + length files_buf in
      let postings_off = lookup_off + length bufs.lookup in
      flatten (
        magic
        ∷ to_le_bytes 4 1
        ∷ zero_bytes 4
        ∷ text_field 40 (to_utf8 (oid_text b.commit_oid))
        ∷ text_field 64 (to_utf8 b.extractor_id)
        ∷ to_le_bytes 4 (length b.files % 2 ^ 32)
        ∷ to_le_bytes 8 (length (sort_unstable (keys b.postings)))
        ∷ to_le_bytes 8 files_off
        ∷ to_le_bytes 8 (length files_buf)
        ∷ to_le_bytes 8 lookup_off
        ∷ to_le_bytes 8 (length bufs.lookup)
        ∷ to_le_bytes 8 postings_off
        ∷ to_le_bytes 8 (length bufs.runs)
        ∷ zero_bytes 12
        ∷ [])

  -- What the four `write_all` calls get.
  abbrev pub shard_sections : ShardBuilder → List (List ℕ)
  shard_sections b =
      let files_buf = write_files b.files in
      let bufs = gram_buffers b.postings in
      write_header b files_buf bufs ∷ files_buf ∷ bufs.lookup ∷ bufs.runs ∷ []

  unfoldable pub shard_bytes : ShardBuilder → List ℕ
  shard_bytes b = flatten (shard_sections b)
