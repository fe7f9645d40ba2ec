-- ===== src/Shard/Reader/Written/Head.antt =====
-- The header of a shard, whose fields stand at the offsets at which `Shard::open` of shard.rs reads them.
use mathlib.Core.List.{flatten}
use gitpixel.Base.{ℕ, ◌^◌, ◌<◌, ◌≡◌, refl, List, [], ◌∷◌, ◌++◌, arith}
use gitpixel.Base.{length, take, drop}
use gitpixel.Shard.Writer.{to_le_bytes, zero_bytes, magic}
use gitpixel.Shard.Reader.{Header, read_header, number_at}
use gitpixel.Shard.Reader.Written.Fields.{
  length-to_le_bytes, length-zero_bytes, next_field, take-next_field, number_at-to_le_bytes,
}

-- The fields of a header with the given texts and numbers.
abbrev pub header_fields : List ℕ → List ℕ → Header → List (List ℕ)
header_fields oid id h =
    magic
    ∷ to_le_bytes 4 1
    ∷ zero_bytes 4
    ∷ oid
    ∷ id
    ∷ to_le_bytes 4 h.file_count
    ∷ to_le_bytes 8 h.gram_count
    ∷ to_le_bytes 8 h.files_off
    ∷ to_le_bytes 8 h.files_len
    ∷ to_le_bytes 8 h.lookup_off
    ∷ to_le_bytes 8 h.lookup_len
    ∷ to_le_bytes 8 h.postings_off
    ∷ to_le_bytes 8 h.postings_len
    ∷ zero_bytes 12
    ∷ []

-- The numbers fit the widths of their fields.
pub record FitsWidths (h : Header) : Type 0 where
  pub file_count : h.file_count < 2 ^ 32
  pub gram_count : h.gram_count < 2 ^ 64
  pub files_off : h.files_off < 2 ^ 64
  pub files_len : h.files_len < 2 ^ 64
  pub lookup_off : h.lookup_off < 2 ^ 64
  pub lookup_len : h.lookup_len < 2 ^ 64
  pub postings_off : h.postings_off < 2 ^ 64
  pub postings_len : h.postings_len < 2 ^ 64

-- What is read of a file that starts with a header.
pub record ReadsAs (whole oid id rest : List ℕ) (h : Header) : Type 0 where
  pub starts : take 8 whole ≡ magic
  pub version : number_at whole 8 4 ≡ 1
  pub oid_raw : take 40 (drop 16 whole) ≡ oid
  pub id_raw : take 64 (drop 56 whole) ≡ id
  pub numbers : read_header whole ≡ h
  pub after : drop 192 whole ≡ rest

pub header_fields-ReadsAs :
    (whole oid id rest : List ℕ) (h : Header)
    → whole ≡ flatten (header_fields oid id h) ++ rest
    → length oid ≡ 40
    → length id ≡ 64
    → FitsWidths h
    → ReadsAs whole oid id rest h
unfolding read_header
header_fields-ReadsAs whole oid id rest h e oid_len id_len fits =
    let at_8 = next_field whole magic rest _ 0 8 e refl in
    let at_12 = next_field whole _ rest _ 8 4 at_8 (length-to_le_bytes 4 1) in
    let at_16 = next_field whole _ rest _ 12 4 at_12 (length-zero_bytes 4) in
    let at_56 = next_field whole oid rest _ 16 40 at_16 oid_len in
    let at_120 = next_field whole id rest _ 56 64 at_56 id_len in
    let at_124 = next_field whole _ rest _ 120 4 at_120 (length-to_le_bytes 4 h.file_count) in
    let at_132 = next_field whole _ rest _ 124 8 at_124 (length-to_le_bytes 8 h.gram_count) in
    let at_140 = next_field whole _ rest _ 132 8 at_132 (length-to_le_bytes 8 h.files_off) in
    let at_148 = next_field whole _ rest _ 140 8 at_140 (length-to_le_bytes 8 h.files_len) in
    let at_156 = next_field whole _ rest _ 148 8 at_148 (length-to_le_bytes 8 h.lookup_off) in
    let at_164 = next_field whole _ rest _ 156 8 at_156 (length-to_le_bytes 8 h.lookup_len) in
    let at_172 = next_field whole _ rest _ 164 8 at_164 (length-to_le_bytes 8 h.postings_off) in
    let at_180 = next_field whole _ rest _ 172 8 at_172 (length-to_le_bytes 8 h.postings_len) in
    let file_count' =
      number_at-to_le_bytes whole rest _ 120 4 h.file_count at_120 fits.file_count in
    let gram_count' =
      number_at-to_le_bytes whole rest _ 124 8 h.gram_count at_124 fits.gram_count in
    let files_off' = number_at-to_le_bytes whole rest _ 132 8 h.files_off at_132 fits.files_off in
    let files_len' = number_at-to_le_bytes whole rest _ 140 8 h.files_len at_140 fits.files_len in
    let lookup_off' =
      number_at-to_le_bytes whole rest _ 148 8 h.lookup_off at_148 fits.lookup_off in
    let lookup_len' =
      number_at-to_le_bytes whole rest _ 156 8 h.lookup_len at_156 fits.lookup_len in
    let postings_off' =
      number_at-to_le_bytes whole rest _ 164 8 h.postings_off at_164 fits.postings_off in
    let postings_len' =
      number_at-to_le_bytes whole rest _ 172 8 h.postings_len at_172 fits.postings_len in
    record {
      starts = take-next_field whole magic rest _ 0 8 e refl;
      version = number_at-to_le_bytes whole rest _ 8 4 1 at_8 (omega arith);
      oid_raw = take-next_field whole oid rest _ 16 40 at_16 oid_len;
      id_raw = take-next_field whole id rest _ 56 64 at_56 id_len;
      numbers =
          rw
            (
              file_count', gram_count', files_off', files_len', lookup_off', lookup_len',
              postings_off', postings_len',
            )
            refl;
      after =
          unfold flatten in
          next_field whole (zero_bytes 12) rest [] 180 12 at_180 (length-zero_bytes 12);
    }
