-- ===== src/Shard/Reader/Written/Texts.antt =====
-- The texts of a shard in shard.rs read back: the two identifiers of the header, and the path table.
use gitpixel.Base.{
  ℕ, zero, suc, ◌+◌, ◌-◌, ◌*◌, ◌%◌, ◌^◌, ◌<◌, ◌≤◌, ◌≡◌, ◌≢◌, refl, ◌∙◌, List, [], ◌∷◌, ◌++◌, Option,
  none, some, arith,
}
use gitpixel.Base.{
  String, length, take, drop, All, length-append, take-append, drop-append, length-take,
}
use gitpixel.Shard.Writer.{to_le_bytes, zero_bytes, text_field, write_files, oid_text}
use gitpixel.Shard.Reader.{
  ok, number_at, from_le_bytes, until_zero, read_paths, push_path, read_oid, read_id,
}
use gitpixel.Shard.Reader.Written.Fields.{
  length-to_le_bytes, length-zero_bytes, take-field, drop-field, from_le_bytes-to_le_bytes,
}

-- A text of the header without a zero byte.
abbrev pub NoZero : List ℕ → Type 0
NoZero bs = All (λ b. b ≢ 0) bs

take_all : (n : ℕ) (bs : List ℕ) → length bs ≤ n → take n bs ≡ bs
take_all zero [] h = refl
take_all zero (b ∷ bs) h = absurd (omega (arith, h))
take_all (suc n) [] h = refl
take_all (suc n) (b ∷ bs) h = rw (take_all n bs (omega (arith, h))) refl

pub length-text_field : (n : ℕ) (bs : List ℕ) → length bs ≤ n → length (text_field n bs) ≡ n
unfolding text_field
length-text_field n bs h = omega (
  arith,
  length-append (take n bs) (zero_bytes (n - length bs)),
  length-take n bs,
  length-zero_bytes (n - length bs),
)

until_zero-zero_bytes : (n : ℕ) → until_zero (zero_bytes n) ≡ []
unfolding until_zero zero_bytes
until_zero-zero_bytes zero = refl
until_zero-zero_bytes (suc n) = refl

until_zero-append : (bs : List ℕ) (n : ℕ) → NoZero bs → until_zero (bs ++ zero_bytes n) ≡ bs
unfolding until_zero
until_zero-append [] n h = until_zero-zero_bytes n
until_zero-append (b ∷ bs) n h = ground (arith, until_zero-append bs n h.1)

-- What `open` makes of a text field is the text, if it fits and has no zero byte.
pub until_zero-text_field :
    (n : ℕ) (bs : List ℕ) → length bs ≤ n → NoZero bs → until_zero (text_field n bs) ≡ bs
unfolding text_field
until_zero-text_field n bs h clean =
    rw (take_all n bs h) (until_zero-append bs (n - length bs) clean)

-- The path table has four bytes for each path at least.
pub length-write_files :
    (to_utf8 : String → List ℕ) (files : List String)
    → length files * 4 ≤ length (write_files to_utf8 files)
unfolding write_files
length-write_files to_utf8 [] = omega arith
length-write_files to_utf8 (p ∷ files) =
    let len : List ℕ = to_le_bytes 4 (length (to_utf8 p) % 2 ^ 32) in
    omega (
      arith,
      length-append len (to_utf8 p ++ write_files to_utf8 files),
      length-append (to_utf8 p) (write_files to_utf8 files),
      length-to_le_bytes 4 (length (to_utf8 p) % 2 ^ 32),
      length-write_files to_utf8 files,
    )

-- An id that is set is not empty.
abbrev pub Given : (String → List ℕ) → Option String → Type 0
Given to_utf8 none = Unit
Given to_utf8 (some oid) = 0 < length (to_utf8 oid)

module _ (to_utf8 : String → List ℕ) (from_utf8 : List ℕ → Option String)
    (from_utf8-to_utf8 : (s : String) → from_utf8 (to_utf8 s) ≡ some s)
    (to_utf8_empty : to_utf8 "" ≡ []) where
  pub read_id-to_utf8 : (id : String) → read_id from_utf8 (to_utf8 id) ≡ ok id
  unfolding read_id
  read_id-to_utf8 id = rw (from_utf8-to_utf8 id, read_id) refl

  read_oid-some :
      (bs : List ℕ) (oid : String)
      → 0 < length bs
      → from_utf8 bs ≡ some oid
      → read_oid from_utf8 bs ≡ ok (some oid)
  unfolding read_oid
  read_oid-some [] oid h e = absurd (omega (arith, h))
  read_oid-some (b ∷ bs) oid h e = rw (e, read_oid) refl

  pub read_oid-oid_text :
      (oid : Option String)
      → Given to_utf8 oid
      → read_oid from_utf8 (to_utf8 (oid_text oid)) ≡ ok oid
  unfolding oid_text read_oid
  read_oid-oid_text none h = rw to_utf8_empty refl
  read_oid-oid_text (some oid) h = read_oid-some (to_utf8 oid) oid h (from_utf8-to_utf8 oid)

  read_paths-step :
      (path : String) (bs rest : List ℕ) (files : List String)
      → length bs ≤ 4096
      → from_utf8 bs ≡ some path
      → read_paths from_utf8 (length files) rest ≡ ok files
      → read_paths from_utf8
          (suc (length files))
          (to_le_bytes 4 (length bs % 2 ^ 32) ++ (bs ++ rest))
        ≡ ok (path ∷ files)
  unfolding read_paths push_path number_at
  read_paths-step path bs rest files h e later =
      let len : List ℕ = to_le_bytes 4 (length bs % 2 ^ 32) in
      let four : length len ≡ 4 = length-to_le_bytes 4 (length bs % 2 ^ 32) in
      let after : drop 4 (len ++ (bs ++ rest)) ≡ bs ++ rest =
        drop-field (len ++ (bs ++ rest)) len (bs ++ rest) 0 4 refl four in
      let value : from_le_bytes len ≡ length bs =
        from_le_bytes-to_le_bytes 4 (length bs % 2 ^ 32) (omega (arith, h)) ∙ (omega (arith, h)) in
      let total : length (len ++ (bs ++ rest)) ≡ 4 + (length bs + length rest) =
        omega (arith, length-append len (bs ++ rest), length-append bs rest, four) in
      rw
        (
          take-field len (bs ++ rest) 4 four,
          value,
          total,
          after,
          take-append bs rest,
          drop-append bs rest,
          later,
          e,
        )
        (ground (arith, h))

  -- The path table reads back, if no path is longer than the reader takes.
  pub read_paths-write_files :
      (files : List String)
      → All (λ p. length (to_utf8 p) ≤ 4096) files
      → read_paths from_utf8 (length files) (write_files to_utf8 files) ≡ ok files
  unfolding write_files read_paths
  read_paths-write_files [] h = refl
  read_paths-write_files (p ∷ files) h =
      read_paths-step p (to_utf8 p) (write_files to_utf8 files) files h.0 (from_utf8-to_utf8 p)
        (read_paths-write_files files h.1)
