-- ===== src/Shard/Reader/Examples.antt =====
-- The reader at the smallest file that `open` accepts.
use gitpixel.Base.{ℕ, suc, zero, ◌*◌, ◌%◌, ◌^◌, ◌≡◌, refl, List, [], ◌∷◌, ◌++◌, Option, none, some}
use gitpixel.Base.{String, length}
use gitpixel.Shard.Builder.Runs.{Below}
use gitpixel.Shard.Writer.{magic}
use gitpixel.Shard.Reader.{
  Shard, ok, err, corrupt, read_header, opened, number_at, from_le_bytes, bytes_eq, until_zero,
  check_header, read_paths, read_oid, read_id, with_files, after_ids, open_shard, lower_bound,
  postings,
}
use gitpixel.Shard.Reader.Bounds.{InFile, open_shard-InFile, postings-Below}

abbrev zeros : ℕ → List ℕ
zeros zero = []
zeros (suc n) = 0 ∷ zeros n

abbrev at_192 : List ℕ
at_192 = 192 ∷ (zeros 7 ++ zeros 8)

abbrev no_files : List ℕ
no_files = magic ++ (1 ∷ zeros 119) ++ zeros 4 ++ at_192 ++ at_192 ++ at_192 ++ zeros 12

abbrev any_text : List ℕ → Option String
any_text bs = some "trigram"

abbrev empty_shard : Shard
empty_shard = opened any_text no_files (read_header no_files) none "trigram" []

accepts : open_shard any_text no_files ≡ ok empty_shard
unfolding open_shard after_ids with_files read_id read_oid read_paths check_header until_zero
    bytes_eq number_at from_le_bytes read_header
accepts = refl

rejects : open_shard any_text (zeros 191) ≡ err (corrupt "file shorter than header")
unfolding open_shard
rejects = refl

open_shard-InFile_example : InFile empty_shard
open_shard-InFile_example = open_shard-InFile any_text no_files empty_shard accepts

postings-Below_example : Below (length empty_shard.files % 2 ^ 32) (postings empty_shard 7)
postings-Below_example = postings-Below empty_shard 7

lands_at_three : lower_bound (λ i. i * 2) 5 4 0 4 ≡ 3
unfolding lower_bound
lands_at_three = refl
