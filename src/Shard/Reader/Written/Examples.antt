-- ===== src/Shard/Reader/Written/Examples.antt =====
-- A shard of two files, written and opened.
use gitpixel.Base.{◌≡◌, refl, [], ◌∷◌, some, arith}
use gitpixel.Shard.Builder.{
  ShardBuilder, ids_of, new, push_id, push_ids, add_file, set_commit_oid, write_run,
}
use gitpixel.Shard.Builder.Index.{IsValid, new-IsValid, add_file-IsValid}
use mathlib.Core.List.{flatten}
use gitpixel.Base.{sort_unstable, dedup, subst}
use gitpixel.Shard.Builder.{write_deltas}
use gitpixel.Shard.Varint.{write_varint, write_loop}
use gitpixel.Shard.Reader.Written.Reads.{FitsRecords}
use gitpixel.Shard.Reader.Written.Lookup.{postings-shard_bytes}
use gitpixel.Shard.Writer.{
  shard_bytes, write_header, write_files, gram_buffers, push_grams, push_gram, keys, to_le_bytes,
  zero_bytes, text_field, oid_text,
}
use gitpixel.Shard.Reader.{ok, open_shard, postings}
use gitpixel.Shard.Reader.Written.Codec.{encode, decode, decode-encode}
use gitpixel.Shard.Reader.Written.Sizes.{Fits, shard_of}
use gitpixel.Shard.Reader.Written.Opens.{open_shard-shard_bytes}

abbrev two_files : ShardBuilder
two_files = record {
  postings = (9, 0 ∷ 1 ∷ []) ∷ (4, 1 ∷ []) ∷ [];
  files = "a.rs" ∷ "b.rs" ∷ [];
  extractor_id = "trigram-v1";
  commit_oid = some "c0ffee";
}

two_files-Fits : Fits encode two_files
unfolding encode shard_bytes write_header write_files gram_buffers push_grams push_gram keys ids_of
    write_run write_deltas write_varint write_loop to_le_bytes zero_bytes text_field oid_text
    sort_unstable flatten
two_files-Fits = record {
  files = omega arith;
  paths = ground arith;
  grams = omega arith;
  oid_given = omega arith;
  oid_fits = omega arith;
  oid_clean = ground arith;
  id_fits = omega arith;
  id_clean = ground arith;
  size = omega arith;
}

two_files-FitsRecords : FitsRecords two_files.postings
unfolding keys ids_of write_run write_deltas write_varint write_loop
two_files-FitsRecords = record { hashes = ground arith; runs = ground arith }

abbrev no_files : ShardBuilder
no_files = set_commit_oid "c0ffee" (new "trigram-v1")

abbrev one_file : ShardBuilder
one_file = (add_file "a.rs" (9 ∷ []) no_files).0

no_files-IsValid : IsValid no_files
unfolding set_commit_oid
no_files-IsValid =
    let v : IsValid (new "trigram-v1") = new-IsValid "trigram-v1" in
    record { ascends = v.ascends; below = v.below }

built : (add_file "b.rs" (4 ∷ 9 ∷ []) one_file).0 ≡ two_files
unfolding add_file push_ids push_id set_commit_oid new sort_unstable dedup
built = refl

one_file-IsValid : IsValid one_file
unfolding new set_commit_oid
one_file-IsValid = add_file-IsValid "a.rs" (9 ∷ []) no_files (omega arith) no_files-IsValid

two_files-IsValid : IsValid two_files
unfolding add_file set_commit_oid new
two_files-IsValid =
    subst IsValid built
      (add_file-IsValid "b.rs" (4 ∷ 9 ∷ []) one_file (omega arith) one_file-IsValid)

open_shard-shard_bytes_example :
    open_shard decode (shard_bytes encode two_files) ≡ ok (shard_of encode decode two_files)
unfolding encode
open_shard-shard_bytes_example =
    open_shard-shard_bytes encode decode decode-encode refl two_files two_files-Fits

postings-shard_bytes_example : postings (shard_of encode decode two_files) 9 ≡ 0 ∷ 1 ∷ []
unfolding ids_of
postings-shard_bytes_example =
    postings-shard_bytes encode decode two_files two_files-Fits two_files-FitsRecords
      two_files-IsValid 9
