-- ===== src/Shard/Examples.antt =====
-- The theorems of the shards at concrete files.
use gitpixel.Base.{ℕ, ◌≡◌, refl, List, [], ◌∷◌, ◌^◌, ◌<◌, none, arith}
use gitpixel.Base.{◌==◌, if◌then◌else◌, elem, length}
use gitpixel.Shard.Varint.{write_loop, write_varint, read_loop, read_varint}
use gitpixel.Shard.Builder.{ShardBuilder, new, ids_of, add_file, read_run}
use gitpixel.Shard.Builder.Runs.{Below, read_run-Below}
use gitpixel.Shard.Builder.Index.{IsValid, new-IsValid, add_file-IsValid, add_file_lem}

-- Two groups, then a byte that does not belong to the value.
three_hundred : write_varint 300 ≡ 172 ∷ 2 ∷ []
unfolding write_varint write_loop
three_hundred = refl

-- Five continuation bytes are refused.
too_long : read_varint (128 ∷ 128 ∷ 128 ∷ 128 ∷ 128 ∷ 0 ∷ []) ≡ none
unfolding read_varint read_loop
too_long = refl

abbrev ids : List ℕ
ids = 2 ∷ 3 ∷ 400 ∷ []

read_run-Below_example : Below 3 (read_run (1 ∷ 1 ∷ []) 3)
read_run-Below_example = read_run-Below (1 ∷ 1 ∷ []) 3

abbrev one_file : ShardBuilder
one_file = (add_file "a.rs" (9 ∷ 4 ∷ 9 ∷ []) (new "trigram")).0

one_file-IsValid : IsValid one_file
one_file-IsValid =
    add_file-IsValid "a.rs" (9 ∷ 4 ∷ 9 ∷ []) (new "trigram") (unfold new in omega arith)
      (new-IsValid "trigram")

one_file_fits : length one_file.files < 2 ^ 32
unfolding add_file new
one_file_fits = omega arith

add_file_lem_example : elem 1 (ids_of 4 (add_file "b.rs" (4 ∷ []) one_file).0.postings) ≡ (
    if 1 == (add_file "b.rs" (4 ∷ []) one_file).1
    then elem 4 (4 ∷ [])
    else elem 1 (ids_of 4 one_file.postings))
add_file_lem_example = add_file_lem "b.rs" (4 ∷ []) one_file 1 4 one_file_fits one_file-IsValid
