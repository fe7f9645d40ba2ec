-- ===== src/Shard/Publish/Examples.antt =====
-- A disk that is a table of files, on which shard.rs writes a shard.
use gitpixel.Base.{
  ℕ, ◌≡◌, ◌≢◌, refl, sym, true, false, List, [], ◌∷◌, ◌++◌, Option, none, some, inl, inr, String,
}
use gitpixel.Base.{str_eq, eq_iff, find, insert, remove, find-insert, find-remove, Bool-cases}
use gitpixel.Shard.Builder.{new}
use gitpixel.Shard.Publish.{IoError, not_found, other, FileSystem, IsFileSystem, write_shard}
use gitpixel.Shard.Publish.Atomic.{Atomic, write_shard-Atomic}
use gitpixel.Shard.Writer.{shard_bytes}

abbrev Table : Type 0
Table = List (String × List ℕ)

abbrev remove_error : Option (List ℕ) → Option IoError
remove_error none = some not_found
remove_error (some bs) = none

abbrev create : String → Table → Option (List ℕ) → Table × Option IoError
create p d none = (insert p [] d, none)
create p d (some bs) = (d, some other)

abbrev add_bytes : String → List ℕ → Table → Option (List ℕ) → Table × Option IoError
add_bytes p bs d none = (d, some not_found)
add_bytes p bs d (some old) = (insert p (old ++ bs) d, none)

abbrev move : String → String → Table → Option (List ℕ) → Table × Option IoError
move p q d none = (d, some not_found)
move p q d (some bs) = (insert q bs (remove p d), none)

abbrev table : FileSystem Table
table = record {
  content = λ d p. find p d;
  create_dir_all = λ dir d. (d, none);
  remove_file = λ p d. (remove p d, remove_error (find p d));
  create_new = λ p d. create p d (find p d);
  write_all = λ p bs d. add_bytes p bs d (find p d);
  sync_all = λ p d. (d, none);
  rename = λ p q d. move p q d (find p d);
}

other_path : (p q : String) → q ≢ p → str_eq p q ≡ false
other_path p q h = elim (Bool-cases (str_eq p q)) [
  | inl same ↦ absurd (h (sym ((eq_iff p q).0 same)))
  | inr apart ↦ apart
]

self : (p : String) → str_eq p p ≡ true
self p = (eq_iff p p).1 refl

create_keeps :
    (p q : String) (d : Table) (o : Option (List ℕ)) → q ≢ p → find q (create p d o).0 ≡ find q d
create_keeps p q d none h = rw (find-insert p q [] d, other_path p q h) refl
create_keeps p q d (some bs) h = refl

create_empty :
    (p : String) (d : Table) (o : Option (List ℕ))
    → (create p d o).1 ≡ none
    → find p (create p d o).0 ≡ some []
create_empty p d none e = rw (find-insert p p [] d, self p) refl
create_empty p d (some bs) e = cc

add_keeps :
    (p q : String) (bs : List ℕ) (d : Table) (o : Option (List ℕ))
    → q ≢ p
    → find q (add_bytes p bs d o).0 ≡ find q d
add_keeps p q bs d none h = refl
add_keeps p q bs d (some old) h = rw (find-insert p q (old ++ bs) d, other_path p q h) refl

move_moves :
    (p q : String) (d : Table) (o : Option (List ℕ))
    → (move p q d o).1 ≡ none
    → find q (move p q d o).0 ≡ o
move_moves p q d none e = cc
move_moves p q d (some bs) e = rw (find-insert q q bs (remove p d), self q) refl

move_fails :
    (p q r : String) (d : Table) (o : Option (List ℕ)) (e : IoError)
    → (move p q d o).1 ≡ some e
    → find r (move p q d o).0 ≡ find r d
move_fails p q r d none e f = refl
move_fails p q r d (some bs) e f = cc

table-IsFileSystem : IsFileSystem table
table-IsFileSystem = record {
  create_dir_all_keeps = λ dir p d. refl;
  remove_file_keeps = λ p q d h. rw (find-remove p q d, other_path p q h) refl;
  create_new_keeps = λ p q d h. create_keeps p q d (find p d) h;
  create_new_empty = λ p d e. create_empty p d (find p d) e;
  write_all_keeps = λ p q bs d h. add_keeps p q bs d (find p d) h;
  write_all_adds = λ p bs old d has e. rw (has, find-insert p p (old ++ bs) d, self p) refl;
  sync_all_keeps = λ p q d. refl;
  rename_moves = λ p q d e. move_moves p q d (find p d) e;
  rename_fails = λ p q r d e f. move_fails p q r d (find p d) e f;
}

abbrev one_byte : String → List ℕ
one_byte text = 7 ∷ []

apart : ◌≢◌ {A = String} "base.gpxshard" "base.tmp"
apart e = let same : false ≡ true = (eq_iff "base.gpxshard" "base.tmp").1 e in cc

write_shard-Atomic_example :
    Atomic table table-IsFileSystem "base.tmp" "base.gpxshard" apart
      (shard_bytes one_byte (new "trigram"))
      (some (1 ∷ []))
      (("base.gpxshard", 1 ∷ []) ∷ [])
      (write_shard table one_byte
        (some ".gitpixel")
        "base.tmp"
        "base.gpxshard"
        (new "trigram")
        (("base.gpxshard", 1 ∷ []) ∷ []))
unfolding find
write_shard-Atomic_example =
    write_shard-Atomic table table-IsFileSystem one_byte (some ".gitpixel") "base.tmp"
      "base.gpxshard" apart (new "trigram") (("base.gpxshard", 1 ∷ []) ∷ [])
