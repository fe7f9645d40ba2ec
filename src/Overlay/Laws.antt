-- ===== src/Overlay/Laws.antt =====
-- What the operations of the overlay do to its two tables, and what a query finds in it.
use gitpixel.Base.{ℕ, inl, inr, ◌≡◌, ◌≢◌, Bool, true, false, List, ◌||◌, Option, none, some, arith}
use gitpixel.Base.{
  String, str_eq, if◌then◌else◌, has, has-add, find, find-nil, find-cons, find-insert, find-remove,
}
use gitpixel.Base.{eq_iff, Bool-cases, Distinct, nil, cons, insert-Distinct, remove-Distinct}
use gitpixel.Posting.{GramQuery}
use gitpixel.Overlay.{
  Overlay, new, is_binary, refresh_file, remove_file, eval, matching, matching_files,
}

-- What the overlay holds for a path whose content is read: nothing if there is no readable content
-- or it is binary, else its grams.
abbrev pub grams_of : (List ℕ → List ℕ) → Option (List ℕ) → Option (List ℕ)
grams_of grams none = none
grams_of grams (some content) = if is_binary content then none else some (grams content)

-- After `refresh_file` on `k` the table has at `k` the grams of the content read, or nothing if the
-- content is missing or binary; `k` is a tombstone; and every other path is as before in both tables.
pub refresh_file_lem :
    (grams : List ℕ → List ℕ) (k j : String) (content : Option (List ℕ)) (o : Overlay)
    → (find j (refresh_file grams k content o).files
        ≡ (if str_eq k j then grams_of grams content else find j o.files))
      × (has j (refresh_file grams k content o).tombstones ≡ (str_eq j k || has j o.tombstones))
unfolding refresh_file
refresh_file_lem grams k j none o = (find-remove k j o.files, has-add k j o.tombstones)
refresh_file_lem grams k j (some c) o = elim (Bool-cases (is_binary c)) [
  | inl e ↦ rw e (find-remove k j o.files, has-add k j o.tombstones)
  | inr e ↦ rw e (find-insert k j (grams c) o.files, has-add k j o.tombstones)
]

remove_file_lem :
    (k j : String) (o : Overlay)
    → (find j (remove_file k o).files ≡ (if str_eq k j then none else find j o.files))
      × (has j (remove_file k o).tombstones ≡ (str_eq j k || has j o.tombstones))
unfolding remove_file
remove_file_lem k j o = (find-remove k j o.files, has-add k j o.tombstones)

-- What holds of an overlay at any time: no path is listed twice, and every path with a gram set is a
-- tombstone, so that its older entries are never consulted.
pub record IsValid (o : Overlay) : Type 0 where
  pub distinct : Distinct o.files
  pub shadowed : (j : String) → find j o.files ≢ none → has j o.tombstones ≡ true

pub new-IsValid : IsValid new
unfolding new
new-IsValid = record { distinct = nil; shadowed = λ j h. absurd (h (find-nil j)) }

refresh_file-Distinct :
    (grams : List ℕ → List ℕ) (k : String) (content : Option (List ℕ)) (o : Overlay)
    → Distinct o.files
    → Distinct (refresh_file grams k content o).files
unfolding refresh_file
refresh_file-Distinct grams k none o d = remove-Distinct k d
refresh_file-Distinct grams k (some c) o d = elim (Bool-cases (is_binary c)) [
  | inl e ↦ rw e (remove-Distinct k d)
  | inr e ↦ rw e (insert-Distinct k (grams c) d)
]

-- `refresh_file` keeps an overlay valid, whatever it reads.
pub refresh_file-IsValid :
    (grams : List ℕ → List ℕ) (k : String) (content : Option (List ℕ)) {o : Overlay}
    → IsValid o
    → IsValid (refresh_file grams k content o)
refresh_file-IsValid grams k content {o} v = record {
  distinct = refresh_file-Distinct grams k content o v.distinct;
  shadowed = λ j h.
      let (f, t) = refresh_file_lem grams k j content o in
      ground (arith, f, t, v.shadowed j, eq_iff j k, eq_iff k j);
}

-- `remove_file` keeps an overlay valid.
pub remove_file-IsValid : (k : String) {o : Overlay} → IsValid o → IsValid (remove_file k o)
remove_file-IsValid k {o} v = record {
  distinct = unfold remove_file in remove-Distinct k v.distinct;
  shadowed = λ j h.
      let (f, t) = remove_file_lem k j o in
      ground (arith, f, t, v.shadowed j, eq_iff j k, eq_iff k j);
}

-- Whether the set is there and satisfies the query.
abbrev pub satisfied : GramQuery → Option (List ℕ) → Bool
satisfied q none = false
satisfied q (some set) = eval q set

matching_lem :
    (q : GramQuery) (p : String) {m : List (String × List ℕ)}
    → Distinct m
    → has p (matching q m) ≡ satisfied q (find p m)
unfolding matching
matching_lem q p nil = rw find-nil
matching_lem q p (cons {k} {v} {m} absent d) =
    let ih = matching_lem q p d in
    elim (Bool-cases (str_eq k p)) [
      | inl e ↦ ground (arith, find-cons p k v m, eq_iff k p, eq_iff p k, ih, absent)
      | inr e ↦ ground (arith, find-cons p k v m, eq_iff k p, eq_iff p k, ih)
    ]

-- In a valid overlay `matching_files` returns a path exactly if the overlay has a gram set for it that
-- satisfies the query.
pub matching_files_lem :
    (q : GramQuery) (p : String) (o : Overlay)
    → IsValid o
    → has p (matching_files q o) ≡ satisfied q (find p o.files)
unfolding matching_files
matching_files_lem q p o v = matching_lem q p v.distinct
