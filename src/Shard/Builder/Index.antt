-- ===== src/Shard/Builder/Index.antt =====
-- The inverted map of `ShardBuilder` in shard.rs has a file under exactly its grams.
use gitpixel.Base.{
  ℕ, suc, ◌+◌, ◌%◌, ◌^◌, ◌≤◌, ◌<◌, ◌≡◌, refl, ◌∙◌, false, List, [], ◌∷◌, ◌++◌, arith,
}
use gitpixel.Base.{
  String, ◌==◌, if◌then◌else◌, length, Ascends, IsSorted, All, elem, elem-append, elem_below, dedup,
  sort_unstable,
}
use gitpixel.Base.{
  dedup-sort_unstable-IsSorted, elem-dedup-sort_unstable, length-append, Bool-cases, inl, inr,
}
use gitpixel.Shard.Builder.{ShardBuilder, new, ids_of, push_id, push_ids, add_file}

ids_of-push_id :
    (h j id : ℕ) (m : List (ℕ × List ℕ))
    → ids_of j (push_id h id m) ≡ (if h == j then ids_of j m ++ id ∷ [] else ids_of j m)
unfolding ids_of push_id
ids_of-push_id h j id [] = ground arith
ids_of-push_id h j id ((k, ids) ∷ m) = ground (arith, ids_of-push_id h j id m)

ids_of-push_ids :
    (hs : List ℕ) (lo j id : ℕ) (m : List (ℕ × List ℕ))
    → Ascends lo hs
    → ids_of j (push_ids hs id m) ≡ (if elem j hs then ids_of j m ++ id ∷ [] else ids_of j m)
unfolding push_ids
ids_of-push_ids [] lo j id m up = refl
ids_of-push_ids (h ∷ hs) lo j id m up = ground (
  arith,
  ids_of-push_ids hs (suc h) j id (push_id h id m),
  ids_of-push_id h j id m,
  elem_below h (suc h) hs,
)

ids_of-add :
    (hs : List ℕ) (id h : ℕ) (m : List (ℕ × List ℕ))
    → ids_of h (push_ids (dedup (sort_unstable hs)) id m)
      ≡ (if elem h hs then ids_of h m ++ id ∷ [] else ids_of h m)
ids_of-add hs id h m =
    rw
      (
        ids_of-push_ids (dedup (sort_unstable hs)) 0 h id m (dedup-sort_unstable-IsSorted hs),
        elem-dedup-sort_unstable h hs,
      )
      refl

Ascends-append_last :
    (lo n : ℕ) (ids : List ℕ)
    → Ascends lo ids
    → All (λ id. id < n) ids
    → lo ≤ n
    → Ascends lo (ids ++ n ∷ [])
Ascends-append_last lo n [] up below h = (h, tt)
Ascends-append_last lo n (id ∷ ids) up below h =
    (up.0, Ascends-append_last (suc id) n ids up.1 below.1 (omega arith))

All-append_last :
    (n : ℕ) (ids : List ℕ) → All (λ id. id < n) ids → All (λ id. id < n + 1) (ids ++ n ∷ [])
All-append_last n [] below = (omega arith, tt)
All-append_last n (id ∷ ids) below = (omega arith, All-append_last n ids below.1)

All-later : (n : ℕ) (ids : List ℕ) → All (λ id. id < n) ids → All (λ id. id < n + 1) ids
All-later n [] below = tt
All-later n (id ∷ ids) below = (omega arith, All-later n ids below.1)

-- Every posting list ascends and has ids of files only.
pub record IsValid (b : ShardBuilder) : Type 0 where
  pub ascends : (h : ℕ) → IsSorted (ids_of h b.postings)
  pub below : (h : ℕ) → All (λ id. id < length b.files) (ids_of h b.postings)

pub new-IsValid : (extractor_id : String) → IsValid (new extractor_id)
unfolding new ids_of
new-IsValid extractor_id = record { ascends = λ h. tt; below = λ h. tt }

-- `add_file` keeps the builder valid, as long as the file ids fit 32 bits.
pub add_file-IsValid :
    (path : String) (hs : List ℕ) (b : ShardBuilder)
    → length b.files < 2 ^ 32
    → IsValid b
    → IsValid (add_file path hs b).0
unfolding add_file
add_file-IsValid path hs b fits v =
    let n : ℕ = length b.files in
    let id : n % 2 ^ 32 ≡ n = omega arith in
    let len : length (b.files ++ path ∷ []) ≡ n + 1 =
      length-append b.files (path ∷ []) ∙ (omega arith) in
    record {
      ascends = λ h.
          rw (id, ids_of-add hs n h b.postings)
            (elim (Bool-cases (elem h hs)) [
              | inl has ↦ rw has (
                  Ascends-append_last 0 n (ids_of h b.postings) (v.ascends h) (v.below h)
                    (omega arith))
              | inr lacks ↦ rw lacks (v.ascends h)
            ]);
      below = λ h.
          rw (id, ids_of-add hs n h b.postings, len)
            (elim (Bool-cases (elem h hs)) [
              | inl has ↦ rw has (All-append_last n (ids_of h b.postings) (v.below h))
              | inr lacks ↦ rw lacks (All-later n (ids_of h b.postings) (v.below h))
            ]);
    }

elem-not_below : (n : ℕ) (ids : List ℕ) → All (λ id. id < n) ids → elem n ids ≡ false
elem-not_below n [] below = refl
elem-not_below n (id ∷ ids) below = ground (arith, elem-not_below n ids below.1)

-- The file that `add_file` adds stands in the list of a gram exactly if the gram is one of its hashes, and
-- every other file stands where it stood.
pub add_file_lem :
    (path : String) (hs : List ℕ) (b : ShardBuilder) (x h : ℕ)
    → length b.files < 2 ^ 32
    → IsValid b
    → elem x (ids_of h (add_file path hs b).0.postings)
      ≡ (if x == (add_file path hs b).1 then elem h hs else elem x (ids_of h b.postings))
unfolding add_file
add_file_lem path hs b x h fits v =
    let n : ℕ = length b.files in
    let id : n % 2 ^ 32 ≡ n = omega arith in
    rw (id, ids_of-add hs n h b.postings)
      (elim (Bool-cases (elem h hs)) [
        | inl has ↦
            rw (has, elem-append)
              (ground (arith, elem-not_below n (ids_of h b.postings) (v.below h)))
        | inr lacks ↦ rw lacks (ground (arith, elem-not_below n (ids_of h b.postings) (v.below h)))
      ])

-- What `add_file` does to the file table.
pub add_file-files :
    (path : String) (hs : List ℕ) (b : ShardBuilder)
    → (add_file path hs b).0.files ≡ b.files ++ path ∷ []
unfolding add_file
add_file-files path hs b = refl

pub add_file_id :
    (path : String) (hs : List ℕ) (b : ShardBuilder)
    → length b.files < 2 ^ 32
    → (add_file path hs b).1 ≡ length b.files
unfolding add_file
add_file_id path hs b fits = omega arith
