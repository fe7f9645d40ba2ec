-- ===== src/Posting/Resolve.antt =====
-- `resolve_query` of posting.rs computes the documents at which the query holds.
use gitpixel.Base.{
  ℕ, zero, suc, ◌+◌, ◌≤◌, ◌<◌, ◌≡◌, ◌≢◌, refl, List, [], ◌∷◌, ◌&&◌, ◌||◌, Bool, true,
}
use gitpixel.Base.{arith, elem, All, Ascends, IsSorted}
use gitpixel.Overlay.{eval, eval_all, eval_any}
use gitpixel.Posting.{GramQuery, literal, and, or, all, GramQueries, nil, cons}
use gitpixel.Posting.{range_from, all_docs, insert_by_len, sort_by_len, move_last, swap_remove_rest}
use gitpixel.Posting.{intersect_sorted, union_sorted, intersect_lists, intersect_all}
use gitpixel.Posting.{resolve_query, resolve_lists, resolve_union}
use gitpixel.Posting.Merge.{intersect_sorted_lem, union_sorted_lem}

abbrev all_elem : ℕ → List (List ℕ) → Bool
all_elem x [] = true
all_elem x (l ∷ ls) = elem x l && all_elem x ls

-- A reordering keeps the lists sorted and keeps what is in all of them.
record SameLists (x : ℕ) (ls ms : List (List ℕ)) : Type 0 where
  sorted : All IsSorted ms
  same : all_elem x ms ≡ all_elem x ls

module _ (x : ℕ) where
  insert_by_len-SameLists :
      (l : List ℕ) (ls : List (List ℕ))
      → IsSorted l
      → All IsSorted ls
      → SameLists x (l ∷ ls) (insert_by_len l ls)
  unfolding insert_by_len
  insert_by_len-SameLists l [] s t = ground arith
  insert_by_len-SameLists l (m ∷ ms) s t = ground (arith, insert_by_len-SameLists l ms s t.1)

  sort_by_len-SameLists : (ls : List (List ℕ)) → All IsSorted ls → SameLists x ls (sort_by_len ls)
  unfolding sort_by_len
  sort_by_len-SameLists [] s = ground arith
  sort_by_len-SameLists (l ∷ ls) s =
      let ih = sort_by_len-SameLists ls s.1 in
      ground (arith, ih.same, insert_by_len-SameLists l (sort_by_len ls) s.0 ih.sorted)

  move_last-SameLists :
      (l : List ℕ) (ls : List (List ℕ))
      → IsSorted l
      → All IsSorted ls
      → SameLists x (l ∷ ls) (move_last l ls)
  unfolding move_last
  move_last-SameLists l [] s t = ground arith
  move_last-SameLists l (m ∷ ms) s t = ground (arith, move_last-SameLists m ms t.0 t.1)

  swap_remove_rest-SameLists :
      (ls : List (List ℕ)) → All IsSorted ls → SameLists x ls (swap_remove_rest ls)
  unfolding swap_remove_rest
  swap_remove_rest-SameLists [] s = ground arith
  swap_remove_rest-SameLists (l ∷ ls) s = move_last-SameLists l ls s.0 s.1

  intersect_lists_lem :
      (r : List ℕ) (ls : List (List ℕ))
      → IsSorted r
      → All IsSorted ls
      → IsSorted (intersect_lists r ls)
        × (elem x (intersect_lists r ls) ≡ (elem x r && all_elem x ls))
  unfolding intersect_lists
  intersect_lists_lem r [] s t = ground arith
  intersect_lists_lem [] (l ∷ ls) s t = (tt, refl)
  intersect_lists_lem (y ∷ r) (l ∷ ls) s t =
      let (sorted, both) = intersect_sorted_lem (y ∷ r) l s t.0 in
      let (sorted', ih) = intersect_lists_lem (intersect_sorted (y ∷ r) l) ls sorted t.1 in
      (sorted', ground (arith, ih, both x))

  intersect_nonempty :
      (ls : List (List ℕ))
      → ls ≢ []
      → All IsSorted ls
      → IsSorted (intersect_all ls) × (elem x (intersect_all ls) ≡ all_elem x ls)
  unfolding intersect_all
  intersect_nonempty [] ne s = absurd (ne refl)
  intersect_nonempty (l ∷ ls) ne s =
      let t = swap_remove_rest-SameLists ls s.1 in
      let (sorted, both) = intersect_lists_lem l (swap_remove_rest ls) s.0 t.sorted in
      (sorted, ground (arith, both, t.same))

  insert_by_len-ne-nil : (l : List ℕ) (ls : List (List ℕ)) → insert_by_len l ls ≢ []
  unfolding insert_by_len
  insert_by_len-ne-nil l [] = ground arith
  insert_by_len-ne-nil l (m ∷ ms) = ground arith

  intersect_all_lem :
      (l : List ℕ) (ls : List (List ℕ))
      → All IsSorted (l ∷ ls)
      → IsSorted (intersect_all (sort_by_len (l ∷ ls)))
        × (elem x (intersect_all (sort_by_len (l ∷ ls))) ≡ all_elem x (l ∷ ls))
  unfolding sort_by_len
  intersect_all_lem l ls s =
      let t = sort_by_len-SameLists (l ∷ ls) s in
      let (sorted, both) =
        intersect_nonempty (sort_by_len (l ∷ ls)) (insert_by_len-ne-nil l (sort_by_len ls))
          t.sorted in
      (sorted, ground (arith, both, t.same))

elem-range_from : (x first n : ℕ) → first ≤ x → x < first + n → elem x (range_from first n) ≡ true
unfolding range_from
elem-range_from x first zero h k = absurd (omega arith)
elem-range_from x first (suc n) h k = ground (arith, elem-range_from x (suc first) n)

Ascends-range_from : (first n : ℕ) → Ascends first (range_from first n)
unfolding range_from
Ascends-range_from first zero = tt
Ascends-range_from first (suc n) = (omega arith, Ascends-range_from (suc first) n)

-- A document `x` below the total, whose grams are `set`, and a lookup of posting lists that have `x`
-- exactly under those grams.
module _ (total x : ℕ) (set : List ℕ) (lookup : ℕ → List ℕ) (in_range : x < total)
    (sorted : (h : ℕ) → IsSorted (lookup h))
    (indexed : (h : ℕ) → elem x (lookup h) ≡ elem h set) where
  all_docs_lem : IsSorted (all_docs total) × (elem x (all_docs total) ≡ true)
  unfolding all_docs
  all_docs_lem = (Ascends-range_from 0 total, elem-range_from x 0 total (omega arith) (omega arith))

  mutual
    unfolding resolve_query eval

    resolve :
        (q : GramQuery)
        → IsSorted (resolve_query q total lookup)
          × (elem x (resolve_query q total lookup) ≡ eval q set)
    resolve (literal h) = (sorted h, indexed h)
    resolve (and nil) = all_docs_lem
    resolve (and (cons q qs)) =
        let (s, e) = resolve q in
        let (ss, es) = resolve_each qs in
        let (r, f) =
          intersect_all_lem x (resolve_query q total lookup) (resolve_lists qs total lookup)
            (s, ss) in
        (r, ground (arith, e, es, f))
    resolve (or qs) = resolve_any [] qs tt
    resolve all = all_docs_lem

    resolve_each :
        (qs : GramQueries)
        → All IsSorted (resolve_lists qs total lookup)
          × (all_elem x (resolve_lists qs total lookup) ≡ eval_all qs set)
    resolve_each nil = (tt, refl)
    resolve_each (cons q qs) =
        let (s, e) = resolve q in let (ss, es) = resolve_each qs in ((s, ss), ground (arith, e, es))

    resolve_any :
        (r : List ℕ) (qs : GramQueries)
        → IsSorted r
        → IsSorted (resolve_union r qs total lookup)
          × (elem x (resolve_union r qs total lookup) ≡ (elem x r || eval_any qs set))
    resolve_any r nil t = (t, ground arith)
    resolve_any r (cons q qs) t =
        let (s, e) = resolve q in
        let (u, f) = union_sorted_lem r (resolve_query q total lookup) t s in
        let (v, g) = resolve_any (union_sorted r (resolve_query q total lookup)) qs u in
        (v, ground (arith, e, f x, g))

-- Take posting lists that are strictly ascending, and a document `x` below the total that stands in
-- exactly the lists of its own grams. The list that `resolve_query` returns is strictly ascending,
-- and it has `x` exactly if `eval` accepts the grams of `x`.
pub resolve_query-eval :
    (total x : ℕ) (set : List ℕ) (lookup : ℕ → List ℕ)
    → x < total
    → ((h : ℕ) → IsSorted (lookup h))
    → ((h : ℕ) → elem x (lookup h) ≡ elem h set)
    → (q : GramQuery)
    → IsSorted (resolve_query q total lookup) × (elem x (resolve_query q total lookup) ≡ eval q set)
resolve_query-eval total x set lookup h s i q = resolve total x set lookup h s i q
