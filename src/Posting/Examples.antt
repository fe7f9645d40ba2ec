-- ===== src/Posting/Examples.antt =====
-- Runs of posting.rs, and its theorems at concrete lists.
use gitpixel.Base.{ℕ, ◌≤◌, ◌<◌, ◌≡◌, refl, ◌&&◌, ◌||◌, List, [], ◌∷◌, arith}
use gitpixel.Base.{length, get_or, elem, IsSorted, if◌then◌else◌, ◌==◌}
use gitpixel.Overlay.{eval}
use gitpixel.Posting.{GramQuery, literal, and, or, nil, cons}
use gitpixel.Posting.{
  binary_search, gallop_bound, gallop, intersect_loop, intersect_sorted, union_sorted,
}
use gitpixel.Posting.{resolve_query}
use gitpixel.Posting.Gallop.{gallop_lem}
use gitpixel.Posting.Merge.{intersect_sorted_lem, union_sorted_lem}
use gitpixel.Posting.Resolve.{resolve_query-eval}

abbrev odds : List ℕ
odds = 1 ∷ 3 ∷ 5 ∷ 7 ∷ 9 ∷ []

abbrev mixed : List ℕ
mixed = 2 ∷ 3 ∷ 5 ∷ 8 ∷ []

gallop_runs : gallop odds 1 8 ≡ 4
unfolding gallop gallop_bound binary_search
gallop_runs = refl

intersect_runs : intersect_sorted odds mixed ≡ 3 ∷ 5 ∷ []
unfolding intersect_sorted intersect_loop gallop gallop_bound binary_search
intersect_runs = refl

union_runs : union_sorted odds mixed ≡ 1 ∷ 2 ∷ 3 ∷ 5 ∷ 7 ∷ 8 ∷ 9 ∷ []
unfolding union_sorted
union_runs = refl

gallop_lem_example :
    (1 ≤ gallop odds 1 8)
    × (gallop odds 1 8 ≤ length odds)
    × ((j : ℕ) → 1 ≤ j → j < gallop odds 1 8 → get_or odds j 0 < 8)
    × (gallop odds 1 8 < length odds → 8 ≤ get_or odds (gallop odds 1 8) 0)
gallop_lem_example = gallop_lem 8 odds 1 (omega arith) (omega arith)

intersect_sorted_lem_example :
    IsSorted (intersect_sorted odds mixed)
    × ((x : ℕ) → elem x (intersect_sorted odds mixed) ≡ (elem x odds && elem x mixed))
intersect_sorted_lem_example = intersect_sorted_lem odds mixed (omega arith) (omega arith)

union_sorted_lem_example :
    IsSorted (union_sorted odds mixed)
    × ((x : ℕ) → elem x (union_sorted odds mixed) ≡ (elem x odds || elem x mixed))
union_sorted_lem_example = union_sorted_lem odds mixed (omega arith) (omega arith)

-- Three documents; gram 7 is in documents 0 and 2, gram 8 in document 2.
abbrev postings_7_8 : ℕ → List ℕ
postings_7_8 h = if h == 7 then 0 ∷ 2 ∷ [] else if h == 8 then 2 ∷ [] else []

postings-IsSorted : (h : ℕ) → IsSorted (postings_7_8 h)
postings-IsSorted h = ground arith

postings_of_2 : (h : ℕ) → elem 2 (postings_7_8 h) ≡ elem h (7 ∷ 8 ∷ [])
postings_of_2 h = ground arith

abbrev both_grams : GramQuery
both_grams = and (cons (literal 7) (cons (or (cons (literal 8) (cons (literal 9) nil))) nil))

resolve_query-eval_example :
    IsSorted (resolve_query both_grams 3 postings_7_8)
    × (elem 2 (resolve_query both_grams 3 postings_7_8) ≡ eval both_grams (7 ∷ 8 ∷ []))
resolve_query-eval_example =
    resolve_query-eval 3 2 (7 ∷ 8 ∷ []) postings_7_8 (omega arith) postings-IsSorted postings_of_2
      both_grams
