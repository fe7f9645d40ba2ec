-- ===== src/Posting.antt =====
-- crates/gitpixel-core/src/posting.rs: posting lists and the boolean gram query over them.
-- A `u32` file id, a `u64` gram hash and a `usize` index are numbers.
pub mod Gallop
pub mod Merge
pub mod Resolve
mod Examples
use gitpixel.Base.{
  ℕ, zero, suc, ◌+◌, ◌-◌, ◌*◌, ◌/◌, min, Bool, true, false, List, [], ◌∷◌, ◌++◌, ◌&&◌, ◌||◌,
}
use gitpixel.Base.{ltb, leb, ◌==◌, if◌then◌else◌, length, get_or, take, drop, elem}

-- `GramQuery`; the `Vec<GramQuery>` of a node is the second type of the block.
mutual
  pub data GramQuery : Type 0 where
    literal : ℕ → GramQuery
    and : GramQueries → GramQuery
    or : GramQueries → GramQuery
    all : GramQuery

  pub data GramQueries : Type 0 where
    nil : GramQueries
    cons : GramQuery → GramQueries → GramQueries

-- `<[u32]>::binary_search` of a strictly ascending slice, as `Ok(pos) | Err(pos) => pos` reads it:
-- the number of elements below the target.
unfoldable pub binary_search : List ℕ → ℕ → ℕ
binary_search [] target = 0
binary_search (x ∷ xs) target = if ltb x target then suc (binary_search xs target) else 0

-- The doubling loop of `gallop`. The fuel bounds the rounds; `Posting.Gallop` shows that the length
-- of the list is enough.
unfoldable pub gallop_bound : ℕ → List ℕ → ℕ → ℕ → ℕ → ℕ
gallop_bound zero list start target bound = bound
gallop_bound (suc fuel) list start target bound =
    let doubled = gallop_bound fuel list start target (bound * 2) in
    if ltb (start + bound) (length list) && ltb (get_or list (start + bound) 0) target
    then doubled
    else bound

unfoldable pub gallop : List ℕ → ℕ → ℕ → ℕ
gallop list start target =
    if leb (length list) start
    then length list
    else let bound = gallop_bound (length list) list start target 1 in
      let lo = start + bound / 2 in
      let hi = min (start + bound) (length list - 1) in
      lo + binary_search (drop lo (take (hi + 1) list)) target

-- The loop of `intersect_sorted` over what is left of `short`.
unfoldable pub intersect_loop : List ℕ → List ℕ → ℕ → List ℕ
intersect_loop [] long long_idx = []
intersect_loop (val ∷ short) long long_idx =
    let i = gallop long long_idx val in
    let rest = intersect_loop short long i in
    if leb (length long) i then [] else if get_or long i 0 == val then val ∷ rest else rest

unfoldable pub is_empty : List ℕ → Bool
is_empty [] = true
is_empty (_ ∷ _) = false

unfoldable pub intersect_sorted : List ℕ → List ℕ → List ℕ
unfolding is_empty
intersect_sorted a b =
    if is_empty a || is_empty b
    then []
    else if leb (length a) (length b)
    then intersect_loop a b 0
    else intersect_loop b a 0

-- `i` and `j` advance through the two lists; what is left of each is an argument.
unfoldable pub union_sorted : List ℕ → List ℕ → List ℕ
union_sorted [] ys = ys
union_sorted (x ∷ xs) [] = x ∷ xs
union_sorted (x ∷ xs) (y ∷ ys) =
    let less = x ∷ union_sorted xs (y ∷ ys) in
    let greater = y ∷ union_sorted (x ∷ xs) ys in
    let equal = x ∷ union_sorted xs ys in
    if ltb x y then less else if ltb y x then greater else equal

-- `(first..first + n).collect()`
unfoldable pub range_from : ℕ → ℕ → List ℕ
range_from first zero = []
range_from first (suc n) = first ∷ range_from (suc first) n

unfoldable pub all_docs : ℕ → List ℕ
unfolding range_from
all_docs total = range_from 0 total

-- `lists.sort_by_key(Vec::len)`, a stable sort.
unfoldable pub insert_by_len : List ℕ → List (List ℕ) → List (List ℕ)
insert_by_len l [] = l ∷ []
insert_by_len l (m ∷ ms) = if leb (length l) (length m) then l ∷ m ∷ ms else m ∷ insert_by_len l ms

unfoldable pub sort_by_len : List (List ℕ) → List (List ℕ)
unfolding insert_by_len
sort_by_len [] = []
sort_by_len (l ∷ ls) = insert_by_len l (sort_by_len ls)

-- What `lists.swap_remove(0)` leaves of a list with head `l`: the last element takes the first place.
unfoldable pub move_last : List ℕ → List (List ℕ) → List (List ℕ)
move_last m [] = m ∷ []
move_last m (n ∷ ms) = elim (move_last n ms) [ [] ↦ m ∷ [] | last ∷ seen ↦ last ∷ m ∷ seen ]

unfoldable pub swap_remove_rest : List (List ℕ) → List (List ℕ)
unfolding move_last
swap_remove_rest [] = []
swap_remove_rest (m ∷ ms) = move_last m ms

-- The loop of the `And` case, which stops at an empty result.
unfoldable pub intersect_lists : List ℕ → List (List ℕ) → List ℕ
unfolding is_empty
intersect_lists result [] = result
intersect_lists result (l ∷ ls) =
    let next = intersect_lists (intersect_sorted result l) ls in
    if is_empty result then result else next

unfoldable pub intersect_all : List (List ℕ) → List ℕ
unfolding intersect_lists swap_remove_rest
intersect_all [] = []
intersect_all (l ∷ ls) = intersect_lists l (swap_remove_rest ls)

unfoldable mutual
  unfolding all_docs sort_by_len intersect_all

  pub resolve_query : GramQuery → ℕ → (ℕ → List ℕ) → List ℕ
  resolve_query (literal h) total lookup = lookup h
  resolve_query (and nil) total lookup = all_docs total
  resolve_query (and (cons q qs)) total lookup =
      intersect_all (sort_by_len (resolve_query q total lookup ∷ resolve_lists qs total lookup))
  resolve_query (or qs) total lookup = resolve_union [] qs total lookup
  resolve_query all total lookup = all_docs total

  -- The lists that the `And` case collects from its children.
  pub resolve_lists : GramQueries → ℕ → (ℕ → List ℕ) → List (List ℕ)
  resolve_lists nil total lookup = []
  resolve_lists (cons q qs) total lookup =
      resolve_query q total lookup ∷ resolve_lists qs total lookup

  -- The loop of the `Or` case.
  pub resolve_union : List ℕ → GramQueries → ℕ → (ℕ → List ℕ) → List ℕ
  resolve_union result nil total lookup = result
  resolve_union result (cons q qs) total lookup =
      resolve_union (union_sorted result (resolve_query q total lookup)) qs total lookup
