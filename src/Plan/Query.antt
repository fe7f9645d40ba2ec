-- ===== src/Plan/Query.antt =====
-- The queries that crates/gitpixel-core/src/plan.rs builds, and how it simplifies them.
pub mod Sound
use gitpixel.Base.{ℕ, Bool, true, false, ◌&&◌, List, [], ◌∷◌, ◌++◌, Option, none, some}
use gitpixel.Posting.{GramQuery, literal, and, or, all, GramQueries, nil, cons}
use gitpixel.Gram.{GramExtractor}

abbrev pub append : GramQueries → GramQueries → GramQueries
append nil rs = rs
append (cons q qs) rs = cons q (append qs rs)

-- `Vec::push`
abbrev pub push : GramQueries → GramQuery → GramQueries
push qs q = append qs (cons q nil)

-- `grams.into_iter().map(GramQuery::Literal).collect()`
unfoldable pub literals : List ℕ → GramQueries
literals [] = nil
literals (h ∷ hs) = cons (literal h) (literals hs)

-- No gram cannot narrow; else all of them are required.
unfoldable pub and_literals : List ℕ → GramQuery
unfolding literals
and_literals [] = all
and_literals (h ∷ hs) = and (literals (h ∷ hs))

unfoldable pub covering_query : List ℕ → GramExtractor → GramQuery
unfolding and_literals
covering_query lit extractor = and_literals (extractor.covering lit)

-- One round of the loop of `exact_to_query`; `none` is its early return of `All`.
unfoldable pub push_branch : GramQuery → Option GramQueries → Option GramQueries
push_branch all rest = none
push_branch q none = none
push_branch q (some qs) = some (cons q qs)

unfoldable pub exact_branches : List (List ℕ) → GramExtractor → Option GramQueries
unfolding push_branch
exact_branches [] extractor = some nil
exact_branches (alt ∷ alts) extractor =
    push_branch (covering_query alt extractor) (exact_branches alts extractor)

-- How a list of branches becomes one query.
unfoldable pub or_branches : GramQueries → GramQuery
or_branches nil = all
or_branches (cons q nil) = q
or_branches (cons q (cons r qs)) = or (cons q (cons r qs))

unfoldable pub or_flat : Option GramQueries → GramQuery
unfolding or_branches
or_flat none = all
or_flat (some flat) = or_branches flat

unfoldable pub exact_to_query : List (List ℕ) → GramExtractor → GramQuery
unfolding exact_branches or_flat
exact_to_query alts extractor = or_flat (exact_branches alts extractor)

-- `parts.retain(|p| !matches!(p, GramQuery::All))`
unfoldable pub retain_narrow : GramQueries → GramQueries
retain_narrow nil = nil
retain_narrow (cons all qs) = retain_narrow qs
retain_narrow (cons q qs) = cons q (retain_narrow qs)

unfoldable pub and_narrow : GramQueries → GramQuery
and_narrow nil = all
and_narrow (cons q nil) = q
and_narrow (cons q (cons r qs)) = and (cons q (cons r qs))

-- The function `and`.
unfoldable pub and_parts : GramQueries → GramQuery
unfolding retain_narrow and_narrow
and_parts parts = and_narrow (retain_narrow parts)

-- One round of the loop over the children of an `And`: what a simplified child adds in front of the rest.
unfoldable pub flatten_and : GramQuery → GramQueries → GramQueries
flatten_and all rest = rest
flatten_and (and inner) rest = append inner rest
flatten_and other rest = cons other rest

-- The same for an `Or`; `none` is the early return of `All`.
unfoldable pub flatten_or : GramQuery → Option GramQueries → Option GramQueries
flatten_or all rest = none
flatten_or (or inner) none = none
flatten_or (or inner) (some rest) = some (append inner rest)
flatten_or other none = none
flatten_or other (some rest) = some (cons other rest)

unfoldable mutual
  pub simplify : GramQuery → GramQuery
  simplify (and children) = and_parts (simplify_and children)
  simplify (or children) = or_flat (simplify_or children)
  simplify (literal h) = literal h
  simplify all = all

  pub simplify_and : GramQueries → GramQueries
  simplify_and nil = nil
  simplify_and (cons c cs) = flatten_and (simplify c) (simplify_and cs)

  pub simplify_or : GramQueries → Option GramQueries
  simplify_or nil = some nil
  simplify_or (cons c cs) = flatten_or (simplify c) (simplify_or cs)
