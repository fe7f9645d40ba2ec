-- ===== src/IndexSet/Search.antt =====
-- `search_page_in` of indexset.rs after the candidates are found: the prefixes, and the pages of matches.
pub mod Pages
use gitpixel.Base.{
  ℕ, zero, suc, ◌+◌, ◌-◌, ◌^◌, Bool, true, false, not, ◌&&◌, ◌||◌, List, [], ◌∷◌, ◌++◌, Option,
  none, some, min,
}
use gitpixel.Base.{String, str_eq, str_leb, ltb, leb, ◌==◌, if◌then◌else◌, length, take}
use gitpixel.Posting.{GramQuery, literal, and, or, all}
use gitpixel.Gram.{GramExtractor}
use gitpixel.Plan.{plan_pattern}
use gitpixel.Plan.Syntax.{Hir}
use gitpixel.Verify.{MatchLine, Reading, Page, search_file_page, search_file}
use gitpixel.IndexSet.{IndexSet, candidates}

-- `candidates.retain` with the prefixes; `starts_with` is that of `std::path::Path`.
any_prefix : (String → String → Bool) → String → List String → Bool
any_prefix path_starts_with rel [] = false
any_prefix path_starts_with rel (p ∷ prefixes) =
    (str_eq p "" || path_starts_with rel p) || any_prefix path_starts_with rel prefixes

retain_under : (String → String → Bool) → List String → List String → List String
unfolding any_prefix
retain_under path_starts_with prefixes [] = []
retain_under path_starts_with prefixes (rel ∷ rels) =
    let rest = retain_under path_starts_with prefixes rels in
    if any_prefix path_starts_with rel prefixes then rel ∷ rest else rest

pub retain_prefixes : (String → String → Bool) → Option (List String) → List String → List String
unfolding retain_under
retain_prefixes path_starts_with none rels = rels
retain_prefixes path_starts_with (some []) rels = rels
retain_prefixes path_starts_with (some (p ∷ prefixes)) rels =
    retain_under path_starts_with (p ∷ prefixes) rels

-- What a round with one page does; the loop gives the matches and `truncated`, and `none` is the error of a file.
pub after_page :
    List MatchLine
    → Page
    → ℕ
    → (List MatchLine → ℕ → Option (List MatchLine × Bool))
    → Option (List MatchLine × Bool)
after_page matches page limit next =
    if page.failed
    then none
    else if ltb limit (length (matches ++ page.pushed))
    then some (take limit (matches ++ page.pushed), true)
    else next (matches ++ page.pushed) page.skip

-- `read` is what the searcher does with a file, and is `none` if `is_regular_file` does not hold of it.
module _ (read : String → Option Reading) where
  -- The loop over the candidates, with a limit.
  pub page_loop : ℕ → List String → List MatchLine → ℕ → Option (List MatchLine × Bool)
  unfolding after_page
  page_loop limit [] matches skip = some (matches, false)
  page_loop limit (rel ∷ rels) matches skip = elim (read rel) [
    | none ↦ page_loop limit rels matches skip
    | some reading ↦
        let remaining = min (limit + 1) (2 ^ 64 - 1) - length matches in
        if remaining == 0
        then some (matches, false)
        else after_page matches (search_file_page reading skip (some remaining)) limit
            (page_loop limit rels)
  ]

  -- The lines of a file in the search without a limit, which passes over a file that fails.
  kept_lines : Page → List MatchLine
  kept_lines page = if page.failed then [] else page.pushed

  pub all_lines : List String → List MatchLine
  unfolding kept_lines
  all_lines [] = []
  all_lines (rel ∷ rels) = elim (read rel) [
    | none ↦ all_lines rels
    | some reading ↦ kept_lines (search_file reading none) ++ all_lines rels
  ]

-- `a.path.cmp(&b.path).then(a.line_number.cmp(&b.line_number))` is not `Greater`.
line_leb : MatchLine → MatchLine → Bool
line_leb a b =
    if str_eq a.path b.path then leb a.line_number b.line_number else str_leb a.path b.path

insert_line : MatchLine → List MatchLine → List MatchLine
unfolding line_leb
insert_line a [] = a ∷ []
insert_line a (b ∷ bs) = if line_leb a b then a ∷ b ∷ bs else b ∷ insert_line a bs

-- `matches.sort_by(…)`, a stable sort.
pub sort_lines : List MatchLine → List MatchLine
unfolding insert_line
sort_lines [] = []
sort_lines (a ∷ more) = insert_line a (sort_lines more)

pub data SearchError : Type 0 where
  pattern_error : SearchError
  bad_pattern : SearchError
  io_error : SearchError

pub record SearchStats : Type 0 where
  pub candidates : ℕ
  pub scanned_all : Bool
  pub matches : ℕ
  pub truncated : Bool

pub data SearchResult : Type 0 where
  err : SearchError → SearchResult
  ok : List MatchLine → SearchStats → SearchResult

pub is_all : GramQuery → Bool
is_all all = true
is_all (literal h) = false
is_all (and qs) = false
is_all (or qs) = false

with_stats : List String → GramQuery → Option (List MatchLine × Bool) → SearchResult
unfolding is_all
with_stats rels query none = err io_error
with_stats rels query (some (matches, truncated)) = ok matches (record {
  candidates = length rels;
  scanned_all = is_all query;
  matches = length matches;
  truncated = truncated;
})

verified : (String → Option Reading) → List String → ℕ → Option ℕ → Option (List MatchLine × Bool)
unfolding page_loop all_lines sort_lines
verified read rels offset (some limit) = page_loop read limit rels [] offset
verified read rels offset none = some (sort_lines (all_lines read rels), false)

unfoldable pub only_regular : (String → Bool) → (String → Reading) → String → Option Reading
only_regular is_regular_file verifier rel =
    if is_regular_file rel then some (verifier rel) else none

-- `verifier` is `Verifier::new`, and gives what its searcher does with each file.
pub search_page_in :
    (List ℕ → Option Hir)
    → (List ℕ → Option (String → Reading))
    → (String → Bool)
    → (String → String → Bool)
    → GramExtractor
    → IndexSet
    → List ℕ
    → ℕ
    → Option ℕ
    → Option (List String)
    → SearchResult
unfolding with_stats verified only_regular
search_page_in parse verifier is_regular_file path_starts_with extractor set pattern offset limit
      path_prefixes =
    elim (plan_pattern parse pattern extractor) [
      | none ↦ err pattern_error
      | some query ↦
          let rels : List String =
            retain_prefixes path_starts_with path_prefixes (candidates query set) in
          elim (verifier pattern) [
            | none ↦ err bad_pattern
            | some files ↦
                with_stats rels query
                  (verified (only_regular is_regular_file files) rels offset limit)
          ]
    ]
