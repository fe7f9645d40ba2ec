-- ===== src/Verify.antt =====
-- crates/gitpixel-core/src/verify.rs: the pages of matching lines of one file.
use gitpixel.Base.{ℕ, zero, suc, Bool, false, List, [], ◌∷◌, Option, none, some}
use gitpixel.Base.{String}

pub record MatchLine : Type 0 where
  pub path : String
  pub line_number : ℕ
  pub line : String

-- What the searcher does with a file: the matching lines that it hands to the sink, in order, and whether an
-- error of opening or reading comes after them.
pub record Reading : Type 0 where
  pub lines : List MatchLine
  pub fails : Bool

-- The page of one file: what is pushed to `out`, the `skip` that is left, and whether the search ends in an error.
pub record Page : Type 0 where
  pub pushed : List MatchLine
  pub skip : ℕ
  pub failed : Bool

abbrev push_line : MatchLine → Page → Page
push_line l p = record p { pushed = l ∷ p.pushed }

-- The sink, with `room` lines to go until it stops the searcher; `none` is no limit.
unfoldable pub sink : List MatchLine → Bool → ℕ → Option ℕ → Page
sink [] fails skip room = record { pushed = []; skip = skip; failed = fails }
sink (l ∷ lines) fails (suc skip) room = sink lines fails skip room
sink (l ∷ lines) fails zero none = push_line l (sink lines fails zero none)
sink (l ∷ lines) fails zero (some zero) = record { pushed = l ∷ []; skip = zero; failed = false }
sink (l ∷ lines) fails zero (some (suc zero)) = record {
  pushed = l ∷ [];
  skip = zero;
  failed = false;
}
sink (l ∷ lines) fails zero (some (suc (suc room))) =
    push_line l (sink lines fails zero (some (suc room)))

unfoldable pub search_file_page : Reading → ℕ → Option ℕ → Page
unfolding sink
search_file_page reading skip (some zero) = record { pushed = []; skip = skip; failed = false }
search_file_page reading skip (some (suc limit)) =
    sink reading.lines reading.fails skip (some (suc limit))
search_file_page reading skip none = sink reading.lines reading.fails skip none

unfoldable pub search_file : Reading → Option ℕ → Page
unfolding search_file_page
search_file reading max_matches = search_file_page reading zero max_matches
