-- ===== src/Plan.antt =====
-- crates/gitpixel-core/src/plan.rs: from a regular expression or a literal to a gram query.
pub mod Utf8
pub mod Syntax
pub mod Query
pub mod Analyze
pub mod Sound
pub mod Examples
use gitpixel.Base.{ℕ, List, Option, none, some}
use gitpixel.Posting.{GramQuery}
use gitpixel.Gram.{GramExtractor}
use gitpixel.Plan.Syntax.{Hir}
use gitpixel.Plan.Query.{covering_query}
use gitpixel.Plan.Analyze.{analyze, finish}

-- `parse` is the parser of regex_syntax, applied to the bytes of a pattern; `none` is its error.
unfoldable pub plan_pattern : (List ℕ → Option Hir) → List ℕ → GramExtractor → Option GramQuery
plan_pattern parse pattern extractor = elim (parse pattern) [
  | none ↦ none
  | some hir ↦ some (finish (analyze hir extractor) extractor)
]

unfoldable pub plan_literal : List ℕ → GramExtractor → GramQuery
plan_literal lit extractor = covering_query lit extractor
