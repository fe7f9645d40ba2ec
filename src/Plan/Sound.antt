-- ===== src/Plan/Sound.antt =====
-- The plan never excludes a text that the pattern matches.
use gitpixel.Base.{ℕ, ◌≡◌, true, List, Option, some, arith}
use gitpixel.Posting.{GramQuery}
use gitpixel.Overlay.{eval}
use gitpixel.Gram.{GramExtractor, IsSound, hashes}
use gitpixel.Plan.Syntax.{Hir, Language}
use gitpixel.Plan.Query.Sound.{Contains, covering_query_sound}
use gitpixel.Plan.Analyze.Sound.{finish-analyze_sound}
use gitpixel.Plan.{plan_pattern, plan_literal}

-- For a sound extractor, and a pattern that parses to a node: if a text contains a byte string that the
-- node accepts, then the query that `plan_pattern` returns accepts the grams of that text.
pub plan_pattern_sound :
    (language : Language) (extractor : GramExtractor)
    → IsSound extractor
    → (parse : List ℕ → Option Hir) (pattern : List ℕ) (hir : Hir) (q : GramQuery) (s text : List ℕ)
    → parse pattern ≡ some hir
    → plan_pattern parse pattern extractor ≡ some q
    → language.Accepts hir s
    → Contains s text
    → eval q (hashes (extractor.grams text)) ≡ true
unfolding plan_pattern
plan_pattern_sound language extractor sound parse pattern hir q s text p e a c =
    ground (arith, finish-analyze_sound extractor sound text language hir s a c)

-- For a sound extractor the query of `plan_literal` accepts the grams of every text that contains the
-- literal.
pub plan_literal_sound :
    (extractor : GramExtractor)
    → IsSound extractor
    → (lit text : List ℕ) → Contains lit text
    → eval (plan_literal lit extractor) (hashes (extractor.grams text)) ≡ true
unfolding plan_literal
plan_literal_sound extractor sound lit text c = covering_query_sound extractor sound text lit c
