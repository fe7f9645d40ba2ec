-- ===== src/Recall/Hits.antt =====
-- `search` of search.rs in crates/gitpixel-recall as a whole, over the rows in an order that is a parameter.
use gitpixel.Base.{
  ℕ, suc, ◌-◌, ◌≡◌, refl, Bool, true, inl, inr, List, [], ◌∷◌, Option, none, some, max, arith,
}
use gitpixel.Base.{String, take, drop, Bool-cases, subst}
use gitpixel.Gram.{GramExtractor, IsSound}
use gitpixel.Plan.{plan_pattern}
use gitpixel.Plan.Analyze.{analyze, finish}
use gitpixel.Posting.{GramQuery}
use gitpixel.Plan.Syntax.{Hir, Language}
use gitpixel.Plan.Query.Sound.{Contains}
use gitpixel.Recall.{Turn, SegmentSet, turn_candidates, considered}
use gitpixel.Recall.Segment.{Among}
use gitpixel.Recall.Indexed.{Indexed}
use gitpixel.Recall.Search.{considered_complete}
use gitpixel.Recall.Visit.{SearchResult, no_hits, visit_rows, visit_rows_lem, matching}

-- `search` for the effective pattern: `compile` makes the regular expression of it, `accepts` is the filters, and `order`
-- puts the rows in order. The source gives the trigram extractor; `none` is the error of a bad pattern.
unfoldable pub search :
    (List ℕ → Option (Turn → Bool))
    → (List ℕ → Option Hir)
    → GramExtractor
    → (String → Option ℕ)
    → (List Turn → List Turn)
    → List ℕ
    → (Turn → Bool)
    → ℕ
    → ℕ
    → SegmentSet
    → List Turn
    → Option SearchResult
search compile parse extractor parse_id order pattern accepts offset limit set turns =
    elim (compile pattern) [
      | none ↦ none
      | some matches ↦ elim (plan_pattern parse pattern extractor) [
        | none ↦ none
        | some plan ↦
            let rows : List Turn =
              considered accepts (turn_candidates parse_id plan set) set.manifest.last_turn_id
                turns in
            some (visit_rows matches offset limit (order rows) 0 no_hits)
      ]
    ]

planned_query :
    (parse : List ℕ → Option Hir) (pattern : List ℕ) (extractor : GramExtractor) (hir : Hir)
    → parse pattern ≡ some hir
    → (q : GramQuery) × (plan_pattern parse pattern extractor ≡ some q)
unfolding plan_pattern
planned_query parse pattern extractor hir e =
    (finish (analyze hir extractor) extractor, rw (plan_pattern, e) refl)

-- A turn among the rows stands on a page of any size above zero.
Among-page :
    (n : ℕ) (t : Turn) (rows : List Turn)
    → Among t rows
    → (offset : ℕ) × Among t (take (suc n) (drop offset rows))
Among-page n t [] m = absurd m
Among-page n t (u ∷ rows) (inl same) = (0, inl same)
Among-page n t (u ∷ rows) (inr later) =
    let (offset, on_page) = Among-page n t rows later in (suc offset, on_page)

module _ (matches : Turn → Bool) (offset limit : ℕ) (t : Turn) (match : matches t ≡ true) where
  Among-matching : (rows : List Turn) → Among t rows → Among t (matching matches offset limit rows)
  Among-matching [] m = m
  Among-matching (u ∷ rows) (inl same) =
      rw (subst (λ (v : Turn). matches v ≡ true) same match) (inl same)
  Among-matching (u ∷ rows) (inr later) = elim (Bool-cases (matches u)) [
    | inl e ↦ rw e (inr (Among-matching rows later))
    | inr e ↦ rw e (Among-matching rows later)
  ]

-- A row that matches is a hit of some page.
hit_somewhere :
    (matches : Turn → Bool) (limit : ℕ) (t : Turn) (rows : List Turn)
    → matches t ≡ true
    → Among t rows
    → (offset : ℕ) × Among t (visit_rows matches offset limit rows 0 no_hits).hits
hit_somewhere matches limit t rows match m =
    let size : max limit 1 ≡ suc (limit - 1) = ground arith in
    let (offset, on_page) =
      Among-page (limit - 1) t (matching matches 0 limit rows)
        (Among-matching matches 0 limit t match rows m) in
    (offset, rw (visit_rows_lem matches offset limit rows, size) on_page)

-- Take a pattern that compiles and parses, a table of which every turn up to the mark is in a shard that opens, a
-- regular expression that finds something in each text that contains a byte string its node accepts, and an order
-- of rows that loses none. If a turn of the table passes the filters and contains such a byte string, then for every
-- limit there is an offset at which `search` returns a result with the turn among its hits.
pub search_complete :
    (language : Language) (extractor : GramExtractor)
    → IsSound extractor
    → (name to_string : ℕ → String) (parse_id : String → Option ℕ)
    → ((n : ℕ) → parse_id (to_string n) ≡ some n)
    → (turns : List Turn) (set : SegmentSet) → Indexed extractor name to_string turns set
    → (compile : List ℕ → Option (Turn → Bool)) (parse : List ℕ → Option Hir) (pattern : List ℕ)
      (hir : Hir) (matches : Turn → Bool)
    → parse pattern ≡ some hir
    → compile pattern ≡ some matches
    → ((u : Turn) (s : List ℕ) → language.Accepts hir s → Contains s u.text → matches u ≡ true)
    → (order : List Turn → List Turn)
    → ((u : Turn) (rows : List Turn) → Among u rows → Among u (order rows))
    → (accepts : Turn → Bool) (t : Turn) (s : List ℕ) → Among t turns
    → accepts t ≡ true
    → language.Accepts hir s
    → Contains s t.text
    → (limit : ℕ)
    → (offset : ℕ) × (found : SearchResult) × (search compile parse extractor parse_id order pattern
          accepts offset limit set turns
        ≡ some found)
      × Among t found.hits
unfolding search
search_complete language extractor sound name to_string parse_id back turns set v compile parse
      pattern hir matches e c finds order keeps accepts t s m pass a inside limit =
    let (q, planned) = planned_query parse pattern extractor hir e in
    let rows : List Turn =
      considered accepts (turn_candidates parse_id q set) set.manifest.last_turn_id turns in
    let selected : Among t rows =
      considered_complete language extractor sound name to_string parse_id back turns set v parse
        pattern hir q e planned accepts t s m pass a inside in
    let (offset, hit) =
      hit_somewhere matches limit t (order rows) (finds t s a inside) (keeps t rows selected) in
    (
      offset,
      visit_rows matches offset limit (order rows) 0 no_hits,
      rw (search, c, planned) refl,
      hit,
    )
