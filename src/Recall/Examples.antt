-- ===== src/Recall/Examples.antt =====
-- Two turns of crates/gitpixel-recall, indexed and searched. An id is written as so many marks.
use Prim.Native.String.{[] as empty, ◌∷◌ as ◌∷ᶜ◌}
use gitpixel.Base.{
  ℕ, zero, suc, ◌≡◌, refl, sym, ◌∙◌, ap, Bool, true, List, [], ◌∷◌, ◌++◌, Option, none, some, inl,
  inr, ◌⊎◌, arith,
}
use gitpixel.Base.{String, take, drop, elem, elem-append}
use gitpixel.Gram.{GramExtractor}
use gitpixel.Gram.Trigram.{trigram, trigram-IsSound}
use gitpixel.Plan.Examples.{sum_hash, node, parse, matched, sample, denotation, accepted}
use gitpixel.Plan.Query.Sound.{Contains}
use gitpixel.Recall.{Turn, SegmentSet, empty_manifest, index_new, rebuild}
use gitpixel.Recall.Segment.{Among}
use gitpixel.Recall.Batches.{Among-above}
use gitpixel.Recall.Indexed.{Indexed, Complete, index_new-Complete, rebuild-Complete}
use gitpixel.Recall.Hits.{search, search_complete}
use gitpixel.Recall.Visit.{SearchResult, no_hits, visit_rows, visit_rows_lem}

abbrev extractor : GramExtractor
extractor = trigram sum_hash

abbrev tally : ℕ → String
tally zero = ""
tally (suc n) = "x" ∷ᶜ tally n

abbrev marks : String → ℕ
marks empty = 0
marks (c ∷ᶜ s) = suc (marks s)

marks-tally : (n : ℕ) → marks (tally n) ≡ n
marks-tally zero = refl
marks-tally (suc n) = ap (λ (k : ℕ). suc k) (marks-tally n)

abbrev parse_id : String → Option ℕ
parse_id s = some (marks s)

tally_inj : (m n : ℕ) → tally m ≡ tally n → m ≡ n
tally_inj m n e = sym (marks-tally m) ∙ ap marks e ∙ marks-tally n

abbrev first : Turn
first = record { id = 3; text = sample }

abbrev turns : List Turn
turns = first ∷ record { id = 5; text = 1 ∷ [] } ∷ []

abbrev fresh_set : SegmentSet
fresh_set = record { manifest = empty_manifest; files = [] }

abbrev indexed : SegmentSet
indexed = (rebuild extractor "trigram" tally tally turns fresh_set).0

rebuild-Complete_example : Complete extractor tally tally turns indexed
rebuild-Complete_example =
    rebuild-Complete extractor "trigram" tally tally tally_inj turns fresh_set (omega arith)

abbrev more_turns : List Turn
more_turns = turns ++ record { id = 8; text = [] } ∷ []

none_yet : Indexed extractor tally tally more_turns fresh_set
none_yet = record {
  numbered = tt;
  covered = λ t m upto. absurd (omega (arith, upto, Among-above 1 more_turns t (omega arith) m));
}

index_new-Complete_example :
    Complete extractor tally tally more_turns
      (index_new extractor "trigram" tally tally none more_turns fresh_set).0
index_new-Complete_example =
    index_new-Complete extractor "trigram" tally tally tally_inj none more_turns fresh_set
      (omega arith) none_yet

abbrev any_text : Turn → Bool
any_text t = true

-- A regular expression that asks for the letter a, with which the accepted byte strings begin.
abbrev has_a : Turn → Bool
has_a t = elem 97 t.text

abbrev compile : List ℕ → Option (Turn → Bool)
compile pattern = some has_a

has_a_finds :
    (t : Turn) (s : List ℕ) → denotation.Accepts node s → Contains s t.text → has_a t ≡ true
has_a_finds t s a (before, after, e) =
    let (u, v, split, first_part, _) = denotation.of_concat _ s a in
    let ab : u ≡ 97 ∷ 98 ∷ [] = denotation.of_literal _ u first_part in
    rw (e, elem-append, elem-append, split, elem-append, ab) (ground arith)

-- The rows by descending id.
abbrev order : List Turn → List Turn
order [] = []
order (t ∷ rows) = order rows ++ t ∷ []

Among-last : (u t : Turn) (rows : List Turn) → Among u rows ⊎ (u ≡ t) → Among u (rows ++ t ∷ [])
Among-last u t [] (inl m) = absurd m
Among-last u t [] (inr e) = inl e
Among-last u t (w ∷ rows) (inl (inl e)) = inl e
Among-last u t (w ∷ rows) (inl (inr m)) = inr (Among-last u t rows (inl m))
Among-last u t (w ∷ rows) (inr e) = inr (Among-last u t rows (inr e))

Among-order : (u : Turn) (rows : List Turn) → Among u rows → Among u (order rows)
Among-order u [] m = m
Among-order u (t ∷ rows) (inl e) = Among-last u t (order rows) (inr e)
Among-order u (t ∷ rows) (inr m) = Among-last u t (order rows) (inl (Among-order u rows m))

search_complete_example :
    (offset : ℕ) × (found : SearchResult) × (search compile parse extractor parse_id order []
        any_text offset 1 indexed turns
      ≡ some found)
    × Among first found.hits
search_complete_example =
    search_complete denotation extractor (trigram-IsSound sum_hash) tally tally parse_id
      (λ n. ap (λ (k : ℕ). some k) (marks-tally n)) turns indexed rebuild-Complete_example.0 compile
      parse [] node has_a refl refl has_a_finds order Among-order any_text first matched (inl refl)
      refl accepted (32 ∷ [], 10 ∷ [], refl) 1

visit_rows_lem_example : (visit_rows any_text 1 1 turns 0 no_hits).hits ≡ take 1 (drop 1 turns)
visit_rows_lem_example = visit_rows_lem any_text 1 1 turns
