-- ===== src/Recall/Search.antt =====
-- What either path of `search` in search.rs of crates/gitpixel-recall selects.
use gitpixel.Base.{
  ℕ, ◌^◌, ◌%◌, ◌≤◌, ◌≡◌, refl, ◌∙◌, inl, inr, Bool, true, List, [], ◌∷◌, Option, none, some, arith,
}
use gitpixel.Base.{String, length, elem, Bool-cases, ◌==◌}
use gitpixel.Posting.{GramQuery, literal, and, or, all, resolve_query}
use gitpixel.Posting.Resolve.{resolve_query-eval}
use gitpixel.Gram.{GramExtractor, IsSound, hashes}
use gitpixel.Overlay.{eval}
use gitpixel.Plan.{plan_pattern}
use gitpixel.Plan.Syntax.{Hir, Language}
use gitpixel.Plan.Query.Sound.{Contains}
use gitpixel.Plan.Sound.{plan_pattern_sound}
use gitpixel.IndexSet.{Layer, file_count, path_of}
use gitpixel.Recall.{
  Turn, SegmentSet, open_shards, insert_id, parsed, insert_locals, collect_shards, turn_candidates,
  passes, where_rows, considered,
}
use gitpixel.Recall.Segment.{Among, HasTurn, InShard}
use native.Mathlib.Decide.{dec_lt}
use gitpixel.Recall.Rows.{Wanted, Among-scan_rows, Among-where_rows, Among-considered}
use gitpixel.Recall.Indexed.{Indexed}

module _ (extractor : GramExtractor) (to_string : ℕ → String) (parse_id : String → Option ℕ)
    (parse_id-to_string : (n : ℕ) → parse_id (to_string n) ≡ some n) where
  insert_id_keeps :
      (id : ℕ) (o : Option ℕ) (ids : List ℕ)
      → elem id ids ≡ true
      → elem id (insert_id parse_id o ids) ≡ true
  unfolding insert_id
  insert_id_keeps id none ids e = e
  insert_id_keeps id (some other) ids e = ground (arith, e)

  insert_id_adds : (id : ℕ) (ids : List ℕ) → elem id (insert_id parse_id (some id) ids) ≡ true
  unfolding insert_id
  insert_id_adds id ids = ground arith

  insert_locals_keeps :
      (id : ℕ) (files : List String) (locals ids : List ℕ)
      → elem id ids ≡ true
      → elem id (insert_locals parse_id files locals ids) ≡ true
  unfolding insert_locals
  insert_locals_keeps id files [] ids e = e
  insert_locals_keeps id files (x ∷ locals) ids e =
      insert_locals_keeps id files locals _
        (insert_id_keeps id (parsed parse_id (path_of files x)) ids e)

  insert_locals_adds :
      (id x : ℕ) (files : List String) (locals ids : List ℕ)
      → elem x locals ≡ true
      → path_of files x ≡ some (to_string id)
      → elem id (insert_locals parse_id files locals ids) ≡ true
  unfolding insert_locals parsed
  insert_locals_adds id x files [] ids e at = cc
  insert_locals_adds id x files (y ∷ locals) ids e at = elim (Bool-cases (x == y)) [
    | inl same ↦
        let here : y ≡ x = ground arith in
        insert_locals_keeps id files locals _
          (rw (here, at, parsed, parse_id-to_string id) (insert_id_adds id ids))
    | inr other ↦
        let later : elem x locals ≡ true = ground arith in
        insert_locals_adds id x files locals _ later at
  ]

  collect_shards_keeps :
      (id : ℕ) (q : GramQuery) (shards : List Layer) (ids : List ℕ)
      → elem id ids ≡ true
      → elem id (collect_shards parse_id q shards ids) ≡ true
  unfolding collect_shards
  collect_shards_keeps id q [] ids e = e
  collect_shards_keeps id q (l ∷ shards) ids e =
      collect_shards_keeps id q shards _
        (insert_locals_keeps id l.files (resolve_query q (file_count l) l.postings) ids e)

  found_in :
      (q : GramQuery) (l : Layer) (t : Turn) (ids : List ℕ)
      → HasTurn extractor to_string l t
      → eval q (hashes (extractor.grams t.text)) ≡ true
      → elem t.id (insert_locals parse_id l.files (resolve_query q (file_count l) l.postings) ids)
        ≡ true
  found_in q l t ids has e =
      let count : length l.files % 2 ^ 32 ≡ length l.files = omega (arith, has.fits) in
      let resolved =
        resolve_query-eval (file_count l) has.place (hashes (extractor.grams t.text)) l.postings
          (omega (arith, has.below, count)) has.sorted has.exact q in
      insert_locals_adds t.id has.place l.files _ ids (resolved.1 ∙ e) has.named

  collect_shards_adds :
      (q : GramQuery) (shards : List Layer) (t : Turn) (ids : List ℕ)
      → InShard extractor to_string shards t
      → eval q (hashes (extractor.grams t.text)) ≡ true
      → elem t.id (collect_shards parse_id q shards ids) ≡ true
  unfolding collect_shards
  collect_shards_adds q [] t ids m e = absurd m
  collect_shards_adds q (l ∷ shards) t ids (inl has) e =
      collect_shards_keeps t.id q shards _ (found_in q l t ids has e)
  collect_shards_adds q (l ∷ shards) t ids (inr later) e = collect_shards_adds q shards t _ later e

  wanted :
      (q : GramQuery) (set : SegmentSet) (t : Turn)
      → eval q (hashes (extractor.grams t.text)) ≡ true
      → (t.id ≤ set.manifest.last_turn_id → InShard extractor to_string (open_shards set) t)
      → Wanted (collect_shards parse_id q (open_shards set) []) set.manifest.last_turn_id t
  wanted q set t accepted covered = elim (dec_lt set.manifest.last_turn_id t.id) [
    | yes tail ↦ inl tail
    | no indexed ↦
        let upto : t.id ≤ set.manifest.last_turn_id = omega (arith, indexed) in
        inr (upto, collect_shards_adds q (open_shards set) t [] (covered upto) accepted)
  ]

-- The turn is fetched, if its shard is asked for a query that accepts its grams.
Among-turn_candidates :
    (extractor : GramExtractor) (to_string : ℕ → String) (parse_id : String → Option ℕ)
    (back : (n : ℕ) → parse_id (to_string n) ≡ some n) (q : GramQuery) (turns : List Turn)
    (accepts : Turn → Bool) (set : SegmentSet) (t : Turn)
    → Among t turns
    → accepts t ≡ true
    → eval q (hashes (extractor.grams t.text)) ≡ true
    → (t.id ≤ set.manifest.last_turn_id → InShard extractor to_string (open_shards set) t)
    → Among t (considered accepts (turn_candidates parse_id q set) set.manifest.last_turn_id turns)
unfolding turn_candidates
Among-turn_candidates extractor to_string parse_id back all turns accepts set t m pass accepted
      covered =
    unfold considered in
    Among-scan_rows none set.manifest.last_turn_id (where_rows accepts turns) t
      (Among-where_rows accepts turns t m pass) (unfold passes in refl)
Among-turn_candidates extractor to_string parse_id back (literal h) turns accepts set t m pass
      accepted covered =
    Among-considered accepts _ set.manifest.last_turn_id turns t m pass
      (wanted extractor to_string parse_id back (literal h) set t accepted covered)
Among-turn_candidates extractor to_string parse_id back (and qs) turns accepts set t m pass accepted
      covered =
    Among-considered accepts _ set.manifest.last_turn_id turns t m pass
      (wanted extractor to_string parse_id back (and qs) set t accepted covered)
Among-turn_candidates extractor to_string parse_id back (or qs) turns accepts set t m pass accepted
      covered =
    Among-considered accepts _ set.manifest.last_turn_id turns t m pass
      (wanted extractor to_string parse_id back (or qs) set t accepted covered)

-- Where every turn up to the mark is in a shard that opens: if a turn of the table passes the filters and contains a
-- byte string that the pattern's node accepts, then it is among the rows that `search` selects, on either path.
pub considered_complete :
    (language : Language) (extractor : GramExtractor)
    → IsSound extractor
    → (name to_string : ℕ → String) (parse_id : String → Option ℕ)
    → ((n : ℕ) → parse_id (to_string n) ≡ some n)
    → (turns : List Turn) (set : SegmentSet) → Indexed extractor name to_string turns set
    → (parse : List ℕ → Option Hir) (pattern : List ℕ) (hir : Hir) (q : GramQuery)
    → parse pattern ≡ some hir
    → plan_pattern parse pattern extractor ≡ some q
    → (accepts : Turn → Bool) (t : Turn) (s : List ℕ) → Among t turns
    → accepts t ≡ true
    → language.Accepts hir s
    → Contains s t.text
    → Among t (considered accepts (turn_candidates parse_id q set) set.manifest.last_turn_id turns)
considered_complete language extractor sound name to_string parse_id back turns set v parse pattern
      hir q e planned accepts t s m pass a c =
    let accepted : eval q (hashes (extractor.grams t.text)) ≡ true =
      plan_pattern_sound language extractor sound parse pattern hir q s t.text e planned a c in
    Among-turn_candidates extractor to_string parse_id back q turns accepts set t m pass accepted
      (v.covered t m)
