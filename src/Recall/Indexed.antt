-- ===== src/Recall/Indexed.antt =====
-- `index_new` and `rebuild` of segment.rs in crates/gitpixel-recall index every turn.
use native.Mathlib.Decide.{dec_lt}
use gitpixel.Base.{
  ℕ, zero, suc, ◌+◌, ◌≤◌, ◌<◌, ◌≡◌, refl, ◌∙◌, ap, subst, ◌⊎◌, inl, inr, true, false, List, [], ◌∷◌,
  ◌++◌, Option, none, some, arith,
}
use gitpixel.Base.{
  String, str_eq, eq_iff, length, Ascends, Ascends-weaken, All, Bool-cases, find, insert,
  find-insert,
}
use gitpixel.Gram.{GramExtractor}
use gitpixel.Shard.Builder.{new}
use gitpixel.IndexSet.{Layer, layer_of}
use gitpixel.Recall.{
  Turn, SegmentEntry, Manifest, SegmentSet, IndexReport, segment_target, newer, turns_for_indexing,
  add_turns, write_segment, index_loop, index_new, fresh_manifest, rebuild, open_entries,
  push_opened, open_shards,
}
use gitpixel.Recall.Segment.{Among, HasTurn, add_turns-HasTurn, InShard}
use gitpixel.Recall.Batches.{
  ids, in_batch, batch_progress, none_newer, length-turns_for_indexing, length-newer, Among-above,
}

push_opened-append :
    (found : Option Layer) (rest : List Layer) (layer : Layer)
    → push_opened found (rest ++ layer ∷ []) ≡ push_opened found rest ++ layer ∷ []
unfolding push_opened
push_opened-append none rest layer = refl
push_opened-append (some first) rest layer = refl

open_entries-insert :
    (file : String) (layer : Layer) (count : ℕ) (files : List (String × Layer))
    (entries : List SegmentEntry)
    → All (λ (e : SegmentEntry). str_eq file e.file ≡ false) entries
    → open_entries
        (insert file layer files)
        (entries ++ record { file = file; doc_count = count } ∷ [])
      ≡ open_entries files entries ++ layer ∷ []
unfolding open_entries push_opened
open_entries-insert file layer count files [] a =
    let self : str_eq file file ≡ true = (eq_iff file file).1 refl in
    rw (find-insert file file layer files, self, push_opened) refl
open_entries-insert file layer count files (e ∷ entries) a =
    rw
      (
        find-insert file e.file layer files,
        a.0,
        open_entries-insert file layer count files entries a.1,
      )
      (push_opened-append (find e.file files) (open_entries files entries) layer)

-- The files of the entries have the numbers that follow the generation.
abbrev pub Numbered : (ℕ → String) → ℕ → List SegmentEntry → Type 0
Numbered name n [] = Unit
Numbered name n (e ∷ entries) = (e.file ≡ name (n + 1)) × Numbered name (n + 1) entries

module _ (extractor : GramExtractor) (name to_string : ℕ → String) where
  -- The entries are numbered, and every turn up to the mark of the manifest is in a shard that opens.
  pub record Indexed (turns : List Turn) (set : SegmentSet) : Type 0 where
    pub numbered : Numbered name set.manifest.generation set.manifest.segments
    pub covered :
        (t : Turn)
        → Among t turns
        → t.id ≤ set.manifest.last_turn_id
        → InShard extractor to_string (open_shards set) t

  -- Every turn is in a shard that opens.
  abbrev pub Complete : List Turn → SegmentSet → Type 0
  Complete turns set =
      Indexed turns set × ((t : Turn) → Among t turns → t.id ≤ set.manifest.last_turn_id)

module _ (extractor : GramExtractor) (extractor_id : String) (name to_string : ℕ → String)
    (name_inj : (m n : ℕ) → name m ≡ name n → m ≡ n) where
  next_name :
      (n k : ℕ) (entries : List SegmentEntry)
      → Numbered name n entries
      → n + length entries < k
      → All (λ (e : SegmentEntry). str_eq (name k) e.file ≡ false) entries
  next_name n k [] num h = tt
  next_name n k (e ∷ entries) num h = (
    elim (Bool-cases (str_eq (name k) e.file)) [
      | inl same ↦
          absurd (omega (arith, h, name_inj k (n + 1) ((eq_iff (name k) e.file).0 same ∙ num.0)))
      | inr other ↦ other
    ],
    next_name (n + 1) k entries num.1 (omega (arith, h)),
  )

  Numbered-append :
      (n : ℕ) (entries : List SegmentEntry) (e : SegmentEntry)
      → Numbered name n entries
      → e.file ≡ name (n + length entries + 1)
      → Numbered name n (entries ++ e ∷ [])
  Numbered-append n [] e num last =
      let sum : n + 0 + 1 ≡ n + 1 = omega arith in (last ∙ ap name sum, tt)
  Numbered-append n (x ∷ entries) e num last =
      let sum : n + suc (length entries) + 1 ≡ n + 1 + length entries + 1 = omega arith in
      (num.0, Numbered-append (n + 1) entries e num.1 (last ∙ ap name sum))

  InShard-append :
      (shards : List Layer) (l : Layer) (t : Turn)
      → InShard extractor to_string shards t
      → InShard extractor to_string (shards ++ l ∷ []) t
  InShard-append [] l t m = absurd m
  InShard-append (x ∷ shards) l t (inl here) = inl here
  InShard-append (x ∷ shards) l t (inr later) = inr (InShard-append shards l t later)

  InShard-last :
      (shards : List Layer) (l : Layer) (t : Turn)
      → HasTurn extractor to_string l t
      → InShard extractor to_string (shards ++ l ∷ []) t
  InShard-last [] l t has = inl has
  InShard-last (x ∷ shards) l t has = inr (InShard-last shards l t has)

  write_segment-open :
      (batch : List Turn) (after : ℕ) (set : SegmentSet)
      → Numbered name set.manifest.generation set.manifest.segments
      → open_shards (write_segment extractor extractor_id name to_string batch after set)
        ≡ open_shards set ++ layer_of (add_turns extractor to_string batch (new extractor_id)) ∷ []
  unfolding open_shards write_segment
  write_segment-open batch after set num =
      open_entries-insert _ _ _ set.files set.manifest.segments
        (next_name set.manifest.generation _ set.manifest.segments num (omega arith))

  write_segment-Indexed :
      (turns : List Turn) (set : SegmentSet)
      → Ascends 0 (ids turns)
      → Indexed extractor name to_string turns set
      → let after = set.manifest.last_turn_id in
        let batch = turns_for_indexing after segment_target turns in
        Indexed extractor name to_string turns
          (write_segment extractor extractor_id name to_string batch after set)
  unfolding write_segment
  write_segment-Indexed turns set up v =
      let after : ℕ = set.manifest.last_turn_id in
      let batch : List Turn = turns_for_indexing after segment_target turns in
      let short : length batch ≤ segment_target =
        length-turns_for_indexing after segment_target turns in
      let layer : Layer = layer_of (add_turns extractor to_string batch (new extractor_id)) in
      record {
        numbered = Numbered-append set.manifest.generation set.manifest.segments _ v.numbered refl;
        covered = λ t m upto.
            rw (write_segment-open batch after set v.numbered) (elim (dec_lt after t.id) [
              | yes newer_than ↦ InShard-last (open_shards set) layer t (
                  add_turns-HasTurn extractor to_string extractor_id batch t (omega (arith, short))
                    (in_batch after segment_target turns t up m newer_than upto))
              | no not_newer ↦
                  InShard-append (open_shards set) layer t
                    (v.covered t m (omega (arith, not_newer)))
            ]);
      }

  batch_cases :
      (batch : List Turn) → (batch ≡ []) ⊎ ((t : Turn) × (ts : List Turn) × (batch ≡ t ∷ ts))
  batch_cases [] = inl refl
  batch_cases (t ∷ ts) = inr (t, ts, refl)

  index_loop-Complete :
      (fuel : ℕ) (turns : List Turn) (set : SegmentSet) (report : IndexReport)
      → Ascends 0 (ids turns)
      → length (newer set.manifest.last_turn_id turns) < fuel
      → Indexed extractor name to_string turns set
      → Complete extractor name to_string turns
          (index_loop extractor extractor_id name to_string fuel turns set.manifest.last_turn_id
            (set, report)).0
  unfolding index_loop write_segment
  index_loop-Complete zero turns set report up f v = absurd (omega (arith, f))
  index_loop-Complete (suc fuel) turns set report up f v =
      let after : ℕ = set.manifest.last_turn_id in
      elim (batch_cases (turns_for_indexing after segment_target turns)) [
        | inl e ↦
            rw (e, index_loop) (v, λ t m. none_newer after segment_target turns t (omega arith) e m)
        | inr (t, ts, e) ↦
            let next : SegmentSet =
              write_segment extractor extractor_id name to_string (t ∷ ts) after set in
            rw (e, index_loop)
              (index_loop-Complete fuel turns next _ up
                (omega (arith, f, batch_progress after segment_target turns t ts e))
                (subst
                  (λ batch.
                    Indexed extractor name to_string turns
                      (write_segment extractor extractor_id name to_string batch after set))
                  e (write_segment-Indexed turns set up v)))
      ]

  -- `index_new` leaves every turn of the table in a shard that opens, and its mark behind the last of them, if the
  -- set that it starts from has the turns up to its mark.
  pub index_new-Complete :
      (fresh : Option Manifest) (turns : List Turn) (set : SegmentSet)
      → Ascends 0 (ids turns)
      → Indexed extractor name to_string turns
          (record set { manifest = fresh_manifest fresh set.manifest })
      → Complete extractor name to_string turns
          (index_new extractor extractor_id name to_string fresh turns set).0
  unfolding index_new
  index_new-Complete fresh turns set up v =
      index_loop-Complete (suc (length turns)) turns _ _ up
        (omega (arith, length-newer (fresh_manifest fresh set.manifest).last_turn_id turns)) v

  -- `rebuild` leaves every turn of the table in a shard that opens, whatever set it starts from, if the ids of the
  -- turns are positive.
  pub rebuild-Complete :
      (turns : List Turn) (set : SegmentSet)
      → Ascends 1 (ids turns)
      → Complete extractor name to_string turns
          (rebuild extractor extractor_id name to_string turns set).0
  unfolding rebuild
  rebuild-Complete turns set up =
      index_new-Complete _ turns _ (Ascends-weaken 1 0 (ids turns) (omega arith) up) (record {
        numbered = tt;
        covered = λ t m upto. absurd (omega (arith, upto, Among-above 1 turns t up m));
      })
