-- ===== src/Recall/Segment.antt =====
-- The shard that segment.rs of crates/gitpixel-recall makes of a batch of turns.
use gitpixel.Base.{
  ℕ, suc, ◌^◌, ◌<◌, ◌≡◌, refl, sym, ◌∙◌, ap, ◌⊎◌, inl, inr, List, [], ◌∷◌, some, arith,
}
use gitpixel.Base.{String, length, elem, IsSorted}
use gitpixel.Gram.{GramExtractor, hashes}
use gitpixel.Shard.Builder.{ShardBuilder, new, add_file}
use gitpixel.Shard.Builder.Index.{new-IsValid}
use gitpixel.IndexSet.{Layer, layer_of, path_of, keys}
use gitpixel.IndexSet.Candidates.{IsIndex}
use gitpixel.IndexSet.Build.{add_files}
use gitpixel.IndexSet.Build.Index.{sets_of, length-keys, add_files-files, add_files-IsIndex}
use gitpixel.Recall.{Turn, add_turns}

-- Membership in a list of turns.
abbrev pub Among : Turn → List Turn → Type 0
Among t [] = ⊥
Among t (u ∷ turns) = (t ≡ u) ⊎ Among t turns

module _ (extractor : GramExtractor) (to_string : ℕ → String) where
  -- A shard has a turn: a file of it is named by its id and stands in exactly the lists of its grams.
  pub record HasTurn (layer : Layer) (t : Turn) : Type 0 where
    pub place : ℕ
    pub below : place < length layer.files
    pub fits : length layer.files < 2 ^ 32
    pub named : path_of layer.files place ≡ some (to_string t.id)
    pub sorted : (h : ℕ) → IsSorted (layer.postings h)
    pub exact : (h : ℕ) → elem place (layer.postings h) ≡ elem h (hashes (extractor.grams t.text))

  abbrev entry : Turn → String × List ℕ
  entry t = (to_string t.id, hashes (extractor.grams t.text))

  abbrev entries : List Turn → List (String × List ℕ)
  entries [] = []
  entries (t ∷ batch) = entry t ∷ entries batch

  length-entries : (batch : List Turn) → length (entries batch) ≡ length batch
  length-entries [] = refl
  length-entries (t ∷ batch) = ap suc (length-entries batch)

  add_turns-entries :
      (batch : List Turn) (b : ShardBuilder)
      → add_turns extractor to_string batch b ≡ add_files (entries batch) b
  unfolding add_turns add_files
  add_turns-entries [] b = refl
  add_turns-entries (t ∷ batch) b =
      add_turns-entries batch (add_file (to_string t.id) (hashes (extractor.grams t.text)) b).0

  abbrev Stands : Turn → List Turn → Type 0
  Stands t batch =
      (x : ℕ) × (x < length batch)
      × (path_of (keys (entries batch)) x ≡ some (to_string t.id))
      × (sets_of (entries batch) x ≡ hashes (extractor.grams t.text))

  stands : (t : Turn) (batch : List Turn) → Among t batch → Stands t batch
  unfolding path_of
  stands t [] m = absurd m
  stands t (u ∷ batch) (inl same) = (
    0,
    omega arith,
    ap (λ (v : Turn). some (to_string v.id)) (sym same),
    ap (λ (v : Turn). hashes (extractor.grams v.text)) (sym same),
  )
  stands t (u ∷ batch) (inr later) =
      let (x, below, at, set) = stands t batch later in (suc x, omega (arith, below), at, set)

  -- The shard of a batch has its turns.
  pub add_turns-HasTurn :
      (extractor_id : String) (batch : List Turn) (t : Turn)
      → length batch < 2 ^ 32
      → Among t batch
      → HasTurn (layer_of (add_turns extractor to_string batch (new extractor_id))) t
  unfolding new
  add_turns-HasTurn extractor_id batch t fits m =
      let b : ShardBuilder = new extractor_id in
      let xs : List (String × List ℕ) = entries batch in
      let index : IsIndex (layer_of (add_files xs b)) (sets_of xs) =
        add_files-IsIndex xs b refl (new-IsValid extractor_id)
          (omega (arith, fits, length-entries batch)) in
      let files : (add_files xs b).files ≡ keys xs = add_files-files xs b in
      let (x, below, at, set) = stands t batch m in
      let inside : x < length (add_files xs b).files =
        rw files (omega (arith, below, length-keys xs, length-entries batch)) in
      rw (add_turns-entries batch b) (record {
        place = x;
        below = inside;
        fits = index.fits;
        named = rw files at;
        sorted = index.sorted;
        exact = λ h. index.exact x h inside ∙ ap (λ hs. elem h hs) set;
      })

  -- One of the shards has the turn.
  abbrev pub InShard : List Layer → Turn → Type 0
  InShard [] t = ⊥
  InShard (l ∷ shards) t = HasTurn l t ⊎ InShard shards t
