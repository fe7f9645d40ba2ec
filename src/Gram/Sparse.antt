-- ===== src/Gram/Sparse.antt =====
-- `SparseGramExtractor` of crates/gitpixel-core/src/gram.rs: the hull algorithm and its covering.
pub mod Hull
pub mod Oracle
pub mod Grams
pub mod Sound
mod Examples
use gitpixel.Base.{
  ℕ, zero, suc, ◌+◌, ◌-◌, ◌%◌, ◌^◌, Bool, true, false, ◌&&◌, ◌||◌, List, [], ◌∷◌, ◌++◌, Option,
  none, some, map,
}
use gitpixel.Base.{ltb, leb, ◌==◌, if◌then◌else◌, length, take, drop, dedup, sort_unstable}
use gitpixel.Gram.{GramHit, GramExtractor, hashes}

-- The extractor with its weigher, which is the field `weight`.
pub record SparseGramExtractor : Type 0 where
  pub weight : List ℕ → ℕ
  pub min_len : ℕ
  pub max_len : ℕ

-- The three assertions; `none` is a panic.
pub with_lengths : (List ℕ → ℕ) → ℕ → ℕ → Option SparseGramExtractor
with_lengths weigher min max =
    if leb 3 min && (leb min max && leb max 0xffff)
    then some (record { weight = weigher; min_len = min; max_len = max })
    else none

pub record HullEntry : Type 0 where
  pub left : ℕ
  pub weight : ℕ

abbrev pub window : SparseGramExtractor → ℕ
window e = e.min_len - 1

-- The hull is a list from the back to the front: `push_back` is a cons.
-- The loop that pops from the front every entry that is too far left.
pub expire : ℕ → ℕ → ℕ → List HullEntry → List HullEntry
expire w max_len right [] = []
expire w max_len right (e ∷ hull) = elim (expire w max_len right hull) [
  | [] ↦ if ltb max_len (right + w - e.left) then [] else e ∷ []
  | x ∷ xs ↦ e ∷ x ∷ xs
]

-- What the loop over the back of the hull leaves: the left ends to emit, the hull, and
-- `allow_survivor_pair`.
pub record Popped : Type 0 where
  pub emitted : List ℕ
  pub rest : List HullEntry
  pub allow_survivor_pair : Bool

pub pop_loop : List HullEntry → ℕ → Popped
pop_loop [] weight = record { emitted = []; rest = []; allow_survivor_pair = true }
pop_loop (top ∷ hull) weight =
    let p = pop_loop hull weight in
    if ltb top.weight weight
    then record p { emitted = top.left ∷ p.emitted }
    else if top.weight == weight
    then record { emitted = top.left ∷ []; rest = hull; allow_survivor_pair = false }
    else record { emitted = []; rest = top ∷ hull; allow_survivor_pair = true }

pub survivor : List HullEntry → Bool → List ℕ
survivor [] allow = []
survivor (top ∷ hull) allow = if allow then top.left ∷ [] else []

-- The left ends that a round emits.
pub round_lefts : Popped → List ℕ
unfolding survivor
round_lefts p = p.emitted ++ survivor p.rest p.allow_survivor_pair

-- The loop that keeps the longest grams: `hits` are those still to come.
pub contained_in : GramHit → List GramHit → Bool
contained_in h [] = false
contained_in h (k ∷ kept) =
    (leb k.start h.start && leb ((h.len + h.start) % 2 ^ 32) ((k.len + k.start) % 2 ^ 32))
    || contained_in h kept

pub keep_longest : List GramHit → List GramHit → List GramHit
unfolding contained_in
keep_longest kept [] = kept
keep_longest kept (h ∷ hits) =
    keep_longest (if contained_in h kept then kept else kept ++ h ∷ []) hits

-- `b.len.cmp(&a.len).then(a.start.cmp(&b.start))` is not `Greater`.
pub in_order : GramHit → GramHit → Bool
in_order a b = ltb b.len a.len || (a.len == b.len && leb a.start b.start)

pub insert_hit : GramHit → List GramHit → List GramHit
unfolding in_order
insert_hit h [] = h ∷ []
insert_hit h (k ∷ hits) = if in_order h k then h ∷ k ∷ hits else k ∷ insert_hit h hits

-- `hits.sort_by(…)`, a stable sort.
pub sort_hits : List GramHit → List GramHit
unfolding insert_hit
sort_hits [] = []
sort_hits (h ∷ hits) = insert_hit h (sort_hits hits)

-- What `covering` makes of the grams of the literal.
pub covering_of : List GramHit → List ℕ
unfolding keep_longest sort_hits
covering_of [] = []
covering_of (h ∷ hits) = dedup (sort_unstable (hashes (keep_longest [] (sort_hits (h ∷ hits)))))

module _ (gram_hash : List ℕ → ℕ) (e : SparseGramExtractor) where
  -- `emit`: the gram from byte `left` to the end of the window at `right`.
  pub emit : List ℕ → ℕ → ℕ → GramHit
  emit text left right = record {
    hash = gram_hash (take (right + window e - left) (drop left text));
    start = left % 2 ^ 32;
    len = (right + window e - left) % 2 ^ 16;
  }

  pub window_weight : List ℕ → ℕ → ℕ
  window_weight text right = e.weight (take (window e) (drop right text))

  emit_all : List ℕ → ℕ → List ℕ → List GramHit
  unfolding emit
  emit_all text right [] = []
  emit_all text right (left ∷ lefts) = emit text left right ∷ emit_all text right lefts

  -- `for right in 0..nwin`, with `n` rounds to go.
  grams_loop : List ℕ → ℕ → ℕ → List HullEntry → List GramHit
  unfolding emit_all
  grams_loop text zero right hull = []
  grams_loop text (suc n) right hull =
      let weight = window_weight text right in
      let p = pop_loop (expire (window e) e.max_len right hull) weight in
      emit_all text right (round_lefts p)
      ++ grams_loop text n (suc right) (record { left = right; weight = weight } ∷ p.rest)

  pub sparse_grams : List ℕ → List GramHit
  unfolding grams_loop
  sparse_grams text =
      if ltb (length text) e.min_len then [] else grams_loop text (length text - window e + 1) 0 []

  pub sparse_covering : List ℕ → List ℕ
  unfolding covering_of
  sparse_covering lit = covering_of (sparse_grams lit)

  pub sparse : GramExtractor
  sparse = record { grams = sparse_grams; covering = sparse_covering }
