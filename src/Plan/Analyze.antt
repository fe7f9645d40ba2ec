-- ===== src/Plan/Analyze.antt =====
-- `class_alternatives` and `analyze` of crates/gitpixel-core/src/plan.rs.
pub mod Alternatives
pub mod Fits
pub mod Alternation
pub mod Concat
pub mod Sound
use gitpixel.Base.{
  ℕ, zero, suc, ◌+◌, ◌-◌, ◌*◌, Bool, true, false, not, ◌&&◌, List, [], ◌∷◌, ◌++◌, Option, none,
  some, map,
}
use gitpixel.Base.{ltb, leb, ◌==◌, if◌then◌else◌, length}
use gitpixel.Posting.{GramQuery, and, or, all, GramQueries}
use gitpixel.Posting
use gitpixel.Gram.{GramExtractor}
use gitpixel.Plan.Utf8.{from_u32, encode_utf8}
use gitpixel.Plan.Syntax.{
  Hir, empty, look, literal, class_bytes, class_unicode, capture, repetition, alternation, concat,
  Hirs, nil, cons,
}
use gitpixel.Plan.Query.{push, exact_to_query, simplify}

abbrev pub max_exact : ℕ
max_exact = 64

abbrev pub max_class_expansion : ℕ
max_class_expansion = 4

pub data Info : Type 0 where
  exact : List (List ℕ) → Info
  required : GramQuery → Info

-- `for byte in lo..=hi`, `n` bytes from `byte` on.
unfoldable pub push_bytes : ℕ → ℕ → List (List ℕ) → List (List ℕ)
push_bytes byte zero alts = alts
push_bytes byte (suc n) alts = push_bytes (byte + 1) n (alts ++ (byte ∷ []) ∷ [])

unfoldable pub byte_alternatives : List (ℕ × ℕ) → List (List ℕ) → Option (List (List ℕ))
byte_alternatives [] alts = some alts
byte_alternatives ((lo, hi) ∷ ranges) alts =
    let rest = byte_alternatives ranges (push_bytes lo (hi + 1 - lo) alts) in
    if ltb max_class_expansion (hi - lo + length alts) then none else rest

-- `for cp in lo..=hi`, `n` code points from `cp` on.
unfoldable pub push_chars : ℕ → ℕ → List (List ℕ) → Option (List (List ℕ))
push_chars cp zero alts = some alts
push_chars cp (suc n) alts = elim (from_u32 cp) [
  | none ↦ none
  | some ch ↦ push_chars (cp + 1) n (alts ++ encode_utf8 ch ∷ [])
]

unfoldable pub char_alternatives : List (ℕ × ℕ) → List (List ℕ) → Option (List (List ℕ))
char_alternatives [] alts = some alts
char_alternatives ((lo, hi) ∷ ranges) alts =
    if ltb max_class_expansion (hi - lo + length alts)
    then none
    else elim (push_chars lo (hi + 1 - lo) alts) [
      | none ↦ none
      | some more ↦ char_alternatives ranges more
    ]

-- `(!alts.is_empty()).then_some(alts)`
unfoldable pub non_empty : Option (List (List ℕ)) → Option (List (List ℕ))
non_empty none = none
non_empty (some []) = none
non_empty (some (alt ∷ alts)) = some (alt ∷ alts)

-- What `analyze` makes of `class_alternatives`.
unfoldable pub class_info : Option (List (List ℕ)) → Info
class_info none = required all
class_info (some alts) = exact alts

unfoldable pub finish : Info → GramExtractor → GramQuery
finish (exact alts) extractor = exact_to_query alts extractor
finish (required q) extractor = simplify q

-- The update of `exact_union` in the loop over the branches of an alternation.
unfoldable pub extend_union : Option (List (List ℕ)) → Info → Option (List (List ℕ))
extend_union none info = none
extend_union (some union) (required q) = none
extend_union (some union) (exact alts) =
    if leb (length union + length alts) max_exact then some (union ++ alts) else none

unfoldable pub alternation_loop :
    Option (List (List ℕ)) → GramQueries → List Info → GramExtractor → Info
alternation_loop none queries [] extractor = required (simplify (or queries))
alternation_loop (some union) queries [] extractor = exact union
alternation_loop union queries (info ∷ infos) extractor =
    alternation_loop (extend_union union info) (push queries (finish info extractor)) infos
      extractor

-- The variables of the loop over the parts of a concatenation.
pub record Parts : Type 0 where
  pub requirements : GramQueries
  pub run : List (List ℕ)
  pub whole_exact : Bool

-- `run.len() == 1 && run[0].is_empty()`
unfoldable pub is_start : List (List ℕ) → Bool
is_start ([] ∷ []) = true
is_start _ = false

-- What `flush` leaves in `requirements`; it also resets `run`.
unfoldable pub flush : Parts → GramExtractor → GramQueries
unfolding is_start
flush p extractor =
    if is_start p.run then p.requirements else push p.requirements (exact_to_query p.run extractor)

-- Every prefix with every alternative.
unfoldable pub cross : List (List ℕ) → List (List ℕ) → List (List ℕ)
cross [] alts = []
cross (prefix ∷ run) alts = map (λ alt. prefix ++ alt) alts ++ cross run alts

-- `if !matches!(q, GramQuery::All) { requirements.push(q) }`
unfoldable pub push_narrow : GramQueries → GramQuery → GramQueries
push_narrow queries all = queries
push_narrow queries q = push queries q

unfoldable pub concat_step : Parts → Info → GramExtractor → Parts
unfolding flush
concat_step p (exact alts) extractor =
    if leb (length p.run * length alts) max_exact
    then record p { run = cross p.run alts }
    else record { requirements = flush p extractor; run = alts; whole_exact = false }
concat_step p (required q) extractor = record {
  requirements = push_narrow (flush p extractor) q;
  run = [] ∷ [];
  whole_exact = false;
}

unfoldable pub concat_loop : Parts → List Info → GramExtractor → Info
concat_loop p [] extractor =
    if p.whole_exact then exact p.run else required (simplify (and (flush p extractor)))
concat_loop p (info ∷ infos) extractor = concat_loop (concat_step p info extractor) infos extractor

-- `rep.min == 1 && rep.max == Some(1)`
unfoldable pub is_once : ℕ → Option ℕ → Bool
is_once min none = false
is_once min (some max) = min == 1 && max == 1

-- The case of a repetition, from what `analyze` says of the repeated node.
unfoldable pub repetition_info : ℕ → Option ℕ → Info → GramExtractor → Info
unfolding is_once finish
repetition_info min max info extractor =
    if min == 0
    then required all
    else if is_once min max
    then info
    else required (finish info extractor)

unfoldable mutual
  unfolding repetition_info

  pub analyze : Hir → GramExtractor → Info
  analyze empty extractor = exact ([] ∷ [])
  analyze look extractor = exact ([] ∷ [])
  analyze (literal lit) extractor = exact (lit ∷ [])
  analyze (class_bytes ranges) extractor = class_info (non_empty (byte_alternatives ranges []))
  analyze (class_unicode ranges) extractor = class_info (non_empty (char_alternatives ranges []))
  analyze (capture sub) extractor = analyze sub extractor
  analyze (repetition min max sub) extractor =
      repetition_info min max (analyze sub extractor) extractor
  analyze (alternation subs) extractor =
      alternation_loop (some []) Posting.GramQueries.nil (analyze_each subs extractor) extractor
  analyze (concat subs) extractor =
      concat_loop
        (record { requirements = Posting.GramQueries.nil; run = [] ∷ []; whole_exact = true })
        (analyze_each subs extractor) extractor

  -- The loops call `analyze` on each child in turn; it has no effect, so the results come first here.
  pub analyze_each : Hirs → GramExtractor → List Info
  analyze_each nil extractor = []
  analyze_each (cons sub subs) extractor = analyze sub extractor ∷ analyze_each subs extractor
