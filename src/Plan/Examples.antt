-- ===== src/Plan/Examples.antt =====
-- A reading of the nodes as sets of byte strings, runs of the planner, and its theorems at an input.
use gitpixel.Base.{
  ℕ, zero, suc, ◌+◌, ◌*◌, ◌≤◌, ◌≡◌, refl, sym, ap, ◌∙◌, subst, true, ◌⊎◌, inl, inr, List, [], ◌∷◌,
  ◌++◌, Option, none, some, arith,
}
use mathlib.Core.List.{append-nil}
use gitpixel.Posting.{GramQuery, and, or, all, GramQueries}
use gitpixel.Posting
use gitpixel.Overlay.{eval}
use gitpixel.Gram.{hashes}
use gitpixel.Gram.Trigram.{trigram, trigram-IsSound, trigram_covering, windows_3}
use gitpixel.Plan.Syntax.{
  Hir, empty, look, literal, class_bytes, class_unicode, capture, repetition, alternation, concat,
  Hirs, nil, cons,
}
use gitpixel.Plan.Syntax.{InRanges, Language, AcceptsOne, AcceptsSeq}
use gitpixel.Plan.Utf8.{encode_utf8}
use gitpixel.Plan.Query.{
  simplify, exact_to_query, exact_branches, push_branch, covering_query, and_literals,
}
use gitpixel.Plan.Query.{
  literals, or_branches, or_flat, and_parts, retain_narrow, and_narrow, flatten_and,
}
use gitpixel.Plan.Analyze.{
  finish, analyze, repetition_info, is_once, concat_loop, concat_step, cross, is_start, flush,
  push_narrow,
}
use gitpixel.Base.{sort_unstable, dedup}
use gitpixel.Plan.{plan_pattern, plan_literal}
use gitpixel.Plan.Sound.{plan_pattern_sound, plan_literal_sound}

-- `n` strings of the kind, one after the other.
Times : (List ℕ → Type 0) → ℕ → List ℕ → Type 0
Times P zero s = s ≡ []
Times P (suc n) s = (u : List ℕ) × (v : List ℕ) × (s ≡ u ++ v) × P u × Times P n v

abbrev AtMost : ℕ → Option ℕ → Type 0
AtMost n none = Unit
AtMost n (some m) = n ≤ m

mutual
  unfolding Times

  Denotes : Hir → List ℕ → Type 0
  Denotes empty s = s ≡ []
  Denotes look s = s ≡ []
  Denotes (literal l) s = s ≡ l
  Denotes (class_bytes ranges) s = (b : ℕ) × (s ≡ b ∷ []) × InRanges b ranges
  Denotes (class_unicode ranges) s = (c : ℕ) × (s ≡ encode_utf8 c) × InRanges c ranges
  Denotes (capture h) s = Denotes h s
  Denotes (repetition min max h) s = (n : ℕ) × (min ≤ n) × AtMost n max × Times (Denotes h) n s
  Denotes (alternation hs) s = DenotesOne hs s
  Denotes (concat hs) s = DenotesSeq hs s

  DenotesOne : Hirs → List ℕ → Type 0
  DenotesOne nil s = ⊥
  DenotesOne (cons h hs) s = Denotes h s ⊎ DenotesOne hs s

  DenotesSeq : Hirs → List ℕ → Type 0
  DenotesSeq nil s = s ≡ []
  DenotesSeq (cons h hs) s =
      (u : List ℕ) × (v : List ℕ) × (s ≡ u ++ v) × Denotes h u × DenotesSeq hs v

once : (h : Hir) (s : List ℕ) → Denotes (repetition 1 (some 1) h) s → Denotes h s
unfolding Denotes
once h s (zero, lo, hi, t) = absurd (omega arith)
once h s (suc zero, lo, hi, (u, v, e, d, rest)) =
    subst (Denotes h) (sym (e ∙ ap (λ w. u ++ w) rest ∙ append-nil u)) d
once h s (suc (suc n), lo, hi, t) = absurd (omega arith)

first :
    (n : ℕ) (max : Option ℕ) (h : Hir) (s : List ℕ)
    → Denotes (repetition (suc n) max h) s
    → (u : List ℕ) × (v : List ℕ) × (w : List ℕ) × (s ≡ u ++ (v ++ w)) × Denotes h v
unfolding Denotes
first n max h s (zero, lo, hi, t) = absurd (omega arith)
first n max h s (suc k, lo, hi, (u, v, e, d, rest)) = ([], u, v, e, d)

one_of : (hs : Hirs) (s : List ℕ) → Denotes (alternation hs) s → AcceptsOne Denotes hs s
unfolding Denotes
one_of nil s d = d
one_of (cons h hs) s (inl d) = inl d
one_of (cons h hs) s (inr d) = inr (one_of hs s d)

in_sequence : (hs : Hirs) (s : List ℕ) → Denotes (concat hs) s → AcceptsSeq Denotes hs s
unfolding Denotes
in_sequence nil s d = d
in_sequence (cons h hs) s (u, v, e, d, rest) = (u, v, e, d, in_sequence hs v rest)

pub denotation : Language
unfolding Denotes
denotation = record {
  Accepts = Denotes;
  of_empty = λ s d. d;
  of_look = λ s d. d;
  of_literal = λ l s d. d;
  of_class_bytes = λ ranges s d. d;
  of_class_unicode = λ ranges s d. d;
  of_capture = λ h s d. d;
  of_once = once;
  of_repetition = first;
  of_alternation = one_of;
  of_concat = in_sequence;
}

-- A hash of short strings, in place of xxh3.
abbrev pub sum_hash : List ℕ → ℕ
sum_hash [] = 7
sum_hash (b ∷ bs) = b + 31 * sum_hash bs

-- The nodes of `ab(cd)+`, its bytes, and a parser that knows this pattern alone.
abbrev pub node : Hir
node = concat (
    cons (literal (97 ∷ 98 ∷ []))
      (cons (repetition 1 none (capture (literal (99 ∷ 100 ∷ 101 ∷ [])))) nil))

abbrev pub parse : List ℕ → Option Hir
parse _ = some node

abbrev pub matched : List ℕ
matched = 97 ∷ 98 ∷ 99 ∷ 100 ∷ 101 ∷ []

abbrev pub sample : List ℕ
sample = 32 ∷ (matched ++ 10 ∷ [])

pub accepted : denotation.Accepts node matched
unfolding denotation Denotes
accepted = (
  97 ∷ 98 ∷ [],
  99 ∷ 100 ∷ 101 ∷ [],
  refl,
  refl,
  (
    99 ∷ 100 ∷ 101 ∷ [],
    [],
    refl,
    (1, omega arith, tt, (99 ∷ 100 ∷ 101 ∷ [], [], refl, refl, refl)),
    refl,
  ),
)

abbrev pub planned : GramQuery
planned = Posting.GramQuery.literal (sum_hash (99 ∷ 100 ∷ 101 ∷ []))

pub plan_runs : plan_pattern parse [] (trigram sum_hash) ≡ some planned
unfolding plan_pattern finish analyze repetition_info is_once concat_loop concat_step cross is_start
    flush push_narrow exact_to_query exact_branches push_branch covering_query and_literals literals
    or_branches or_flat simplify and_parts retain_narrow and_narrow flatten_and trigram
    trigram_covering windows_3 sort_unstable dedup
plan_runs = refl

plan_pattern_sound_example : eval planned (hashes ((trigram sum_hash).grams sample)) ≡ true
plan_pattern_sound_example =
    plan_pattern_sound denotation (trigram sum_hash) (trigram-IsSound sum_hash) parse [] node
      planned matched sample refl plan_runs accepted (32 ∷ [], 10 ∷ [], refl)

plan_literal_sound_example :
    eval (plan_literal matched (trigram sum_hash)) (hashes ((trigram sum_hash).grams sample)) ≡ true
plan_literal_sound_example =
    plan_literal_sound (trigram sum_hash) (trigram-IsSound sum_hash) matched sample
      (32 ∷ [], 10 ∷ [], refl)
