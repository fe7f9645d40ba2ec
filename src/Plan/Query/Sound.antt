-- ===== src/Plan/Query/Sound.antt =====
-- The queries of plan.rs hold at every document that has what they were made from.
use gitpixel.Base.{
  ℕ, ◌≡◌, refl, Bool, true, ◌&&◌, ◌||◌, ◌⊎◌, inl, inr, List, [], ◌∷◌, ◌++◌, Option, none, some,
  arith,
}
use gitpixel.Base.{elem, ==_refl}
use gitpixel.Posting.{GramQuery, literal, and, or, all, GramQueries, nil, cons}
use gitpixel.Overlay.{eval, eval_all, eval_any}
use gitpixel.Gram.{GramExtractor, IsSound, hashes}
use gitpixel.Plan.Query.{
  append, literals, and_literals, push_branch, covering_query, exact_branches, or_branches,
  exact_to_query,
}
use gitpixel.Plan.Query.{retain_narrow, and_narrow, and_parts, flatten_and, flatten_or, or_flat}
use gitpixel.Plan.Query.{simplify, simplify_and, simplify_or}

module _ (set : List ℕ) where
  pub eval_all-append :
      (qs rs : GramQueries) → eval_all (append qs rs) set ≡ (eval_all qs set && eval_all rs set)
  unfolding eval
  eval_all-append nil rs = refl
  eval_all-append (cons q qs) rs = ground (arith, eval_all-append qs rs)

  pub eval_any-append :
      (qs rs : GramQueries) → eval_any (append qs rs) set ≡ (eval_any qs set || eval_any rs set)
  unfolding eval
  eval_any-append nil rs = refl
  eval_any-append (cons q qs) rs = ground (arith, eval_any-append qs rs)

  retain_narrow_lem : (qs : GramQueries) → eval_all (retain_narrow qs) set ≡ eval_all qs set
  unfolding eval retain_narrow
  retain_narrow_lem nil = refl
  retain_narrow_lem (cons all qs) = retain_narrow_lem qs
  retain_narrow_lem (cons (literal h) qs) = ground (arith, retain_narrow_lem qs)
  retain_narrow_lem (cons (and rs) qs) = ground (arith, retain_narrow_lem qs)
  retain_narrow_lem (cons (or rs) qs) = ground (arith, retain_narrow_lem qs)

  and_narrow_lem : (qs : GramQueries) → eval (and_narrow qs) set ≡ eval_all qs set
  unfolding eval and_narrow
  and_narrow_lem nil = refl
  and_narrow_lem (cons q nil) = ground arith
  and_narrow_lem (cons q (cons r qs)) = refl

  and_parts_lem : (qs : GramQueries) → eval (and_parts qs) set ≡ eval_all qs set
  unfolding and_parts
  and_parts_lem qs = rw (and_narrow_lem (retain_narrow qs)) (retain_narrow_lem qs)

  pub or_branches_sound :
      (qs : GramQueries) → eval_any qs set ≡ true → eval (or_branches qs) set ≡ true
  unfolding eval or_branches
  or_branches_sound nil h = refl
  or_branches_sound (cons q nil) h = ground arith
  or_branches_sound (cons q (cons r qs)) h = h

  flatten_and_lem :
      (q : GramQuery) (qs : GramQueries)
      → eval_all (flatten_and q qs) set ≡ (eval q set && eval_all qs set)
  unfolding eval flatten_and
  flatten_and_lem all qs = refl
  flatten_and_lem (and rs) qs = eval_all-append rs qs
  flatten_and_lem (literal h) qs = refl
  flatten_and_lem (or rs) qs = refl

  -- An early return of `All` holds everywhere.
  abbrev eval_flat : Option GramQueries → Bool
  eval_flat none = true
  eval_flat (some qs) = eval_any qs set

  flatten_or_sound :
      (q : GramQuery) (qs : Option GramQueries)
      → (eval q set || eval_flat qs) ≡ true
      → eval_flat (flatten_or q qs) ≡ true
  unfolding eval flatten_or
  flatten_or_sound all qs h = refl
  flatten_or_sound (or rs) none h = refl
  flatten_or_sound (or rs) (some qs) h = rw (eval_any-append rs qs) h
  flatten_or_sound (literal h') none h = refl
  flatten_or_sound (literal h') (some qs) h = h
  flatten_or_sound (and rs) none h = refl
  flatten_or_sound (and rs) (some qs) h = h

  or_flat_sound : (qs : Option GramQueries) → eval_flat qs ≡ true → eval (or_flat qs) set ≡ true
  unfolding eval or_flat
  or_flat_sound none h = refl
  or_flat_sound (some qs) h = or_branches_sound qs h

  mutual
    unfolding eval simplify

    simplify_lem : (q : GramQuery) → eval q set ≡ true → eval (simplify q) set ≡ true
    simplify_lem (literal h) e = e
    simplify_lem (and cs) e = rw (and_parts_lem (simplify_and cs)) (simplify_and_lem cs e)
    simplify_lem (or cs) e = or_flat_sound (simplify_or cs) (simplify_or_lem cs e)
    simplify_lem all e = refl

    simplify_and_lem :
        (cs : GramQueries) → eval_all cs set ≡ true → eval_all (simplify_and cs) set ≡ true
    simplify_and_lem nil e = refl
    simplify_and_lem (cons c cs) e =
        rw (flatten_and_lem (simplify c) (simplify_and cs))
          (ground (arith, simplify_lem c, simplify_and_lem cs))

    simplify_or_lem :
        (cs : GramQueries) → eval_any cs set ≡ true → eval_flat (simplify_or cs) ≡ true
    simplify_or_lem nil e = ground arith
    simplify_or_lem (cons c cs) e =
        flatten_or_sound (simplify c) (simplify_or cs)
          (ground (arith, simplify_lem c, simplify_or_lem cs))

-- A simplified query holds at every set of grams at which the query holds.
pub simplify_sound :
    (set : List ℕ) (q : GramQuery) → eval q set ≡ true → eval (simplify q) set ≡ true
simplify_sound set q h = simplify_lem set q h

-- One of the byte strings of a list.
abbrev pub OneOf : List ℕ → List (List ℕ) → Type 0
OneOf s [] = ⊥
OneOf s (alt ∷ alts) = (s ≡ alt) ⊎ OneOf s alts

-- The text contains the byte string.
abbrev pub Contains : List ℕ → List ℕ → Type 0
Contains s text = (before : List ℕ) × (after : List ℕ) × (text ≡ before ++ (s ++ after))

module _ (extractor : GramExtractor) (sound : IsSound extractor) (text : List ℕ) where
  literals_sound :
      (hs : List ℕ)
      → ((h : ℕ) → elem h hs ≡ true → elem h (hashes (extractor.grams text)) ≡ true)
      → eval_all (literals hs) (hashes (extractor.grams text)) ≡ true
  unfolding eval literals
  literals_sound [] each = refl
  literals_sound (h ∷ hs) each =
      ground (arith, each h (rw (==_refl h)), literals_sound hs (λ k e. each k (ground arith)))

  and_literals_sound :
      (hs : List ℕ)
      → eval_all (literals hs) (hashes (extractor.grams text)) ≡ true
      → eval (and_literals hs) (hashes (extractor.grams text)) ≡ true
  unfolding eval and_literals
  and_literals_sound [] e = refl
  and_literals_sound (h ∷ hs) e = e

  pub covering_query_sound :
      (lit : List ℕ)
      → Contains lit text
      → eval (covering_query lit extractor) (hashes (extractor.grams text)) ≡ true
  unfolding covering_query
  covering_query_sound lit (before, after, e) =
      and_literals_sound (extractor.covering lit)
        (literals_sound (extractor.covering lit) λ h c. rw e (sound.covered before lit after h c))

  push_branch_sound :
      (q : GramQuery) (qs : Option GramQueries)
      → (eval q (hashes (extractor.grams text)) || eval_flat (hashes (extractor.grams text)) qs)
        ≡ true
      → eval_flat (hashes (extractor.grams text)) (push_branch q qs) ≡ true
  unfolding eval push_branch
  push_branch_sound all qs h = refl
  push_branch_sound (literal k) none h = refl
  push_branch_sound (literal k) (some qs) h = h
  push_branch_sound (and rs) none h = refl
  push_branch_sound (and rs) (some qs) h = h
  push_branch_sound (or rs) none h = refl
  push_branch_sound (or rs) (some qs) h = h

  exact_branches_sound :
      (s : List ℕ) (alts : List (List ℕ))
      → OneOf s alts
      → Contains s text
      → eval_flat (hashes (extractor.grams text)) (exact_branches alts extractor) ≡ true
  unfolding exact_branches
  exact_branches_sound s [] m c = absurd m
  exact_branches_sound s (alt ∷ alts) (inl e) c =
      push_branch_sound (covering_query alt extractor) (exact_branches alts extractor)
        (rw (covering_query_sound alt (rw e at c)))
  exact_branches_sound s (alt ∷ alts) (inr m) c =
      push_branch_sound (covering_query alt extractor) (exact_branches alts extractor)
        (ground (arith, exact_branches_sound s alts m c))

  pub exact_to_query_sound :
      (s : List ℕ) (alts : List (List ℕ))
      → OneOf s alts
      → Contains s text
      → eval (exact_to_query alts extractor) (hashes (extractor.grams text)) ≡ true
  unfolding exact_to_query
  exact_to_query_sound s alts m c =
      or_flat_sound (hashes (extractor.grams text)) (exact_branches alts extractor)
        (exact_branches_sound s alts m c)
