-- ===== src/Plan/Analyze/Alternation.antt =====
-- The loop of `analyze` in plan.rs over the branches of an alternation.
use gitpixel.Base.{ℕ, ◌+◌, ◌≡◌, refl, true, ◌⊎◌, inl, inr, List, [], ◌∷◌, Option, none, some, arith}
use gitpixel.Base.{Bool-cases, leb, length}
use gitpixel.Posting.{GramQuery, or, GramQueries}
use gitpixel.Overlay.{eval, eval_any}
use gitpixel.Gram.{GramExtractor, IsSound, hashes}
use gitpixel.Plan.Query.{push}
use gitpixel.Plan.Query.Sound.{OneOf, Contains, eval_any-append, simplify_sound}
use gitpixel.Plan.Analyze.Alternatives.{OneOf-append_left, OneOf-append_right}
use gitpixel.Plan.Analyze.{max_exact, Info, exact, required}
use gitpixel.Plan.Analyze.{finish, extend_union, alternation_loop}
use gitpixel.Plan.Analyze.Fits.{Fits, finish_sound}

module _ (extractor : GramExtractor) (sound : IsSound extractor) (text : List ℕ) where
  -- Some branch of those to come, and before it the queries and the strings of the branches passed.
  abbrev pub FitsOne : List Info → List ℕ → Type 0
  FitsOne [] s = ⊥
  FitsOne (info ∷ infos) s = Fits extractor text info s ⊎ FitsOne infos s

  abbrev InUnion : Option (List (List ℕ)) → List ℕ → Type 0
  InUnion none s = Unit
  InUnion (some union) s = OneOf s union

  extend_union_old :
      (s : List ℕ) (union : Option (List (List ℕ))) (info : Info)
      → InUnion union s
      → InUnion (extend_union union info) s
  unfolding extend_union
  extend_union_old s none info m = tt
  extend_union_old s (some union) (required q) m = tt
  extend_union_old s (some union) (exact alts) m =
      elim (Bool-cases (leb (length union + length alts) max_exact)) [
        | inl small ↦ rw small (OneOf-append_left s union alts m)
        | inr large ↦ rw large tt
      ]

  extend_union_new :
      (s : List ℕ) (union : Option (List (List ℕ))) (info : Info)
      → Fits extractor text info s
      → InUnion (extend_union union info) s
  unfolding extend_union
  extend_union_new s none info m = tt
  extend_union_new s (some union) (required q) m = tt
  extend_union_new s (some union) (exact alts) m =
      elim (Bool-cases (leb (length union + length alts) max_exact)) [
        | inl small ↦ rw small (OneOf-append_right s union alts m)
        | inr large ↦ rw large tt
      ]

  alternation_loop_step :
      (union : Option (List (List ℕ))) (queries : GramQueries) (info : Info) (infos : List Info)
      → alternation_loop union queries (info ∷ infos) extractor
        ≡ alternation_loop
            (extend_union union info)
            (push queries (finish info extractor))
            infos
            extractor
  unfolding alternation_loop
  alternation_loop_step none queries info infos = refl
  alternation_loop_step (some union) queries info infos = refl

  pushed :
      (queries : GramQueries) (q : GramQuery)
      → eval q (hashes (extractor.grams text)) ≡ true
      → eval_any (push queries q) (hashes (extractor.grams text)) ≡ true
  pushed queries q e =
      rw (eval_any-append (hashes (extractor.grams text))) (unfold eval in ground arith)

  alternation_loop_passed :
      (s : List ℕ) (union : Option (List (List ℕ))) (queries : GramQueries) (infos : List Info)
      → InUnion union s
      → eval_any queries (hashes (extractor.grams text)) ≡ true
      → Fits extractor text (alternation_loop union queries infos extractor) s
  unfolding alternation_loop
  alternation_loop_passed s none queries [] m e =
      simplify_sound (hashes (extractor.grams text)) (or queries) (unfold eval in e)
  alternation_loop_passed s (some union) queries [] m e = m
  alternation_loop_passed s union queries (info ∷ infos) m e =
      rw (alternation_loop_step union queries info infos) (
        alternation_loop_passed s (extend_union union info) (push queries (finish info extractor))
          infos (extend_union_old s union info m)
          (rw (eval_any-append (hashes (extractor.grams text))) (rw e)))

  pub alternation_loop_sound :
      (s : List ℕ) (union : Option (List (List ℕ))) (queries : GramQueries) (infos : List Info)
      → FitsOne infos s
      → Contains s text
      → Fits extractor text (alternation_loop union queries infos extractor) s
  alternation_loop_sound s union queries [] fits c = absurd fits
  alternation_loop_sound s union queries (info ∷ infos) (inl fits) c =
      rw (alternation_loop_step union queries info infos) (
        alternation_loop_passed s (extend_union union info) (push queries (finish info extractor))
          infos (extend_union_new s union info fits)
          (pushed queries (finish info extractor)
            (finish_sound extractor sound text info s fits c)))
  alternation_loop_sound s union queries (info ∷ infos) (inr fits) c =
      rw (alternation_loop_step union queries info infos) (
        alternation_loop_sound s (extend_union union info) (push queries (finish info extractor))
          infos fits c)
