-- ===== src/Plan/Analyze/Sound.antt =====
-- The soundness of `analyze` in plan.rs: what it says of a node holds at every match, in every text.
use gitpixel.Base.{
  ℕ, zero, suc, ◌≡◌, refl, subst, true, false, inl, inr, List, [], ◌∷◌, ◌++◌, Option, none, some,
  arith,
}
use gitpixel.Base.{Bool-cases, ◌==◌}
use mathlib.Core.Path.{subst₂}
use gitpixel.Posting.{GramQuery, and, or, all, GramQueries}
use gitpixel.Posting
use gitpixel.Overlay.{eval}
use gitpixel.Gram.{GramExtractor, IsSound, hashes}
use gitpixel.Plan.Syntax.{
  Hir, empty, look, literal, class_bytes, class_unicode, capture, repetition, alternation, concat,
  Hirs, nil, cons,
}
use gitpixel.Plan.Syntax.{AcceptsOne, AcceptsSeq, Language}
use gitpixel.Plan.Query.Sound.{Contains}
use gitpixel.Plan.Analyze.Alternatives.{class_alternatives_complete}
use gitpixel.Plan.Analyze.{Info, byte_alternatives}
use gitpixel.Plan.Analyze.{char_alternatives, finish}
use gitpixel.Plan.Analyze.{is_once, repetition_info, analyze, analyze_each}
use gitpixel.Plan.Analyze.Fits.{
  Fits, finish_sound, class_info_sound, Contains-left, Contains-right, Contains-middle,
}
use gitpixel.Plan.Analyze.Alternation.{FitsOne, alternation_loop_sound}
use gitpixel.Plan.Analyze.Concat.{FitsSeq, Read-start, concat_loop_sound}

is_once-eq : (min : ℕ) (max : Option ℕ) → is_once min max ≡ true → (min ≡ 1) × (max ≡ some 1)
unfolding is_once
is_once-eq min none e = ground arith
is_once-eq min (some m) e = ground arith

module _ (extractor : GramExtractor) (sound : IsSound extractor) (text : List ℕ) where
  module _ (language : Language) where
    open language use {Accepts}

    repetition_sound :
        (min : ℕ) (max : Option ℕ) (h : Hir) (info : Info)
        → ((t : List ℕ) → Accepts h t → Contains t text → Fits extractor text info t)
        → (s : List ℕ) → Accepts (repetition min max h) s
        → Contains s text
        → Fits extractor text (repetition_info min max info extractor) s
    unfolding repetition_info eval
    repetition_sound zero max h info ih s a c = refl
    repetition_sound (suc n) max h info ih s a c =
        let nonzero : (suc n == 0) ≡ false = ground arith in
        elim (Bool-cases (is_once (suc n) max)) [
          | inl once ↦
              let (one, at_most) = is_once-eq (suc n) max once in
              rw (nonzero, once)
                (ih s
                  (language.of_once h s
                    (subst₂ (λ k m. Accepts (repetition k m h) s) one at_most a))
                  c)
          | inr other ↦
              let (u, v, w, e, a') = language.of_repetition n max h s a in
              let here : Contains v text =
                Contains-middle u v w text (subst (λ t. Contains t text) e c) in
              rw (nonzero, other) (finish_sound extractor sound text info v (ih v a' here) here)
        ]

    mutual
      unfolding analyze

      analyze_lem :
          (h : Hir) (s : List ℕ)
          → Accepts h s
          → Contains s text
          → Fits extractor text (analyze h extractor) s
      analyze_lem empty s a c = inl (language.of_empty s a)
      analyze_lem look s a c = inl (language.of_look s a)
      analyze_lem (literal lit) s a c = inl (language.of_literal lit s a)
      analyze_lem (class_bytes ranges) s a c =
          let (b, e, r) = language.of_class_bytes ranges s a in
          class_info_sound extractor sound text s (byte_alternatives ranges [])
            (λ out f. rw e ((class_alternatives_complete ranges out b r).0 f))
      analyze_lem (class_unicode ranges) s a c =
          let (b, e, r) = language.of_class_unicode ranges s a in
          class_info_sound extractor sound text s (char_alternatives ranges [])
            (λ out f. rw e ((class_alternatives_complete ranges out b r).1 f))
      analyze_lem (capture h) s a c = analyze_lem h s (language.of_capture h s a) c
      analyze_lem (repetition min max h) s a c =
          repetition_sound min max h (analyze h extractor) (analyze_lem h) s a c
      analyze_lem (alternation hs) s a c =
          alternation_loop_sound extractor sound text s (some []) Posting.GramQueries.nil
            (analyze_each hs extractor) (analyze_one hs s (language.of_alternation hs s a) c) c
      analyze_lem (concat hs) s a c =
          concat_loop_sound extractor sound text
            (record { requirements = Posting.GramQueries.nil; run = [] ∷ []; whole_exact = true })
            (analyze_each hs extractor) [] s (Read-start extractor sound text)
            (analyze_seq hs s (language.of_concat hs s a) c) c

      analyze_one :
          (hs : Hirs) (s : List ℕ)
          → AcceptsOne Accepts hs s
          → Contains s text
          → FitsOne extractor sound text (analyze_each hs extractor) s
      analyze_one nil s a c = a
      analyze_one (cons h hs) s (inl a) c = inl (analyze_lem h s a c)
      analyze_one (cons h hs) s (inr a) c = inr (analyze_one hs s a c)

      analyze_seq :
          (hs : Hirs) (s : List ℕ)
          → AcceptsSeq Accepts hs s
          → Contains s text
          → FitsSeq extractor sound text (analyze_each hs extractor) s
      analyze_seq nil s a c = a
      analyze_seq (cons h hs) s (u, v, e, a, later) c =
          let whole : Contains (u ++ v) text = subst (λ t. Contains t text) e c in
          (
            u,
            v,
            e,
            analyze_lem h u a (Contains-left u v text whole),
            analyze_seq hs v later (Contains-right u v text whole),
          )

    pub finish-analyze_sound :
        (h : Hir) (s : List ℕ)
        → Accepts h s
        → Contains s text
        → eval (finish (analyze h extractor) extractor) (hashes (extractor.grams text)) ≡ true
    finish-analyze_sound h s a c =
        finish_sound extractor sound text (analyze h extractor) s (analyze_lem h s a c) c
