-- ===== src/Plan/Analyze/Concat.antt =====
-- The loop of `analyze` in plan.rs over the parts of a concatenation.
use gitpixel.Base.{ℕ, ◌*◌, ◌≡◌, refl, subst, true, ◌&&◌, inl, inr, List, [], ◌∷◌, ◌++◌, arith}
use gitpixel.Base.{Bool-cases, leb, length}
use mathlib.Core.List.{append_assoc, append-nil}
use gitpixel.Posting.{GramQuery, and, or, all, GramQueries}
use gitpixel.Posting
use gitpixel.Overlay.{eval, eval_all}
use gitpixel.Gram.{GramExtractor, IsSound, hashes}
use gitpixel.Plan.Query.{exact_to_query}
use gitpixel.Plan.Query.Sound.{
  OneOf, Contains, eval_all-append, simplify_sound, exact_to_query_sound,
}
use gitpixel.Plan.Analyze.Alternatives.{OneOf-cross}
use gitpixel.Plan.Analyze.{max_exact, Info, exact, required}
use gitpixel.Plan.Analyze.{Parts, is_start, flush, push_narrow, concat_step, concat_loop}
use gitpixel.Plan.Analyze.Fits.{Fits, Contains-left, Contains-right}

module _ (extractor : GramExtractor) (sound : IsSound extractor) (text : List ℕ) where
  both :
      (queries : GramQueries) (q : GramQuery)
      → eval_all queries (hashes (extractor.grams text)) ≡ true
      → eval q (hashes (extractor.grams text)) ≡ true
      → (eval_all queries (hashes (extractor.grams text))
          && eval_all
              (Posting.GramQueries.cons q Posting.GramQueries.nil)
              (hashes (extractor.grams text)))
        ≡ true
  unfolding eval
  both queries q e f = ground arith

  -- Of a concatenation the loop has read a prefix of the match: the requirements hold, and what is read
  -- ends with one of the strings of the run; it is one of them as long as all parts are exact.
  pub record Read (p : Parts) (u : List ℕ) : Type 0 where
    required_hold : eval_all p.requirements (hashes (extractor.grams text)) ≡ true
    cut : List ℕ
    tail : List ℕ
    split : u ≡ cut ++ tail
    in_run : OneOf tail p.run
    whole : p.whole_exact ≡ true → cut ≡ []

  flush_sound :
      (p : Parts) (u : List ℕ)
      → Read p u
      → Contains u text
      → eval_all (flush p extractor) (hashes (extractor.grams text)) ≡ true
  unfolding flush
  flush_sound p u r c = elim (Bool-cases (is_start p.run)) [
    | inl start ↦ rw start r.required_hold
    | inr more ↦
        let here : Contains r.tail text =
          Contains-right r.cut r.tail text (subst (λ s. Contains s text) r.split c) in
        rw (more, eval_all-append (hashes (extractor.grams text)))
          (both p.requirements (exact_to_query p.run extractor) r.required_hold
            (exact_to_query_sound extractor sound text r.tail p.run r.in_run here))
  ]

  push_narrow_sound :
      (queries : GramQueries) (q : GramQuery)
      → eval_all queries (hashes (extractor.grams text)) ≡ true
      → eval q (hashes (extractor.grams text)) ≡ true
      → eval_all (push_narrow queries q) (hashes (extractor.grams text)) ≡ true
  unfolding push_narrow
  push_narrow_sound queries all e f = e
  push_narrow_sound queries (Posting.GramQuery.literal h) e f =
      rw (eval_all-append (hashes (extractor.grams text))) (both queries _ e f)
  push_narrow_sound queries (and qs) e f =
      rw (eval_all-append (hashes (extractor.grams text))) (both queries _ e f)
  push_narrow_sound queries (or qs) e f =
      rw (eval_all-append (hashes (extractor.grams text))) (both queries _ e f)

  concat_step_sound :
      (p : Parts) (info : Info) (u v : List ℕ)
      → Read p u
      → Fits extractor text info v
      → Contains u text
      → Read (concat_step p info extractor) (u ++ v)
  unfolding concat_step
  concat_step_sound p (exact alts) u v r fits c =
      elim (Bool-cases (leb (length p.run * length alts) max_exact)) [
        | inl small ↦ rw small (record {
          required_hold = r.required_hold;
          cut = r.cut;
          tail = r.tail ++ v;
          split = rw r.split (append_assoc r.cut r.tail v);
          in_run = OneOf-cross r.tail v p.run alts r.in_run fits;
          whole = r.whole;
        })
        | inr large ↦ rw large (record {
          required_hold = flush_sound p u r c;
          cut = u;
          tail = v;
          split = refl;
          in_run = fits;
          whole = λ e. cc;
        })
      ]
  concat_step_sound p (required q) u v r fits c = record {
    required_hold = push_narrow_sound (flush p extractor) q (flush_sound p u r c) fits;
    cut = u ++ v;
    tail = [];
    split = rw append-nil;
    in_run = inl refl;
    whole = λ e. cc;
  }

  -- The parts of the match that are still to be read.
  abbrev pub FitsSeq : List Info → List ℕ → Type 0
  FitsSeq [] s = s ≡ []
  FitsSeq (info ∷ infos) s =
      (u : List ℕ) × (v : List ℕ) × (s ≡ u ++ v) × Fits extractor text info u × FitsSeq infos v

  pub concat_loop_sound :
      (p : Parts) (infos : List Info) (u v : List ℕ)
      → Read p u
      → FitsSeq infos v
      → Contains (u ++ v) text
      → Fits extractor text (concat_loop p infos extractor) (u ++ v)
  unfolding concat_loop
  concat_loop_sound p [] u v r fits c = elim (Bool-cases p.whole_exact) [
    | inl exact_run ↦ rw (exact_run, fits, append-nil, r.split, r.whole exact_run) r.in_run
    | inr partial ↦ simp partial (
        simplify_sound (hashes (extractor.grams text)) (and (flush p extractor))
          (unfold eval in flush_sound p u r (Contains-left u v text c)))
  ]
  concat_loop_sound p (info ∷ infos) u v r (x, y, e, fits, later) c =
      let joined : u ++ v ≡ (u ++ x) ++ y = rw (e, append_assoc) in
      rw joined (
        concat_loop_sound (concat_step p info extractor) infos (u ++ x) y
          (concat_step_sound p info u x r fits (Contains-left u v text c)) later
          (subst (λ s. Contains s text) joined c))

  pub Read-start :
      Read (record { requirements = Posting.GramQueries.nil; run = [] ∷ []; whole_exact = true }) []
  unfolding eval
  Read-start = record {
    required_hold = refl;
    cut = [];
    tail = [];
    split = refl;
    in_run = inl refl;
    whole = λ e. refl;
  }
