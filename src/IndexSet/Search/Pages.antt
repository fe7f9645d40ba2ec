-- ===== src/IndexSet/Search/Pages.antt =====
-- The pages of a search with a limit: a slice of all matches.
use gitpixel.Base.{
  ℕ, zero, suc, ◌+◌, ◌-◌, ◌^◌, ◌≤◌, ◌<◌, ◌≡◌, ◌≢◌, refl, sym, ap, ◌∙◌, Bool, true, false, List, [],
  ◌∷◌, ◌++◌, Option, none, some, min, arith, inl, inr,
}
use gitpixel.Base.{
  String, ltb, ◌==◌, length, take, drop, length-append, length-take, drop-nil, Bool-cases,
  Option-cases,
}
use mathlib.Core.List.{append_assoc, append-nil}
use gitpixel.Verify.{MatchLine, Reading, Page, sink, search_file_page}
use gitpixel.Posting.{GramQuery}
use gitpixel.Gram.{GramExtractor}
use gitpixel.Plan.{plan_pattern}
use gitpixel.Plan.Syntax.{Hir}
use gitpixel.IndexSet.{IndexSet, candidates}
use gitpixel.IndexSet.Search.{
  ok, is_all, with_stats, verified, only_regular, retain_prefixes, search_page_in, after_page,
  page_loop,
}

module _ {ℓ} {A : Type ℓ} where
  take-drop : (n : ℕ) (xs : List A) → take n xs ++ drop n xs ≡ xs
  take-drop zero xs = refl
  take-drop (suc n) [] = refl
  take-drop (suc n) (x ∷ xs) = ap (λ (l : List A). x ∷ l) (take-drop n xs)

  take_all : (n : ℕ) (xs : List A) → length xs ≤ n → take n xs ≡ xs
  take_all zero [] h = refl
  take_all zero (x ∷ xs) h = absurd (omega arith)
  take_all (suc n) [] h = refl
  take_all (suc n) (x ∷ xs) h = ap (λ (l : List A). x ∷ l) (take_all n xs (omega arith))

  take-append : (n : ℕ) (xs ys : List A) → n ≤ length xs → take n (xs ++ ys) ≡ take n xs
  take-append zero xs ys h = refl
  take-append (suc n) [] ys h = absurd (omega arith)
  take-append (suc n) (x ∷ xs) ys h = ap (λ (l : List A). x ∷ l) (take-append n xs ys (omega arith))

  drop-append : (n : ℕ) (xs ys : List A) → drop n (xs ++ ys) ≡ drop n xs ++ drop (n - length xs) ys
  drop-append zero xs ys = let e : 0 - length xs ≡ 0 = omega arith in rw e refl
  drop-append (suc n) [] ys = let e : suc n - 0 ≡ suc n = omega arith in rw e refl
  drop-append (suc n) (x ∷ xs) ys =
      let e : suc n - suc (length xs) ≡ n - length xs = omega arith in rw e (drop-append n xs ys)

  -- A page that is cut at the limit shows as much as the whole would.
  take-append_take :
      (limit room : ℕ) (older xs ys : List A)
      → limit ≤ length (older ++ take room xs)
      → take limit (older ++ take room xs) ≡ take limit (older ++ (xs ++ ys))
  take-append_take limit room older xs ys h =
      let whole : older ++ (xs ++ ys) ≡ (older ++ take room xs) ++ (drop room xs ++ ys) =
        ap (λ (l : List A). older ++ (l ++ ys)) (sym (take-drop room xs))
        ∙ ap (λ (l : List A). older ++ l) (append_assoc (take room xs) (drop room xs) ys)
        ∙ sym (append_assoc older (take room xs) (drop room xs ++ ys)) in
      rw (whole) (sym (take-append limit (older ++ take room xs) (drop room xs ++ ys) h))

-- A file that does not fail fills the room with its lines, after those that are skipped.
record Fills (page : Page) (lines : List MatchLine) (skip room : ℕ) : Type 0 where
  pushed_lines : page.pushed ≡ take room (drop skip lines)
  left : page.skip ≡ skip - length lines
  fine : page.failed ≡ false

sink-Fills :
    (lines : List MatchLine) (skip room : ℕ)
    → Fills (sink lines false skip (some (suc room))) lines skip (suc room)
unfolding sink
sink-Fills [] zero room = record { pushed_lines = refl; left = refl; fine = refl }
sink-Fills [] (suc skip) room = record { pushed_lines = refl; left = omega arith; fine = refl }
sink-Fills (l ∷ lines) (suc skip) room =
    let f : Fills _ lines skip (suc room) = sink-Fills lines skip room in
    record { pushed_lines = f.pushed_lines; left = omega (arith, f.left); fine = f.fine }
sink-Fills (l ∷ lines) zero zero = record { pushed_lines = refl; left = omega arith; fine = refl }
sink-Fills (l ∷ lines) zero (suc room) =
    let f : Fills _ lines zero (suc room) = sink-Fills lines zero room in
    record {
      pushed_lines = ap (λ (ls : List MatchLine). l ∷ ls) f.pushed_lines;
      left = omega (arith, f.left);
      fine = f.fine;
    }

search_file_page-Fills :
    (reading : Reading) (skip room : ℕ)
    → reading.fails ≡ false
    → room ≢ 0
    → Fills (search_file_page reading skip (some room)) reading.lines skip room
unfolding search_file_page
search_file_page-Fills reading skip zero fine h = absurd (h refl)
search_file_page-Fills reading skip (suc room) fine h = rw fine (sink-Fills reading.lines skip room)

-- What the loop gives when `older` is found and the matches `newer` are to come.
abbrev slice : ℕ → List MatchLine → List MatchLine → Option (List MatchLine × Bool)
slice limit older newer = some (take limit (older ++ newer), ltb limit (length (older ++ newer)))

after_page_lem :
    (limit skip room : ℕ) (lines rest matches : List MatchLine) (page : Page)
    (next : List MatchLine → ℕ → Option (List MatchLine × Bool))
    → Fills page lines skip room
    → room ≡ limit + 1 - length matches
    → length matches ≤ limit
    → ((ms : List MatchLine) (sk : ℕ)
        → length ms ≤ limit
        → next ms sk ≡ slice limit ms (drop sk rest))
    → after_page matches page limit next ≡ slice limit matches (drop skip (lines ++ rest))
unfolding after_page
after_page_lem limit skip room lines rest matches page next f e fits later =
    let xs : List MatchLine = drop skip lines in
    let ys : List MatchLine = drop (skip - length lines) rest in
    rw (f.fine, f.pushed_lines, f.left, drop-append skip lines rest)
      (elim (Bool-cases (ltb limit (length (matches ++ take room xs)))) [
        | inl full ↦
            let longer : length (matches ++ take room xs) ≤ length (matches ++ (xs ++ ys)) = omega (
              arith,
              length-append matches (take room xs),
              length-append matches (xs ++ ys),
              length-append xs ys,
              length-take room xs,
            ) in
            let over : ltb limit (length (matches ++ (xs ++ ys))) ≡ true = ground arith in
            rw (full, over)
              (ap (λ (l : List MatchLine). some (l, true))
                (take-append_take limit room matches xs ys (ground arith)))
        | inr spare ↦
            let short : length (matches ++ take room xs) ≤ limit = ground arith in
            let all : length xs ≤ room =
              omega (arith, length-append matches (take room xs), length-take room xs) in
            rw
              (
                spare,
                later (matches ++ take room xs) (skip - length lines) short,
                take_all room xs all,
                append_assoc matches xs ys,
              )
              refl
      ])

module _ (read : String → Option Reading) where
  pub lines_in : Option Reading → List MatchLine
  lines_in none = []
  lines_in (some reading) = reading.lines

  -- The matches of all files, in the order of the files.
  abbrev pub total : List String → List MatchLine
  total [] = []
  total (rel ∷ rels) = lines_in (read rel) ++ total rels

  abbrev pub NoneFails : List String → Type 0
  NoneFails [] = Unit
  NoneFails (rel ∷ rels) =
      ((reading : Reading) → read rel ≡ some reading → reading.fails ≡ false) × NoneFails rels

  page_loop_lem :
      (limit : ℕ) (rels : List String) (matches : List MatchLine) (skip : ℕ)
      → limit < 2 ^ 64 - 1
      → length matches ≤ limit
      → NoneFails rels
      → page_loop read limit rels matches skip ≡ slice limit matches (drop skip (total rels))
  unfolding page_loop lines_in
  page_loop_lem limit [] matches skip small fits clean =
      let no : ltb limit (length matches) ≡ false = ground arith in
      let none_left : drop {A = MatchLine} skip [] ≡ [] = sym (drop-nil skip) in
      rw (none_left, append-nil matches, take_all limit matches fits, no) refl
  page_loop_lem limit (rel ∷ rels) matches skip small fits clean = elim (Option-cases (read rel)) [
    | inl absent ↦ rw (absent, page_loop) (page_loop_lem limit rels matches skip small fits clean.1)
    | inr (reading, r) ↦
        let room : ℕ = min (limit + 1) (2 ^ 64 - 1) - length matches in
        let more : (room == 0) ≡ false = ground arith in
        rw (r, page_loop, more)
          (after_page_lem limit skip room reading.lines (total rels) matches
            (search_file_page reading skip (some room)) (page_loop read limit rels)
            (search_file_page-Fills reading skip room (clean.0 reading r) (λ z. omega arith))
            (omega arith) fits (λ ms sk h. page_loop_lem limit rels ms sk small h clean.1))
  ]

-- Take a search with a limit below `2 ^ 64 - 1`, whose pattern parses and compiles, and in which no candidate that
-- is a regular file fails. It returns the matches of all regular candidates, in the order of the candidates,
-- without the first `offset` and cut to `limit`; and `truncated` says exactly whether more than `limit` were left.
pub search_page_in_lem :
    (parse : List ℕ → Option Hir) (verifier : List ℕ → Option (String → Reading))
    (is_regular_file : String → Bool) (path_starts_with : String → String → Bool)
    (extractor : GramExtractor) (set : IndexSet) (pattern : List ℕ) (offset limit : ℕ)
    (path_prefixes : Option (List String)) (query : GramQuery) (files : String → Reading)
    → plan_pattern parse pattern extractor ≡ some query
    → verifier pattern ≡ some files
    → limit < 2 ^ 64 - 1
    → NoneFails
        (only_regular is_regular_file files)
        (retain_prefixes path_starts_with path_prefixes (candidates query set))
    → (let rels : List String =
          retain_prefixes path_starts_with path_prefixes (candidates query set) in
        let found : List MatchLine =
          drop offset (total (only_regular is_regular_file files) rels) in
        search_page_in parse verifier is_regular_file path_starts_with extractor set pattern offset
          (some limit)
          path_prefixes
        ≡ ok (take limit found) (record {
          candidates = length rels;
          scanned_all = is_all query;
          matches = length (take limit found);
          truncated = ltb limit (length found);
        }))
unfolding search_page_in with_stats verified
search_page_in_lem parse verifier is_regular_file path_starts_with extractor set pattern offset
      limit path_prefixes query files planned compiled small fine =
    let rels : List String =
      retain_prefixes path_starts_with path_prefixes (candidates query set) in
    rw
      (
        planned,
        search_page_in,
        compiled,
        page_loop_lem (only_regular is_regular_file files) limit rels [] offset small (omega arith)
            fine,
      )
      refl
