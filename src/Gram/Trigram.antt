-- ===== src/Gram/Trigram.antt =====
-- `TrigramExtractor` of gram.rs.
use gitpixel.Base.{ℕ, ◌+◌, ◌%◌, ◌^◌, ◌≡◌, refl, ap, true, List, [], ◌∷◌, ◌++◌, map, arith}
use gitpixel.Base.{elem, dedup, sort_unstable, elem-dedup-sort_unstable, ltb, if◌then◌else◌, length}
use gitpixel.Gram.{GramHit, GramExtractor, IsSound, hashes}

-- `text.windows(3)`
unfoldable pub windows_3 : List ℕ → List (List ℕ)
windows_3 (a ∷ b ∷ c ∷ rest) = (a ∷ b ∷ c ∷ []) ∷ windows_3 (b ∷ c ∷ rest)
windows_3 _ = []

-- `gram_hash` is the xxh3 hash of another crate.
module _ (gram_hash : List ℕ → ℕ) where
  -- The loop over the enumerated windows, with `i as u32`.
  trigram_hits : ℕ → List (List ℕ) → List GramHit
  trigram_hits i [] = []
  trigram_hits i (win ∷ wins) =
      record { hash = gram_hash win; start = i % 2 ^ 32; len = 3 } ∷ trigram_hits (i + 1) wins

  unfoldable pub trigram_grams : List ℕ → List GramHit
  unfolding trigram_hits windows_3
  trigram_grams text = if ltb (length text) 3 then [] else trigram_hits 0 (windows_3 text)

  unfoldable pub trigram_covering : List ℕ → List ℕ
  unfolding windows_3
  trigram_covering literal =
      if ltb (length literal) 3
      then []
      else dedup (sort_unstable (map gram_hash (windows_3 literal)))

  unfoldable pub trigram : GramExtractor
  trigram = record { grams = trigram_grams; covering = trigram_covering }

  hashes-trigram_hits :
      (i : ℕ) (wins : List (List ℕ)) → hashes (trigram_hits i wins) ≡ map gram_hash wins
  unfolding trigram_hits
  hashes-trigram_hits i [] = refl
  hashes-trigram_hits i (win ∷ wins) =
      ap (λ hs. gram_hash win ∷ hs) (hashes-trigram_hits (i + 1) wins)

  hashes-trigram_grams :
      (text : List ℕ) → hashes (trigram_grams text) ≡ map gram_hash (windows_3 text)
  unfolding trigram_grams
  hashes-trigram_grams [] = refl
  hashes-trigram_grams (a ∷ []) = refl
  hashes-trigram_grams (a ∷ b ∷ []) = refl
  hashes-trigram_grams (a ∷ b ∷ c ∷ rest) =
      ground (arith, hashes-trigram_hits 0 (windows_3 (a ∷ b ∷ c ∷ rest)))

  elem-trigram_covering :
      (h : ℕ) (literal : List ℕ)
      → elem h (trigram_covering literal) ≡ elem h (map gram_hash (windows_3 literal))
  unfolding trigram_covering
  elem-trigram_covering h [] = refl
  elem-trigram_covering h (a ∷ []) = refl
  elem-trigram_covering h (a ∷ b ∷ []) = refl
  elem-trigram_covering h (a ∷ b ∷ c ∷ rest) =
      ground (arith, elem-dedup-sort_unstable h (map gram_hash (windows_3 (a ∷ b ∷ c ∷ rest))))

  elem-windows-cons :
      (h a : ℕ) (text : List ℕ)
      → elem h (map gram_hash (windows_3 text)) ≡ true
      → elem h (map gram_hash (windows_3 (a ∷ text))) ≡ true
  unfolding windows_3
  elem-windows-cons h a [] e = ground arith
  elem-windows-cons h a (b ∷ []) e = ground arith
  elem-windows-cons h a (b ∷ c ∷ rest) e = ground arith

  elem-windows-before :
      (h : ℕ) (before text : List ℕ)
      → elem h (map gram_hash (windows_3 text)) ≡ true
      → elem h (map gram_hash (windows_3 (before ++ text))) ≡ true
  elem-windows-before h [] text e = e
  elem-windows-before h (a ∷ before) text e =
      elem-windows-cons h a (before ++ text) (elem-windows-before h before text e)

  elem-windows-after :
      (h : ℕ) (text after : List ℕ)
      → elem h (map gram_hash (windows_3 text)) ≡ true
      → elem h (map gram_hash (windows_3 (text ++ after))) ≡ true
  unfolding windows_3
  elem-windows-after h [] after e = ground arith
  elem-windows-after h (a ∷ []) after e = ground arith
  elem-windows-after h (a ∷ b ∷ []) after e = ground arith
  elem-windows-after h (a ∷ b ∷ c ∷ rest) after e =
      ground (arith, elem-windows-after h (b ∷ c ∷ rest) after)

  -- Every gram with which `TrigramExtractor` covers a literal is among the grams that it extracts from
  -- any text that contains the literal.
  pub trigram-IsSound : IsSound trigram
  unfolding trigram
  trigram-IsSound = record {
    covered = λ before literal after h e. rw (hashes-trigram_grams (before ++ (literal ++ after))) (
        elem-windows-before h before (literal ++ after)
          (elem-windows-after h literal after (rw (elem-trigram_covering h literal) at e)));
  }
