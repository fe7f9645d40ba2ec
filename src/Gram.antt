-- ===== src/Gram.antt =====
-- crates/gitpixel-core/src/gram.rs: gram extraction behind one trait. A byte is a number.
pub mod Trigram
pub mod Sparse
mod Examples
use gitpixel.Base.{ℕ, ◌+◌, ◌%◌, ◌^◌, ◌≡◌, Bool, true, List, [], ◌∷◌, ◌++◌, map}
use gitpixel.Base.{elem}

pub record GramHit : Type 0 where
  pub hash : ℕ
  pub start : ℕ
  pub len : ℕ

-- The trait `GramExtractor`: `grams` gives what the source appends to `out`.
pub record GramExtractor : Type 0 where
  pub grams : List ℕ → List GramHit
  pub covering : List ℕ → List ℕ

-- `hits.iter().map(|h| h.hash)`
abbrev pub hashes : List GramHit → List ℕ
hashes [] = []
hashes (h ∷ hs) = h.hash ∷ hashes hs

-- What the planner relies on: a gram that covers a literal is a gram of every text with that literal.
pub record IsSound (e : GramExtractor) : Type 0 where
  pub covered :
      (before literal after : List ℕ) (h : ℕ)
      → elem h (e.covering literal) ≡ true
      → elem h (hashes (e.grams (before ++ (literal ++ after)))) ≡ true
