-- ===== src/Plan/Syntax.antt =====
-- The part of `regex_syntax::hir` that crates/gitpixel-core/src/plan.rs reads: the kinds of a node, and
-- what the planner takes from the documentation of the strings that a node matches.
use gitpixel.Base.{ℕ, suc, ◌≤◌, ◌≡◌, ◌⊎◌, List, [], ◌∷◌, ◌++◌, Option, some}
use gitpixel.Plan.Utf8.{encode_utf8}

-- The kinds of `HirKind`, with the fields that the planner uses. A class is its list of ranges.
mutual
  pub data Hir : Type 0 where
    empty look : Hir
    literal : List ℕ → Hir
    class_bytes class_unicode : List (ℕ × ℕ) → Hir
    capture : Hir → Hir
    repetition : ℕ → Option ℕ → Hir → Hir
    alternation concat : Hirs → Hir

  pub data Hirs : Type 0 where
    nil : Hirs
    cons : Hir → Hirs → Hirs

-- One of the ranges has the value.
abbrev pub InRanges : ℕ → List (ℕ × ℕ) → Type 0
InRanges c [] = ⊥
InRanges c ((lo, hi) ∷ ranges) = ((lo ≤ c) × (c ≤ hi)) ⊎ InRanges c ranges

module _ (Accepts : Hir → List ℕ → Type 0) where
  abbrev pub AcceptsOne : Hirs → List ℕ → Type 0
  AcceptsOne nil s = ⊥
  AcceptsOne (cons h hs) s = Accepts h s ⊎ AcceptsOne hs s

  abbrev pub AcceptsSeq : Hirs → List ℕ → Type 0
  AcceptsSeq nil s = s ≡ []
  AcceptsSeq (cons h hs) s =
      (u : List ℕ) × (v : List ℕ) × (s ≡ u ++ v) × Accepts h u × AcceptsSeq hs v

-- `Accepts h s`: the node may match the bytes `s` somewhere. Each law says what such a match implies.
pub record Language : Type 1 where
  pub Accepts : Hir → List ℕ → Type 0
  pub of_empty : (s : List ℕ) → Accepts empty s → s ≡ []
  pub of_look : (s : List ℕ) → Accepts look s → s ≡ []
  pub of_literal : (l s : List ℕ) → Accepts (literal l) s → s ≡ l
  pub of_class_bytes :
      (ranges : List (ℕ × ℕ)) (s : List ℕ)
      → Accepts (class_bytes ranges) s
      → (b : ℕ) × (s ≡ b ∷ []) × InRanges b ranges
  pub of_class_unicode :
      (ranges : List (ℕ × ℕ)) (s : List ℕ)
      → Accepts (class_unicode ranges) s
      → (c : ℕ) × (s ≡ encode_utf8 c) × InRanges c ranges
  pub of_capture : (h : Hir) (s : List ℕ) → Accepts (capture h) s → Accepts h s
  pub of_once : (h : Hir) (s : List ℕ) → Accepts (repetition 1 (some 1) h) s → Accepts h s
  pub of_repetition :
      (n : ℕ) (max : Option ℕ) (h : Hir) (s : List ℕ)
      → Accepts (repetition (suc n) max h) s
      → (u : List ℕ) × (v : List ℕ) × (w : List ℕ) × (s ≡ u ++ (v ++ w)) × Accepts h v
  pub of_alternation :
      (hs : Hirs) (s : List ℕ) → Accepts (alternation hs) s → AcceptsOne Accepts hs s
  pub of_concat : (hs : Hirs) (s : List ℕ) → Accepts (concat hs) s → AcceptsSeq Accepts hs s
