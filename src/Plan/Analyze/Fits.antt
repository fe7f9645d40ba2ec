-- ===== src/Plan/Analyze/Fits.antt =====
-- What it means for a result of `analyze` in plan.rs to hold at a match within a text.
use gitpixel.Base.{ℕ, ◌≡◌, refl, true, List, [], ◌∷◌, ◌++◌, Option, none, some}
use mathlib.Core.List.{append_assoc}
use gitpixel.Overlay.{eval}
use gitpixel.Gram.{GramExtractor, IsSound, hashes}
use gitpixel.Plan.Query.Sound.{OneOf, Contains, simplify_sound, exact_to_query_sound}
use gitpixel.Plan.Analyze.{Info, exact, required}
use gitpixel.Plan.Analyze.{non_empty, class_info, finish}

pub Contains-middle : (x y z text : List ℕ) → Contains (x ++ (y ++ z)) text → Contains y text
Contains-middle x y z text (before, after, e) = (before ++ x, z ++ after, rw e (simp append_assoc))

pub Contains-right : (x y text : List ℕ) → Contains (x ++ y) text → Contains y text
Contains-right x y text (before, after, e) = (before ++ x, after, rw e (simp append_assoc))

pub Contains-left : (x y text : List ℕ) → Contains (x ++ y) text → Contains x text
Contains-left x y text (before, after, e) = (before, y ++ after, rw e (simp append_assoc))

-- The match `s` is one of the strings, or the query accepts the grams of the text.
abbrev pub Fits : GramExtractor → List ℕ → Info → List ℕ → Type 0
Fits extractor text (exact alts) s = OneOf s alts
Fits extractor text (required q) s = eval q (hashes (extractor.grams text)) ≡ true

module _ (extractor : GramExtractor) (sound : IsSound extractor) (text : List ℕ) where
  pub finish_sound :
      (info : Info) (s : List ℕ)
      → Fits extractor text info s
      → Contains s text
      → eval (finish info extractor) (hashes (extractor.grams text)) ≡ true
  unfolding finish
  finish_sound (exact alts) s fits c = exact_to_query_sound extractor sound text s alts fits c
  finish_sound (required q) s fits c = simplify_sound (hashes (extractor.grams text)) q fits

  pub class_info_sound :
      (s : List ℕ) (alts : Option (List (List ℕ)))
      → ((out : List (List ℕ)) → alts ≡ some out → OneOf s out)
      → Fits extractor text (class_info (non_empty alts)) s
  unfolding eval class_info non_empty
  class_info_sound s none h = refl
  class_info_sound s (some []) h = refl
  class_info_sound s (some (alt ∷ alts)) h = h (alt ∷ alts) refl
