-- ===== src/Base/Map.antt =====
-- Maps and sets keyed by text, as association lists and lists; `HashMap` and `HashSet` of the source.
use Prim.Native.String.{String, compare}
use Prim.Native.Nat.{Ordering}
use mathlib.Core.Path.{◌≡◌, refl}
use mathlib.Core.Bool.{Bool, true, false, ◌||◌}
use mathlib.Core.Option.{Option, none, some}
use mathlib.Core.List.{List, [], ◌∷◌, ◌++◌}
use native.Mathlib.Omega.{arith}
use text.Mathlib.Text.{◌==◌ as str_eq}
use text.Mathlib.TextEquality.{eq_iff}
use gitpixel.Base.Tests.{if◌then◌else◌, Bool-cases}
use mathlib.Core.Logic.{inl, inr}

-- The order of texts.
abbrev pub str_leb : String → String → Bool
str_leb s t = elim (compare s t) [ Ordering.gt ↦ false | _ ↦ true ]

-- `insert` of a `BTreeSet`, which is an ascending list.
unfoldable pub insert_path : String → List String → List String
insert_path k [] = k ∷ []
insert_path k (j ∷ js) =
    if str_eq k j then j ∷ js else if str_leb k j then k ∷ j ∷ js else j ∷ insert_path k js

-- `contains` of a set of texts.
abbrev pub has : String → List String → Bool
has k [] = false
has k (j ∷ js) = str_eq k j || has k js

unfoldable pub add : String → List String → List String
add k js = if has k js then js else k ∷ js

pub has-add : (k j : String) (js : List String) → has j (add k js) ≡ (str_eq j k || has j js)
unfolding add
has-add k j [] = refl
has-add k j (i ∷ js) = ground (arith, eq_iff j k, eq_iff k i, eq_iff j i, has-eq k j js)
  where
    has-eq : (k j : String) (js : List String) → str_eq j k ≡ true → has j js ≡ has k js
    has-eq k j [] e = refl
    has-eq k j (i ∷ js) e = ground (arith, eq_iff j k, eq_iff j i, eq_iff k i, has-eq k j js)

pub has-insert_path :
    (k j : String) (js : List String) → has j (insert_path k js) ≡ (str_eq j k || has j js)
unfolding insert_path
has-insert_path k j [] = ground arith
has-insert_path k j (i ∷ js) =
    ground (arith, eq_iff k i, eq_iff j k, eq_iff j i, has-insert_path k j js)

pub has-append : (k : String) (xs ys : List String) → has k (xs ++ ys) ≡ (has k xs || has k ys)
has-append k [] ys = refl
has-append k (x ∷ xs) ys = ground (arith, has-append k xs ys)

module _ {ℓ} {V : Type ℓ} where
  unfoldable pub find : String → List (String × V) → Option V
  find k [] = none
  find k ((j, v) ∷ m) = if str_eq j k then some v else find k m

  unfoldable pub insert : String → V → List (String × V) → List (String × V)
  insert k v [] = (k, v) ∷ []
  insert k v ((j, w) ∷ m) = if str_eq j k then (k, v) ∷ m else (j, w) ∷ insert k v m

  unfoldable pub remove : String → List (String × V) → List (String × V)
  remove k [] = []
  remove k ((j, w) ∷ m) = let rest = remove k m in if str_eq j k then rest else (j, w) ∷ rest

  pub find-nil : (k : String) → find k [] ≡ none
  unfolding find
  find-nil k = refl

  pub find-cons :
      (k j : String) (v : V) (m : List (String × V))
      → find k ((j, v) ∷ m) ≡ (if str_eq j k then some v else find k m)
  unfolding find
  find-cons k j v m = refl

  pub find-insert :
      (k j : String) (v : V) (m : List (String × V))
      → find j (insert k v m) ≡ (if str_eq k j then some v else find j m)
  unfolding find insert
  find-insert k j v [] = refl
  find-insert k j v ((i, w) ∷ m) =
      ground (arith, eq_iff k j, eq_iff i k, eq_iff i j, find-insert k j v m)

  pub find-remove :
      (k j : String) (m : List (String × V))
      → find j (remove k m) ≡ (if str_eq k j then none else find j m)
  unfolding find remove
  find-remove k j [] = ground arith
  find-remove k j ((i, w) ∷ m) =
      ground (arith, eq_iff k j, eq_iff i k, eq_iff i j, find-remove k j m)

  -- Every key once: a `HashMap` has no two entries with one key.
  pub data Distinct : List (String × V) → Type ℓ where
    nil : Distinct []
    cons :
        {k : String} {v : V} {m : List (String × V)}
        → find k m ≡ none
        → Distinct m
        → Distinct ((k, v) ∷ m)

  pub insert-Distinct :
      (k : String) (v : V) {m : List (String × V)} → Distinct m → Distinct (insert k v m)
  unfolding insert
  insert-Distinct k v nil = cons (find-nil k) nil
  insert-Distinct k v (cons {k = j} {v = w} {m = m} absent d) = elim (Bool-cases (str_eq j k)) [
    | inl e ↦ rw e (cons (rw (← (eq_iff j k).0 e) absent) d)
    | inr e ↦
        rw e (
          cons (ground (arith, find-insert k j v m, eq_iff j k, eq_iff k j))
            (insert-Distinct k v d))
  ]

  pub remove-Distinct : (k : String) {m : List (String × V)} → Distinct m → Distinct (remove k m)
  unfolding remove
  remove-Distinct k nil = nil
  remove-Distinct k (cons {k = j} {v = w} {m = m} absent d) = elim (Bool-cases (str_eq j k)) [
    | inl e ↦ rw e (remove-Distinct k d)
    | inr e ↦ rw e (cons (ground (arith, find-remove k j m)) (remove-Distinct k d))
  ]
