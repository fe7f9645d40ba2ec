-- ===== src/Base/Sort.antt =====
-- `sort_unstable` and `dedup` of a vector of numbers, whose equal elements cannot be told apart.
use Prim.Native.Nat.{ℕ, suc, ◌≤◌}
use mathlib.Core.Path.{◌≡◌, refl, ◌∙◌, ap}
use mathlib.Core.Bool.{◌||◌}
use mathlib.Core.List.{List, [], ◌∷◌}
use native.Mathlib.Omega.{arith}
use gitpixel.Base.Tests.{◌==◌, leb, if◌then◌else◌}
use gitpixel.Base.Lists.{elem, length}
use gitpixel.Base.Sorted.{Ascends, IsSorted}

insert_sorted : ℕ → List ℕ → List ℕ
insert_sorted x [] = x ∷ []
insert_sorted x (y ∷ ys) = if leb x y then x ∷ y ∷ ys else y ∷ insert_sorted x ys

unfoldable pub sort_unstable : List ℕ → List ℕ
unfolding insert_sorted
sort_unstable [] = []
sort_unstable (x ∷ xs) = insert_sorted x (sort_unstable xs)

-- `dedup` drops an element that equals the one before it.
dedup_after : ℕ → List ℕ → List ℕ
dedup_after last [] = []
dedup_after last (x ∷ xs) = let rest = dedup_after x xs in if x == last then rest else x ∷ rest

unfoldable pub dedup : List ℕ → List ℕ
unfolding dedup_after
dedup [] = []
dedup (x ∷ xs) = x ∷ dedup_after x xs

-- In ascending order, equal neighbours allowed.
abbrev pub Rises : ℕ → List ℕ → Type 0
Rises lo [] = Unit
Rises lo (x ∷ xs) = (lo ≤ x) × Rises x xs

insert_sorted-Rises :
    (lo x : ℕ) (ys : List ℕ) → lo ≤ x → Rises lo ys → Rises lo (insert_sorted x ys)
unfolding insert_sorted
insert_sorted-Rises lo x [] h r = (h, tt)
insert_sorted-Rises lo x (y ∷ ys) h r = ground (arith, insert_sorted-Rises y x ys)

pub sort_unstable-Rises : (xs : List ℕ) → Rises 0 (sort_unstable xs)
unfolding sort_unstable
sort_unstable-Rises [] = tt
sort_unstable-Rises (x ∷ xs) =
    insert_sorted-Rises 0 x (sort_unstable xs) (omega arith) (sort_unstable-Rises xs)

length-insert_sorted : (x : ℕ) (ys : List ℕ) → length (insert_sorted x ys) ≡ suc (length ys)
unfolding insert_sorted
length-insert_sorted x [] = refl
length-insert_sorted x (y ∷ ys) = ground (arith, length-insert_sorted x ys)

pub length-sort_unstable : (xs : List ℕ) → length (sort_unstable xs) ≡ length xs
unfolding sort_unstable
length-sort_unstable [] = refl
length-sort_unstable (x ∷ xs) =
    length-insert_sorted x (sort_unstable xs) ∙ ap (λ (n : ℕ). suc n) (length-sort_unstable xs)

elem-insert_sorted : (a x : ℕ) (ys : List ℕ) → elem a (insert_sorted x ys) ≡ (a == x || elem a ys)
unfolding insert_sorted
elem-insert_sorted a x [] = refl
elem-insert_sorted a x (y ∷ ys) = ground (arith, elem-insert_sorted a x ys)

pub elem-sort_unstable : (a : ℕ) (xs : List ℕ) → elem a (sort_unstable xs) ≡ elem a xs
unfolding sort_unstable
elem-sort_unstable a [] = refl
elem-sort_unstable a (x ∷ xs) =
    ground (arith, elem-insert_sorted a x (sort_unstable xs), elem-sort_unstable a xs)

elem-dedup_after :
    (a last : ℕ) (xs : List ℕ)
    → (a == last || elem a (dedup_after last xs)) ≡ (a == last || elem a xs)
unfolding dedup_after
elem-dedup_after a last [] = refl
elem-dedup_after a last (x ∷ xs) = ground (arith, elem-dedup_after a x xs)

dedup_after-Ascends :
    (last : ℕ) (xs : List ℕ) → Rises last xs → Ascends (suc last) (dedup_after last xs)
unfolding dedup_after
dedup_after-Ascends last [] r = tt
dedup_after-Ascends last (x ∷ xs) r = ground (arith, dedup_after-Ascends x xs)

elem-dedup : (a : ℕ) (xs : List ℕ) → elem a (dedup xs) ≡ elem a xs
unfolding dedup
elem-dedup a [] = refl
elem-dedup a (x ∷ xs) = elem-dedup_after a x xs

dedup-IsSorted : (xs : List ℕ) → Rises 0 xs → IsSorted (dedup xs)
unfolding dedup
dedup-IsSorted [] r = tt
dedup-IsSorted (x ∷ xs) r = (omega arith, dedup_after-Ascends x xs r.1)

-- Sorted and deduplicated, a vector is strictly ascending and has the elements that it had.
pub dedup-sort_unstable-IsSorted : (xs : List ℕ) → IsSorted (dedup (sort_unstable xs))
dedup-sort_unstable-IsSorted xs = dedup-IsSorted (sort_unstable xs) (sort_unstable-Rises xs)

pub elem-dedup-sort_unstable : (a : ℕ) (xs : List ℕ) → elem a (dedup (sort_unstable xs)) ≡ elem a xs
elem-dedup-sort_unstable a xs = elem-dedup a (sort_unstable xs) ∙ elem-sort_unstable a xs
