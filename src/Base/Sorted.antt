-- ===== src/Base/Sorted.antt =====
-- Strictly ascending lists of numbers, the form of every posting list.
use Prim.Native.Nat.{ℕ, zero, suc, ◌≤◌, ◌<◌}
use mathlib.Core.Path.{◌≡◌, refl}
use mathlib.Core.Bool.{false}
use mathlib.Core.List.{List, [], ◌∷◌}
use native.Mathlib.Omega.{arith}
use gitpixel.Base.Lists.{elem, drop}

-- Strictly ascending, with every element at least `lo`.
abbrev pub Ascends : ℕ → List ℕ → Type 0
Ascends lo [] = Unit
Ascends lo (x ∷ xs) = (lo ≤ x) × Ascends (suc x) xs

abbrev pub IsSorted : List ℕ → Type 0
IsSorted xs = Ascends 0 xs

pub Ascends-weaken : (lo lo' : ℕ) (xs : List ℕ) → lo' ≤ lo → Ascends lo xs → Ascends lo' xs
Ascends-weaken lo lo' [] h s = tt
Ascends-weaken lo lo' (x ∷ xs) h s = (omega arith, s.1)

pub elem_below : (a lo : ℕ) (xs : List ℕ) → Ascends lo xs → a < lo → elem a xs ≡ false
elem_below a lo [] s h = refl
elem_below a lo (x ∷ xs) s h = ground (arith, elem_below a (suc x) xs)

pub Ascends-drop : (n lo : ℕ) (xs : List ℕ) → Ascends lo xs → Ascends lo (drop n xs)
Ascends-drop zero lo xs s = s
Ascends-drop (suc n) lo [] s = tt
Ascends-drop (suc n) lo (x ∷ xs) s =
    Ascends-weaken (suc x) lo (drop n xs) (omega arith) (Ascends-drop n (suc x) xs s.1)
