-- ===== src/Posting/Merge.antt =====
-- `intersect_sorted` and `union_sorted` of posting.rs compute the intersection and the union.
use gitpixel.Base.{ℕ, suc, ◌+◌, ◌-◌, ◌≤◌, ◌<◌, ◌≡◌, refl, List, [], ◌∷◌, ◌&&◌, ◌||◌, false}
use gitpixel.Base.{arith, length, get_or, drop, elem, length-drop, drop-drop, ◌==◌}
use gitpixel.Base.{Ascends, IsSorted, Ascends-weaken, Ascends-drop, elem_below}
use gitpixel.Posting.{binary_search, gallop, intersect_loop, intersect_sorted, union_sorted}
use gitpixel.Posting.Gallop.{gallop-binary_search, get_or-drop, binary_search-le-length}

elem_skip : (x t : ℕ) (xs : List ℕ) → t ≤ x → elem x (drop (binary_search xs t) xs) ≡ elem x xs
unfolding binary_search
elem_skip x t [] h = refl
elem_skip x t (y ∷ ys) h = ground (arith, elem_skip x t ys)

elem_absent : (x t : ℕ) (xs : List ℕ) → length xs ≤ binary_search xs t → t ≤ x → elem x xs ≡ false
unfolding binary_search
elem_absent x t [] h e = refl
elem_absent x t (y ∷ ys) h e = ground (arith, elem_absent x t ys)

elem_found :
    (t lo : ℕ) (xs : List ℕ)
    → Ascends lo xs
    → binary_search xs t < length xs
    → (get_or xs (binary_search xs t) 0 == t) ≡ elem t xs
unfolding binary_search
elem_found t lo [] s h = absurd (omega arith)
elem_found t lo (y ∷ ys) s h = ground (arith, elem_found t (suc y) ys, elem_below t (suc y) ys)

-- The search of one round, in terms of what is left of the long list.
record Landed (long : List ℕ) (idx val i : ℕ) : Type 0 where
  within : i ≤ length long
  skips : (x : ℕ) → val ≤ x → elem x (drop i long) ≡ elem x (drop idx long)
  absent : length long ≤ i → (x : ℕ) → val ≤ x → elem x (drop idx long) ≡ false
  found : i < length long → (get_or long i 0 == val) ≡ elem val (drop idx long)

gallop-Landed :
    (long : List ℕ) (idx val : ℕ)
    → IsSorted long
    → idx ≤ length long
    → Landed long idx val (gallop long idx val)
gallop-Landed long idx val s h =
    let D : List ℕ = drop idx long in
    let n : ℕ = binary_search D val in
    let len : length D ≡ length long - idx = length-drop idx long in
    let le : n ≤ length D = binary_search-le-length val D in
    rw (gallop-binary_search val long idx s h) (record {
      within = omega arith;
      skips = λ x hx. rw (← drop-drop idx n (idx + n) long refl) (elem_skip x val D hx);
      absent = λ out x hx. elem_absent x val D (omega arith) hx;
      found = λ inside.
          rw (← get_or-drop idx n long)
            (elem_found val 0 D (Ascends-drop idx 0 long s) (omega arith));
    })

elem-intersect_loop :
    (x lo : ℕ) (short long : List ℕ) (idx : ℕ)
    → Ascends lo short
    → IsSorted long
    → idx ≤ length long
    → elem x (intersect_loop short long idx) ≡ (elem x short && elem x (drop idx long))
unfolding intersect_loop
elem-intersect_loop x lo [] long idx s t h = refl
elem-intersect_loop x lo (val ∷ short) long idx s t h =
    let i : ℕ = gallop long idx val in
    let l : Landed long idx val i = gallop-Landed long idx val t h in
    ground (
      arith,
      elem_below x (suc val) short,
      l.within,
      l.skips x,
      λ (e : length long ≤ i). l.absent e x,
      l.found,
      elem-intersect_loop x (suc val) short long i s.1 t l.within,
    )

Ascends-intersect_loop :
    (lo : ℕ) (short long : List ℕ) (idx : ℕ)
    → Ascends lo short
    → Ascends lo (intersect_loop short long idx)
unfolding intersect_loop
Ascends-intersect_loop lo [] long idx s = tt
Ascends-intersect_loop lo (val ∷ short) long idx s =
    let rest : List ℕ = intersect_loop short long (gallop long idx val) in
    ground (
      arith,
      Ascends-intersect_loop (suc val) short long (gallop long idx val),
      Ascends-weaken (suc val) lo rest,
    )

-- Of two strictly ascending lists `intersect_sorted` gives a strictly ascending list, which
-- contains exactly the numbers that both contain.
pub intersect_sorted_lem :
    (a b : List ℕ)
    → IsSorted a
    → IsSorted b
    → IsSorted (intersect_sorted a b)
      × ((x : ℕ) → elem x (intersect_sorted a b) ≡ (elem x a && elem x b))
unfolding intersect_sorted
intersect_sorted_lem [] b s t = (tt, λ x. refl)
intersect_sorted_lem (y ∷ a) [] s t = (tt, λ x. ground arith)
intersect_sorted_lem (y ∷ a) (z ∷ b) s t = (
  ground (
    arith,
    Ascends-intersect_loop 0 (y ∷ a) (z ∷ b) 0 s,
    Ascends-intersect_loop 0 (z ∷ b) (y ∷ a) 0 t,
  ),
  λ x. ground (
    arith,
    elem-intersect_loop x 0 (y ∷ a) (z ∷ b) 0 s t (omega arith),
    elem-intersect_loop x 0 (z ∷ b) (y ∷ a) 0 t s (omega arith),
  ),
)

elem-union_sorted : (x : ℕ) (a b : List ℕ) → elem x (union_sorted a b) ≡ (elem x a || elem x b)
unfolding union_sorted
elem-union_sorted x [] b = refl
elem-union_sorted x (y ∷ a) [] = ground arith
elem-union_sorted x (y ∷ a) (z ∷ b) =
    ground
      (arith, elem-union_sorted x a (z ∷ b), elem-union_sorted x (y ∷ a) b, elem-union_sorted x a b)

Ascends-union_sorted :
    (lo : ℕ) (a b : List ℕ) → Ascends lo a → Ascends lo b → Ascends lo (union_sorted a b)
unfolding union_sorted
Ascends-union_sorted lo [] b s t = t
Ascends-union_sorted lo (y ∷ a) [] s t = s
Ascends-union_sorted lo (y ∷ a) (z ∷ b) s t = ground (
  arith,
  Ascends-union_sorted (suc y) a (z ∷ b),
  Ascends-union_sorted (suc z) (y ∷ a) b,
  Ascends-union_sorted (suc y) a b,
  Ascends-weaken (suc z) (suc y) b,
)

-- Of two strictly ascending lists `union_sorted` gives a strictly ascending list, which contains
-- exactly the numbers that either contains.
pub union_sorted_lem :
    (a b : List ℕ)
    → IsSorted a
    → IsSorted b
    → IsSorted (union_sorted a b) × ((x : ℕ) → elem x (union_sorted a b) ≡ (elem x a || elem x b))
union_sorted_lem a b s t = (Ascends-union_sorted 0 a b s t, λ x. elem-union_sorted x a b)
