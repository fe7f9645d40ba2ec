-- ===== src/Graph/Trace/Depths.antt =====
-- The depths of crates/gitpixel-graph/src/trace.rs, and the order of its queue.
use gitpixel.Base.{
  ℕ, suc, ◌≤◌, true, false, List, [], ◌∷◌, ◌++◌, none, some, ◌≡◌, refl, ◌==◌, elem, arith, ◌⊎◌, inl,
  inr, Bool-cases, Option-cases, ==_iff, subst,
}
use gitpixel.Graph.Trace.{get}

module _ {ℓ} {V : Type ℓ} where
  pub get_self : (u : ℕ) (x : V) (m : List (ℕ × V)) → get u ((u, x) ∷ m) ≡ some x
  unfolding get
  get_self u x m = ground arith

  pub get_other :
      (u v : ℕ) (x : V) (m : List (ℕ × V)) → (u == v) ≡ false → get v ((u, x) ∷ m) ≡ get v m
  unfolding get
  get_other u v x m e = rw e refl

  -- A new key keeps the values of the others.
  pub get_keep :
      (u v : ℕ) (x k : V) (m : List (ℕ × V))
      → get u m ≡ none
      → get v m ≡ some k
      → get v ((u, x) ∷ m) ≡ some k
  unfolding get
  get_keep u v x k m absent e = elim (Bool-cases (u == v)) [
    | inl same ↦ absurd (let eq : u ≡ v = (==_iff u v).0 same in cc)
    | inr other ↦ rw other e
  ]

  pub get_cases :
      (u v : ℕ) (x k : V) (m : List (ℕ × V))
      → get v ((u, x) ∷ m) ≡ some k
      → ((u ≡ v) × (x ≡ k)) ⊎ (((u == v) ≡ false) × (get v m ≡ some k))
  unfolding get
  get_cases u v x k m e = elim (Bool-cases (u == v)) [
    | inl same ↦ inl ((==_iff u v).0 same, ground arith)
    | inr other ↦ inr (other, ground arith)
  ]

-- The depths of a queue do not fall, and lie between two bounds.
abbrev pub Rises : List (ℕ × ℕ) → ℕ → ℕ → List ℕ → Type 0
Rises m lo hi [] = Unit
Rises m lo hi (v ∷ vs) = (k : ℕ) × (get v m ≡ some k) × (lo ≤ k) × (k ≤ hi) × Rises m k hi vs

pub Rises-get :
    (m : List (ℕ × ℕ)) (u x lo hi : ℕ) (vs : List ℕ)
    → get u m ≡ none
    → Rises m lo hi vs
    → Rises ((u, x) ∷ m) lo hi vs
Rises-get m u x lo hi [] absent r = tt
Rises-get m u x lo hi (v ∷ vs) absent (k, e, a, b, r) =
    (k, get_keep u v x k m absent e, a, b, Rises-get m u x k hi vs absent r)

pub Rises-push :
    (m : List (ℕ × ℕ)) (lo hi w : ℕ) (vs : List ℕ)
    → get w m ≡ some hi
    → lo ≤ hi
    → Rises m lo hi vs
    → Rises m lo hi (vs ++ (w ∷ []))
Rises-push m lo hi w [] e h r = (hi, e, h, omega arith, tt)
Rises-push m lo hi w (v ∷ vs) e h (k, f, a, b, r) = (k, f, a, b, Rises-push m k hi w vs e b r)

pub Rises-weaken :
    (m : List (ℕ × ℕ)) (lo hi hi' : ℕ) (vs : List ℕ)
    → hi ≤ hi'
    → Rises m lo hi vs
    → Rises m lo hi' vs
Rises-weaken m lo hi hi' [] h r = tt
Rises-weaken m lo hi hi' (v ∷ vs) h (k, e, a, b, r) =
    (k, e, a, omega arith, Rises-weaken m k hi hi' vs h r)

-- What stands in the queue is not nearer than the lower bound.
pub Rises-far :
    (m : List (ℕ × ℕ)) (lo hi v k : ℕ) (vs : List ℕ)
    → Rises m lo hi vs
    → elem v vs ≡ true
    → get v m ≡ some k
    → lo ≤ k
Rises-far m lo hi v k [] r there e = absurd (ground arith)
Rises-far m lo hi v k (u ∷ us) (j, f, a, b, r) there e = elim (Bool-cases (v == u)) [
  | inl same ↦
      let eq : v ≡ u = (==_iff v u).0 same in let both : some j ≡ some k = cc in ground arith
  | inr other ↦ let later : j ≤ k = Rises-far m j hi v k us r (ground arith) e in omega arith
]

-- How many of the targets are not known yet.
unfoldable pub unseen : List (ℕ × ℕ) → List ℕ → ℕ
unseen m [] = 0
unseen m (w ∷ ws) = let rest = unseen m ws in elim (get w m) [ none ↦ suc rest | some k ↦ rest ]

pub unseen_le : (m : List (ℕ × ℕ)) (u x : ℕ) (ws : List ℕ) → unseen ((u, x) ∷ m) ws ≤ unseen m ws
unfolding unseen get
unseen_le m u x [] = omega arith
unseen_le m u x (w ∷ ws) = ground (arith, unseen_le m u x ws)

unseen-none :
    (m : List (ℕ × ℕ)) (w : ℕ) (ws : List ℕ)
    → get w m ≡ none
    → unseen m (w ∷ ws) ≡ suc (unseen m ws)
unfolding unseen
unseen-none m w ws e = rw (unseen, e) refl

unseen-some :
    (m : List (ℕ × ℕ)) (w k : ℕ) (ws : List ℕ) → get w m ≡ some k → unseen m (w ∷ ws) ≡ unseen m ws
unfolding unseen
unseen-some m w k ws e = rw (unseen, e) refl

pub unseen_less :
    (m : List (ℕ × ℕ)) (u x : ℕ) (ws : List ℕ)
    → get u m ≡ none
    → elem u ws ≡ true
    → suc (unseen ((u, x) ∷ m) ws) ≤ unseen m ws
unseen_less m u x [] absent there = absurd (ground arith)
unseen_less m u x (w ∷ ws) absent there = elim (Bool-cases (u == w)) [
  | inl same ↦
      let eq : u ≡ w = (==_iff u w).0 same in
      let at : get w m ≡ none = cc in
      let now : get w ((u, x) ∷ m) ≡ some x =
        subst (λ y. get y ((u, x) ∷ m) ≡ some x) eq (get_self u x m) in
      omega (arith, unseen-none m w ws at, unseen-some ((u, x) ∷ m) w x ws now, unseen_le m u x ws)
  | inr other ↦
      let rest : suc (unseen ((u, x) ∷ m) ws) ≤ unseen m ws =
        unseen_less m u x ws absent (ground arith) in
      elim (Option-cases (get w m)) [
        | inl e ↦ omega (
          arith,
          unseen-none m w ws e,
          unseen-none ((u, x) ∷ m) w ws (rw (get_other u w x m other) e),
        )
        | inr (k, e) ↦ omega (
          arith,
          unseen-some m w k ws e,
          unseen-some ((u, x) ∷ m) w k ws (get_keep u w x k m absent e),
        )
      ]
]
