-- ===== src/Graph/Trace/Explore.antt =====
-- What the search of crates/gitpixel-graph/src/trace.rs knows at each step, and what one expansion adds.
use gitpixel.Base.{
  ℕ, suc, ◌≤◌, ◌<◌, true, List, ◌∷◌, none, some, ◌≡◌, sym, ◌==◌, elem, arith, inl, inr, Bool-cases,
  ==_iff, subst, ap, ◌∙◌,
}
use gitpixel.Graph.Store.{GraphStore, EdgeKind}
use gitpixel.Graph.Trace.{Search, get, discover}
use gitpixel.Graph.Trace.Depths.{get_self, get_other, get_keep, get_cases}
use gitpixel.Graph.Trace.Walk.{Walk, step, next}

-- A symbol that is known, at most this far from the start.
abbrev pub Near : List (ℕ × ℕ) → ℕ → ℕ → Type 0
Near m v hi = (j : ℕ) × (get v m ≡ some j) × (j ≤ hi)

pub Near-get :
    (m : List (ℕ × ℕ)) (u x v hi : ℕ) → get u m ≡ none → Near m v hi → Near ((u, x) ∷ m) v hi
Near-get m u x v hi absent (j, e, le) = (j, get_keep u v x j m absent e, le)

module _ (g : GraphStore) (from max_depth : ℕ) where
  -- The known symbols form a tree of walks from the start.
  pub record Tree (lo : ℕ) (s : Search) : Type 0 where
    pub sound :
        (v k : ℕ) → get v s.depth_of ≡ some k → Walk g k from v × (k ≤ max_depth) × (k ≤ suc lo)
    pub starts : get from s.depth_of ≡ some 0
    pub parents :
        (v p : ℕ) (kind : EdgeKind)
        → get v s.parent ≡ some (p, kind)
        → (d : ℕ) × (get v s.depth_of ≡ some (suc d))
          × (get p s.depth_of ≡ some d)
          × (elem v (next g p) ≡ true)
    pub roots : (v k : ℕ) → get v s.parent ≡ none → get v s.depth_of ≡ some k → (k ≡ 0) × (v ≡ from)

  pub discover-Tree :
      (id d dst : ℕ) (kind : EdgeKind) (s : Search)
      → Tree d s
      → get id s.depth_of ≡ some d
      → d < max_depth
      → get dst s.depth_of ≡ none
      → elem dst (next g id) ≡ true
      → Tree d (discover id d kind dst s)
  unfolding discover
  discover-Tree id d dst kind s tree at below absent edge = record {
    sound = λ v k e. elim (get_cases dst v (suc d) k s.depth_of e) [
      | inl (same, deep) ↦
          subst (λ x. Walk g x from v × (x ≤ max_depth) × (x ≤ suc d)) deep
            (
              subst (λ x. Walk g (suc d) from x) same (step (tree.sound id d at).0 edge),
              omega arith,
              omega arith,
            )
      | inr (other, old) ↦ tree.sound v k old
    ];
    starts = get_keep dst from (suc d) 0 s.depth_of absent tree.starts;
    parents = λ v p k e. elim (get_cases dst v (id, kind) (p, k) s.parent e) [
      | inl (same, pair) ↦
          let up : id ≡ p = ap (λ x. x.0) pair in
          (
            d,
            subst (λ x. get x ((dst, suc d) ∷ s.depth_of) ≡ some (suc d)) same
                (get_self dst (suc d) s.depth_of),
            subst (λ x. get x ((dst, suc d) ∷ s.depth_of) ≡ some d) up
                (get_keep dst id (suc d) d s.depth_of absent at),
            subst (λ x. elem v (next g x) ≡ true) up
                (subst (λ x. elem x (next g id) ≡ true) same edge),
          )
      | inr (other, old) ↦
          let (j, a, b, c) = tree.parents v p k old in
          (
            j,
            get_keep dst v (suc d) (suc j) s.depth_of absent a,
            get_keep dst p (suc d) j s.depth_of absent b,
            c,
          )
    ];
    roots = λ v k orphan e. elim (Bool-cases (dst == v)) [
      | inl same ↦ absurd (
          let eq : dst ≡ v = (==_iff dst v).0 same in
          let has : get v ((dst, (id, kind)) ∷ s.parent) ≡ some (id, kind) =
            subst (λ x. get x ((dst, (id, kind)) ∷ s.parent) ≡ some (id, kind)) eq
              (get_self dst (id, kind) s.parent) in
          cc)
      | inr other ↦
          tree.roots v k (sym (get_other dst v (id, kind) s.parent other) ∙ orphan)
            (sym (get_other dst v (suc d) s.depth_of other) ∙ e)
    ];
  }
