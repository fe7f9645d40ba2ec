-- ===== src/Graph/Trace/Known.antt =====
-- What the search of crates/gitpixel-graph/src/trace.rs knows between two edges.
use gitpixel.Base.{
  ℕ, zero, suc, ◌+◌, ◌≤◌, ◌<◌, true, false, List, [], ◌∷◌, ◌++◌, map, none, some, ◌≡◌, sym, ◌==◌,
  leb, leb→le, elem, length, arith, ◌⊎◌, inl, inr, Bool-cases, ==_iff, subst,
}
use gitpixel.Base.{elem-append}
use gitpixel.Graph.Store.{GraphStore, EdgeKind}
use gitpixel.Graph.Trace.{Search, get, discover, push_back}
use gitpixel.Graph.Trace.Depths.{
  get_self, get_other, get_cases, Rises, Rises-get, Rises-push, Rises-far, unseen,
}
use gitpixel.Graph.Trace.Walk.{Walk, here, step, next}
use gitpixel.Graph.Trace.Explore.{Near, Near-get, Tree, discover-Tree}

-- The targets of all edges.
abbrev pub all_targets : GraphStore → List ℕ
all_targets g = map (λ e. e.dst_id) g.edges

abbrev pub work : GraphStore → Search → ℕ
work g s = length s.queue + unseen s.depth_of (all_targets g)

module _ (g : GraphStore) (from to max_depth : ℕ) where
  -- The search has popped symbols up to depth `lo`; the symbols of `pending` are not expanded yet.
  pub record Known (lo : ℕ) (pending : List ℕ) (s : Search) : Type 0 where
    pub tree : Tree g from max_depth lo s
    pub rises : Rises s.depth_of lo (suc lo) s.queue
    pub closed :
        (v k w : ℕ)
        → get v s.depth_of ≡ some k
        → k < max_depth
        → elem v pending ≡ false
        → elem w (next g v) ≡ true
        → Near s.depth_of w (suc k)
    pub unfound : ((from == to) ≡ true) ⊎ (get to s.depth_of ≡ none)

  -- As long as the unexpanded symbols are far, everything nearer is known.
  pub Known-reach :
      (lo b n v : ℕ) (pending : List ℕ) (s : Search)
      → Known lo pending s
      → ((u k : ℕ) → get u s.depth_of ≡ some k → elem u pending ≡ true → b ≤ k)
      → n ≤ b
      → n ≤ max_depth
      → Walk g n from v
      → Near s.depth_of v n
  Known-reach lo b zero v pending s known far h h' here = (0, known.tree.starts, omega arith)
  Known-reach lo b (suc n) v pending s known far h h' (step {b = u} w e) =
      let (j, f, le) = Known-reach lo b n u pending s known far (omega arith) (omega arith) w in
      let shut : elem u pending ≡ false = elim (Bool-cases (elem u pending)) [
        | inl there ↦ absurd (let le' : b ≤ j = far u j f there in omega arith)
        | inr gone ↦ gone
      ] in
      let (i, f', le') = known.closed u j v f (omega arith) shut e in (i, f', omega arith)

  pub record Found (s : Search) : Type 0 where
    pub low : ℕ
    pub depth : ℕ
    pub tree : Tree g from max_depth low s
    pub at : get to s.depth_of ≡ some depth
    pub shortest : (n : ℕ) → Walk g n from to → depth ≤ n

  module _ (id d : ℕ) (below : d < max_depth) where
    pub discover-Known :
        (dst : ℕ) (kind : EdgeKind) (s : Search)
        → Known d (id ∷ s.queue) s
        → get id s.depth_of ≡ some d
        → get dst s.depth_of ≡ none
        → elem dst (next g id) ≡ true
        → (dst == to) ≡ false
        → Known d (id ∷ (s.queue ++ (dst ∷ []))) (push_back dst (discover id d kind dst s))
    unfolding discover push_back
    discover-Known dst kind s known at absent edge other = record {
      tree =
          let t = discover-Tree g from max_depth id d dst kind s known.tree at below absent edge in
          record { sound = t.sound; starts = t.starts; parents = t.parents; roots = t.roots };
      rises =
          Rises-push ((dst, suc d) ∷ s.depth_of) d (suc d) dst s.queue
            (get_self dst (suc d) s.depth_of) (omega arith)
            (Rises-get s.depth_of dst (suc d) d (suc d) s.queue absent known.rises);
      closed = λ v k w e less out next_edge. elim (get_cases dst v (suc d) k s.depth_of e) [
        | inl (same, deep) ↦ absurd (
            let eq : (v == dst) ≡ true = (==_iff v dst).1 (sym same) in
            ground (arith, elem-append v s.queue (dst ∷ [])))
        | inr (apart, old) ↦ Near-get s.depth_of dst (suc d) w (suc k) absent (
            known.closed v k w old less (ground (arith, elem-append v s.queue (dst ∷ [])))
              next_edge)
      ];
      unfound = elim known.unfound [
        | inl same ↦ inl same
        | inr gone ↦ inr (rw (get_other dst to (suc d) s.depth_of other) gone)
      ];
    }

    -- What is not expanded yet is not nearer than the symbol in hand.
    Known-far :
        (u k : ℕ) (s : Search)
        → Known d (id ∷ s.queue) s
        → get id s.depth_of ≡ some d
        → get u s.depth_of ≡ some k
        → elem u (id ∷ s.queue) ≡ true
        → d ≤ k
    Known-far u k s known at e there = elim (Bool-cases (u == id)) [
      | inl same ↦
          let eq : u ≡ id = (==_iff u id).0 same in let both : some d ≡ some k = cc in ground arith
      | inr other ↦ Rises-far s.depth_of d (suc d) u k s.queue known.rises (ground arith) e
    ]

    pub discover-Found :
        (dst : ℕ) (kind : EdgeKind) (s : Search)
        → Known d (id ∷ s.queue) s
        → get id s.depth_of ≡ some d
        → get dst s.depth_of ≡ none
        → elem dst (next g id) ≡ true
        → (dst == to) ≡ true
        → Found (discover id d kind dst s)
    unfolding discover
    discover-Found dst kind s known at absent edge same =
        let eq : dst ≡ to = (==_iff dst to).0 same in
        record {
          low = d;
          depth = suc d;
          tree = discover-Tree g from max_depth id d dst kind s known.tree at below absent edge;
          at =
              subst (λ x. get x ((dst, suc d) ∷ s.depth_of) ≡ some (suc d)) eq
                (get_self dst (suc d) s.depth_of);
          shortest = λ n w. elim (Bool-cases (leb n d)) [
            | inl near ↦ absurd (
                let le : n ≤ d = leb→le n d near in
                let (j, f, le') =
                  Known-reach d d n to (id ∷ s.queue) s known
                    (λ u k e there. Known-far u k s known at e there) le (omega arith) w in
                let gone : get to s.depth_of ≡ none =
                  subst (λ x. get x s.depth_of ≡ none) eq absent in
                cc)
            | inr out ↦ ground arith
          ];
        }
