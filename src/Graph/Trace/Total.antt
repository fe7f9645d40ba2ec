-- ===== src/Graph/Trace/Total.antt =====
-- The search of crates/gitpixel-graph/src/trace.rs as a whole: it ends, and its answer is right.
use gitpixel.Base.{
  ℕ, suc, ◌≤◌, ◌<◌, Bool, true, false, if◌then◌else◌, List, [], ◌∷◌, ◌++◌, map, some, ◌≡◌, refl,
  sym, ◌==◌, leb, elem, arith, ◌⊎◌, inl, inr, Bool-cases, ==_iff, subst,
}
use gitpixel.Graph.Store.{
  GraphStore, EdgeKind, EdgeRow, select, edges_from, edges_dir, calls, has_method,
}
use gitpixel.Graph.Trace.{Search, get, out_edges, relax, search}
use gitpixel.Graph.Trace.Depths.{Rises, Rises-weaken}
use gitpixel.Graph.Trace.Walk.{Walk, next}
use gitpixel.Graph.Trace.Explore.{Tree}
use gitpixel.Graph.Trace.Known.{all_targets, Known, Known-reach, Found}
use gitpixel.Graph.Trace.Expand.{Kept}

abbrev hops_under : EdgeKind → List EdgeRow → List (EdgeKind × ℕ)
hops_under kind es = map (λ e. (kind, e.dst_id)) es

abbrev targets_of : List (EdgeKind × ℕ) → List ℕ
targets_of hs = map (λ h. h.1) hs

-- The edges of a symbol are edges of the store.
select_targets :
    (w : ℕ) (p : EdgeRow → Bool) (kind : EdgeKind) (es : List EdgeRow)
    → elem w (targets_of (hops_under kind (select p es))) ≡ true
    → elem w (map (λ e. e.dst_id) es) ≡ true
unfolding select
select_targets w p kind [] there = there
select_targets w p kind (e ∷ es) there =
    let rest = select_targets w p kind es in
    elim (Bool-cases (p e)) [
      | inl kept ↦
          let now : elem w (targets_of (hops_under kind (e ∷ select p es))) ≡ true =
            subst
              (λ b.
                elem w (targets_of (hops_under kind (if b then e ∷ select p es else select p es)))
                ≡ true)
              kept there in
          ground arith
      | inr out ↦
          let now : elem w (targets_of (hops_under kind (select p es))) ≡ true =
            subst
              (λ b.
                elem w (targets_of (hops_under kind (if b then e ∷ select p es else select p es)))
                ≡ true)
              out there in
          ground arith
    ]

targets_of-append :
    (w : ℕ) (xs ys : List (EdgeKind × ℕ))
    → elem w (targets_of (xs ++ ys)) ≡ true
    → (elem w (targets_of xs) ≡ true) ⊎ (elem w (targets_of ys) ≡ true)
targets_of-append w [] ys there = inr there
targets_of-append w (x ∷ xs) ys there = ground (arith, targets_of-append w xs ys)

pub next_targets :
    (g : GraphStore) (v w : ℕ) → elem w (next g v) ≡ true → elem w (all_targets g) ≡ true
unfolding out_edges edges_from edges_dir
next_targets g v w there =
    elim (targets_of-append w (hops_under calls (edges_from v (some calls) g))
      (hops_under has_method (edges_from v (some has_method) g)) there) [
        | inl e ↦ select_targets w _ calls g.edges e
        | inr e ↦ select_targets w _ has_method g.edges e
      ]

module _ (fuel : ℕ) (g : GraphStore) (to max_depth : ℕ) (s : Search) where
  pub search_empty : s.queue ≡ [] → search (suc fuel) g to max_depth s ≡ some (false, s)
  unfolding search
  search_empty e = simp (search, e)

  module _ (id d : ℕ) (queue : List ℕ) (popped : s.queue ≡ id ∷ queue)
      (at : get id s.depth_of ≡ some d) where
    pub search_deep :
        leb max_depth d ≡ true
        → search (suc fuel) g to max_depth s
          ≡ search fuel g to max_depth (record s { queue = queue })
    unfolding search
    search_deep e = rw (search, popped, at, e) refl

    pub search_stop :
        leb max_depth d ≡ false
        → (relax to id d (out_edges id g) (record s { queue = queue })).0 ≡ true
        → search (suc fuel) g to max_depth s
          ≡ some (true, (relax to id d (out_edges id g) (record s { queue = queue })).1)
    unfolding search
    search_stop e stop = rw (search, popped, at, e, stop) refl

    pub search_go :
        leb max_depth d ≡ false
        → (relax to id d (out_edges id g) (record s { queue = queue })).0 ≡ false
        → search (suc fuel) g to max_depth s
          ≡ search fuel g to max_depth
              (relax to id d (out_edges id g) (record s { queue = queue })).1
    unfolding search
    search_go e going = rw (search, popped, at, e, going) refl

pub List-cases : (xs : List ℕ) → (xs ≡ []) ⊎ ((x : ℕ) × (ys : List ℕ) × (xs ≡ x ∷ ys))
List-cases [] = inl refl
List-cases (x ∷ xs) = inr (x, xs, refl)

module _ (g : GraphStore) (from to max_depth : ℕ) where
  -- The search ended without meeting the target.
  pub record Missed (s : Search) : Type 0 where
    pub low : ℕ
    pub tree : Tree g from max_depth low s
    pub only_start : (n : ℕ) → n ≤ max_depth → Walk g n from to → (from == to) ≡ true

  abbrev pub Outcome : Bool × Search → Type 0
  Outcome r = ((r.0 ≡ true) × Found g from to max_depth r.1) ⊎ ((r.0 ≡ false) × Missed r.1)

  pub empty-Missed : (lo : ℕ) (s : Search) → Known g from to max_depth lo [] s → Missed s
  empty-Missed lo s known = record {
    low = lo;
    tree = known.tree;
    only_start = λ n le w. elim known.unfound [
      | inl same ↦ same
      | inr gone ↦ absurd (
          let (j, e, le') =
            Known-reach g from to max_depth lo max_depth n to [] s known
              (λ u k e there. absurd (ground arith)) le le w in
          cc)
    ];
  }

  module _ (lo id d : ℕ) (queue : List ℕ) (s : Search) (popped : s.queue ≡ id ∷ queue) where
    pub popped-Known :
        Known g from to max_depth lo s.queue s
        → get id s.depth_of ≡ some d
        → lo ≤ d
        → Rises s.depth_of d (suc lo) queue
        → Known g from to max_depth d (id ∷ queue) (record s { queue = queue })
    popped-Known known at le rises = record {
      tree = record {
        sound = λ v k e. let (w, a, b) = known.tree.sound v k e in (w, a, omega arith);
        starts = known.tree.starts;
        parents = known.tree.parents;
        roots = known.tree.roots;
      };
      rises = Rises-weaken s.depth_of d (suc lo) (suc d) queue (omega arith) rises;
      closed = λ v k w e less out edge.
          known.closed v k w e less (subst (λ q. elem v q ≡ false) (sym popped) out) edge;
      unfound = known.unfound;
    }

  -- A symbol at the greatest depth needs no expansion.
  pub deep-Known :
      (id d : ℕ) (s : Search)
      → Known g from to max_depth d (id ∷ s.queue) s
      → get id s.depth_of ≡ some d
      → max_depth ≤ d
      → Known g from to max_depth d s.queue s
  deep-Known id d s known at deep = record {
    tree = known.tree;
    rises = known.rises;
    unfound = known.unfound;
    closed = λ v k w e less out edge. elim (Bool-cases (v == id)) [
      | inl same ↦ absurd (
          let eq : v ≡ id = (==_iff v id).0 same in let both : some d ≡ some k = cc in ground arith)
      | inr other ↦ known.closed v k w e less (ground arith) edge
    ];
  }

  pub Kept-Known :
      (id d : ℕ) (below : d < max_depth) (s t : Search)
      → Kept g from to max_depth id d below (out_edges id g) s t
      → Known g from to max_depth d t.queue t
  Kept-Known id d below s t kept = record {
    tree = kept.known.tree;
    rises = kept.known.rises;
    unfound = kept.known.unfound;
    closed = λ v k w e less out edge. elim (Bool-cases (v == id)) [
      | inl same ↦
          let eq : v ≡ id = (==_iff v id).0 same in
          let both : some d ≡ some k = let at = kept.at in cc in
          let deep : d ≡ k = ground arith in
          let (j, f, le) = kept.near w (subst (λ x. elem w (next g x) ≡ true) eq edge) in
          (j, f, omega arith)
      | inr other ↦ kept.known.closed v k w e less (ground arith) edge
    ];
  }
