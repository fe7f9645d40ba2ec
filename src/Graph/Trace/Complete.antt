-- ===== src/Graph/Trace/Complete.antt =====
-- The search of crates/gitpixel-graph/src/trace.rs ends within its fuel, and finds the target or rules it out.
use gitpixel.Base.{
  ℕ, zero, suc, ◌≤◌, ◌<◌, Bool, true, false, List, [], ◌∷◌, map, some, ◌≡◌, refl, ◌==◌, leb, leb→le,
  length, arith, inl, inr, Bool-cases, ==_iff, ==_refl, subst, ap, ◌∙◌,
}
use gitpixel.Graph.Store.{GraphStore, EdgeRow}
use gitpixel.Graph.Trace.{Search, get, out_edges, relax, search, search_fuel, start}
use gitpixel.Graph.Trace.Depths.{Rises, unseen}
use gitpixel.Graph.Trace.Walk.{Walk, here}
use gitpixel.Graph.Trace.Known.{all_targets, work, Known}
use gitpixel.Graph.Trace.Expand.{relax_lem}
use gitpixel.Graph.Trace.Total.{
  Outcome, empty-Missed, popped-Known, deep-Known, Kept-Known, List-cases, next_targets,
  search_empty, search_deep, search_stop, search_go,
}

module _ (g : GraphStore) (from to max_depth : ℕ) where
  pub search_total :
      (fuel lo : ℕ) (s : Search)
      → Known g from to max_depth lo s.queue s
      → work g s < fuel
      → (r : Bool × Search) × (search fuel g to max_depth s ≡ some r)
        × Outcome g from to max_depth r
  search_total zero lo s known h = absurd (omega arith)
  search_total (suc fuel) lo s known h = elim (List-cases s.queue) [
    | inl e ↦ (
      (false, s),
      search_empty fuel g to max_depth s e,
      inr (
        refl,
        empty-Missed g from to max_depth lo s
            (subst (λ q. Known g from to max_depth lo q s) e known),
      ),
    )
    | inr (id, queue, e) ↦
        let (d, at, le, le', rises) = subst (Rises s.depth_of lo (suc lo)) e known.rises in
        let popped : Search = record s { queue = queue } in
        let now : Known g from to max_depth d (id ∷ queue) popped =
          popped-Known g from to max_depth lo id d queue s e known at le rises in
        let shorter : length s.queue ≡ suc (length queue) = ap length e in
        elim (Bool-cases (leb max_depth d)) [
          | inl deep ↦
              let (r, f, o) =
                search_total fuel d popped
                  (deep-Known g from to max_depth id d popped now at (leb→le max_depth d deep))
                  (omega arith) in
              (r, search_deep fuel g to max_depth s id d queue e at deep ∙ f, o)
          | inr shallow ↦
              let below : d < max_depth = ground arith in
              elim (relax_lem g from to max_depth id d below (next_targets g id) (out_edges id g)
                popped (λ w there. there) now at) [
                  | inl (stop, found) ↦ (
                    (true, (relax to id d (out_edges id g) popped).1),
                    search_stop fuel g to max_depth s id d queue e at shallow stop,
                    inl (refl, found),
                  )
                  | inr (going, kept) ↦
                      let (r, f, o) =
                        search_total fuel d (relax to id d (out_edges id g) popped).1
                          (Kept-Known g from to max_depth id d below popped _ kept)
                          (omega (arith, kept.works)) in
                      (r, search_go fuel g to max_depth s id d queue e at shallow going ∙ f, o)
                ]
        ]
  ]

  pub start-Known : Known g from to max_depth 0 (start from).queue (start from)
  unfolding start get
  start-Known = record {
    tree = record {
      sound = λ v k e. elim (Bool-cases (from == v)) [
        | inl same ↦
            let eq : from ≡ v = (==_iff from v).0 same in
            let zero_depth : 0 ≡ k = ground arith in
            subst (λ x. Walk g x from v × (x ≤ max_depth) × (x ≤ 1)) zero_depth
              (subst (λ x. Walk g 0 from x) eq here, omega arith, omega arith)
        | inr other ↦ absurd (ground arith)
      ];
      starts = ground (arith, ==_refl from);
      parents = λ v p kind e. absurd (ground arith);
      roots = λ v k orphan e. ground (arith, ==_iff from v);
    };
    rises = (0, ground (arith, ==_refl from), omega arith, omega arith, tt);
    closed = λ v k w e less out edge. absurd (ground (arith, ==_iff from v, ==_iff v from));
    unfound = elim (Bool-cases (from == to)) [
      | inl same ↦ inl same
      | inr other ↦ inr (rw other refl)
    ];
  }

unseen-length : (m : List (ℕ × ℕ)) (ws : List ℕ) → unseen m ws ≤ length ws
unfolding unseen
unseen-length m [] = omega arith
unseen-length m (w ∷ ws) = ground (arith, unseen-length m ws)

length-all_targets : (es : List EdgeRow) → length (map (λ e. e.dst_id) es) ≡ length es
length-all_targets [] = refl
length-all_targets (e ∷ es) = ap suc (length-all_targets es)

pub start_work : (g : GraphStore) (from : ℕ) → work g (start from) < search_fuel g
unfolding start
start_work g from =
    omega (arith, unseen-length ((from, 0) ∷ []) (all_targets g), length-all_targets g.edges)
