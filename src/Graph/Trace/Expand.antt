-- ===== src/Graph/Trace/Expand.antt =====
-- The two inner loops of crates/gitpixel-graph/src/trace.rs, which go over the edges of one symbol.
use gitpixel.Base.{
  ℕ, suc, ◌≤◌, ◌<◌, Bool, true, false, List, [], ◌∷◌, map, none, some, ◌≡◌, refl, sym, ◌==◌, elem,
  length-append, arith, ◌⊎◌, inl, inr, Bool-cases, Option-cases, ==_iff, ==_refl, subst,
}
use gitpixel.Graph.Store.{GraphStore, EdgeKind}
use gitpixel.Graph.Trace.{Search, get, discover, push_back, relax}
use gitpixel.Graph.Trace.Depths.{get_self, get_keep, unseen_less}
use gitpixel.Graph.Trace.Walk.{next}
use gitpixel.Graph.Trace.Explore.{Near}
use gitpixel.Graph.Trace.Known.{all_targets, work, Known, Found, discover-Known, discover-Found}

module _ (to id d dst : ℕ) (kind : EdgeKind) (es : List (EdgeKind × ℕ)) (s : Search) where
  relax_seen :
      (j : ℕ)
      → get dst s.depth_of ≡ some j
      → relax to id d ((kind, dst) ∷ es) s ≡ relax to id d es s
  unfolding relax
  relax_seen j e = rw (e, relax) refl

  relax_hit :
      get dst s.depth_of ≡ none
      → (dst == to) ≡ true
      → relax to id d ((kind, dst) ∷ es) s ≡ (true, discover id d kind dst s)
  unfolding relax
  relax_hit e same = rw (relax, e, same) refl

  relax_miss :
      get dst s.depth_of ≡ none
      → (dst == to) ≡ false
      → relax to id d ((kind, dst) ∷ es) s
        ≡ relax to id d es (push_back dst (discover id d kind dst s))
  unfolding relax
  relax_miss e other = rw (relax, e, other) refl

module _ (g : GraphStore) (from to max_depth : ℕ) (id d : ℕ) (below : d < max_depth) where
  pub record Kept (es : List (EdgeKind × ℕ)) (s t : Search) : Type 0 where
    pub known : Known g from to max_depth d (id ∷ t.queue) t
    pub at : get id t.depth_of ≡ some d
    pub near : (w : ℕ) → elem w (map (λ h. h.1) es) ≡ true → Near t.depth_of w (suc d)
    pub grows : (v k : ℕ) → get v s.depth_of ≡ some k → get v t.depth_of ≡ some k
    pub works : work g t ≤ work g s

  abbrev pub Relaxed : List (EdgeKind × ℕ) → Search → Bool × Search → Type 0
  Relaxed es s r = ((r.0 ≡ true) × Found g from to max_depth r.1) ⊎ ((r.0 ≡ false) × Kept es s r.1)

  one_more :
      (dst j : ℕ) (kind : EdgeKind) (es : List (EdgeKind × ℕ)) (s t u : Search)
      → get dst s.depth_of ≡ some j
      → j ≤ suc d
      → Kept es s t
      → (w : ℕ) → elem w (map (λ h. h.1) ((kind, dst) ∷ es)) ≡ true
      → Near t.depth_of w (suc d)
  one_more dst j kind es s t u e le kept w there = elim (Bool-cases (w == dst)) [
    | inl same ↦
        let eq : w ≡ dst = (==_iff w dst).0 same in
        (j, subst (λ x. get x t.depth_of ≡ some j) (sym eq) (kept.grows dst j e), le)
    | inr other ↦ kept.near w (ground arith)
  ]

  pub relax_lem :
      ((w : ℕ) → elem w (next g id) ≡ true → elem w (all_targets g) ≡ true)
      → (es : List (EdgeKind × ℕ)) (s : Search)
      → ((w : ℕ) → elem w (map (λ h. h.1) es) ≡ true → elem w (next g id) ≡ true)
      → Known g from to max_depth d (id ∷ s.queue) s
      → get id s.depth_of ≡ some d
      → Relaxed es s (relax to id d es s)
  unfolding push_back discover relax
  relax_lem all [] s sub known at = inr (
    refl,
    record {
      known = known;
      at = at;
      near = λ w there. absurd (ground arith);
      grows = λ v k e. e;
      works = omega arith;
    },
  )
  relax_lem all ((kind, dst) ∷ es) s sub known at = elim (Option-cases (get dst s.depth_of)) [
    | inr (j, e) ↦
        rw (relax_seen to id d dst kind es s j e)
          (elim (relax_lem all es s (λ w there. sub w (ground arith)) known at) [
            | inl found ↦ inl found
            | inr (going, kept) ↦ inr (
              going,
              record {
                known = kept.known;
                at = kept.at;
                near = one_more dst j kind es s _ s e (known.tree.sound dst j e).2 kept;
                grows = kept.grows;
                works = kept.works;
              },
            )
          ])
    | inl e ↦
        let edge : elem dst (next g id) ≡ true = sub dst (ground (arith, ==_refl dst)) in
        (elim (Bool-cases (dst == to)) [
          | inl same ↦ rw (relax_hit to id d dst kind es s e same) (
              inl (
                refl,
                discover-Found g from to max_depth id d below dst kind s known at e edge same,
              ))
          | inr other ↦
              rw (relax_miss to id d dst kind es s e other)
                (elim (relax_lem all es (push_back dst (discover id d kind dst s))
                  (λ w there. sub w (ground arith))
                  (discover-Known g from to max_depth id d below dst kind s known at e edge other)
                  (get_keep dst id (suc d) d s.depth_of e at)) [
                    | inl found ↦ inl found
                    | inr (going, kept) ↦ inr (
                      going,
                      record {
                        known = kept.known;
                        at = kept.at;
                        near =
                            one_more dst (suc d) kind es (push_back dst (discover id d kind dst s))
                              _ s (get_self dst (suc d) s.depth_of) (omega arith) kept;
                        grows =
                            λ v k old. kept.grows v k (get_keep dst v (suc d) k s.depth_of e old);
                        works = omega (
                          arith,
                          kept.works,
                          unseen_less s.depth_of dst (suc d) (all_targets g) e (all dst edge),
                          length-append s.queue (dst ∷ []),
                        );
                      },
                    )
                  ])
        ])
  ]
