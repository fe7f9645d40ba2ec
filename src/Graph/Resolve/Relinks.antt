-- ===== src/Graph/Resolve/Relinks.antt =====
-- What `resolve_all` of crates/gitpixel-graph/src/resolve.rs does to the tables.
use gitpixel.Base.{
  ℕ, ◌+◌, true, List, [], ◌∷◌, ◌≡◌, refl, ◌∙◌, inl, inr, arith, subst, Bool-cases, Option-cases,
  elem, length, All,
}
use gitpixel.Graph.Store.{GraphStore, insert_edge}
use gitpixel.Graph.Store.Linked.{Linked, symbol_ids}
use gitpixel.Graph.Resolve.{ResolveStats, Decision, exact, probable, unresolved, decide, build}
use gitpixel.Graph.Resolve.Calls.{no_calls}
use gitpixel.Graph.Resolve.Index.{decide-build, defined_ids}
use gitpixel.Graph.Resolve.Decide.{Decides}
use gitpixel.Graph.Resolve.Grows.{
  total, Grows, Grows-refl, Grows-trans, Grows-Linked, uncounted-Grows, edge-Grows, ends_in,
}
use gitpixel.Graph.Store.{UnresolvedRow}
use gitpixel.Graph.Resolve.Calls.{relink, relink_rows, enclosed_rows, resolve_all}

relink_lem :
    (h : GraphStore) (u : UnresolvedRow) (src : ℕ) (d : Decision) (r : ResolveStats × GraphStore)
    → r.1.symbols ≡ h.symbols
    → elem src (symbol_ids h.symbols) ≡ true
    → Decides (λ c. elem c.symbol_id (defined_ids u.name h) ≡ true) (build h) u.file_id u.name d
    → Grows 1 r (relink u src d r)
unfolding relink insert_edge
relink_lem h u src (exact dst) r same stands (c, e, (p, v)) =
    edge-Grows _ _ r _ refl refl refl (omega arith) refl (
      ends_in h u.name src dst r.1.symbols same stands
        (subst (λ x. elem x (defined_ids u.name h) ≡ true) e p))
relink_lem h u src (probable dst) r same stands (c, e, p) =
    edge-Grows _ _ r _ refl refl refl (omega arith) refl (
      ends_in h u.name src dst r.1.symbols same stands
        (subst (λ x. elem x (defined_ids u.name h) ≡ true) e p))
relink_lem h u src unresolved r same stands t = uncounted-Grows r _ refl refl refl

relink_rows_lem :
    (h : GraphStore) (us : List (UnresolvedRow × ℕ)) (r : ResolveStats × GraphStore)
    → r.1.symbols ≡ h.symbols
    → All (λ u. elem u.1 (symbol_ids h.symbols) ≡ true) us
    → Grows (length us) r (relink_rows (build h) us r)
unfolding relink_rows
relink_rows_lem h [] r same stand = Grows-refl r
relink_rows_lem h ((u, s) ∷ us) r same stand =
    let now : Grows 1 r (relink u s (decide (build h) u.file_id u.name u.receiver) r) =
      relink_lem h u s (decide (build h) u.file_id u.name u.receiver) r same stand.0
        (decide-build h u.file_id u.name u.receiver).0 in
    subst (λ n. Grows n r (relink_rows (build h) ((u, s) ∷ us) r)) (omega arith)
      (Grows-trans 1 (length us) r _ _ now
        (relink_rows_lem h us _ (now.symbols_stay ∙ same) stand.1))

enclosed_stand :
    (ids : List ℕ) (us : List UnresolvedRow) → All (λ u. elem u.1 ids ≡ true) (enclosed_rows ids us)
unfolding enclosed_rows
enclosed_stand ids [] = tt
enclosed_stand ids (u ∷ us) = elim (Option-cases u.enclosing_symbol_id) [
  | inl e ↦ rw (enclosed_rows, e) (enclosed_stand ids us)
  | inr (s, e) ↦ elim (Bool-cases (elem s ids)) [
    | inl there ↦ rw (enclosed_rows, e, there) (there, enclosed_stand ids us)
    | inr gone ↦ rw (enclosed_rows, e, gone) (enclosed_stand ids us)
  ]
]

-- When the unresolved calls are tried again, the edges still end in symbols and the symbols stand in
-- files, if they did before; every unresolved row in a symbol of the store is counted once, and as many
-- edges are added as rows count as exact or probable.
pub resolve_all-Linked :
    (g : GraphStore)
    → Linked g
    → Linked (resolve_all g).1
      × (total (resolve_all g).0 ≡ length (enclosed_rows (symbol_ids g.symbols) g.unresolved_calls))
      × (length (resolve_all g).1.edges
          ≡ length g.edges + ((resolve_all g).0.exact + (resolve_all g).0.probable))
unfolding resolve_all
resolve_all-Linked g l =
    let us : List (UnresolvedRow × ℕ) = enclosed_rows (symbol_ids g.symbols) g.unresolved_calls in
    let r : Grows (length us) (no_calls, g) (relink_rows (build g) us (no_calls, g)) =
      relink_rows_lem g us (no_calls, g) refl
        (enclosed_stand (symbol_ids g.symbols) g.unresolved_calls) in
    (
      Grows-Linked (length us) (no_calls, g) _ r l,
      omega (arith, r.counted),
      omega (arith, r.edges_added),
    )
