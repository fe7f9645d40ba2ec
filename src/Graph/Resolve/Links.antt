-- ===== src/Graph/Resolve/Links.antt =====
-- What `resolve_calls` of crates/gitpixel-graph/src/resolve.rs does to the tables.
use gitpixel.Base.{
  ℕ, ◌+◌, true, List, [], ◌∷◌, Option, none, some, ◌≡◌, refl, ◌∙◌, arith, subst, String, elem,
  length, length-append, All,
}
use gitpixel.Graph.Store.{GraphStore, EdgeRow, insert_edge, insert_unresolved_call}
use gitpixel.Graph.Store.Linked.{Linked, EndsIn, symbol_ids}
use gitpixel.Graph.Resolve.{
  ResolveStats, PendingCall, FileCalls, Decision, exact, probable, unresolved, decide, build,
}
use gitpixel.Graph.Resolve.Calls.{
  resolve_decided, resolve_call, resolve_file, resolve_pending, resolve_calls, no_calls,
  count_unresolved,
}
use gitpixel.Graph.Resolve.Index.{decide-build, defined_ids}
use gitpixel.Graph.Resolve.Decide.{Decides}
use gitpixel.Graph.Resolve.Grows.{
  StandsIn, total, Grows, Grows-refl, Grows-trans, Grows-Linked, uncounted-Grows, edge-Grows,
  ends_in,
}

abbrev pub pending_calls : List FileCalls → ℕ
pending_calls [] = 0
pending_calls (f ∷ fs) = length f.calls + pending_calls fs

-- Besides, each unresolved call has become an unresolved row.
pub record Resolves (n : ℕ) (r q : ResolveStats × GraphStore) : Type 0 where
  pub grows : Grows n r q
  pub rows_added :
      length q.1.unresolved_calls + r.0.unresolved ≡ length r.1.unresolved_calls + q.0.unresolved

Resolves-refl : (r : ResolveStats × GraphStore) → Resolves 0 r r
Resolves-refl r = record { grows = Grows-refl r; rows_added = refl }

Resolves-trans :
    (m n : ℕ) (r q p : ResolveStats × GraphStore)
    → Resolves m r q
    → Resolves n q p
    → Resolves (m + n) r p
Resolves-trans m n r q p a b = record {
  grows = Grows-trans m n r q p a.grows b.grows;
  rows_added = omega (arith, a.rows_added, b.rows_added);
}

module _ (new_id : List ℕ → ℕ) where
  unresolved_lem :
      (file_id : ℕ) (name : String) (src : Option ℕ) (line : ℕ) (receiver : Option String)
      (r : ResolveStats × GraphStore)
      → Resolves 1 r
          (count_unresolved r.0, insert_unresolved_call new_id file_id name src line receiver r.1)
  unfolding insert_unresolved_call
  unresolved_lem file_id name src line receiver r = record {
    grows = uncounted-Grows r _ refl refl refl;
    rows_added = rw (length-append r.1.unresolved_calls (_ ∷ [])) (omega arith);
  }

  edge_lem :
      (s : ResolveStats) (e : EdgeRow) (r : ResolveStats × GraphStore)
      → total s ≡ 1 + total r.0
      → s.unresolved ≡ r.0.unresolved
      → EndsIn (symbol_ids r.1.symbols) e
      → Resolves 1 r (s, insert_edge e r.1)
  unfolding insert_edge
  edge_lem s e r t u ends = record {
    grows = edge-Grows s e r _ refl refl refl t u ends;
    rows_added = omega arith;
  }

  resolve_decided_lem :
      (h : GraphStore) (file_id src : ℕ) (call : PendingCall) (d : Decision)
      (r : ResolveStats × GraphStore)
      → r.1.symbols ≡ h.symbols
      → elem src (symbol_ids h.symbols) ≡ true
      → Decides
          (λ c. elem c.symbol_id (defined_ids call.callee_name h) ≡ true)
          (build h)
          file_id
          call.callee_name
          d
      → Resolves 1 r (resolve_decided new_id file_id call src d r)
  unfolding resolve_decided
  resolve_decided_lem h file_id src call (exact dst) r same stands (c, e, (p, v)) =
      edge_lem _ _ r (omega arith) refl (
        ends_in h call.callee_name src dst r.1.symbols same stands
          (subst (λ x. elem x (defined_ids call.callee_name h) ≡ true) e p))
  resolve_decided_lem h file_id src call (probable dst) r same stands (c, e, p) =
      edge_lem _ _ r (omega arith) refl (
        ends_in h call.callee_name src dst r.1.symbols same stands
          (subst (λ x. elem x (defined_ids call.callee_name h) ≡ true) e p))
  resolve_decided_lem h file_id src call unresolved r same stands t =
      unresolved_lem file_id call.callee_name (some src) call.site_line call.receiver r

  resolve_call_lem :
      (h : GraphStore) (file_id : ℕ) (call : PendingCall) (src : Option ℕ)
      (r : ResolveStats × GraphStore)
      → r.1.symbols ≡ h.symbols
      → StandsIn (symbol_ids h.symbols) src
      → Resolves 1 r (resolve_call new_id (build h) file_id call src r)
  unfolding resolve_call
  resolve_call_lem h file_id call none r same stands =
      unresolved_lem file_id call.callee_name none call.site_line call.receiver r
  resolve_call_lem h file_id call (some src) r same stands =
      resolve_decided_lem h file_id src call
        (decide (build h) file_id call.callee_name call.receiver) r same stands
        (decide-build h file_id call.callee_name call.receiver).0

  resolve_file_lem :
      (h : GraphStore) (file_id : ℕ) (calls : List PendingCall) (r : ResolveStats × GraphStore)
      → r.1.symbols ≡ h.symbols
      → All (λ c. StandsIn (symbol_ids h.symbols) c.enclosing_symbol_id) calls
      → Resolves (length calls) r (resolve_file new_id (build h) file_id calls r)
  unfolding resolve_file
  resolve_file_lem h file_id [] r same stand = Resolves-refl r
  resolve_file_lem h file_id (c ∷ cs) r same stand =
      let now : Resolves 1 r (resolve_call new_id (build h) file_id c c.enclosing_symbol_id r) =
        resolve_call_lem h file_id c c.enclosing_symbol_id r same stand.0 in
      subst (λ n. Resolves n r (resolve_file new_id (build h) file_id (c ∷ cs) r)) (omega arith)
        (Resolves-trans 1 (length cs) r _ _ now
          (resolve_file_lem h file_id cs _ (now.grows.symbols_stay ∙ same) stand.1))

  resolve_pending_lem :
      (h : GraphStore) (pending : List FileCalls) (r : ResolveStats × GraphStore)
      → r.1.symbols ≡ h.symbols
      → All (λ f. All (λ c. StandsIn (symbol_ids h.symbols) c.enclosing_symbol_id) f.calls) pending
      → Resolves (pending_calls pending) r (resolve_pending new_id (build h) pending r)
  unfolding resolve_pending
  resolve_pending_lem h [] r same stand = Resolves-refl r
  resolve_pending_lem h (f ∷ fs) r same stand =
      let now : Resolves (length f.calls) r (resolve_file new_id (build h) f.file_id f.calls r) =
        resolve_file_lem h f.file_id f.calls r same stand.0 in
      Resolves-trans (length f.calls) (pending_calls fs) r _ _ now
        (resolve_pending_lem h fs _ (now.grows.symbols_stay ∙ same) stand.1)

  -- Take pending calls that stand at top level or in symbols of the store. When they are resolved,
  -- the edges end in symbols and the symbols stand in files, if they did before; the counts add up
  -- to the number of calls; as many edges are added as calls count as exact or probable, and as
  -- many unresolved rows as calls count as unresolved.
  pub resolve_calls-Linked :
      (pending : List FileCalls) (g : GraphStore)
      → All (λ f. All (λ c. StandsIn (symbol_ids g.symbols) c.enclosing_symbol_id) f.calls) pending
      → Linked g
      → Linked (resolve_calls new_id pending g).1
        × (total (resolve_calls new_id pending g).0 ≡ pending_calls pending)
        × (length (resolve_calls new_id pending g).1.edges
            ≡ length g.edges
              + ((resolve_calls new_id pending g).0.exact
                  + (resolve_calls new_id pending g).0.probable))
        × (length (resolve_calls new_id pending g).1.unresolved_calls
            ≡ length g.unresolved_calls + (resolve_calls new_id pending g).0.unresolved)
  unfolding resolve_calls
  resolve_calls-Linked pending g stand l =
      let r : Resolves (pending_calls pending) (no_calls, g)
          (resolve_pending new_id (build g) pending (no_calls, g)) =
        resolve_pending_lem g pending (no_calls, g) refl stand in
      (
        Grows-Linked (pending_calls pending) (no_calls, g) _ r.grows l,
        omega (arith, r.grows.counted),
        omega (arith, r.grows.edges_added),
        omega (arith, r.rows_added),
      )
