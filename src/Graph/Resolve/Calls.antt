-- ===== src/Graph/Resolve/Calls.antt =====
-- crates/gitpixel-graph/src/resolve.rs: the operations that write the decisions into the store.
use gitpixel.Base.{ℕ, ◌+◌, List, [], ◌∷◌, ◌++◌, map, Option, none, some, ◌==◌, ◌&&◌}
use gitpixel.Base.{String, str_eq, elem, if◌then◌else◌}
use gitpixel.Graph.Store.{
  GraphStore, SymbolRow, EdgeRow, UnresolvedRow, Tier, select, delete, insert_edge,
  insert_unresolved_call, same_kind,
}
use gitpixel.Graph.Store.Rows
use gitpixel.Graph.Trace.{symbol_by_id}
use gitpixel.Graph.Resolve.{
  ResolveIndex, ResolveStats, PendingCall, FileCalls, Decision, exact, probable, unresolved, decide,
  build,
}

abbrev pub no_calls : ResolveStats
no_calls = record { exact = 0; probable = 0; unresolved = 0 }

abbrev pub count_exact : ResolveStats → ResolveStats
count_exact s = record s { exact = s.exact + 1 }

abbrev pub count_probable : ResolveStats → ResolveStats
count_probable s = record s { probable = s.probable + 1 }

abbrev pub count_unresolved : ResolveStats → ResolveStats
count_unresolved s = record s { unresolved = s.unresolved + 1 }

abbrev pub call_edge : ℕ → ℕ → Tier → ℕ → Option String → EdgeRow
call_edge src dst tier site_line receiver = record {
  src_id = src;
  dst_id = dst;
  kind = Rows.calls;
  tier = tier;
  site_line = site_line;
  receiver = receiver;
}

module _ (new_id : List ℕ → ℕ) where
  unfoldable pub resolve_decided :
      ℕ → PendingCall → ℕ → Decision → ResolveStats × GraphStore → ResolveStats × GraphStore
  resolve_decided file_id call src (exact dst) (stats, g) =
      (count_exact stats, insert_edge (call_edge src dst Rows.exact call.site_line call.receiver) g)
  resolve_decided file_id call src (probable dst) (stats, g) = (
    count_probable stats,
    insert_edge (call_edge src dst Rows.probable call.site_line call.receiver) g,
  )
  resolve_decided file_id call src unresolved (stats, g) = (
    count_unresolved stats,
    insert_unresolved_call new_id file_id call.callee_name (some src) call.site_line call.receiver
        g,
  )

  unfoldable pub resolve_call :
      ResolveIndex
      → ℕ
      → PendingCall
      → Option ℕ
      → ResolveStats × GraphStore
      → ResolveStats × GraphStore
  resolve_call idx file_id call none (stats, g) = (
    count_unresolved stats,
    insert_unresolved_call new_id file_id call.callee_name none call.site_line call.receiver g,
  )
  resolve_call idx file_id call (some src) r =
      resolve_decided file_id call src (decide idx file_id call.callee_name call.receiver) r

  unfoldable pub resolve_file :
      ResolveIndex → ℕ → List PendingCall → ResolveStats × GraphStore → ResolveStats × GraphStore
  resolve_file idx file_id [] r = r
  resolve_file idx file_id (c ∷ cs) r =
      resolve_file idx file_id cs (resolve_call idx file_id c c.enclosing_symbol_id r)

  unfoldable pub resolve_pending :
      ResolveIndex → List FileCalls → ResolveStats × GraphStore → ResolveStats × GraphStore
  resolve_pending idx [] r = r
  resolve_pending idx (f ∷ fs) r = resolve_pending idx fs (resolve_file idx f.file_id f.calls r)

  unfoldable pub resolve_calls : List FileCalls → GraphStore → ResolveStats × GraphStore
  resolve_calls pending g = resolve_pending (build g) pending (no_calls, g)

abbrev relinked : UnresolvedRow → ℕ → ℕ → Tier → GraphStore → GraphStore
relinked row enclosing dst tier g =
    let h = insert_edge (call_edge enclosing dst tier row.site_line row.receiver) g in
    record h { unresolved_calls = delete (λ u. u.id == row.id) h.unresolved_calls }

unfoldable pub relink :
    UnresolvedRow → ℕ → Decision → ResolveStats × GraphStore → ResolveStats × GraphStore
relink row enclosing (exact dst) (stats, g) =
    (count_exact stats, relinked row enclosing dst Rows.exact g)
relink row enclosing (probable dst) (stats, g) =
    (count_probable stats, relinked row enclosing dst Rows.probable g)
relink row enclosing unresolved (stats, g) = (count_unresolved stats, g)

-- `JOIN symbols s ON s.id = u.enclosing_symbol_id`: the rows whose symbol is there, with its id.
unfoldable pub enclosed_rows : List ℕ → List UnresolvedRow → List (UnresolvedRow × ℕ)
enclosed_rows ids [] = []
enclosed_rows ids (u ∷ us) =
    let rest = enclosed_rows ids us in
    elim (u.enclosing_symbol_id) [
      | none ↦ rest
      | some s ↦ if elem s ids then (u, s) ∷ rest else rest
    ]

unfoldable pub relink_rows :
    ResolveIndex → List (UnresolvedRow × ℕ) → ResolveStats × GraphStore → ResolveStats × GraphStore
relink_rows idx [] r = r
relink_rows idx ((u, s) ∷ us) r =
    relink_rows idx us (relink u s (decide idx u.file_id u.name u.receiver) r)

unfoldable pub resolve_all : GraphStore → ResolveStats × GraphStore
resolve_all g =
    relink_rows (build g) (enclosed_rows (map (λ s. s.id) g.symbols) g.unresolved_calls)
      (no_calls, g)

-- A resolved call that is taken back.
pub record ResolvedCall : Type 0 where
  pub file_id : ℕ
  pub name : String
  pub enclosing : ℕ
  pub site_line : ℕ
  pub receiver : Option String

resolved_call :
    String → EdgeRow → Option SymbolRow → Option SymbolRow → List ResolvedCall → List ResolvedCall
resolved_call name e (some src) (some dst) calls =
    if same_kind e.kind Rows.calls && str_eq dst.name name
    then record {
      file_id = src.file_id;
      name = dst.name;
      enclosing = e.src_id;
      site_line = e.site_line;
      receiver = e.receiver;
    }
      ∷ calls
    else calls
resolved_call name e _ _ calls = calls

-- The calls whose target has the name: a join of the edges with their two symbols.
unfoldable pub calls_to_name : String → GraphStore → List EdgeRow → List ResolvedCall
unfolding resolved_call
calls_to_name name g [] = []
calls_to_name name g (e ∷ es) =
    resolved_call name e (symbol_by_id e.src_id g) (symbol_by_id e.dst_id g)
      (calls_to_name name g es)

unfoldable pub delete_calls_to : String → GraphStore → GraphStore
delete_calls_to name g =
    let named = map (λ s. s.id) (select (λ s. str_eq s.name name) g.symbols) in
    record g { edges = delete (λ e. same_kind e.kind Rows.calls && elem e.dst_id named) g.edges }

-- The loop over the changed names.
unfoldable pub take_back :
    List String → List ResolvedCall × GraphStore → List ResolvedCall × GraphStore
take_back [] r = r
take_back (name ∷ names) (calls, g) =
    take_back names (calls ++ calls_to_name name g g.edges, delete_calls_to name g)

module _ (new_id : List ℕ → ℕ) where
  unfoldable pub put_back : List ResolvedCall → GraphStore → GraphStore
  put_back [] g = g
  put_back (c ∷ cs) g =
      put_back cs
        (insert_unresolved_call new_id c.file_id c.name (some c.enclosing) c.site_line c.receiver g)

  unfoldable pub reconsider_resolved_calls : List String → GraphStore → GraphStore
  reconsider_resolved_calls names g = let r = take_back names ([], g) in put_back r.0 r.1
