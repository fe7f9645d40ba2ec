-- ===== src/Graph/Build/Fresh.antt =====
-- When crates/gitpixel-graph/src/build.rs says of a graph that it is fresh.
use gitpixel.Base.{
  ℕ, List, [], ◌∷◌, Option, none, some, ◌≡◌, refl, ◌∙◌, inl, inr, Bool-cases, Option-cases,
}
use gitpixel.Base.{String, has}
use gitpixel.Graph.Store.{
  GraphStore, FileRow, replace_file, remove_file, insert_symbol, insert_import, insert_edge,
  insert_unresolved_call, file_by_path, clear_file,
}
use gitpixel.Graph.Resolve.{
  PendingCall, FileCalls, Decision, exact, probable, unresolved, ResolveIndex, ResolveStats, decide,
}
use gitpixel.Graph.Resolve.Calls.{resolve_pending, resolve_file, resolve_call, resolve_decided}
use gitpixel.Graph.Build.{
  Extracted, RawSymbol, RawImport, store_imports, remove_stale, store_symbols, store_files,
}

-- The operations on files, symbols, imports and calls leave the table `meta` alone.
remove_file_meta : (path : String) (g : GraphStore) → (remove_file path g).meta ≡ g.meta
unfolding remove_file
remove_file_meta path g = elim (Option-cases (file_by_path path g)) [
  | inl e ↦ rw (remove_file, e) refl
  | inr (f, e) ↦ rw (remove_file, e) refl
]

pub remove_stale_meta :
    (known : List String) (fs : List FileRow) (g : GraphStore)
    → (remove_stale known fs g).meta ≡ g.meta
unfolding remove_stale
remove_stale_meta known [] g = refl
remove_stale_meta known (f ∷ fs) g = elim (Bool-cases (has f.path known)) [
  | inl e ↦ rw (remove_stale, e) (remove_stale_meta known fs g)
  | inr e ↦
      rw (remove_stale, e)
        (remove_stale_meta known fs (remove_file f.path g) ∙ remove_file_meta f.path g)
]

pub store_imports_meta :
    (paths : List String) (ids : List (String × ℕ)) (file_id : ℕ) (rel : String)
    (is : List RawImport) (g : GraphStore)
    → (store_imports paths ids file_id rel is g).meta ≡ g.meta
unfolding store_imports insert_import
store_imports_meta paths ids file_id rel [] g = refl
store_imports_meta paths ids file_id rel (i ∷ is) g = store_imports_meta paths ids file_id rel is _

module _ (new_id : List ℕ → ℕ) where
  pub replace_file_meta :
      (path oid lang : String) (g : GraphStore)
      → (replace_file new_id path oid lang g).1.meta ≡ g.meta
  unfolding replace_file clear_file
  replace_file_meta path oid lang g = elim (Option-cases (file_by_path path g)) [
    | inl e ↦ rw (replace_file, e) refl
    | inr (f, e) ↦ rw (replace_file, e) refl
  ]

  store_symbols_meta :
      (rel : String) (file_id : ℕ) (ss : List RawSymbol) (g : GraphStore)
      → (store_symbols new_id rel file_id ss g).1.meta ≡ g.meta
  unfolding store_symbols insert_symbol
  store_symbols_meta rel file_id [] g = refl
  store_symbols_meta rel file_id (s ∷ ss) g = store_symbols_meta rel file_id ss _

  pub store_files_meta :
      (es : List Extracted) (m : List (String × ℕ)) (g : GraphStore)
      → (store_files new_id es m g).2.meta ≡ g.meta
  unfolding store_files
  store_files_meta [] m g = refl
  store_files_meta (e ∷ es) m g =
      store_files_meta es _ _
      ∙ store_symbols_meta e.rel (replace_file new_id e.rel e.blob_oid e.fx.lang g).0 e.fx.symbols _
      ∙ replace_file_meta e.rel e.blob_oid e.fx.lang g

  resolve_decided_meta :
      (file_id src : ℕ) (c : PendingCall) (d : Decision) (r : ResolveStats × GraphStore)
      → (resolve_decided new_id file_id c src d r).1.meta ≡ r.1.meta
  unfolding resolve_decided insert_edge insert_unresolved_call
  resolve_decided_meta file_id src c (exact dst) r = refl
  resolve_decided_meta file_id src c (probable dst) r = refl
  resolve_decided_meta file_id src c unresolved r = refl

  resolve_call_meta :
      (idx : ResolveIndex) (file_id : ℕ) (c : PendingCall) (src : Option ℕ)
      (r : ResolveStats × GraphStore)
      → (resolve_call new_id idx file_id c src r).1.meta ≡ r.1.meta
  unfolding resolve_call insert_unresolved_call
  resolve_call_meta idx file_id c none r = refl
  resolve_call_meta idx file_id c (some src) r =
      resolve_decided_meta file_id src c (decide idx file_id c.callee_name c.receiver) r

  resolve_file_meta :
      (idx : ResolveIndex) (file_id : ℕ) (cs : List PendingCall) (r : ResolveStats × GraphStore)
      → (resolve_file new_id idx file_id cs r).1.meta ≡ r.1.meta
  unfolding resolve_file
  resolve_file_meta idx file_id [] r = refl
  resolve_file_meta idx file_id (c ∷ cs) r =
      resolve_file_meta idx file_id cs _ ∙ resolve_call_meta idx file_id c c.enclosing_symbol_id r

  pub resolve_pending_meta :
      (idx : ResolveIndex) (fs : List FileCalls) (r : ResolveStats × GraphStore)
      → (resolve_pending new_id idx fs r).1.meta ≡ r.1.meta
  unfolding resolve_pending
  resolve_pending_meta idx [] r = refl
  resolve_pending_meta idx (f ∷ fs) r =
      resolve_pending_meta idx fs _ ∙ resolve_file_meta idx f.file_id f.calls r
