-- ===== src/Graph/Build/Update.antt =====
-- crates/gitpixel-graph/src/build.rs: the update of one file, whose content and extraction are arguments.
use gitpixel.Base.{ℕ, List, [], ◌∷◌, map, Option, none, some, ◌==◌}
use gitpixel.Base.{String, add, if◌then◌else◌}
use gitpixel.Graph.Store.{
  GraphStore, FileRow, SymbolRow, EdgeRow, calls, replace_file, remove_file, insert_unresolved_call,
  file_by_path, symbols_in_file, edges_to, meta_set,
}
use gitpixel.Graph.Trace.{symbol_by_id}
use gitpixel.Graph.Resolve.Calls.{resolve_calls, resolve_all, reconsider_resolved_calls}
use gitpixel.Graph.Build.{
  RawSymbol, FileExtraction, freshness_key, calls_of, store_imports, store_symbols,
}

module _ (new_id : List ℕ → ℕ) where
  -- The calls into the file from other files become unresolved rows.
  unfoldable pub demote_edges : FileRow → SymbolRow → List EdgeRow → GraphStore → GraphStore
  demote_edges old sym [] g = g
  demote_edges old sym (e ∷ es) g = demote_edges old sym es (elim (symbol_by_id e.src_id g) [
    | none ↦ g
    | some src ↦
        if src.file_id == old.id
        then g
        else insert_unresolved_call new_id src.file_id sym.name (some e.src_id) e.site_line
            e.receiver g
  ])

  unfoldable pub demote_symbols : FileRow → List SymbolRow → GraphStore → GraphStore
  demote_symbols old [] g = g
  demote_symbols old (s ∷ ss) g =
      demote_symbols old ss (demote_edges old s (edges_to s.id (some calls) g) g)

  abbrev demoted : Option FileRow → GraphStore → GraphStore
  demoted none g = g
  demoted (some old) g = demote_symbols old (symbols_in_file old.id g) g

  unfoldable pub drop_file : String → String → GraphStore → GraphStore
  drop_file signature rel g = meta_set freshness_key signature (resolve_all (remove_file rel g)).1

  unfoldable pub names_of : List RawSymbol → List String
  names_of [] = []
  names_of (s ∷ ss) = add s.name (names_of ss)

  unfoldable pub rewrite_file :
      String → String → String → FileExtraction → GraphStore → Option GraphStore
  rewrite_file signature rel oid fx g =
      let file = replace_file new_id rel oid fx.lang g in
      let syms = store_symbols new_id rel file.0 fx.symbols file.1 in
      let path_to_id = map (λ f. (f.path, f.id)) syms.1.files in
      let linked =
        store_imports (map (λ f. f.path) syms.1.files) path_to_id file.0 rel fx.imports syms.1 in
      elim (calls_of syms.0 fx.calls) [
        | none ↦ none
        | some cs ↦
            let h =
              (resolve_calls new_id (record { file_id = file.0; calls = cs } ∷ []) linked).1 in
            let k = reconsider_resolved_calls new_id (names_of fx.symbols) h in
            some (meta_set freshness_key signature (resolve_all k).1)
      ]

  -- `content` is `none` where the file cannot be read, `extracted` the extraction of the content.
  unfoldable pub update_file :
      String → String → Option String → Option FileExtraction → GraphStore → Option GraphStore
  update_file signature rel none extracted g =
      some (drop_file signature rel (demoted (file_by_path rel g) g))
  update_file signature rel (some oid) none g =
      some (drop_file signature rel (demoted (file_by_path rel g) g))
  update_file signature rel (some oid) (some fx) g =
      rewrite_file signature rel oid fx (demoted (file_by_path rel g) g)
