-- ===== src/Graph/Build.antt =====
-- crates/gitpixel-graph/src/build.rs: the graph of a whole tree. The walk over the
-- tree, the reading of files and their extraction are arguments, and so are the hashes of contents.
pub mod Update
pub mod Fresh
pub mod Total
pub mod Publish
mod Examples
use Prim.Native.String.{◌++◌}
use gitpixel.Base.{
  ℕ, zero, suc, Bool, true, false, not, List, [], ◌∷◌, map, Option, none, some, ◌==◌,
}
use gitpixel.Base.{String, str_eq, has, add, if◌then◌else◌, find, insert}
use gitpixel.Graph.Store.{
  GraphStore, FileRow, SymbolRow, EdgeRow, SymbolKind, calls, select, replace_file, remove_file,
  insert_symbol, insert_import, insert_unresolved_call, file_by_path, symbols_in_file, edges_to,
  meta_get, meta_set, kind_as_str,
}
use gitpixel.Graph.Trace.{symbol_by_id}
use gitpixel.Graph.Resolve.{PendingCall, FileCalls}
use gitpixel.Graph.Resolve.Calls.{resolve_calls, resolve_all, reconsider_resolved_calls}
use gitpixel.Graph.Imports.{resolve_import}

pub record RawSymbol : Type 0 where
  pub name : String
  pub qualified : String
  pub kind : SymbolKind
  pub start_line : ℕ
  pub end_line : ℕ
  pub sig : String

pub record RawCall : Type 0 where
  pub callee_name : String
  pub receiver : Option String
  pub site_line : ℕ
  pub enclosing_index : Option ℕ

pub record RawImport : Type 0 where
  pub spec : String
  pub bindings : List String

pub record FileExtraction : Type 0 where
  pub lang : String
  pub symbols : List RawSymbol
  pub calls : List RawCall
  pub imports : List RawImport

pub record Extracted : Type 0 where
  pub rel : String
  pub blob_oid : String
  pub fx : FileExtraction

abbrev pub Tree : Type 0
Tree = List (String × List ℕ)

abbrev pub freshness_key : String
freshness_key = "freshness"

unfoldable pub uid_of : String → RawSymbol → String
uid_of rel s = rel ++ "#" ++ s.qualified ++ "#" ++ kind_as_str s.kind

unfoldable pub nth : ℕ → List ℕ → Option ℕ
nth i [] = none
nth zero (x ∷ xs) = some x
nth (suc i) (x ∷ xs) = nth i xs

-- The symbol in which a call stands; `none` where the index is out of range, a panic.
unfoldable pub enclosing_id : List ℕ → Option ℕ → Option (Option ℕ)
enclosing_id ids none = some none
enclosing_id ids (some i) = elim (nth i ids) [ none ↦ none | some s ↦ some (some s) ]

abbrev pub pending_call : RawCall → Option ℕ → PendingCall
pending_call c enclosing = record {
  callee_name = c.callee_name;
  enclosing_symbol_id = enclosing;
  site_line = c.site_line;
  receiver = c.receiver;
}

unfoldable pub calls_of : List ℕ → List RawCall → Option (List PendingCall)
calls_of ids [] = some []
calls_of ids (c ∷ cs) = elim (enclosing_id ids c.enclosing_index) [
  | none ↦ none
  | some enclosing ↦ elim (calls_of ids cs) [
    | none ↦ none
    | some rest ↦ some (pending_call c enclosing ∷ rest)
  ]
]

abbrev resolved_file : List (String × ℕ) → Option String → Option ℕ
resolved_file path_to_id none = none
resolved_file path_to_id (some p) = find p path_to_id

unfoldable pub store_imports :
    List String → List (String × ℕ) → ℕ → String → List RawImport → GraphStore → GraphStore
store_imports all_paths path_to_id file_id rel [] g = g
store_imports all_paths path_to_id file_id rel (i ∷ is) g =
    store_imports all_paths path_to_id file_id rel is (
      insert_import file_id i.spec (resolved_file path_to_id (resolve_import i.spec rel all_paths))
        i.bindings g)

unfoldable pub remove_stale : List String → List FileRow → GraphStore → GraphStore
remove_stale known [] g = g
remove_stale known (f ∷ fs) g =
    remove_stale known fs (if has f.path known then g else remove_file f.path g)

abbrev pub paths_of : List Extracted → List String
paths_of es = map (λ e. e.rel) es

module _ (extract : String → List ℕ → Option FileExtraction) (blob_oid : List ℕ → String) where
  unfoldable pub extract_tree : Tree → List Extracted
  extract_tree [] = []
  extract_tree ((rel, content) ∷ inputs) =
      let rest = extract_tree inputs in
      elim (extract rel content) [
        | none ↦ rest
        | some fx ↦ record { rel = rel; blob_oid = blob_oid content; fx = fx } ∷ rest
      ]

-- The state of the first pass: the id of each path, and the ids of the symbols of each file.
abbrev pub Stored : Type 0
Stored = List (String × ℕ) × List (List ℕ) × GraphStore

module _ (new_id : List ℕ → ℕ) where
  unfoldable pub store_symbols : String → ℕ → List RawSymbol → GraphStore → List ℕ × GraphStore
  store_symbols rel file_id [] g = ([], g)
  store_symbols rel file_id (s ∷ ss) g =
      let now =
        insert_symbol new_id file_id (uid_of rel s) s.name s.qualified s.kind s.start_line
          s.end_line s.sig g in
      let rest = store_symbols rel file_id ss now.1 in (now.0 ∷ rest.0, rest.1)

  unfoldable pub store_files : List Extracted → List (String × ℕ) → GraphStore → Stored
  store_files [] path_to_id g = (path_to_id, [], g)
  store_files (e ∷ es) path_to_id g =
      let file = replace_file new_id e.rel e.blob_oid e.fx.lang g in
      let syms = store_symbols e.rel file.0 e.fx.symbols file.1 in
      let rest = store_files es (insert e.rel file.0 path_to_id) syms.1 in
      (rest.0, syms.0 ∷ rest.1, rest.2)

  -- One file of the second pass.
  unfoldable pub link_file :
      List String
      → List (String × ℕ)
      → Extracted
      → List ℕ
      → GraphStore
      → Option (FileCalls × GraphStore)
  link_file all_paths path_to_id e ids g = elim (find e.rel path_to_id) [
    | none ↦ none
    | some file_id ↦ elim (calls_of ids e.fx.calls) [
      | none ↦ none
      | some cs ↦ some (
        record { file_id = file_id; calls = cs },
        store_imports all_paths path_to_id file_id e.rel e.fx.imports g,
      )
    ]
  ]

  unfoldable pub link_files :
      List String
      → List (String × ℕ)
      → List Extracted
      → List (List ℕ)
      → GraphStore
      → Option (List FileCalls × GraphStore)
  link_files all_paths path_to_id [] sym_ids g = some ([], g)
  link_files all_paths path_to_id (e ∷ es) [] g = none
  link_files all_paths path_to_id (e ∷ es) (ids ∷ sym_ids) g =
      elim (link_file all_paths path_to_id e ids g) [
        | none ↦ none
        | some (file, h) ↦ elim (link_files all_paths path_to_id es sym_ids h) [
          | none ↦ none
          | some (files, k) ↦ some (file ∷ files, k)
        ]
      ]

  -- Published as fresh, or refused because the tree has changed meanwhile.
  unfoldable pub publish : String → String → GraphStore → Bool × GraphStore
  publish snapshot current g =
      if str_eq current snapshot then (true, meta_set freshness_key snapshot g) else (false, g)

  unfoldable pub write_graph : List Extracted → GraphStore → Option GraphStore
  write_graph es g =
      let stored = store_files es [] (remove_stale (paths_of es) g.files g) in
      elim (link_files (paths_of es) stored.0 es stored.1 stored.2) [
        | none ↦ none
        | some (pending, h) ↦ some (resolve_calls new_id pending h).1
      ]

  -- `signature` is what `input_signature` and `freshness_signature` compute of a tree; `after` is the
  -- tree at the end of the build. `none` is a panic.
  unfoldable pub build_graph :
      (Tree → String)
      → (String → List ℕ → Option FileExtraction)
      → (List ℕ → String)
      → Tree
      → Tree
      → GraphStore
      → Option (Bool × GraphStore)
  build_graph signature extract blob_oid inputs after g =
      elim (write_graph (extract_tree extract blob_oid inputs) g) [
        | none ↦ none
        | some h ↦ some (publish (signature inputs) (signature after) h)
      ]

-- The database is there, and its signature is that of the tree.
unfoldable pub is_fresh : String → GraphStore → Bool
is_fresh signature g = elim (meta_get freshness_key g) [
  | none ↦ false
  | some stored ↦ str_eq stored signature
]
