-- ===== src/Graph/Store.antt =====
-- crates/gitpixel-graph/src/store.rs: the tables of the graph. A table is the list of its rows, oldest first;
-- an SQL statement of the source is the function on the tables that it denotes. Every operation is total:
-- the errors of SQLite are left out.
pub mod Rows
pub mod Linked
unfoldable pub use Rows.*
use gitpixel.Graph.Text.{join}
use gitpixel.Base.{
  ℕ, zero, suc, Bool, true, false, not, List, [], ◌∷◌, ◌++◌, map, Option, none, some, ◌==◌, ◌||◌,
  ◌&&◌,
}
use gitpixel.Base.{String, str_eq, elem, length, ltb, leb, if◌then◌else◌, find, insert}

-- `DELETE FROM t WHERE p` keeps the rows for which `p` fails; `SELECT` keeps those for which it holds.
module _ {ℓ} {A : Type ℓ} where
  unfoldable pub select : (A → Bool) → List A → List A
  select p [] = []
  select p (x ∷ xs) = let rest = select p xs in if p x then x ∷ rest else rest

  abbrev pub delete : (A → Bool) → List A → List A
  delete p xs = select (λ x. not (p x)) xs

  abbrev pub first : List A → Option A
  first [] = none
  first (x ∷ xs) = some x

-- The ids of the symbols of a file: `SELECT id FROM symbols WHERE file_id = ?1`.
unfoldable pub ids_in_file : ℕ → List SymbolRow → List ℕ
ids_in_file file_id symbols = map (λ s. s.id) (select (λ s. s.file_id == file_id) symbols)

unfoldable pub file_by_path : String → GraphStore → Option FileRow
file_by_path path g = first (select (λ f. str_eq f.path path) g.files)

unfoldable pub symbol_by_uid : String → GraphStore → Option SymbolRow
symbol_by_uid uid g = first (select (λ s. str_eq s.uid uid) g.symbols)

-- `ORDER BY start_line`, rows with the same line in the order of the table.
unfoldable pub insert_by_line : SymbolRow → List SymbolRow → List SymbolRow
insert_by_line s [] = s ∷ []
insert_by_line s (t ∷ ts) =
    if leb s.start_line t.start_line then s ∷ t ∷ ts else t ∷ insert_by_line s ts

unfoldable pub sort_by_line : List SymbolRow → List SymbolRow
sort_by_line [] = []
sort_by_line (s ∷ ss) = insert_by_line s (sort_by_line ss)

unfoldable pub symbols_in_file : ℕ → GraphStore → List SymbolRow
symbols_in_file file_id g = sort_by_line (select (λ s. s.file_id == file_id) g.symbols)

abbrev pub kind_matches : Option EdgeKind → EdgeRow → Bool
kind_matches none e = true
kind_matches (some k) e = same_kind e.kind k

-- `SELECT ... FROM edges WHERE {col} = ?1 [AND kind = ?2]`
unfoldable pub edges_dir : ℕ → Option EdgeKind → Bool → GraphStore → List EdgeRow
edges_dir id kind outgoing g =
    select (λ e. ((if outgoing then e.src_id else e.dst_id) == id) && kind_matches kind e) g.edges

unfoldable pub edges_to : ℕ → Option EdgeKind → GraphStore → List EdgeRow
edges_to dst_id kind g = edges_dir dst_id kind false g

unfoldable pub edges_from : ℕ → Option EdgeKind → GraphStore → List EdgeRow
edges_from src_id kind g = edges_dir src_id kind true g

-- What the replacement and the removal of a file take from the other tables.
unfoldable pub clear_file : ℕ → GraphStore → GraphStore
clear_file id g =
    let gone = ids_in_file id g.symbols in
    record g {
      edges = delete (λ e. elem e.dst_id gone) (delete (λ e. elem e.src_id gone) g.edges);
      symbols = delete (λ s. s.file_id == id) g.symbols;
      imports = delete (λ i. i.file_id == id) g.imports;
      unresolved_calls = delete (λ u. u.file_id == id) g.unresolved_calls;
    }

unfoldable pub update_file_row : ℕ → String → String → List FileRow → List FileRow
update_file_row id blob_oid lang [] = []
update_file_row id blob_oid lang (f ∷ fs) =
    (if f.id == id then record f { blob_oid = blob_oid; lang = lang } else f)
    ∷ update_file_row id blob_oid lang fs

unfoldable pub remove_file : String → GraphStore → GraphStore
remove_file path g = elim (file_by_path path g) [
  | none ↦ g
  | some f ↦
      let gone = ids_in_file f.id g.symbols in
      record g {
        edges = delete (λ e. elem e.src_id gone || elem e.dst_id gone) g.edges;
        symbols = delete (λ s. s.file_id == f.id) g.symbols;
        imports = delete (λ i. i.file_id == f.id) g.imports;
        unresolved_calls = delete (λ u. u.file_id == f.id) g.unresolved_calls;
        files = delete (λ r. r.id == f.id) g.files;
      }
]

unfoldable pub insert_import : ℕ → String → Option ℕ → List String → GraphStore → GraphStore
insert_import file_id spec resolved bindings g = record g {
  imports =
      g.imports
      ++ (record {
        file_id = file_id;
        spec = spec;
        resolved_file_id = resolved;
        bindings = join "," bindings;
      }
          ∷ []);
}

unfoldable pub insert_edge : EdgeRow → GraphStore → GraphStore
insert_edge e g = record g { edges = g.edges ++ (e ∷ []) }

unfoldable pub envelope_for_name : String → GraphStore → Envelope
envelope_for_name name g =
    let unresolved = length (select (λ u. str_eq u.name name) g.unresolved_calls) in
    record { lower_bound = ltb 0 unresolved; unresolved_same_name = unresolved }

unfoldable pub counts : GraphStore → ℕ × ℕ × ℕ × ℕ
counts g = (length g.files, length g.symbols, length g.edges, length g.unresolved_calls)

unfoldable pub meta_get : String → GraphStore → Option String
meta_get key g = find key g.meta

unfoldable pub meta_set : String → String → GraphStore → GraphStore
meta_set key value g = record g { meta = insert key value g.meta }

-- The id that SQLite gives to a new row, from the ids in its table.
module _ (new_id : List ℕ → ℕ) where
  unfoldable pub replace_file : String → String → String → GraphStore → ℕ × GraphStore
  replace_file path blob_oid lang g = elim (file_by_path path g) [
    | some f ↦
        let h = clear_file f.id g in
        (f.id, record h { files = update_file_row f.id blob_oid lang h.files })
    | none ↦
        let id = new_id (map (λ f. f.id) g.files) in
        (
          id,
          record g {
            files =
                g.files ++ (record { id = id; path = path; blob_oid = blob_oid; lang = lang } ∷ []);
          },
        )
  ]

  -- `INSERT OR REPLACE`: a row with the same uid is deleted; the new row has a new id.
  unfoldable pub insert_symbol :
      ℕ → String → String → String → SymbolKind → ℕ → ℕ → String → GraphStore → ℕ × GraphStore
  insert_symbol file_id uid name qualified kind start_line end_line sig g =
      let id = new_id (map (λ s. s.id) g.symbols) in
      (
        id,
        record g {
          symbols =
              delete (λ s. str_eq s.uid uid) g.symbols
              ++ (record {
                id = id;
                uid = uid;
                file_id = file_id;
                name = name;
                qualified = qualified;
                kind = kind;
                start_line = start_line;
                end_line = end_line;
                sig = sig;
              }
                  ∷ []);
        },
      )

  unfoldable pub insert_unresolved_call :
      ℕ → String → Option ℕ → ℕ → Option String → GraphStore → GraphStore
  insert_unresolved_call file_id name enclosing site_line receiver g = record g {
    unresolved_calls =
        g.unresolved_calls
        ++ (record {
          id = new_id (map (λ u. u.id) g.unresolved_calls);
          file_id = file_id;
          name = name;
          enclosing_symbol_id = enclosing;
          site_line = site_line;
          receiver = receiver;
        }
            ∷ []);
  }
