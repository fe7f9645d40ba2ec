-- ===== src/Graph/Resolve.antt =====
-- crates/gitpixel-graph/src/resolve.rs: which definition a call refers to. The maps are association lists and
-- the sets lists without repetition; `new_id` is the id that SQLite gives to a new row.
pub mod Decide
pub mod Calls
pub mod Index
pub mod Grows
pub mod Links
pub mod Relinks
use gitpixel.Base.{
  ℕ, zero, suc, ◌+◌, Bool, true, false, not, ◌&&◌, ◌||◌, List, [], ◌∷◌, ◌++◌, map, Option, none,
  some, ◌==◌,
}
use gitpixel.Base.{String, str_eq, elem, length, ltb, leb, has, if◌then◌else◌, find, insert}
use gitpixel.Graph.Text.{split, trim}
use gitpixel.Graph.Store.{
  GraphStore, SymbolRow, SymbolKind, EdgeRow, ImportRow, UnresolvedRow, select, delete, first,
  insert_edge, insert_unresolved_call, same_kind,
}
use gitpixel.Graph.Store.Rows
use gitpixel.Graph.Trace.{get, symbol_by_id}

pub record ResolveStats : Type 0 where
  pub exact : ℕ
  pub probable : ℕ
  pub unresolved : ℕ

pub record PendingCall : Type 0 where
  pub callee_name : String
  pub enclosing_symbol_id : Option ℕ
  pub site_line : ℕ
  pub receiver : Option String

pub record FileCalls : Type 0 where
  pub file_id : ℕ
  pub calls : List PendingCall

pub data Decision : Type 0 where
  exact probable : ℕ → Decision
  unresolved : Decision

pub record Candidate : Type 0 where
  pub file_id : ℕ
  pub symbol_id : ℕ
  pub kind : SymbolKind
  pub start_line : ℕ

pub record ResolveIndex : Type 0 where
  pub by_name : List (String × List Candidate)
  pub imports_of : List (ℕ × List ℕ)
  pub import_bindings : List ((ℕ × String) × List ℕ)

unfoldable pub callable : SymbolKind → Bool
callable Rows.function = true
callable Rows.method = true
callable Rows.class = true
callable Rows.struct = true
callable _ = false

unfoldable pub kind_priority : SymbolKind → ℕ
kind_priority Rows.function = 0
kind_priority Rows.method = 1
kind_priority Rows.class = 2
kind_priority Rows.struct = 3
kind_priority _ = 9

-- The keys `(kind_priority, start_line, symbol_id)` in their order.
unfoldable pub key_less : Candidate → Candidate → Bool
key_less c d =
    let p = kind_priority c.kind in
    let q = kind_priority d.kind in
    ltb p q
    || (p == q
        && (ltb c.start_line d.start_line
            || (c.start_line == d.start_line && ltb c.symbol_id d.symbol_id)))

-- `min_by_key`: the first of the least candidates.
unfoldable pub best_from : Candidate → List Candidate → Candidate
best_from c [] = c
best_from c (d ∷ ds) = best_from (if key_less d c then d else c) ds

unfoldable pub best : List Candidate → Option ℕ
best [] = none
best (c ∷ cs) = some (best_from c cs).symbol_id

abbrev pub or_empty {ℓ} : {A : Type ℓ} → Option (List A) → List A
or_empty none = []
or_empty (some xs) = xs

abbrev pub add_id : ℕ → List ℕ → List ℕ
add_id a ids = if elem a ids then ids else a ∷ ids

abbrev pub candidate_of : SymbolRow → Candidate
candidate_of s = record {
  file_id = s.file_id;
  symbol_id = s.id;
  kind = s.kind;
  start_line = s.start_line;
}

-- The loop over the rows of `symbols`.
unfoldable pub index_symbols :
    List SymbolRow → List (String × List Candidate) → List (String × List Candidate)
index_symbols [] m = m
index_symbols (s ∷ ss) m = index_symbols ss (
    if callable s.kind
    then insert s.name (or_empty (find s.name m) ++ (candidate_of s ∷ [])) m
    else m)

unfoldable pub binding_files : ℕ → String → List ((ℕ × String) × List ℕ) → Option (List ℕ)
binding_files file_id name [] = none
binding_files file_id name (((f, n), ids) ∷ m) =
    if f == file_id && str_eq n name then some ids else binding_files file_id name m

-- The loop over the names of the column `bindings`.
unfoldable pub index_bindings :
    ℕ → ℕ → List String → List ((ℕ × String) × List ℕ) → List ((ℕ × String) × List ℕ)
index_bindings fid dst [] m = m
index_bindings fid dst (b ∷ bs) m =
    let name = trim b in
    index_bindings fid dst bs (
      if str_eq name ""
      then m
      else ((fid, name), add_id dst (or_empty (binding_files fid name m))) ∷ m)

abbrev ImportMaps : Type 0
ImportMaps = List (ℕ × List ℕ) × List ((ℕ × String) × List ℕ)

index_import : ImportRow → Option ℕ → ImportMaps → ImportMaps
index_import i none m = m
index_import i (some dst) (files, names) = (
  (i.file_id, add_id dst (or_empty (get i.file_id files))) ∷ files,
  index_bindings i.file_id dst (split b',' i.bindings) names,
)

-- The loop over the rows of `imports` that are resolved.
unfoldable pub index_imports : List ImportRow → ImportMaps → ImportMaps
unfolding index_import
index_imports [] m = m
index_imports (i ∷ is) m = index_imports is (index_import i i.resolved_file_id m)

unfoldable pub build : GraphStore → ResolveIndex
build g =
    let m = index_imports g.imports ([], []) in
    record { by_name = index_symbols g.symbols []; imports_of = m.0; import_bindings = m.1 }

-- The distinct files of candidates.
unfoldable pub files_of : List Candidate → List ℕ
files_of [] = []
files_of (c ∷ cs) = add_id c.file_id (files_of cs)

abbrev exact_or : Option ℕ → Decision → Decision
exact_or none d = d
exact_or (some id) d = exact id

abbrev probable_or : Option ℕ → Decision → Decision
probable_or none d = d
probable_or (some id) d = probable id

-- T2: the name is defined in exactly one file.
unfoldable pub decide_unique : List Candidate → Decision
decide_unique cands =
    if length (files_of cands) == 1 then probable_or (best cands) unresolved else unresolved

-- T1: the candidates in files that the caller imports this name from.
unfoldable pub import_hits : ResolveIndex → ℕ → String → List ℕ → List Candidate → List Candidate
import_hits idx caller name imported cands =
    let bound = or_empty (binding_files caller name idx.import_bindings) in
    select (λ c. elem c.file_id bound && elem c.file_id imported) cands

unfoldable pub decide_imported : List Candidate → List Candidate → Decision
decide_imported hits cands =
    let files = length (files_of hits) in
    if files == 1
    then exact_or (best hits) (decide_unique cands)
    else if ltb 1 files
    then unresolved
    else decide_unique cands

unfoldable pub decide_beyond : ResolveIndex → ℕ → String → List Candidate → Decision
decide_beyond idx caller name cands = elim (get caller idx.imports_of) [
  | none ↦ decide_unique cands
  | some imported ↦ decide_imported (import_hits idx caller name imported cands) cands
]

unfoldable pub decide_raw : ResolveIndex → ℕ → String → Decision
decide_raw idx caller name = elim (find name idx.by_name) [
  | none ↦ unresolved
  | some cands ↦
      exact_or (best (select (λ c. c.file_id == caller) cands))
        (decide_beyond idx caller name cands)
]

unfoldable pub has_real_receiver : Option String → Bool
has_real_receiver none = false
has_real_receiver (some text) =
    let r = trim text in
    not (str_eq r "")
    && not (has r ("self" ∷ "Self" ∷ "this" ∷ "crate" ∷ "super" ∷ "Self::" ∷ "self." ∷ []))

abbrev capped : Bool → Decision → Decision
capped real (exact id) = if real then probable id else exact id
capped real (probable id) = probable id
capped real unresolved = unresolved

unfoldable pub decide : ResolveIndex → ℕ → String → Option String → Decision
decide idx caller name receiver = capped (has_real_receiver receiver) (decide_raw idx caller name)
