-- ===== src/Graph/Changes/Detect.antt =====
-- crates/gitpixel-graph/src/changes.rs: the symbols that the diff of git touches. What git prints is an argument.
use gitpixel.Base.{ℕ, suc, Bool, true, false, ◌&&◌, ◌||◌, List, [], ◌∷◌, ◌++◌, Option, none, some}
use gitpixel.Base.{String, str_eq, starts_with, length, ltb, insert_path, if◌then◌else◌}
use gitpixel.Graph.Text.{join}
use gitpixel.Graph.Store.{
  GraphStore, FileRow, SymbolRow, EdgeRow, calls, edges_to, file_by_path, symbols_in_file,
  envelope_for_name,
}
use gitpixel.Graph.Resolve.{add_id}
use gitpixel.Graph.Impact.{processes_for_symbol, insert_labels, base_level, level_label}
use gitpixel.Graph.Changes.{
  FileStatus, added, deleted, modified, FileDiff, ChangedSymbol, ChangesReport, overlaps,
  parse_diff,
}

pub data BaseRef : Type 0 where
  valid : String → BaseRef
  leading_dash empty : BaseRef

unfoldable pub validate_base_ref : String → BaseRef
validate_base_ref r =
    if starts_with r "-" then leading_dash else if str_eq r "" then empty else valid r

pub record Found : Type 0 where
  pub symbols : List ChangedSymbol
  pub proc_set : List String
  pub caller_ids : List ℕ
  pub lower_bound_names : List String

abbrev is_deleted : FileStatus → Bool
is_deleted deleted = true
is_deleted _ = false

abbrev change_text : FileStatus → String
change_text added = "added"
change_text deleted = "deleted"
change_text modified = "modified"

unfoldable pub add_callers : GraphStore → List EdgeRow → Found → Found
add_callers g [] r = r
add_callers g (e ∷ es) r = add_callers g es (record r {
  caller_ids = add_id e.src_id r.caller_ids;
  proc_set = insert_labels (processes_for_symbol g e.src_id) r.proc_set;
})

-- A symbol that the diff of its file hits.
unfoldable pub add_hit : GraphStore → FileDiff → SymbolRow → Found → Found
add_hit g fd sym r =
    let procs = processes_for_symbol g sym.id in
    let s =
      add_callers g (edges_to sym.id (some calls) g)
        (record r { proc_set = insert_labels procs r.proc_set }) in
    record s {
      lower_bound_names =
          if (envelope_for_name sym.name g).lower_bound
          then insert_path sym.name s.lower_bound_names
          else s.lower_bound_names;
      symbols =
          s.symbols
          ++ (record {
            uid = sym.uid;
            name = sym.name;
            path = fd.path;
            change = change_text fd.status;
            processes = procs;
          }
              ∷ []);
    }

abbrev pub is_hit : FileDiff → SymbolRow → Bool
is_hit fd sym = is_deleted fd.status || overlaps fd.new_ranges sym.start_line sym.end_line

unfoldable pub add_symbols : GraphStore → FileDiff → List SymbolRow → Found → Found
add_symbols g fd [] r = r
add_symbols g fd (s ∷ ss) r = add_symbols g fd ss (if is_hit fd s then add_hit g fd s r else r)

add_diff : GraphStore → FileDiff → Option FileRow → Found → Found
add_diff g fd none r = r
add_diff g fd (some file) r = add_symbols g fd (symbols_in_file file.id g) r

unfoldable pub add_diffs : GraphStore → List FileDiff → Found → Found
unfolding add_diff
add_diffs g [] r = r
add_diffs g (fd ∷ fds) r = add_diffs g fds (add_diff g fd (file_by_path fd.path g) r)

abbrev no_names : List String → Bool
no_names [] = true
no_names (s ∷ ss) = false

unfoldable pub changes_of : GraphStore → String → List FileDiff → ChangesReport
changes_of g base file_diffs =
    let r =
      add_diffs g file_diffs
        record { symbols = []; proc_set = []; caller_ids = []; lower_bound_names = [] } in
    let level = base_level (length r.caller_ids) (length r.proc_set) in
    let lower_bound = if no_names r.lower_bound_names then false else true in
    record {
      base = base;
      changed_files = length file_diffs;
      symbols = r.symbols;
      affected_processes = r.proc_set;
      risk = level_label (if lower_bound && ltb level 3 then suc level else level);
      envelope_note =
          if lower_bound
          then Prim.Native.String.◌++◌ "lower bound: unresolved same-name call sites exist for "
              (join ", " r.lower_bound_names)
          else "all call sites for changed symbols resolved";
    }

pub data Detection : Type 0 where
  refused : BaseRef → Detection
  git_failed : Detection
  detected : ChangesReport → Detection

abbrev pub run_git : GraphStore → String → Option String → Detection
run_git g base none = git_failed
run_git g base (some output) = detected (changes_of g base (parse_diff output))

abbrev pub run_valid : GraphStore → (String → Option String) → BaseRef → Detection
run_valid g git (valid r) = run_git g r (git r)
run_valid g git e = refused e

-- `git` prints the diff against a reference, `plain` the one without; `none` where git fails.
unfoldable pub detect :
    GraphStore → (String → Option String) → Option String → Option String → Detection
detect g git plain none = run_git g "HEAD" plain
detect g git plain (some r) = run_valid g git (validate_base_ref r)
