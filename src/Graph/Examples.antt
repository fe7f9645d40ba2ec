-- ===== src/Graph/Examples.antt =====
-- A small store of crates/gitpixel-graph, and the theorems about the graph at it.
use gitpixel.Base.{
  ℕ, suc, ◌+◌, max, true, List, [], ◌∷◌, none, some, ◌≡◌, refl, ◌↔◌, ◌⊎◌, length, String,
}
use gitpixel.Graph.Store.{
  SymbolRow, EdgeRow, GraphStore, symbol_by_uid, select, replace_file, edges_from, edges_dir,
  edge_kind_as_str,
}
use gitpixel.Graph.Store.Rows
use gitpixel.Graph.Store.Linked.{Linked, symbol_ids, replace_file-Linked}
use gitpixel.Graph.Trace.{
  trace, TraceResult, trace_ids, search, start, out_edges, relax, discover, push_back, answer,
  chain, hops_of, hop, symbol_by_id, file_path_by_id, get,
}
use gitpixel.Graph.Trace.Answer.{Answers, trace_lem, trace-none}
use gitpixel.Graph.Resolve.{FileCalls, build, decide, has_real_receiver, exact}
use gitpixel.Graph.Resolve.Calls.{resolve_calls, resolve_all, enclosed_rows}
use gitpixel.Graph.Resolve.Relinks.{resolve_all-Linked}
use gitpixel.Graph.Resolve.Grows.{total}
use gitpixel.Graph.Resolve.Links.{pending_calls, resolve_calls-Linked}
use gitpixel.Graph.Impact.{ImpactReport, impact, upstream, parse_direction, is_word}
use gitpixel.Graph.Text.{is_lowercase_of}
use gitpixel.Base.{find, insert}
use gitpixel.Graph.Resolve.{
  decide_raw, decide_beyond, index_symbols, index_imports, index_bindings, binding_files, callable,
  best, best_from, import_hits, decide_imported, files_of,
}
use gitpixel.Graph.Resolve.Calls.{resolve_pending, resolve_file, resolve_call, resolve_decided}
use gitpixel.Graph.Impact.Fits.{Fits}
use gitpixel.Graph.Impact.Bounds.{impact_lem}
use gitpixel.Graph.Text.{split, trim, trim_start, trim_end}

-- One more than the greatest id in use.
abbrev above : List ℕ → ℕ
above [] = 1
above (i ∷ is) = max (suc i) (above is)

abbrev symbol : ℕ → String → ℕ → String → ℕ → SymbolRow
symbol id uid file_id name line = record {
  id = id;
  uid = uid;
  file_id = file_id;
  name = name;
  qualified = name;
  kind = Rows.function;
  start_line = line;
  end_line = line + 5;
  sig = "";
}

abbrev call : ℕ → ℕ → EdgeRow
call src dst = record {
  src_id = src;
  dst_id = dst;
  kind = Rows.calls;
  tier = Rows.exact;
  site_line = 3;
  receiver = none;
}

abbrev main_symbol : SymbolRow
main_symbol = symbol 1 "src/main.rs#main#function" 1 "main" 1

abbrev parse_symbol : SymbolRow
parse_symbol = symbol 2 "src/lib.rs#parse#function" 2 "parse" 1

abbrev lex_symbol : SymbolRow
lex_symbol = symbol 3 "src/lib.rs#lex#function" 2 "lex" 9

abbrev small : GraphStore
small = record {
  files =
      record { id = 1; path = "src/main.rs"; blob_oid = "a"; lang = "rust" }
      ∷ record { id = 2; path = "src/lib.rs"; blob_oid = "b"; lang = "rust" }
      ∷ [];
  symbols = main_symbol ∷ parse_symbol ∷ lex_symbol ∷ [];
  imports =
      record {
        file_id = 1;
        spec = "crate::lib::parse";
        resolved_file_id = some 2;
        bindings = "parse";
      }
      ∷ [];
  edges = call 1 2 ∷ call 2 3 ∷ [];
  unresolved_calls = [];
  processes = [];
  meta = [];
}

small-Linked : Linked small
small-Linked = record {
  edges_end = ((refl, refl), ((refl, refl), tt));
  symbols_stand = (refl, (refl, (refl, tt)));
}

replace_file-Linked_example : Linked (replace_file above "src/lib.rs" "c" "rust" small).1
replace_file-Linked_example = replace_file-Linked above "src/lib.rs" "c" "rust" small small-Linked

main_found : symbol_by_uid "src/main.rs#main#function" small ≡ some main_symbol
unfolding symbol_by_uid select
main_found = refl

lex_found : symbol_by_uid "src/lib.rs#lex#function" small ≡ some lex_symbol
unfolding symbol_by_uid select
lex_found = refl

trace_lem_example :
    (r : TraceResult) × (trace small "src/main.rs#main#function" "src/lib.rs#lex#function" 8
      ≡ some r)
    × Answers small 1 3 8 r
trace_lem_example =
    trace_lem small "src/main.rs#main#function" "src/lib.rs#lex#function" 8 main_symbol lex_symbol
      main_found lex_found

trace-none_example :
    (trace small "src/main.rs#main#function" "src/lib.rs#fold#function" 8 ≡ none) ↔ (
      (symbol_by_uid "src/main.rs#main#function" small ≡ none)
      ⊎ (symbol_by_uid "src/lib.rs#fold#function" small ≡ none))
trace-none_example = trace-none small "src/main.rs#main#function" "src/lib.rs#fold#function" 8

abbrev two_calls : List FileCalls
two_calls =
    record {
      file_id = 1;
      calls =
          record {
            callee_name = "parse";
            enclosing_symbol_id = some 1;
            site_line = 4;
            receiver = some "x";
          }
          ∷ record {
            callee_name = "print";
            enclosing_symbol_id = none;
            site_line = 5;
            receiver = none;
          }
          ∷ [];
    }
    ∷ []

resolve_calls-Linked_example :
    Linked (resolve_calls above two_calls small).1
    × (total (resolve_calls above two_calls small).0 ≡ pending_calls two_calls)
    × (length (resolve_calls above two_calls small).1.edges
        ≡ length small.edges
          + ((resolve_calls above two_calls small).0.exact
              + (resolve_calls above two_calls small).0.probable))
    × (length (resolve_calls above two_calls small).1.unresolved_calls
        ≡ length small.unresolved_calls + (resolve_calls above two_calls small).0.unresolved)
resolve_calls-Linked_example =
    resolve_calls-Linked above two_calls small ((refl, (tt, tt)), tt) small-Linked

impact_lem_example :
    (r : ImpactReport) × (impact small "src/lib.rs#lex#function" upstream 3 10 ≡ some r)
    × Fits 10 (r.d1_will_break, r.d2_likely_affected, r.d3_may_need_tests) r.counts_by_depth
impact_lem_example = impact_lem small "src/lib.rs#lex#function" upstream 3 10 lex_symbol lex_found

trace_run :
    trace small "src/main.rs#main#function" "src/lib.rs#lex#function" 8
    ≡ some record {
      found = true;
      hops =
          record {
            uid = "src/main.rs#main#function";
            name = "main";
            path = "src/main.rs";
            line = 1;
            edge_kind = none;
          }
          ∷ record {
            uid = "src/lib.rs#parse#function";
            name = "parse";
            path = "src/lib.rs";
            line = 1;
            edge_kind = some "calls";
          }
          ∷ record {
            uid = "src/lib.rs#lex#function";
            name = "lex";
            path = "src/lib.rs";
            line = 9;
            edge_kind = some "calls";
          }
          ∷ [];
      furthest_reachable = none;
    }
unfolding trace trace_ids search start out_edges relax discover push_back answer chain hops_of hop
    symbol_by_id file_path_by_id get select symbol_by_uid edges_from edges_dir edge_kind_as_str
trace_run = refl

-- A call of `parse` that was not resolved before.
abbrev waiting : GraphStore
waiting = record small {
  unresolved_calls =
      record {
        id = 1;
        file_id = 1;
        name = "parse";
        enclosing_symbol_id = some 1;
        site_line = 6;
        receiver = some "p";
      }
      ∷ [];
}

waiting-Linked : Linked waiting
waiting-Linked = record {
  edges_end = small-Linked.edges_end;
  symbols_stand = small-Linked.symbols_stand;
}

resolve_all-Linked_example :
    Linked (resolve_all waiting).1
    × (total (resolve_all waiting).0
        ≡ length (enclosed_rows (symbol_ids waiting.symbols) waiting.unresolved_calls))
    × (length (resolve_all waiting).1.edges
        ≡ length waiting.edges + ((resolve_all waiting).0.exact + (resolve_all waiting).0.probable))
resolve_all-Linked_example = resolve_all-Linked waiting waiting-Linked

direction_parsed : parse_direction "Callers" ≡ some upstream
unfolding parse_direction is_word is_lowercase_of
direction_parsed = refl

calls_resolved :
    (resolve_calls above two_calls small).0 ≡ record { exact = 0; probable = 1; unresolved = 1 }
unfolding resolve_calls resolve_pending resolve_file resolve_call resolve_decided decide decide_raw
    decide_beyond build index_symbols index_imports index_bindings binding_files callable best
    best_from select find insert has_real_receiver trim trim_start trim_end split import_hits
    decide_imported files_of get
calls_resolved = refl
