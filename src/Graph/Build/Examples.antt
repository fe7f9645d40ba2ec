-- ===== src/Graph/Build/Examples.antt =====
-- A tree of one file, and the theorem about its build.
use gitpixel.Base.{
  ℕ, suc, max, Bool, List, [], ◌∷◌, none, some, ◌≡◌, subst, arith, String, str_eq, if◌then◌else◌,
}
use gitpixel.Graph.Store.{GraphStore}
use gitpixel.Graph.Store.Rows
use gitpixel.Graph.Build.{FileExtraction, Tree, build_graph, is_fresh}
use gitpixel.Graph.Build.Total.{IsIndexed}
use gitpixel.Graph.Build.Publish.{build_graph_fresh}

abbrev one_more : List ℕ → ℕ
one_more [] = 1
one_more (i ∷ is) = max (suc i) (one_more is)

abbrev empty_store : GraphStore
empty_store = record {
  files = [];
  symbols = [];
  imports = [];
  edges = [];
  unresolved_calls = [];
  processes = [];
  meta = [];
}

-- A function that calls itself and another one.
abbrev two_functions : FileExtraction
two_functions = record {
  lang = "rust";
  symbols =
      record {
        name = "run";
        qualified = "run";
        kind = Rows.function;
        start_line = 1;
        end_line = 4;
        sig = "fn run()";
      }
      ∷ record {
        name = "help";
        qualified = "help";
        kind = Rows.function;
        start_line = 6;
        end_line = 7;
        sig = "fn help()";
      }
      ∷ [];
  calls =
      record { callee_name = "help"; receiver = none; site_line = 2; enclosing_index = some 0 }
      ∷ record { callee_name = "print"; receiver = none; site_line = 3; enclosing_index = some 0 }
      ∷ [];
  imports = record { spec = "std::io"; bindings = [] } ∷ [];
}

abbrev one_file : Tree
one_file = ("src/run.rs", 102 ∷ 110 ∷ []) ∷ []

-- The number of files stands for the signature.
abbrev count_signature : Tree → String
count_signature [] = "none"
count_signature (f ∷ fs) = "some"

build_graph_fresh_example :
    (r : Bool × GraphStore) × (build_graph one_more count_signature
        (λ rel content. some two_functions)
        (λ content. "oid")
        one_file
        one_file
        empty_store
      ≡ some r)
    × (r.0 ≡ str_eq (count_signature one_file) (count_signature one_file))
    × ((s : String)
        → is_fresh s r.1
          ≡ (if r.0 then str_eq (count_signature one_file) s else is_fresh s empty_store))
build_graph_fresh_example =
    build_graph_fresh one_more count_signature (λ rel content. some two_functions)
      (λ content. "oid") one_file one_file empty_store
      (λ rel content fx e.
        let same : two_functions ≡ fx = cc in subst IsIndexed same (omega arith, (omega arith, tt)))
