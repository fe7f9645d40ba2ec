-- ===== src/Graph/Trace.antt =====
-- crates/gitpixel-graph/src/trace.rs: the breadth-first search for a path between two symbols. The maps are
-- association lists whose newest entry counts.
pub mod Walk
pub mod Depths
pub mod Explore
pub mod Expand
pub mod Total
pub mod Known
pub mod Complete
pub mod Answer
use gitpixel.Base.{
  ℕ, zero, suc, ◌+◌, Bool, true, false, ◌||◌, List, [], ◌∷◌, ◌++◌, map, Option, none, some, ◌==◌,
}
use gitpixel.Base.{String, length, ltb, leb, if◌then◌else◌}
use gitpixel.Graph.Store.{
  GraphStore, SymbolRow, FileRow, EdgeKind, calls, has_method, edges_from, symbol_by_uid, select,
  first, edge_kind_as_str,
}

pub record TraceHop : Type 0 where
  pub uid : String
  pub name : String
  pub path : String
  pub line : ℕ
  pub edge_kind : Option String

pub record TraceResult : Type 0 where
  pub found : Bool
  pub hops : List TraceHop
  pub furthest_reachable : Option TraceHop

unfoldable pub symbol_by_id : ℕ → GraphStore → Option SymbolRow
symbol_by_id id g = first (select (λ s. s.id == id) g.symbols)

abbrev pub path_or_empty : Option FileRow → String
path_or_empty none = ""
path_or_empty (some f) = f.path

unfoldable pub file_path_by_id : ℕ → GraphStore → String
file_path_by_id file_id g = path_or_empty (first (select (λ f. f.id == file_id) g.files))

unfoldable pub hop : GraphStore → ℕ → Option String → Option TraceHop
hop g id edge_kind = elim (symbol_by_id id g) [
  | none ↦ none
  | some s ↦ some record {
    uid = s.uid;
    name = s.name;
    path = file_path_by_id s.file_id g;
    line = s.start_line;
    edge_kind = edge_kind;
  }
]

module _ {ℓ} {V : Type ℓ} where
  unfoldable pub get : ℕ → List (ℕ × V) → Option V
  get k [] = none
  get k ((j, v) ∷ m) = if j == k then some v else get k m

-- The state of the search.
pub record Search : Type 0 where
  pub parent : List (ℕ × (ℕ × EdgeKind))
  pub depth_of : List (ℕ × ℕ)
  pub queue : List ℕ
  pub deepest : ℕ × ℕ

unfoldable pub start : ℕ → Search
start from = record {
  parent = [];
  depth_of = (from, 0) ∷ [];
  queue = from ∷ [];
  deepest = (from, 0);
}

-- The edges that the two inner loops go over, with the kind under which each is found.
unfoldable pub out_edges : ℕ → GraphStore → List (EdgeKind × ℕ)
out_edges id g =
    map (λ e. (calls, e.dst_id)) (edges_from id (some calls) g)
    ++ map (λ e. (has_method, e.dst_id)) (edges_from id (some has_method) g)

-- A target that is not known yet gets its depth and its parent.
unfoldable pub discover : ℕ → ℕ → EdgeKind → ℕ → Search → Search
discover id d kind dst s = record s {
  depth_of = (dst, suc d) ∷ s.depth_of;
  parent = (dst, (id, kind)) ∷ s.parent;
  deepest = if ltb s.deepest.1 (suc d) then (dst, suc d) else s.deepest;
}

unfoldable pub push_back : ℕ → Search → Search
push_back dst s = record s { queue = s.queue ++ (dst ∷ []) }

-- The inner loops: `true` where they break out of the search.
unfoldable pub relax : ℕ → ℕ → ℕ → List (EdgeKind × ℕ) → Search → Bool × Search
relax to id d [] s = (false, s)
relax to id d ((kind, dst) ∷ es) s = elim (get dst s.depth_of) [
  | some seen ↦ relax to id d es s
  | none ↦ elim (dst == to) [
    | true ↦ (true, discover id d kind dst s)
    | false ↦ relax to id d es (push_back dst (discover id d kind dst s))
  ]
]

-- The outer loop; `none` where the fuel is used up, or an id of the queue has no depth.
unfoldable pub search : ℕ → GraphStore → ℕ → ℕ → Search → Option (Bool × Search)
search zero g to max_depth s = none
search (suc fuel) g to max_depth s = elim (s.queue) [
  | [] ↦ some (false, s)
  | id ∷ queue ↦ elim (get id s.depth_of) [
    | none ↦ none
    | some d ↦ elim (leb max_depth d) [
      | true ↦ search fuel g to max_depth (record s { queue = queue })
      | false ↦
          let next = relax to id d (out_edges id g) (record s { queue = queue }) in
          elim (next.0) [ true ↦ some (true, next.1) | false ↦ search fuel g to max_depth next.1 ]
    ]
  ]
]

abbrev pub search_fuel : GraphStore → ℕ
search_fuel g = suc (suc (length g.edges))

-- From the target to the start along the parents, reversed; `none` where the fuel is used up.
unfoldable pub chain :
    ℕ
    → List (ℕ × (ℕ × EdgeKind))
    → ℕ
    → List (ℕ × Option EdgeKind)
    → Option (List (ℕ × Option EdgeKind))
chain zero parent cur acc = none
chain (suc fuel) parent cur acc = elim (get cur parent) [
  | none ↦ some ((cur, none) ∷ acc)
  | some (p, k) ↦ chain fuel parent p ((cur, some k) ∷ acc)
]

abbrev pub kind_text : Option EdgeKind → Option String
kind_text none = none
kind_text (some k) = some (edge_kind_as_str k)

unfoldable pub hops_of : GraphStore → List (ℕ × Option EdgeKind) → List TraceHop
hops_of g [] = []
hops_of g ((id, k) ∷ ids) =
    let rest = hops_of g ids in elim (hop g id (kind_text k)) [ none ↦ rest | some h ↦ h ∷ rest ]

unfoldable pub answer : GraphStore → ℕ → ℕ → ℕ → Bool × Search → Option TraceResult
answer g from to max_depth (stopped, s) = elim ((from == to) || stopped) [
  | true ↦ elim (chain (suc max_depth) s.parent to []) [
    | none ↦ none
    | some ids ↦ some record { found = true; hops = hops_of g ids; furthest_reachable = none }
  ]
  | false ↦ some record { found = false; hops = []; furthest_reachable = hop g s.deepest.0 none }
]

-- The search between two ids.
unfoldable pub trace_ids : GraphStore → ℕ → ℕ → ℕ → Option TraceResult
trace_ids g from to max_depth = elim (search (search_fuel g) g to max_depth (start from)) [
  | none ↦ none
  | some end ↦ answer g from to max_depth end
]

-- `none` for the error of an unknown uid.
unfoldable pub trace : GraphStore → String → String → ℕ → Option TraceResult
trace g from_uid to_uid max_depth = elim (symbol_by_uid from_uid g) [
  | none ↦ none
  | some from ↦ elim (symbol_by_uid to_uid g) [
    | none ↦ none
    | some to ↦ trace_ids g from.id to.id max_depth
  ]
]
