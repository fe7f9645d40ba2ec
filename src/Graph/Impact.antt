-- ===== src/Graph/Impact.antt =====
-- crates/gitpixel-graph/src/impact.rs: how far a change of a symbol reaches along the calls. The text of
-- `summary` is left out.
pub mod Fits
pub mod Bounds
use gitpixel.Base.{
  ℕ, zero, suc, ◌+◌, ◌-◌, min, max, Bool, true, false, ◌&&◌, ◌||◌, List, [], ◌∷◌, ◌++◌, map, Option,
  none, some, ◌==◌,
}
use gitpixel.Base.{String, str_eq, elem, length, ltb, leb, get_or, has, insert_path, if◌then◌else◌}
use gitpixel.Graph.Text.{is_lowercase_of}
use gitpixel.Graph.Store.{
  GraphStore, SymbolRow, EdgeRow, ProcessRow, Envelope, Tier, calls, edges_to, edges_from,
  symbol_by_uid, envelope_for_name, tier_as_str,
}
use gitpixel.Graph.Trace.{symbol_by_id, file_path_by_id}
use gitpixel.Graph.Resolve.{add_id}

pub data Direction : Type 0 where
  upstream downstream : Direction

unfoldable pub direction_as_str : Direction → String
direction_as_str upstream = "upstream"
direction_as_str downstream = "downstream"

-- One of the words is the text in lower case.
unfoldable pub is_word : String → List String → Bool
is_word s [] = false
is_word s (w ∷ ws) = is_lowercase_of w s || is_word s ws

-- `none` for the error of an unknown direction.
unfoldable pub parse_direction : String → Option Direction
parse_direction s =
    if is_word s ("upstream" ∷ "up" ∷ "callers" ∷ [])
    then some upstream
    else if is_word s ("downstream" ∷ "down" ∷ "callees" ∷ [])
    then some downstream
    else none

pub record ImpactItem : Type 0 where
  pub uid : String
  pub name : String
  pub path : String
  pub line : ℕ
  pub tier : String
  pub processes : List String

-- `[A; 3]`
abbrev pub Three {ℓ} : Type ℓ → Type ℓ
Three A = A × A × A

pub record ImpactReport : Type 0 where
  pub target : String
  pub direction : String
  pub risk : String
  pub d1_will_break : List ImpactItem
  pub d2_likely_affected : List ImpactItem
  pub d3_may_need_tests : List ImpactItem
  pub counts_by_depth : Three ℕ
  pub affected_files : ℕ
  pub affected_processes : List String
  pub envelope : Envelope

-- The labels of the processes with the symbol, distinct and in order.
labels_of : ℕ → List ProcessRow → List String
labels_of symbol_id [] = []
labels_of symbol_id (p ∷ ps) =
    let rest = labels_of symbol_id ps in
    if elem symbol_id p.steps then insert_path p.label rest else rest

unfoldable pub processes_for_symbol : GraphStore → ℕ → List String
unfolding labels_of
processes_for_symbol g symbol_id = labels_of symbol_id g.processes

unfoldable pub level_label : ℕ → String
level_label level =
    if level == 0
    then "LOW"
    else if level == 1
    then "MEDIUM"
    else if level == 2
    then "HIGH"
    else "CRITICAL"

unfoldable pub risk_label : ℕ → Bool → String
risk_label level lower_bound = level_label (if lower_bound && ltb level 3 then suc level else level)

unfoldable pub base_level : ℕ → ℕ → ℕ
base_level d1 nproc =
    if ltb 50 d1 || ltb 20 nproc
    then 3
    else if ltb 15 d1 || ltb 8 nproc
    then 2
    else if ltb 3 d1
    then 1
    else 0

unfoldable pub insert_labels : List String → List String → List String
insert_labels [] set = set
insert_labels (p ∷ ps) set = insert_labels ps (insert_path p set)

-- The state of the search: for each of the three depths the items and the count.
pub record Reach : Type 0 where
  pub visited : List ℕ
  pub queue : List (ℕ × ℕ)
  pub buckets : Three (List ImpactItem)
  pub counts : Three ℕ
  pub files : List ℕ
  pub proc_set : List String

unfoldable pub start : ℕ → Reach
start target = record {
  visited = target ∷ [];
  queue = (target, 0) ∷ [];
  buckets = ([], [], []);
  counts = (0, 0, 0);
  files = [];
  proc_set = [];
}

-- Indexed by a depth less than three.
unfoldable pub update_at {ℓ} : {A : Type ℓ} → ℕ → (A → A) → Three A → Three A
update_at zero f (a, b, c) = (f a, b, c)
update_at (suc zero) f (a, b, c) = (a, f b, c)
update_at (suc (suc i)) f (a, b, c) = (a, b, f c)

unfoldable pub push_item : ℕ → ImpactItem → List ImpactItem → List ImpactItem
push_item limit item items = if ltb (length items) limit then items ++ (item ∷ []) else items

abbrev pub item_of : GraphStore → Tier → SymbolRow → ImpactItem
item_of g tier s = record {
  uid = s.uid;
  name = s.name;
  path = file_path_by_id s.file_id g;
  line = s.start_line;
  tier = tier_as_str tier;
  processes = processes_for_symbol g s.id;
}

-- What a new neighbour adds if it is a row of the table of symbols.
unfoldable pub add_symbol : GraphStore → ℕ → ℕ → Tier → Option SymbolRow → Reach → Reach
add_symbol g limit bucket tier none s = s
add_symbol g limit bucket tier (some sym) s = record s {
  files = add_id sym.file_id s.files;
  proc_set = insert_labels (processes_for_symbol g sym.id) s.proc_set;
  buckets = update_at bucket (push_item limit (item_of g tier sym)) s.buckets;
}

unfoldable pub visit : GraphStore → ℕ → ℕ → ℕ × Tier → Reach → Reach
visit g limit depth (nbr, tier) s =
    let counted = record s { visited = nbr ∷ s.visited; counts = update_at depth suc s.counts } in
    let t = add_symbol g limit depth tier (symbol_by_id nbr g) counted in
    record t { queue = t.queue ++ ((nbr, suc depth) ∷ []) }

unfoldable pub neighbours : Direction → GraphStore → ℕ → List (ℕ × Tier)
neighbours upstream g id = map (λ e. (e.src_id, e.tier)) (edges_to id (some calls) g)
neighbours downstream g id = map (λ e. (e.dst_id, e.tier)) (edges_from id (some calls) g)

-- The loop over the edges of a symbol.
unfoldable pub visit_all : GraphStore → ℕ → ℕ → List (ℕ × Tier) → Reach → Reach
visit_all g limit depth [] s = s
visit_all g limit depth (n ∷ ns) s = elim (elem n.0 s.visited) [
  | true ↦ visit_all g limit depth ns s
  | false ↦ visit_all g limit depth ns (visit g limit depth n s)
]

-- The search; `none` where the fuel is used up.
unfoldable pub reach : ℕ → Direction → GraphStore → ℕ → ℕ → Reach → Option Reach
reach zero direction g max_depth limit s = none
reach (suc fuel) direction g max_depth limit s = elim (s.queue) [
  | [] ↦ some s
  | next ∷ queue ↦
      let popped = record s { queue = queue } in
      elim (leb max_depth next.1) [
        | true ↦ reach fuel direction g max_depth limit popped
        | false ↦
            reach fuel direction g max_depth limit
              (visit_all g limit next.1 (neighbours direction g next.0) popped)
      ]
]

abbrev pub clamp : ℕ → ℕ → ℕ → ℕ
clamp lo hi n = max lo (min hi n)

abbrev pub reach_fuel : GraphStore → ℕ
reach_fuel g = suc (suc (length g.edges))

unfoldable pub report : GraphStore → SymbolRow → Direction → Reach → ImpactReport
report g target direction s =
    let envelope = envelope_for_name target.name g in
    record {
      target = target.uid;
      direction = direction_as_str direction;
      risk = risk_label (base_level s.counts.0 (length s.proc_set)) envelope.lower_bound;
      d1_will_break = s.buckets.0;
      d2_likely_affected = s.buckets.1;
      d3_may_need_tests = s.buckets.2;
      counts_by_depth = s.counts;
      affected_files = length s.files;
      affected_processes = s.proc_set;
      envelope = envelope;
    }

abbrev pub reported : GraphStore → SymbolRow → Direction → Option Reach → Option ImpactReport
reported g target direction none = none
reported g target direction (some s) = some (report g target direction s)

-- `none` for the error of an unknown uid.
unfoldable pub impact : GraphStore → String → Direction → ℕ → ℕ → Option ImpactReport
impact g uid direction max_depth limit_per_depth = elim (symbol_by_uid uid g) [
  | none ↦ none
  | some target ↦
      reported g target direction
        (reach (reach_fuel g) direction g (clamp 1 3 max_depth) limit_per_depth (start target.id))
]
