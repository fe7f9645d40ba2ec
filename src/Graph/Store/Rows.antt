-- ===== src/Graph/Store/Rows.antt =====
-- The rows of the tables of crates/gitpixel-graph/src/store.rs, and the texts that stand for their enumerations.
use gitpixel.Base.{ℕ, Bool, List, Option, String, str_eq, if◌then◌else◌}

pub data SymbolKind : Type 0 where
  function method class struct enum trait interface const module' : SymbolKind

pub data EdgeKind : Type 0 where
  calls imports extends implements has_method : EdgeKind

pub data Tier : Type 0 where
  exact probable : Tier

unfoldable pub kind_as_str : SymbolKind → String
kind_as_str function = "function"
kind_as_str method = "method"
kind_as_str class = "class"
kind_as_str struct = "struct"
kind_as_str enum = "enum"
kind_as_str trait = "trait"
kind_as_str interface = "interface"
kind_as_str const = "const"
kind_as_str module' = "module"

unfoldable pub parse_kind : String → SymbolKind
parse_kind s =
    if str_eq s "method"
    then method
    else if str_eq s "class"
    then class
    else if str_eq s "struct"
    then struct
    else if str_eq s "enum"
    then enum
    else if str_eq s "trait"
    then trait
    else if str_eq s "interface"
    then interface
    else if str_eq s "const"
    then const
    else if str_eq s "module"
    then module'
    else function

unfoldable pub edge_kind_as_str : EdgeKind → String
edge_kind_as_str calls = "calls"
edge_kind_as_str imports = "imports"
edge_kind_as_str extends = "extends"
edge_kind_as_str implements = "implements"
edge_kind_as_str has_method = "has_method"

unfoldable pub parse_edge_kind : String → EdgeKind
parse_edge_kind s =
    if str_eq s "imports"
    then imports
    else if str_eq s "extends"
    then extends
    else if str_eq s "implements"
    then implements
    else if str_eq s "has_method"
    then has_method
    else calls

unfoldable pub tier_as_str : Tier → String
tier_as_str exact = "exact"
tier_as_str probable = "probable"

unfoldable pub parse_tier : String → Tier
parse_tier s = if str_eq s "probable" then probable else exact

pub record FileRow : Type 0 where
  pub id : ℕ
  pub path : String
  pub blob_oid : String
  pub lang : String

pub record SymbolRow : Type 0 where
  pub id : ℕ
  pub uid : String
  pub file_id : ℕ
  pub name : String
  pub qualified : String
  pub kind : SymbolKind
  pub start_line : ℕ
  pub end_line : ℕ
  pub sig : String

pub record EdgeRow : Type 0 where
  pub src_id : ℕ
  pub dst_id : ℕ
  pub kind : EdgeKind
  pub tier : Tier
  pub site_line : ℕ
  pub receiver : Option String

pub record ImportRow : Type 0 where
  pub file_id : ℕ
  pub spec : String
  pub resolved_file_id : Option ℕ
  pub bindings : String

pub record UnresolvedRow : Type 0 where
  pub id : ℕ
  pub file_id : ℕ
  pub name : String
  pub enclosing_symbol_id : Option ℕ
  pub site_line : ℕ
  pub receiver : Option String

-- A process with the symbols of its steps, in their order.
pub record ProcessRow : Type 0 where
  pub label : String
  pub entry_symbol_id : ℕ
  pub steps : List ℕ

pub record Envelope : Type 0 where
  pub lower_bound : Bool
  pub unresolved_same_name : ℕ

pub record GraphStore : Type 0 where
  pub files : List FileRow
  pub symbols : List SymbolRow
  pub imports : List ImportRow
  pub edges : List EdgeRow
  pub unresolved_calls : List UnresolvedRow
  pub processes : List ProcessRow
  pub meta : List (String × String)

-- The statements compare the texts of the kinds.
abbrev pub same_kind : EdgeKind → EdgeKind → Bool
same_kind j k = str_eq (edge_kind_as_str j) (edge_kind_as_str k)
