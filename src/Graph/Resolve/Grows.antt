-- ===== src/Graph/Resolve/Grows.antt =====
-- How the tables grow by the decisions of crates/gitpixel-graph/src/resolve.rs.
use gitpixel.Base.{
  ℕ, ◌+◌, Bool, true, ◌&&◌, List, [], ◌∷◌, ◌++◌, Option, none, some, ◌≡◌, refl, sym, ◌∙◌, inl, inr,
  arith, subst, String, str_eq, Bool-cases, elem, length, length-append, All,
}
use gitpixel.Graph.Store.{GraphStore, EdgeRow, SymbolRow, select}
use gitpixel.Graph.Store.Linked.{
  Linked, EndsIn, All-append, symbol_ids, file_ids, select_in, select_out,
}
use gitpixel.Graph.Resolve.{ResolveStats, callable}
use gitpixel.Graph.Resolve.Calls.{count_unresolved}
use gitpixel.Graph.Resolve.Index.{defined_ids}

-- The call stands at top level, or in a symbol of the list.
abbrev pub StandsIn : List ℕ → Option ℕ → Type 0
StandsIn ids none = Unit
StandsIn ids (some s) = elem s ids ≡ true

abbrev pub total : ResolveStats → ℕ
total s = s.exact + s.probable + s.unresolved

-- From one pair of counts and tables to a later one, by `n` calls: the tables of symbols and files
-- stay, the edges still end in symbols, and each exact or probable call has become an edge.
pub record Grows (n : ℕ) (r q : ResolveStats × GraphStore) : Type 0 where
  pub symbols_stay : q.1.symbols ≡ r.1.symbols
  pub files_stay : q.1.files ≡ r.1.files
  pub ends_stay :
      All (EndsIn (symbol_ids r.1.symbols)) r.1.edges
      → All (EndsIn (symbol_ids r.1.symbols)) q.1.edges
  pub counted : total q.0 ≡ n + total r.0
  pub edges_added :
      length q.1.edges + (r.0.exact + r.0.probable) ≡ length r.1.edges + (q.0.exact + q.0.probable)

pub Grows-refl : (r : ResolveStats × GraphStore) → Grows 0 r r
Grows-refl r = record {
  symbols_stay = refl;
  files_stay = refl;
  ends_stay = λ a. a;
  counted = omega arith;
  edges_added = refl;
}

pub Grows-trans :
    (m n : ℕ) (r q p : ResolveStats × GraphStore) → Grows m r q → Grows n q p → Grows (m + n) r p
Grows-trans m n r q p a b = record {
  symbols_stay = b.symbols_stay ∙ a.symbols_stay;
  files_stay = b.files_stay ∙ a.files_stay;
  ends_stay = λ e.
      subst (λ ss. All (EndsIn (symbol_ids ss)) q.1.edges → All (EndsIn (symbol_ids ss)) p.1.edges)
        a.symbols_stay b.ends_stay (a.ends_stay e);
  counted = omega (arith, a.counted, b.counted);
  edges_added = omega (arith, a.edges_added, b.edges_added);
}

-- An unresolved call only counts.
pub uncounted-Grows :
    (r : ResolveStats × GraphStore) (t : GraphStore)
    → t.symbols ≡ r.1.symbols
    → t.files ≡ r.1.files
    → t.edges ≡ r.1.edges
    → Grows 1 r (count_unresolved r.0, t)
uncounted-Grows r t ss fs es = record {
  symbols_stay = ss;
  files_stay = fs;
  ends_stay = subst (λ l. All (EndsIn (symbol_ids r.1.symbols)) l) (sym es);
  counted = omega arith;
  edges_added = rw es refl;
}

-- A resolved call adds an edge.
pub edge-Grows :
    (s : ResolveStats) (e : EdgeRow) (r : ResolveStats × GraphStore) (t : GraphStore)
    → t.symbols ≡ r.1.symbols
    → t.files ≡ r.1.files
    → t.edges ≡ r.1.edges ++ (e ∷ [])
    → total s ≡ 1 + total r.0
    → s.unresolved ≡ r.0.unresolved
    → EndsIn (symbol_ids r.1.symbols) e
    → Grows 1 r (s, t)
edge-Grows s e r t ss fs es sum u ends = record {
  symbols_stay = ss;
  files_stay = fs;
  ends_stay = λ a.
      subst (λ l. All (EndsIn (symbol_ids r.1.symbols)) l) (sym es)
        (All-append (EndsIn (symbol_ids r.1.symbols)) r.1.edges (e ∷ []) a (ends, tt));
  counted = sum;
  edges_added = rw (es, length-append r.1.edges (e ∷ [])) (omega arith);
}

-- Tables that grew from linked ones are linked.
pub Grows-Linked : (n : ℕ) (r q : ResolveStats × GraphStore) → Grows n r q → Linked r.1 → Linked q.1
Grows-Linked n r q g l = record {
  edges_end =
      subst (λ ss. All (EndsIn (symbol_ids ss)) q.1.edges) (sym g.symbols_stay)
        (g.ends_stay l.edges_end);
  symbols_stand =
      subst (λ ss. All (λ s. elem s.file_id (file_ids q.1.files) ≡ true) ss) (sym g.symbols_stay)
        (subst (λ fs. All (λ s. elem s.file_id (file_ids fs) ≡ true) r.1.symbols) (sym g.files_stay)
          l.symbols_stand);
}

defined_symbol :
    (q : SymbolRow → Bool) (a : ℕ) (ss : List SymbolRow)
    → elem a (symbol_ids (select q ss)) ≡ true
    → elem a (symbol_ids ss) ≡ true
unfolding select
defined_symbol q a [] there = there
defined_symbol q a (s ∷ ss) there = elim (Bool-cases (q s)) [
  | inl e ↦
      let now : elem a (symbol_ids (s ∷ select q ss)) ≡ true =
        subst (λ l. elem a (symbol_ids l) ≡ true) (select_in q s ss e) there in
      ground (arith, defined_symbol q a ss)
  | inr e ↦
      let now : elem a (symbol_ids (select q ss)) ≡ true =
        subst (λ l. elem a (symbol_ids l) ≡ true) (select_out q s ss e) there in
      ground (arith, defined_symbol q a ss)
]

pub ends_in :
    (h : GraphStore) (name : String) (src dst : ℕ) (ss : List SymbolRow)
    → ss ≡ h.symbols
    → elem src (symbol_ids h.symbols) ≡ true
    → elem dst (defined_ids name h) ≡ true
    → (elem src (symbol_ids ss) ≡ true) × (elem dst (symbol_ids ss) ≡ true)
ends_in h name src dst ss same stands there =
    subst (λ l. (elem src (symbol_ids l) ≡ true) × (elem dst (symbol_ids l) ≡ true)) (sym same)
      (stands, defined_symbol (λ s. callable s.kind && str_eq s.name name) dst h.symbols there)
