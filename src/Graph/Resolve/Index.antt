-- ===== src/Graph/Resolve/Index.antt =====
-- The index of crates/gitpixel-graph/src/resolve.rs holds the callable symbols of the store by their names.
use gitpixel.Base.{
  ℕ, Bool, true, false, ◌&&◌, List, [], ◌∷◌, ◌++◌, Option, ◌≡◌, sym, inl, inr, arith, subst,
  Bool-cases, ==_refl, eq_iff,
}
use gitpixel.Base.{String, str_eq, elem, All, find, insert, find-nil, find-insert}
use gitpixel.Graph.Store.{GraphStore, SymbolRow, select}
use gitpixel.Graph.Store.Linked.{All-append, All-imp, symbol_ids, select_in, select_out}
use gitpixel.Graph.Resolve.{
  Candidate, callable, candidate_of, or_empty, index_symbols, build, decide, has_real_receiver,
  exact,
}
use gitpixel.Graph.Resolve.Decide.{Decides, decide_lem}

module _ (P : Candidate → Type 0) (name : String) where
  abbrev Fits : SymbolRow → Type 0
  Fits s = callable s.kind ≡ true → s.name ≡ name → P (candidate_of s)

  insert-Fits :
      (s : SymbolRow) (m : List (String × List Candidate))
      → Fits s
      → callable s.kind ≡ true
      → All P (or_empty (find name m))
      → All P (
          or_empty
            (find name (insert s.name (or_empty (find s.name m) ++ (candidate_of s ∷ [])) m)))
  insert-Fits s m fits call a = elim (Bool-cases (str_eq s.name name)) [
    | inl same ↦
        let eq : s.name ≡ name = (eq_iff s.name name).0 same in
        rw (find-insert s.name name (or_empty (find s.name m) ++ (candidate_of s ∷ [])) m, same)
          (All-append P (or_empty (find s.name m)) (candidate_of s ∷ [])
            (subst (λ n. All P (or_empty (find n m))) (sym eq) a) (fits call eq, tt))
    | inr other ↦
        rw (find-insert s.name name (or_empty (find s.name m) ++ (candidate_of s ∷ [])) m, other) a
  ]

  index_symbols_lem :
      (ss : List SymbolRow) (m : List (String × List Candidate))
      → All Fits ss
      → All P (or_empty (find name m))
      → All P (or_empty (find name (index_symbols ss m)))
  unfolding index_symbols
  index_symbols_lem [] m fits a = a
  index_symbols_lem (s ∷ ss) m fits a = elim (Bool-cases (callable s.kind)) [
    | inl call ↦
        rw (index_symbols, call) (index_symbols_lem ss _ fits.1 (insert-Fits s m fits.0 call a))
    | inr other ↦ rw (index_symbols, other) (index_symbols_lem ss m fits.1 a)
  ]

-- The ids of the callable symbols with a name.
abbrev pub defined_ids : String → GraphStore → List ℕ
defined_ids name g = symbol_ids (select (λ s. callable s.kind && str_eq s.name name) g.symbols)

selected :
    (q : SymbolRow → Bool) (ss : List SymbolRow)
    → All (λ s. q s ≡ true → elem s.id (symbol_ids (select q ss)) ≡ true) ss
selected q [] = tt
selected q (s ∷ ss) = elim (Bool-cases (q s)) [
  | inl e ↦
      subst (λ l. All (λ t. q t ≡ true → elem t.id (symbol_ids l) ≡ true) (s ∷ ss))
        (sym (select_in q s ss e))
        (
          λ h. ground (arith, ==_refl s.id),
          All-imp {P = λ t. q t ≡ true → elem t.id (symbol_ids (select q ss)) ≡ true} ss
              (λ t old h. let there = old h in ground arith) (selected q ss),
        )
  | inr e ↦
      subst (λ l. All (λ t. q t ≡ true → elem t.id (symbol_ids l) ≡ true) (s ∷ ss))
        (sym (select_out q s ss e)) (λ h. absurd cc, selected q ss)
]

pub decide-build :
    (g : GraphStore) (caller : ℕ) (name : String) (receiver : Option String)
    → Decides
        (λ c. elem c.symbol_id (defined_ids name g) ≡ true)
        (build g)
        caller
        name
        (decide (build g) caller name receiver)
      × ((id : ℕ)
          → decide (build g) caller name receiver ≡ exact id
          → has_real_receiver receiver ≡ false)
unfolding build
decide-build g caller name receiver =
    decide_lem (λ c. elem c.symbol_id (defined_ids name g) ≡ true) (build g) caller name receiver
      (index_symbols_lem (λ c. elem c.symbol_id (defined_ids name g) ≡ true) name g.symbols []
        (All-imp
          {P = λ s.
            (callable s.kind && str_eq s.name name) ≡ true → elem s.id (defined_ids name g) ≡ true}
          g.symbols (λ s there call same. there (ground (arith, eq_iff s.name name)))
          (selected (λ s. callable s.kind && str_eq s.name name) g.symbols))
        (rw (find-nil {V = List Candidate} name) tt))
