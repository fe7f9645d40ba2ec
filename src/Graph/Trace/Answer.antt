-- ===== src/Graph/Trace/Answer.antt =====
-- The answer of crates/gitpixel-graph/src/trace.rs: whether a path is found, and how long it is.
use gitpixel.Base.{
  ℕ, zero, suc, ◌+◌, ◌≤◌, ◌<◌, Bool, true, false, ◌||◌, List, [], ◌∷◌, Option, none, some, ◌≡◌,
  refl, sym, ◌==◌, elem, length, arith, ◌⊎◌, inl, inr, ◌↔◌, String, Bool-cases, Option-cases,
  ==_iff, subst, ap,
}
use gitpixel.Graph.Store.{GraphStore, EdgeKind, SymbolRow, symbol_by_uid}
use gitpixel.Graph.Trace.{
  Search, get, search_fuel, start, chain, answer, trace_ids, TraceResult, hops_of, trace, hop,
}
use gitpixel.Graph.Trace.Walk.{Walk, next}
use gitpixel.Graph.Trace.Explore.{Tree}
use gitpixel.Graph.Trace.Total.{Outcome}
use gitpixel.Graph.Trace.Complete.{search_total, start-Known, start_work}

-- What follows a symbol in a list of hops is the target of one of its edges.
abbrev pub Follows : GraphStore → ℕ → List (ℕ × Option EdgeKind) → Type 0
Follows g u [] = Unit
Follows g u ((v, k) ∷ hops) = (elem v (next g u) ≡ true) × Follows g v hops

-- The symbol at which a list of hops ends.
abbrev pub ends : ℕ → List (ℕ × Option EdgeKind) → ℕ
ends u [] = u
ends u ((v, k) ∷ hops) = ends v hops

-- From a symbol of the tree the parents lead back to the start.
chain_lem :
    (g : GraphStore) (from max_depth fuel lo d v : ℕ) (s : Search)
    (acc : List (ℕ × Option EdgeKind))
    → Tree g from max_depth lo s
    → get v s.depth_of ≡ some d
    → d < fuel
    → Follows g v acc
    → (hops : List (ℕ × Option EdgeKind)) × (chain fuel s.parent v acc ≡ some ((from, none) ∷ hops))
      × Follows g from hops
      × (length hops ≡ d + length acc)
      × (ends from hops ≡ ends v acc)
unfolding chain
chain_lem g from max_depth zero lo d v s acc tree at less f = absurd (omega arith)
chain_lem g from max_depth (suc fuel) lo d v s acc tree at less f =
    elim (Option-cases (get v s.parent)) [
      | inl orphan ↦
          let (root, same) = tree.roots v d orphan at in
          (
            acc,
            rw (chain, orphan) (ap (λ x. some ((x, none) ∷ acc)) same),
            subst (λ x. Follows g x acc) same f,
            omega arith,
            ap (λ x. ends x acc) (sym same),
          )
      | inr ((p, kind), e) ↦
          let (j, deep, up, edge) = tree.parents v p kind e in
          let both : some d ≡ some (suc j) = cc in
          let more : d ≡ suc j = ground arith in
          let (hops, g', h, l, t) =
            chain_lem g from max_depth fuel lo j p s ((v, some kind) ∷ acc) tree up (omega arith)
              (edge, f) in
          (hops, rw (chain, e) g', h, omega arith, t)
    ]

-- A path from the start to the target that no walk undercuts.
abbrev pub Shortest : GraphStore → ℕ → ℕ → ℕ → List (ℕ × Option EdgeKind) → Type 0
Shortest g from to max_depth hops =
    Follows g from hops
    × (ends from hops ≡ to)
    × (length hops ≤ max_depth)
    × ((n : ℕ) → Walk g n from to → length hops ≤ n)

-- What a result says: a shortest path, or that there is none within the depth.
abbrev pub Answers : GraphStore → ℕ → ℕ → ℕ → TraceResult → Type 0
Answers g from to max_depth r =
    ((r.found ≡ true)
      × (hops : List (ℕ × Option EdgeKind)) × (r.hops ≡ hops_of g ((from, none) ∷ hops))
      × Shortest g from to max_depth hops)
    ⊎ ((r.found ≡ false) × (r.hops ≡ []) × ((n : ℕ) → n ≤ max_depth → ¬ Walk g n from to))

module _ (g : GraphStore) (from to max_depth : ℕ) where
  answer_found :
      (lo k : ℕ) (r : Bool × Search)
      → ((from == to) || r.0) ≡ true
      → Tree g from max_depth lo r.1
      → get to r.1.depth_of ≡ some k
      → ((n : ℕ) → Walk g n from to → k ≤ n)
      → (a : TraceResult) × (answer g from to max_depth r ≡ some a) × Answers g from to max_depth a
  unfolding answer
  answer_found lo k r e tree at short =
      let (w, deep, le) = tree.sound to k at in
      let (hops, c, f, l, t) =
        chain_lem g from max_depth (suc max_depth) lo k to r.1 [] tree at (omega arith) tt in
      (
        record { found = true; hops = hops_of g ((from, none) ∷ hops); furthest_reachable = none },
        rw (answer, e, c) refl,
        inl (
          refl,
          hops,
          refl,
          (f, t, omega arith, λ n walk. let s : k ≤ n = short n walk in omega arith),
        ),
      )

  answer_missed :
      (r : Bool × Search)
      → ((from == to) || r.0) ≡ false
      → ((n : ℕ) → n ≤ max_depth → Walk g n from to → (from == to) ≡ true)
      → (a : TraceResult) × (answer g from to max_depth r ≡ some a) × Answers g from to max_depth a
  unfolding answer
  answer_missed r e only = (
    record { found = false; hops = []; furthest_reachable = hop g r.1.deepest.0 none },
    rw (answer, e) refl,
    inr (refl, refl, λ n le walk. let same = only n le walk in ground arith),
  )

  trace_ids_lem :
      (a : TraceResult) × (trace_ids g from to max_depth ≡ some a) × Answers g from to max_depth a
  unfolding trace_ids
  trace_ids_lem =
      let (r, e, o) =
        search_total g from to max_depth (search_fuel g) 0 (start from)
          (start-Known g from to max_depth) (start_work g from) in
      let (a, f, answers) = answered r o in (a, rw (trace_ids, e) f, answers)
    where
      answered :
          (r : Bool × Search)
          → Outcome g from to max_depth r
          → (a : TraceResult) × (answer g from to max_depth r ≡ some a)
            × Answers g from to max_depth a
      answered r (inl (stop, found)) =
          answer_found found.low found.depth r (ground arith) found.tree found.at found.shortest
      answered r (inr (going, missed)) = elim (Bool-cases (from == to)) [
        | inl same ↦
            let eq : from ≡ to = (==_iff from to).0 same in
            answer_found missed.low 0 r (ground arith) missed.tree
              (subst (λ x. get x r.1.depth_of ≡ some 0) eq missed.tree.starts)
              (λ n walk. omega arith)
        | inr other ↦ answer_missed r (ground arith) missed.only_start
      ]

-- For two symbols of the store the search for a path ends with a result. Either it reports a path
-- of edges from the first symbol to the second that is no longer than the greatest depth and than
-- any walk between them; or it reports that it found none, and no walk within the greatest depth
-- leads from the first to the second.
pub trace_lem :
    (g : GraphStore) (from_uid to_uid : String) (max_depth : ℕ) (from to : SymbolRow)
    → symbol_by_uid from_uid g ≡ some from
    → symbol_by_uid to_uid g ≡ some to
    → (r : TraceResult) × (trace g from_uid to_uid max_depth ≡ some r)
      × Answers g from.id to.id max_depth r
unfolding trace
trace_lem g from_uid to_uid max_depth from to e e' =
    let (r, f, answers) = trace_ids_lem g from.id to.id max_depth in
    (r, rw (trace, e, e') f, answers)

-- The search for a path fails with the error of a missing row exactly if one of the uids is not in the store.
pub trace-none :
    (g : GraphStore) (from_uid to_uid : String) (max_depth : ℕ)
    → (trace g from_uid to_uid max_depth ≡ none)
      ↔ ((symbol_by_uid from_uid g ≡ none) ⊎ (symbol_by_uid to_uid g ≡ none))
unfolding trace
trace-none g from_uid to_uid max_depth = elim (Option-cases (symbol_by_uid from_uid g)) [
  | inl e ↦ (λ h. inl e, λ h. rw (trace, e) refl)
  | inr (from, e) ↦ elim (Option-cases (symbol_by_uid to_uid g)) [
    | inl e' ↦ (λ h. inr e', λ h. rw (trace, e, e') refl)
    | inr (to, e') ↦
        let (r, f, answers) = trace_lem g from_uid to_uid max_depth from to e e' in
        (λ h. absurd cc, λ h. elim h [ inl n ↦ absurd cc | inr n ↦ absurd cc ])
  ]
]
