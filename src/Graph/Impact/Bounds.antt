-- ===== src/Graph/Impact/Bounds.antt =====
-- The search of crates/gitpixel-graph/src/impact.rs ends, and its lists keep to their bounds.
use gitpixel.Base.{
  ℕ, zero, suc, ◌+◌, ◌≤◌, ◌<◌, true, false, List, [], ◌∷◌, ◌++◌, some, ◌≡◌, refl, sym, ◌∙◌, inl,
  inr, arith, ap, Bool-cases, Option-cases, ==_iff, ◌⊎◌,
}
use gitpixel.Base.{String, elem, length, leb, length-append}
use gitpixel.Graph.Store.{GraphStore, SymbolRow, Tier, symbol_by_uid}
use gitpixel.Graph.Trace.{symbol_by_id}
use gitpixel.Graph.Impact.{
  Direction, upstream, downstream, ImpactReport, Reach, start, item_of, add_symbol, visit,
  visit_all, neighbours, reach, reach_fuel, clamp, report, impact,
}
use gitpixel.Graph.Impact.Fits.{
  Fits, count-Fits, item-Fits, unvisited, unvisited_less, unvisited-length, ends, firsts,
  neighbours_end, length-map,
}

module _ (direction : Direction) (g : GraphStore) (limit : ℕ) where
  abbrev work : Reach → ℕ
  work s = length s.queue + unvisited s.visited (ends direction g)

  visit_lem :
      (depth : ℕ) (n : ℕ × Tier) (s : Reach)
      → elem n.0 s.visited ≡ false
      → elem n.0 (ends direction g) ≡ true
      → Fits limit s.buckets s.counts
      → Fits limit (visit g limit depth n s).buckets (visit g limit depth n s).counts
        × (work (visit g limit depth n s) ≤ work s)
  unfolding visit add_symbol
  visit_lem depth (nbr, tier) s new there f =
      let less : suc (unvisited (nbr ∷ s.visited) (ends direction g))
          ≤ unvisited s.visited (ends direction g) =
        unvisited_less s.visited (ends direction g) nbr new there in
      let longer : length (s.queue ++ ((nbr, suc depth) ∷ [])) ≡ length s.queue + 1 =
        length-append s.queue ((nbr, suc depth) ∷ []) in
      elim (Option-cases (symbol_by_id nbr g)) [
        | inl e ↦ rw (visit, e) (count-Fits limit depth s.buckets s.counts f, omega arith)
        | inr (sym, e) ↦
            rw (visit, e)
              (item-Fits limit (item_of g tier sym) depth s.buckets s.counts f, omega arith)
      ]

  visit_all_lem :
      (depth : ℕ) (ns : List (ℕ × Tier)) (s : Reach)
      → ((w : ℕ) → elem w (firsts ns) ≡ true → elem w (ends direction g) ≡ true)
      → Fits limit s.buckets s.counts
      → Fits limit (visit_all g limit depth ns s).buckets (visit_all g limit depth ns s).counts
        × (work (visit_all g limit depth ns s) ≤ work s)
  unfolding visit_all
  visit_all_lem depth [] s sub f = (f, omega arith)
  visit_all_lem depth (n ∷ ns) s sub f = elim (Bool-cases (elem n.0 s.visited)) [
    | inl e ↦ rw (visit_all, e) (visit_all_lem depth ns s (λ w there. sub w (ground arith)) f)
    | inr e ↦
        let (f', le) = visit_lem depth n s e (sub n.0 (ground (arith, ==_iff n.0 n.0))) f in
        let (f'', le') =
          visit_all_lem depth ns (visit g limit depth n s) (λ w there. sub w (ground arith)) f' in
        rw (visit_all, e) (f'', omega arith)
  ]

  reach_empty :
      (fuel max_depth : ℕ) (s : Reach)
      → s.queue ≡ []
      → reach (suc fuel) direction g max_depth limit s ≡ some s
  unfolding reach
  reach_empty fuel max_depth s e = simp (reach, e)

  module _ (fuel max_depth : ℕ) (s : Reach) (next : ℕ × ℕ) (queue : List (ℕ × ℕ))
      (e : s.queue ≡ next ∷ queue) where
    reach_deep :
        leb max_depth next.1 ≡ true
        → reach (suc fuel) direction g max_depth limit s
          ≡ reach fuel direction g max_depth limit (record s { queue = queue })
    unfolding reach
    reach_deep d = rw (reach, e, d) refl

    reach_near :
        leb max_depth next.1 ≡ false
        → reach (suc fuel) direction g max_depth limit s
          ≡ reach fuel direction g max_depth limit (
              visit_all g limit next.1 (neighbours direction g next.0) (record s { queue = queue }))
    unfolding reach
    reach_near d = rw (reach, e, d) refl

  Queue-cases :
      (q : List (ℕ × ℕ)) → (q ≡ []) ⊎ ((n : ℕ × ℕ) × (rest : List (ℕ × ℕ)) × (q ≡ n ∷ rest))
  Queue-cases [] = inl refl
  Queue-cases (n ∷ rest) = inr (n, rest, refl)

  reach_lem :
      (fuel max_depth : ℕ) (s : Reach)
      → Fits limit s.buckets s.counts
      → work s < fuel
      → (r : Reach) × (reach fuel direction g max_depth limit s ≡ some r)
        × Fits limit r.buckets r.counts
  reach_lem zero max_depth s f h = absurd (omega arith)
  reach_lem (suc fuel) max_depth s f h = elim (Queue-cases s.queue) [
    | inl e ↦ (s, reach_empty fuel max_depth s e, f)
    | inr (next, queue, e) ↦
        let shorter : length s.queue ≡ suc (length queue) = ap length e in
        elim (Bool-cases (leb max_depth next.1)) [
          | inl d ↦
              let (r, a, b) =
                reach_lem fuel max_depth (record s { queue = queue }) f (omega arith) in
              (r, reach_deep fuel max_depth s next queue e d ∙ a, b)
          | inr d ↦
              let (f', le) =
                visit_all_lem next.1 (neighbours direction g next.0) (record s { queue = queue })
                  (neighbours_end direction g next.0) f in
              let (r, a, b) = reach_lem fuel max_depth _ f' (omega arith) in
              (r, reach_near fuel max_depth s next queue e d ∙ a, b)
        ]
  ]

length-ends : (direction : Direction) (g : GraphStore) → length (ends direction g) ≡ length g.edges
length-ends upstream g = length-map (λ e. e.src_id) g.edges
length-ends downstream g = length-map (λ e. e.dst_id) g.edges

start-Fits : (limit target : ℕ) → Fits limit (start target).buckets (start target).counts
unfolding start
start-Fits limit target =
    ((omega arith, omega arith), (omega arith, omega arith), (omega arith, omega arith))

start_work :
    (direction : Direction) (g : GraphStore) (limit target : ℕ)
    → work direction g limit (start target) < reach_fuel g
unfolding start
start_work direction g limit target =
    omega (arith, unvisited-length (target ∷ []) (ends direction g), length-ends direction g)

-- For a symbol of the store the impact is reported, for each direction, depth and limit; and at each
-- depth the report lists at most the limit and at most the count of that depth.
pub impact_lem :
    (g : GraphStore) (uid : String) (direction : Direction) (max_depth limit : ℕ)
    (target : SymbolRow)
    → symbol_by_uid uid g ≡ some target
    → (r : ImpactReport) × (impact g uid direction max_depth limit ≡ some r)
      × Fits limit (r.d1_will_break, r.d2_likely_affected, r.d3_may_need_tests) r.counts_by_depth
unfolding impact report
impact_lem g uid direction max_depth limit target e =
    let (s, f, fits) =
      reach_lem direction g limit (reach_fuel g) (clamp 1 3 max_depth) (start target.id)
        (start-Fits limit target.id) (start_work direction g limit target.id) in
    (report g target direction s, rw (impact, e, f) refl, fits)
