-- ===== src/Graph/Impact/Fits.antt =====
-- The bounds on the lists of crates/gitpixel-graph/src/impact.rs, and the work that is left to its search.
use gitpixel.Base.{
  ℕ, zero, suc, ◌≤◌, Bool, true, false, List, [], ◌∷◌, map, ◌≡◌, refl, ◌==◌, inl, inr, arith, ap,
  subst, Bool-cases, ==_iff,
}
use gitpixel.Base.{elem, length, ltb, length-append, if◌then◌else◌}
use gitpixel.Graph.Store.{GraphStore, EdgeRow, Tier, select, edges_to, edges_from, edges_dir}
use gitpixel.Graph.Store.Linked.{select_in, select_out}
use gitpixel.Graph.Impact.{
  Direction, upstream, downstream, ImpactItem, Three, update_at, push_item, neighbours,
}

-- A list of items is within the limit and within the count of its depth.
abbrev pub Within : ℕ → List ImpactItem → ℕ → Type 0
Within limit items count = (length items ≤ limit) × (length items ≤ count)

abbrev pub Fits : ℕ → Three (List ImpactItem) → Three ℕ → Type 0
Fits limit items counts =
    Within limit items.0 counts.0 × Within limit items.1 counts.1 × Within limit items.2 counts.2

module _ (limit : ℕ) where
  pub count-Fits :
      (i : ℕ) (bs : Three (List ImpactItem)) (cs : Three ℕ)
      → Fits limit bs cs
      → Fits limit bs (update_at i suc cs)
  unfolding update_at
  count-Fits zero bs cs ((x, y), p, q) = ((x, omega arith), p, q)
  count-Fits (suc zero) bs cs (p, (x, y), q) = (p, (x, omega arith), q)
  count-Fits (suc (suc i)) bs cs (p, q, (x, y)) = (p, q, (x, omega arith))

  push_item_fits :
      (item : ImpactItem) (b : List ImpactItem)
      → length b ≤ limit
      → (length (push_item limit item b) ≤ limit)
        × (length (push_item limit item b) ≤ suc (length b))
  unfolding push_item
  push_item_fits item b h = elim (Bool-cases (ltb (length b) limit)) [
    | inl e ↦ rw (push_item, e) (let l = length-append b (item ∷ []) in ground arith)
    | inr e ↦ rw (push_item, e) (h, omega arith)
  ]

  push_item-Within :
      (item : ImpactItem) (b : List ImpactItem) (c : ℕ)
      → Within limit b c
      → Within limit (push_item limit item b) (suc c)
  push_item-Within item b c (x, y) = let (p, q) = push_item_fits item b x in (p, omega arith)

  pub item-Fits :
      (item : ImpactItem) (i : ℕ) (bs : Three (List ImpactItem)) (cs : Three ℕ)
      → Fits limit bs cs
      → Fits limit (update_at i (push_item limit item) bs) (update_at i suc cs)
  unfolding update_at
  item-Fits item zero bs cs (o, p, q) = (push_item-Within item bs.0 cs.0 o, p, q)
  item-Fits item (suc zero) bs cs (o, p, q) = (o, push_item-Within item bs.1 cs.1 p, q)
  item-Fits item (suc (suc i)) bs cs (o, p, q) = (o, p, push_item-Within item bs.2 cs.2 q)

pub length-map : (end : EdgeRow → ℕ) (es : List EdgeRow) → length (map end es) ≡ length es
length-map end [] = refl
length-map end (e ∷ es) = ap suc (length-map end es)

-- How many of the targets are not visited yet.
unfoldable pub unvisited : List ℕ → List ℕ → ℕ
unvisited vs [] = 0
unvisited vs (w ∷ ws) = let rest = unvisited vs ws in if elem w vs then rest else suc rest

unvisited_le : (vs ws : List ℕ) (u : ℕ) → unvisited (u ∷ vs) ws ≤ unvisited vs ws
unfolding unvisited
unvisited_le vs [] u = omega arith
unvisited_le vs (w ∷ ws) u = ground (arith, unvisited_le vs ws u)

pub unvisited_less :
    (vs ws : List ℕ) (u : ℕ)
    → elem u vs ≡ false
    → elem u ws ≡ true
    → suc (unvisited (u ∷ vs) ws) ≤ unvisited vs ws
unfolding unvisited
unvisited_less vs [] u new there = absurd (ground arith)
unvisited_less vs (w ∷ ws) u new there = elim (Bool-cases (u == w)) [
  | inl same ↦
      let eq : u ≡ w = (==_iff u w).0 same in
      let new' : elem w vs ≡ false = subst (λ x. elem x vs ≡ false) eq new in
      let le = unvisited_le vs ws u in ground (arith, ==_iff w u)
  | inr other ↦ ground (arith, unvisited_less vs ws u, ==_iff w u, ==_iff u w)
]

pub unvisited-length : (vs ws : List ℕ) → unvisited vs ws ≤ length ws
unfolding unvisited
unvisited-length vs [] = omega arith
unvisited-length vs (w ∷ ws) = ground (arith, unvisited-length vs ws)

-- The ends of all edges in a direction.
abbrev pub ends : Direction → GraphStore → List ℕ
ends upstream g = map (λ e. e.src_id) g.edges
ends downstream g = map (λ e. e.dst_id) g.edges

abbrev pub firsts : List (ℕ × Tier) → List ℕ
firsts ns = map (λ n. n.0) ns

select_ends :
    (end : EdgeRow → ℕ) (w : ℕ) (p : EdgeRow → Bool) (es : List EdgeRow)
    → elem w (firsts (map (λ e. (end e, e.tier)) (select p es))) ≡ true
    → elem w (map end es) ≡ true
unfolding select
select_ends end w p [] there = there
select_ends end w p (e ∷ es) there = elim (Bool-cases (p e)) [
  | inl kept ↦
      let now : elem w (firsts (map (λ e. (end e, e.tier)) (e ∷ select p es))) ≡ true =
        subst (λ l. elem w (firsts (map (λ e. (end e, e.tier)) l)) ≡ true) (select_in p e es kept)
          there in
      ground (arith, select_ends end w p es)
  | inr out ↦
      let now : elem w (firsts (map (λ e. (end e, e.tier)) (select p es))) ≡ true =
        subst (λ l. elem w (firsts (map (λ e. (end e, e.tier)) l)) ≡ true) (select_out p e es out)
          there in
      ground (arith, select_ends end w p es)
]

pub neighbours_end :
    (direction : Direction) (g : GraphStore) (id w : ℕ)
    → elem w (firsts (neighbours direction g id)) ≡ true
    → elem w (ends direction g) ≡ true
unfolding neighbours edges_to edges_from edges_dir
neighbours_end upstream g id w there = select_ends (λ e. e.src_id) w _ g.edges there
neighbours_end downstream g id w there = select_ends (λ e. e.dst_id) w _ g.edges there
