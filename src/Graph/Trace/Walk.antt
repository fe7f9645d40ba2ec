-- ===== src/Graph/Trace/Walk.antt =====
-- Walks along the edges that crates/gitpixel-graph/src/trace.rs follows.
use gitpixel.Base.{ℕ, suc, true, List, map, ◌≡◌, elem}
use gitpixel.Graph.Store.{GraphStore}
use gitpixel.Graph.Trace.{out_edges}

-- The targets of the edges of a symbol.
abbrev pub next : GraphStore → ℕ → List ℕ
next g v = map (λ h. h.1) (out_edges v g)

-- `Walk g n a b`: a walk of `n` edges from `a` to `b`.
pub data Walk (g : GraphStore) : ℕ → ℕ → ℕ → Type 0 where
  here : {a : ℕ} → Walk g 0 a a
  step : {n a b c : ℕ} → Walk g n a b → elem c (next g b) ≡ true → Walk g (suc n) a c
