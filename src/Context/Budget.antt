-- ===== src/Context/Budget.antt =====
-- What crates/gitpixel-context/src/lib.rs makes of a budget.
use Prim.Native.String.{◌++◌}
use gitpixel.Base.{
  ℕ, suc, ◌+◌, ◌-◌, ◌≤◌, ◌<◌, ◌≡◌, refl, sym, ◌∙◌, ap, ◌⊎◌, inl, inr, false, List, [], ◌∷◌, arith,
}
use native.Mathlib.Decide.{dec_lt}
use gitpixel.Base.{take-append, append_nil}
use gitpixel.Base.{String, leb, leb→le, if◌then◌else◌, Bool, length, take, Bool-cases}
use text.Mathlib.TextPositions.{len-append}
use gitpixel.Context.{
  ContextItem, Layer, l0, l1, l2, FitResult, estimate_tokens, render_item, render_from, render,
  marker, keep, truncate, degrade, degrade_loop, fit_to_budget_detailed,
}

not_leb : (a b : ℕ) → leb a b ≡ false → b < a
not_leb a b h = ground arith

take-length : (items : List ContextItem) → take (length items) items ≡ items
take-length items =
    ap (λ xs. take (length items) xs) (sym (append_nil items)) ∙ take-append items []

-- How much a layer shows.
abbrev pub detail : Layer → ℕ
detail l0 = 0
detail l1 = 1
detail l2 = 2

module _ (trim : String → String) (lines : String → List String) (to_string : ℕ → String) where
  -- What the greedy loop keeps: a front of the items, and either nothing, or what fits with its elision line.
  record Keeps (items : List ContextItem) (budget_tokens : ℕ) (start : String) (r : String × ℕ)
      : Type 0 where
    front : r.0 ≡ render_from trim lines to_string (take (length items - r.1) items) l0 start
    at_most : r.1 ≤ length items
    fits :
        (r.1 ≡ length items)
        ⊎ (estimate_tokens r.0 + estimate_tokens (marker trim lines to_string r.1) ≤ budget_tokens)

  kept_none :
      (items : List ContextItem) (b : ℕ) (start : String) (r : String × ℕ)
      → Keeps items b start r
      → r.1 ≡ length items
      → r.0 ≡ start
  unfolding render_from
  kept_none items b start r k e =
      let zero_kept : length items - r.1 ≡ 0 = omega (arith, e) in k.front ∙ (rw zero_kept refl)

  Keeps-accept :
      (item : ContextItem) (items : List ContextItem) (b : ℕ) (out : String) (r : String × ℕ)
      → let candidate = render_item trim lines to_string item l0 out in
        estimate_tokens candidate + estimate_tokens (marker trim lines to_string (length items)) ≤ b
        → Keeps items b candidate r
        → Keeps (item ∷ items) b out r
  unfolding render_from
  Keeps-accept item items b out r room k =
      let kept : suc (length items) - r.1 ≡ suc (length items - r.1) = omega (arith, k.at_most) in
      record {
        front = rw kept k.front;
        at_most = omega (arith, k.at_most);
        fits =
            inr (elim k.fits [
              | inl all ↦ rw (kept_none items b _ r k all, all) room
              | inr fit ↦ fit
            ]);
      }

  keep-Keeps :
      (items : List ContextItem) (budget_tokens : ℕ) (out : String)
      → Keeps items budget_tokens out (keep trim lines to_string items budget_tokens out)
  unfolding keep render_from
  keep-Keeps [] b out = record { front = refl; at_most = omega arith; fits = inl refl }
  keep-Keeps (item ∷ items) b out =
      let candidate : String = render_item trim lines to_string item l0 out in
      let test : Bool =
        leb
          (estimate_tokens candidate + estimate_tokens (marker trim lines to_string (length items)))
          b in
      let none_left : suc (length items) - suc (length items) ≡ 0 = omega arith in
      elim (Bool-cases test) [
        | inl room ↦
            rw room
              (Keeps-accept item items b out _ (leb→le _ _ room) (keep-Keeps items b candidate))
        | inr full ↦
            rw full (record { front = rw none_left refl; at_most = omega arith; fits = inl refl })
      ]

  estimate_tokens-append :
      (s t : String) → estimate_tokens (s ++ t) ≤ estimate_tokens s + estimate_tokens t
  unfolding estimate_tokens
  estimate_tokens-append s t = omega (arith, len-append s t)

  -- A result with all items, or with a front of them and an elision line.
  abbrev Whole : List ContextItem → ℕ → FitResult → Type 0
  Whole items b r =
      (r.elided_items ≡ 0)
      × (r.text ≡ render trim lines to_string items r.layer)
      × (estimate_tokens r.text ≤ b)

  abbrev Cut : List ContextItem → ℕ → FitResult → Type 0
  Cut items b r =
      (0 < r.elided_items)
      × (r.layer ≡ l0)
      × (r.text
          ≡ render trim lines to_string (take (length items - r.elided_items) items) l0
            ++ marker trim lines to_string r.elided_items)
      × (b < estimate_tokens (render trim lines to_string items l0))
      × ((r.elided_items ≡ length items) ⊎ (estimate_tokens r.text ≤ b))

  abbrev pub Fitted : List ContextItem → ℕ → FitResult → Type 0
  Fitted items b r = Whole items b r ⊎ Cut items b r

  no_items :
      (items : List ContextItem)
      → length items ≡ 0
      → estimate_tokens (render trim lines to_string items l0) ≡ 0
  unfolding estimate_tokens render render_from
  no_items [] e = refl
  no_items (item ∷ items) e = absurd (omega (arith, e))

  all_kept :
      (items : List ContextItem) (n : ℕ)
      → n ≡ 0
      → render_from trim lines to_string (take (length items - n) items) l0 ""
        ≡ render trim lines to_string items l0
  unfolding render
  all_kept items n e =
      let whole : length items - n ≡ length items = omega (arith, e) in
      rw (whole, take-length items) refl

  too_long :
      (items : List ContextItem) (b : ℕ) (r : String × ℕ)
      → Keeps items b "" r
      → b < estimate_tokens (render trim lines to_string items l0)
      → 0 < r.1
  too_long items b r k long = elim (dec_lt 0 r.1) [
    | yes some_left ↦ some_left
    | no none_left ↦
        let zero_left : r.1 ≡ 0 = omega (arith, none_left) in
        let same = ap estimate_tokens (k.front ∙ all_kept items r.1 zero_left) in
        elim k.fits [
          | inl all ↦ absurd (omega (arith, no_items items (sym all ∙ zero_left), long))
          | inr fit ↦ absurd (omega (arith, fit, same, long))
        ]
  ]

  truncate-Cut :
      (items : List ContextItem) (b : ℕ)
      → b < estimate_tokens (render trim lines to_string items l0)
      → Cut items b (truncate trim lines to_string items b)
  unfolding truncate render
  truncate-Cut items b long =
      let r : String × ℕ = keep trim lines to_string items b "" in
      let k : Keeps items b "" r = keep-Keeps items b "" in
      (
        too_long items b r k long,
        refl,
        ap (λ t. t ++ marker trim lines to_string r.1) k.front,
        long,
        elim k.fits [
          | inl all ↦ inl all
          | inr fit ↦
              inr (omega (arith, fit, estimate_tokens-append r.0 (marker trim lines to_string r.1)))
        ],
      )

  fitted :
      (items : List ContextItem) (b : ℕ) (layer : Layer) (rest : FitResult)
      → let rendered = render trim lines to_string items layer in
        (b < estimate_tokens rendered → Fitted items b rest)
        → Fitted items b (
            if leb (estimate_tokens rendered) b
            then record { text = rendered; layer = layer; elided_items = 0 }
            else rest)
  fitted items b layer rest later =
      let rendered : String = render trim lines to_string items layer in
      elim (Bool-cases (leb (estimate_tokens rendered) b)) [
        | inl room ↦ rw room (inl (refl, refl, leb→le _ _ room))
        | inr full ↦ rw full (later (not_leb (estimate_tokens rendered) b full))
      ]

  from_l0 :
      (fuel : ℕ) (items : List ContextItem) (b : ℕ)
      → Fitted items b (degrade_loop trim lines to_string (suc fuel) items b l0)
  unfolding degrade_loop degrade
  from_l0 fuel items b =
      fitted items b l0 (truncate trim lines to_string items b)
        (λ long. inr (truncate-Cut items b long))

  from_l1 :
      (fuel : ℕ) (items : List ContextItem) (b : ℕ)
      → Fitted items b (degrade_loop trim lines to_string (suc (suc fuel)) items b l1)
  unfolding degrade_loop degrade
  from_l1 fuel items b = fitted items b l1 _ (λ long. from_l0 fuel items b)

  -- The result either has all items, rendered in its layer and within the budget; or the plainest rendering of all items
  -- is over the budget, and the result is a front of the items in this layer with the line that counts the others, which
  -- is within the budget unless no item is kept.
  pub fit_to_budget_detailed_lem :
      (items : List ContextItem) (budget_tokens : ℕ) (layer : Layer)
      → Fitted items budget_tokens
          (fit_to_budget_detailed trim lines to_string items budget_tokens layer)
  unfolding fit_to_budget_detailed degrade_loop degrade
  fit_to_budget_detailed_lem items b l0 = from_l0 2 items b
  fit_to_budget_detailed_lem items b l1 = from_l1 1 items b
  fit_to_budget_detailed_lem items b l2 = fitted items b l2 _ (λ long. from_l1 0 items b)

  -- No layer is given up that fits: where all items, rendered in a layer up to the one that was asked for, are within
  -- the budget, the result has all items, in this layer or in a richer one.
  pub fit_to_budget_detailed-richest :
      (items : List ContextItem) (budget_tokens : ℕ) (layer l : Layer)
      → detail l ≤ detail layer
      → estimate_tokens (render trim lines to_string items l) ≤ budget_tokens
      → let r = fit_to_budget_detailed trim lines to_string items budget_tokens layer in
        (detail l ≤ detail r.layer) × (r.elided_items ≡ 0)
  unfolding fit_to_budget_detailed degrade_loop degrade
  fit_to_budget_detailed-richest items b l0 l0 up room = ground arith
  fit_to_budget_detailed-richest items b l0 l1 up room = absurd (omega (arith, up))
  fit_to_budget_detailed-richest items b l0 l2 up room = absurd (omega (arith, up))
  fit_to_budget_detailed-richest items b l1 l0 up room = ground arith
  fit_to_budget_detailed-richest items b l1 l1 up room = ground arith
  fit_to_budget_detailed-richest items b l1 l2 up room = absurd (omega (arith, up))
  fit_to_budget_detailed-richest items b l2 l0 up room = ground arith
  fit_to_budget_detailed-richest items b l2 l1 up room = ground arith
  fit_to_budget_detailed-richest items b l2 l2 up room = ground arith
