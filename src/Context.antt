-- ===== src/Context.antt =====
-- crates/gitpixel-context/src/lib.rs: the rendering of context items in layers, fitted into a budget of tokens. `trim` and
-- `lines` of str and the decimal notation of a number are parameters. `len` counts the bytes of a text.
pub mod Budget
mod Examples
use Prim.Native.String.{◌++◌, len}
use gitpixel.Base.{
  ℕ, zero, suc, ◌+◌, ◌-◌, ◌/◌, Bool, true, false, not, List, [], ◌∷◌, Option, none, some,
}
use gitpixel.Base.{String, str_eq, ltb, leb, if◌then◌else◌, length}

pub record ContextItem : Type 0 where
  pub name : String
  pub kind : String
  pub path : String
  pub start_line : ℕ
  pub end_line : ℕ
  pub sig : String
  pub snippet : String

-- Names and locations, with signatures, with snippets.
pub data Layer : Type 0 where
  l0 : Layer
  l1 : Layer
  l2 : Layer

unfoldable pub degrade : Layer → Option Layer
degrade l2 = some l1
degrade l1 = some l0
degrade l0 = none

pub record FitResult : Type 0 where
  pub text : String
  pub layer : Layer
  pub elided_items : ℕ

-- `text.len().div_ceil(4)`
unfoldable pub estimate_tokens : String → ℕ
estimate_tokens text = (len text + 3) / 4

abbrev shows_sig : Layer → Bool
shows_sig l0 = false
shows_sig l1 = true
shows_sig l2 = true

abbrev shows_snippet : Layer → Bool
shows_snippet l0 = false
shows_snippet l1 = false
shows_snippet l2 = true

abbrev elision_line : String → String
elision_line count = "… " ++ (count ++ " more items elided (budget)\n")

module _ (trim : String → String) (lines : String → List String) (to_string : ℕ → String) where
  unfoldable pub push_lines : List String → String → String
  push_lines [] out = out
  push_lines (line ∷ more) out = push_lines more (out ++ ("    " ++ (line ++ "\n")))

  unfoldable pub location : ContextItem → String
  location item =
      item.path
      ++ (":"
          ++ (to_string item.start_line
              ++ ("-" ++ (to_string item.end_line ++ (" " ++ (item.kind ++ (" " ++ item.name)))))))

  unfoldable pub push_sig : ContextItem → Layer → String → String
  push_sig item layer out =
      if not (shows_sig layer)
      then out
      else if str_eq item.sig ""
      then out
      else out ++ (" — " ++ trim item.sig)

  unfoldable pub push_snippet : ContextItem → Layer → String → String
  push_snippet item layer out =
      if not (shows_snippet layer)
      then out
      else if str_eq item.snippet ""
      then out
      else push_lines (lines item.snippet) out

  unfoldable pub render_item : ContextItem → Layer → String → String
  render_item item layer out =
      push_snippet item layer (push_sig item layer (out ++ location item) ++ "\n")

  -- The loop of `render`, from what is rendered so far.
  unfoldable pub render_from : List ContextItem → Layer → String → String
  render_from [] layer out = out
  render_from (item ∷ items) layer out = render_from items layer (render_item item layer out)

  unfoldable pub render : List ContextItem → Layer → String
  render items layer = render_from items layer ""

  unfoldable pub marker : ℕ → String
  marker elided = if ltb 0 elided then elision_line (to_string elided) else ""

  -- The greedy loop: what is kept in `out`, and how many items are left when it ends. The items left are
  -- those of the list, so `items.len() - (kept + 1)` is the length of its tail.
  unfoldable pub keep : List ContextItem → ℕ → String → String × ℕ
  keep [] budget_tokens out = (out, 0)
  keep (item ∷ items) budget_tokens out =
      let candidate = render_item item l0 out in
      let rest = keep items budget_tokens candidate in
      if leb (estimate_tokens candidate + estimate_tokens (marker (length items))) budget_tokens
      then rest
      else (out, suc (length items))

  unfoldable pub truncate : List ContextItem → ℕ → FitResult
  truncate items budget_tokens =
      let (out, elided) = keep items budget_tokens "" in
      record { text = out ++ marker elided; layer = l0; elided_items = elided }

  -- The loop over the layers. Two can be degraded, so three rounds are enough.
  unfoldable pub degrade_loop : ℕ → List ContextItem → ℕ → Layer → FitResult
  degrade_loop zero items budget_tokens current = truncate items budget_tokens
  degrade_loop (suc fuel) items budget_tokens current =
      let rendered = render items current in
      if leb (estimate_tokens rendered) budget_tokens
      then record { text = rendered; layer = current; elided_items = 0 }
      else elim (degrade current) [
        | some next ↦ degrade_loop fuel items budget_tokens next
        | none ↦ truncate items budget_tokens
      ]

  unfoldable pub fit_to_budget_detailed : List ContextItem → ℕ → Layer → FitResult
  fit_to_budget_detailed items budget_tokens layer = degrade_loop 3 items budget_tokens layer

  unfoldable pub fit_to_budget : List ContextItem → ℕ → Layer → String
  fit_to_budget items budget_tokens layer = (fit_to_budget_detailed items budget_tokens layer).text
