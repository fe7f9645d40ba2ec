-- ===== src/Context/Examples.antt =====
-- Two items of crates/gitpixel-context/src/lib.rs, in budgets that suffice and that do not.
use gitpixel.Base.{ℕ, zero, suc, ◌≤◌, ◌≡◌, refl, List, [], ◌∷◌, arith, String}
use gitpixel.Context.{
  ContextItem, Layer, l0, l2, FitResult, estimate_tokens, render_item, render_from, render, marker,
  keep, truncate, degrade, degrade_loop, fit_to_budget_detailed, location, push_sig, push_snippet,
  push_lines,
}
use gitpixel.Context.Budget.{
  Fitted, fit_to_budget_detailed_lem, fit_to_budget_detailed-richest, detail,
}

abbrev same : String → String
same text = text

abbrev one_line : String → List String
one_line text = text ∷ []

abbrev digits : ℕ → String
digits zero = "0"
digits (suc zero) = "1"
digits (suc (suc zero)) = "2"
digits (suc (suc (suc n))) = "9"

abbrev parse : ContextItem
parse = record {
  name = "parse";
  kind = "fn";
  path = "src/a.rs";
  start_line = 9;
  end_line = 9;
  sig = "fn parse(input: &str) -> Option<Tree>";
  snippet = "let tree = grammar.parse(input); tree.check().then_some(tree)";
}

abbrev items : List ContextItem
items = parse ∷ parse ∷ parse ∷ []

abbrev fit : ℕ → Layer → FitResult
fit = fit_to_budget_detailed same one_line digits items

one_left : fit 15 l2 ≡ record {
  text = "src/a.rs:9-9 fn parse\n… 2 more items elided (budget)\n";
  layer = l0;
  elided_items = 2;
}
unfolding fit_to_budget_detailed degrade_loop degrade truncate keep marker render render_from
    render_item push_sig push_snippet push_lines location estimate_tokens
one_left = refl

fit_to_budget_detailed_lem_example : Fitted same one_line digits items 15 (fit 15 l2)
fit_to_budget_detailed_lem_example = fit_to_budget_detailed_lem same one_line digits items 15 l2

fit_to_budget_detailed-richest_example :
    (detail l0 ≤ detail (fit 30 l2).layer) × ((fit 30 l2).elided_items ≡ 0)
unfolding render render_from render_item push_sig push_snippet push_lines location estimate_tokens
fit_to_budget_detailed-richest_example =
    fit_to_budget_detailed-richest same one_line digits items 30 l2 l0 (omega arith) (omega arith)
