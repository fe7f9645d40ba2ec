-- ===== src/Recall/Rows.antt =====
-- The turns that `search` of search.rs in crates/gitpixel-recall fetches, by its two paths.
use gitpixel.Base.{
  ℕ, ◌≤◌, ◌<◌, ◌≡◌, sym, ◌∙◌, ap, ◌⊎◌, inl, inr, Bool, true, List, [], ◌∷◌, Option, some, arith,
}
use gitpixel.Base.{elem, elem-append, Bool-cases}
use gitpixel.Recall.{
  Turn, where_rows, tail_turn_ids, up_to, fetch_ids, fetch_rows_by_ids, passes, scan_rows,
  use_fetch, considered,
}
use gitpixel.Recall.Segment.{Among}

-- A turn behind the mark, or with an id of the candidates.
abbrev pub Wanted : List ℕ → ℕ → Turn → Type 0
Wanted ids floor t = (floor < t.id) ⊎ ((t.id ≤ floor) × (elem t.id ids ≡ true))

elem-tail_turn_ids :
    (floor : ℕ) (turns : List Turn) (t : Turn)
    → floor < t.id
    → Among t turns
    → elem t.id (tail_turn_ids floor turns) ≡ true
unfolding tail_turn_ids
elem-tail_turn_ids floor [] t h m = absurd m
elem-tail_turn_ids floor (u ∷ turns) t h (inl same) = ground (arith, ap (λ (v : Turn). v.id) same)
elem-tail_turn_ids floor (u ∷ turns) t h (inr later) =
    ground (arith, elem-tail_turn_ids floor turns t h later)

elem-up_to :
    (floor id : ℕ) (ids : List ℕ)
    → id ≤ floor
    → elem id ids ≡ true
    → elem id (up_to floor ids) ≡ true
unfolding up_to
elem-up_to floor id [] h e = cc
elem-up_to floor id (x ∷ ids) h e = ground (arith, elem-up_to floor id ids h)

elem-fetch_ids :
    (ids : List ℕ) (floor : ℕ) (turns : List Turn) (t : Turn)
    → Among t turns
    → Wanted ids floor t
    → elem t.id (fetch_ids ids floor turns) ≡ true
unfolding fetch_ids
elem-fetch_ids ids floor turns t m (inl tail) =
    rw elem-append (ground (arith, elem-tail_turn_ids floor turns t tail m))
elem-fetch_ids ids floor turns t m (inr (upto, e)) =
    rw elem-append (ground (arith, elem-up_to floor t.id ids upto e))

Among-fetch_rows_by_ids :
    (ids : List ℕ) (turns : List Turn) (t : Turn)
    → Among t turns
    → elem t.id ids ≡ true
    → Among t (fetch_rows_by_ids ids turns)
unfolding fetch_rows_by_ids
Among-fetch_rows_by_ids ids [] t m e = absurd m
Among-fetch_rows_by_ids ids (u ∷ turns) t (inl same) e =
    let here : elem u.id ids ≡ true = ap (λ (v : Turn). elem v.id ids) (sym same) ∙ e in
    rw here (inl same)
Among-fetch_rows_by_ids ids (u ∷ turns) t (inr later) e = elim (Bool-cases (elem u.id ids)) [
  | inl in_ids ↦ rw in_ids (inr (Among-fetch_rows_by_ids ids turns t later e))
  | inr not_in ↦ rw not_in (Among-fetch_rows_by_ids ids turns t later e)
]

pub Among-scan_rows :
    (o : Option (List ℕ)) (floor : ℕ) (turns : List Turn) (t : Turn)
    → Among t turns
    → passes o floor t ≡ true
    → Among t (scan_rows o floor turns)
unfolding scan_rows
Among-scan_rows o floor [] t m e = absurd m
Among-scan_rows o floor (u ∷ turns) t (inl same) e =
    let here : passes o floor u ≡ true = ap (λ (v : Turn). passes o floor v) (sym same) ∙ e in
    rw here (inl same)
Among-scan_rows o floor (u ∷ turns) t (inr later) e = elim (Bool-cases (passes o floor u)) [
  | inl pass ↦ rw pass (inr (Among-scan_rows o floor turns t later e))
  | inr skip ↦ rw skip (Among-scan_rows o floor turns t later e)
]

passes-Wanted :
    (ids : List ℕ) (floor : ℕ) (t : Turn) → Wanted ids floor t → passes (some ids) floor t ≡ true
unfolding passes
passes-Wanted ids floor t (inl tail) = ground arith
passes-Wanted ids floor t (inr (upto, e)) = ground (arith, e)

pub Among-where_rows :
    (accepts : Turn → Bool) (turns : List Turn) (t : Turn)
    → Among t turns
    → accepts t ≡ true
    → Among t (where_rows accepts turns)
unfolding where_rows
Among-where_rows accepts [] t m e = absurd m
Among-where_rows accepts (u ∷ turns) t (inl same) e =
    let here : accepts u ≡ true = ap accepts (sym same) ∙ e in rw here (inl same)
Among-where_rows accepts (u ∷ turns) t (inr later) e = elim (Bool-cases (accepts u)) [
  | inl pass ↦ rw pass (inr (Among-where_rows accepts turns t later e))
  | inr skip ↦ rw skip (Among-where_rows accepts turns t later e)
]

pub Among-considered :
    (accepts : Turn → Bool) (ids : List ℕ) (floor : ℕ) (turns : List Turn) (t : Turn)
    → Among t turns
    → accepts t ≡ true
    → Wanted ids floor t
    → Among t (considered accepts (some ids) floor turns)
unfolding considered
Among-considered accepts ids floor turns t m a w =
    let rows : List Turn = where_rows accepts turns in
    let m' : Among t rows = Among-where_rows accepts turns t m a in
    elim (Bool-cases (use_fetch (some ids) floor turns)) [
      | inl fetch ↦ rw fetch (
          Among-fetch_rows_by_ids (fetch_ids ids floor turns) rows t m'
            (elem-fetch_ids ids floor turns t m w))
      | inr scan ↦
          rw scan (Among-scan_rows (some ids) floor rows t m' (passes-Wanted ids floor t w))
    ]
