-- ===== src/Recall/Visit.antt =====
-- The closure `visit` of search.rs in crates/gitpixel-recall with the loop that calls it on the rows in their order.
-- `matches` tells whether the regular expression finds anything in the text of a turn.
use gitpixel.Base.{
  ℕ, zero, suc, ◌+◌, ◌-◌, ◌≤◌, ◌<◌, ◌≡◌, refl, sym, ◌∙◌, Bool, true, false, not, List, [], ◌∷◌,
  ◌++◌, max, inl, inr, arith,
}
use gitpixel.Base.{
  ltb, ltb→lt, if◌then◌else◌, length, take, drop, drop-nil, Bool-cases, append_assoc, append_nil,
  length-append,
}
use gitpixel.Recall.{Turn}

pub record SearchResult : Type 0 where
  pub hits : List Turn
  pub turns_considered : ℕ
  pub truncated : Bool

abbrev pub no_hits : SearchResult
no_hits = record { hits = []; turns_considered = 0; truncated = false }

take-nil : (n : ℕ) → take {A = Turn} n [] ≡ []
take-nil zero = refl
take-nil (suc n) = refl

module _ (matches : Turn → Bool) (offset limit : ℕ) where
  -- The loop from a number of skipped matches and what is found so far.
  unfoldable pub visit_rows : List Turn → ℕ → SearchResult → SearchResult
  visit_rows [] skipped result = result
  visit_rows (row ∷ rows) skipped result =
      let seen = result.turns_considered + 1 in
      let passed = visit_rows rows skipped (record result { turns_considered = seen }) in
      let skips = visit_rows rows (skipped + 1) (record result { turns_considered = seen }) in
      let hits = result.hits ++ row ∷ [] in
      let more = visit_rows rows skipped (record result { hits = hits; turns_considered = seen }) in
      if not (matches row)
      then passed
      else if ltb skipped offset
      then skips
      else if ltb (length hits) limit
      then more
      else record { hits = hits; turns_considered = seen; truncated = true }

  abbrev pub matching : List Turn → List Turn
  matching [] = []
  matching (t ∷ rows) = if matches t then t ∷ matching rows else matching rows

  visit_lem :
      (rows : List Turn) (skipped : ℕ) (result : SearchResult)
      → skipped ≤ offset
      → (length result.hits < max limit 1)
      → (visit_rows rows skipped result).hits
        ≡ result.hits
          ++ take (max limit 1 - length result.hits) (drop (offset - skipped) (matching rows))
  unfolding visit_rows
  visit_lem [] skipped result h room =
      rw (← drop-nil (offset - skipped), take-nil (max limit 1 - length result.hits))
        (sym (append_nil result.hits))
  visit_lem (row ∷ rows) skipped result h room = elim (Bool-cases (matches row)) [
    | inr no_match ↦ rw no_match (visit_lem rows skipped _ h room)
    | inl match ↦ elim (Bool-cases (ltb skipped offset)) [
      | inl before ↦
          let rest : offset - skipped ≡ suc (offset - (skipped + 1)) = ground arith in
          rw (match, before, rest) (visit_lem rows (skipped + 1) _ (ground arith) room)
      | inr from ↦
          let none_left : offset - skipped ≡ 0 = ground arith in
          let one_more : max limit 1 - length result.hits
              ≡ suc (max limit 1 - suc (length result.hits)) =
            omega (arith, room) in
          let grown : length (result.hits ++ row ∷ []) ≡ suc (length result.hits) =
            length-append result.hits (row ∷ []) ∙ (omega arith) in
          elim (Bool-cases (ltb (length (result.hits ++ row ∷ [])) limit)) [
            | inl more ↦
                let room' : length (result.hits ++ row ∷ []) < max limit 1 =
                  omega (arith, ltb→lt (length (result.hits ++ row ∷ [])) limit more) in
                let later : List Turn =
                  take (max limit 1 - suc (length result.hits)) (matching rows) in
                rw (match, from, more, none_left, one_more)
                  (visit_lem rows skipped _ h room'
                    ∙ (rw (grown, none_left) (append_assoc result.hits (row ∷ []) later)))
            | inr full ↦
                let last : max limit 1 - suc (length result.hits) ≡ 0 =
                  ground (arith, room, grown) in
                rw (match, from, full, none_left, one_more, last) refl
          ]
    ]
  ]

  -- The hits are the rows that the pattern matches, in the order of the rows, without the first `offset`, cut to the
  -- limit, where a limit of zero counts as one.
  pub visit_rows_lem :
      (rows : List Turn)
      → (visit_rows rows 0 no_hits).hits ≡ take (max limit 1) (drop offset (matching rows))
  visit_rows_lem rows =
      let whole : max limit 1 - 0 ≡ max limit 1 = omega arith in
      let start : offset - 0 ≡ offset = omega arith in
      visit_lem rows 0 no_hits (omega arith) (omega arith) ∙ (rw (whole, start) refl)
