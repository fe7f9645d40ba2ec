-- ===== src/Graph/Changes/Ranges.antt =====
-- The line ranges of crates/gitpixel-graph/src/changes.rs.
use gitpixel.Base.{ℕ, ◌≤◌, List, [], ◌∷◌, Option, none, some, ◌==◌, inl, inr, arith, Bool-cases}
use gitpixel.Base.{String, str_eq, starts_with, ltb, All}
use gitpixel.Graph.Store.Linked.{All-append}
use gitpixel.Graph.Changes.{
  FileDiff, hunk_range, push_hunk, update_last, new_file, parse_line, parse_lines, parse_diff,
  lines,
}

-- A range of lines, which count from one.
abbrev pub IsRange : ℕ × ℕ → Type 0
IsRange r = (1 ≤ r.0) × (r.0 ≤ r.1)

abbrev pub HasRanges : FileDiff → Type 0
HasRanges f = All IsRange f.new_ranges

hunk_range_lem : (start len : ℕ) → All IsRange (hunk_range start len)
unfolding hunk_range
hunk_range_lem start len = elim (Bool-cases (ltb 0 start)) [
  | inl e ↦ rw (hunk_range, e) ((ground arith, omega arith), tt)
  | inr e ↦ elim (Bool-cases (len == 0)) [
    | inl f ↦ rw (hunk_range, e, f) ((omega arith, omega arith), tt)
    | inr f ↦ rw (hunk_range, e, f) tt
  ]
]

push_hunk_lem : (o : Option String) (f : FileDiff) → HasRanges f → HasRanges (push_hunk o f)
unfolding push_hunk
push_hunk_lem none f h = h
push_hunk_lem (some plus) f h = All-append IsRange f.new_ranges _ h (hunk_range_lem _ _)

update_last_lem :
    (u : FileDiff → FileDiff) (fs : List FileDiff)
    → ((f : FileDiff) → HasRanges f → HasRanges (u f))
    → All HasRanges fs
    → All HasRanges (update_last u fs)
unfolding update_last
update_last_lem u [] h a = tt
update_last_lem u (f ∷ []) h a = (h f a.0, tt)
update_last_lem u (f ∷ g ∷ fs) h a = (a.0, update_last_lem u (g ∷ fs) h a.1)

new_file_lem : (old : Option String) (new : String) → HasRanges (new_file old new)
unfolding new_file
new_file_lem old new = elim (Bool-cases (str_eq new "/dev/null")) [
  | inl e ↦ rw (new_file, e) tt
  | inr e ↦ rw (new_file, e) tt
]

parse_line_lem :
    (line : String) (r : List FileDiff × Option String)
    → All HasRanges r.0
    → All HasRanges (parse_line line r).0
unfolding parse_line
parse_line_lem line (files, old) a = elim (Bool-cases (starts_with line "--- ")) [
  | inl e ↦ rw (parse_line, e) a
  | inr e ↦ elim (Bool-cases (starts_with line "+++ ")) [
    | inl f ↦ rw (parse_line, e, f) (All-append HasRanges files _ a (new_file_lem old _, tt))
    | inr f ↦ elim (Bool-cases (starts_with line "@@")) [
      | inl h ↦ rw (parse_line, e, f, h) (update_last_lem _ files (push_hunk_lem _) a)
      | inr h ↦ rw (parse_line, e, f, h) a
    ]
  ]
]

parse_lines_lem :
    (ls : List String) (r : List FileDiff × Option String)
    → All HasRanges r.0
    → All HasRanges (parse_lines ls r).0
unfolding parse_lines
parse_lines_lem [] r a = a
parse_lines_lem (l ∷ ls) r a = parse_lines_lem ls (parse_line l r) (parse_line_lem l r a)

-- Whatever text is taken for a diff, each range of changed lines starts at line one or later and
-- does not end before it starts, also where the sum of start and length wraps.
pub parse_diff_ranges : (output : String) → All HasRanges (parse_diff output)
unfolding parse_diff
parse_diff_ranges output = parse_lines_lem (lines output) ([], none) tt
