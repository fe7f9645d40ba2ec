-- ===== src/Graph/Changes.antt =====
-- crates/gitpixel-graph/src/changes.rs: the line ranges of a diff, and the parts of a report.
pub mod Detect
pub mod Ranges
mod Examples
use gitpixel.Base.{
  ℕ, zero, suc, ◌+◌, ◌-◌, ◌*◌, ◌%◌, ◌^◌, max, Bool, true, false, ◌&&◌, ◌||◌, List, [], ◌∷◌, ◌++◌,
  map, Option, none, some, ◌==◌,
}
use gitpixel.Base.{String, str_eq, starts_with, length, ltb, leb, insert_path, if◌then◌else◌}
use gitpixel.Graph.Text.{split, join, trim, trim_start, contains_char}
use gitpixel.Graph.Store.{
  GraphStore, FileRow, SymbolRow, EdgeRow, calls, edges_to, file_by_path, symbols_in_file,
  envelope_for_name,
}
use gitpixel.Graph.Resolve.{add_id}
use gitpixel.Graph.Impact.{processes_for_symbol, insert_labels, base_level, level_label}
use Prim.Native.Char.{Char, code}

pub data FileStatus : Type 0 where
  added deleted modified : FileStatus

pub record FileDiff : Type 0 where
  pub path : String
  pub status : FileStatus
  pub new_ranges : List (ℕ × ℕ)

pub record ChangedSymbol : Type 0 where
  pub uid : String
  pub name : String
  pub path : String
  pub change : String
  pub processes : List String

pub record ChangesReport : Type 0 where
  pub base : String
  pub changed_files : ℕ
  pub symbols : List ChangedSymbol
  pub affected_processes : List String
  pub risk : String
  pub envelope_note : String

-- `s.trim_start_matches("a/")` for a character.
unfoldable pub trim_prefix : ℕ → String → String
trim_prefix a String.[] = ""
trim_prefix a (String.◌∷◌ c String.[]) = String.◌∷◌ c ""
trim_prefix a (String.◌∷◌ c (String.◌∷◌ d s)) =
    let rest = trim_prefix a s in
    if code c == a && code d == b'/' then rest else String.◌∷◌ c (String.◌∷◌ d s)

-- The text after a prefix of a given length.
unfoldable pub drop_chars : ℕ → String → String
drop_chars zero s = s
drop_chars (suc n) String.[] = ""
drop_chars (suc n) (String.◌∷◌ c s) = drop_chars n s

unfoldable pub digits : ℕ → String → Option ℕ
digits acc String.[] = some acc
digits acc (String.◌∷◌ c s) =
    let rest = digits (10 * acc + (code c - 48)) s in
    if leb 48 (code c) && leb (code c) 57 then rest else none

abbrev fits_u32 : Option ℕ → Option ℕ
fits_u32 none = none
fits_u32 (some n) = if ltb n (2 ^ 32) then some n else none

-- `s.parse::<u32>().ok()`
unfoldable pub parse_u32 : String → Option ℕ
parse_u32 String.[] = none
parse_u32 (String.◌∷◌ c s) =
    if code c == b'+' && str_eq s ""
    then none
    else if code c == b'+'
    then fits_u32 (digits 0 s)
    else fits_u32 (digits 0 (String.◌∷◌ c s))

abbrev pub or_number : ℕ → Option ℕ → ℕ
or_number d none = d
or_number d (some n) = n

-- `splitn(2, ',')`: the start, and the length if there is a comma.
unfoldable pub hunk_numbers : List String → ℕ × ℕ
hunk_numbers [] = (0, 1)
hunk_numbers (s ∷ []) = (or_number 0 (parse_u32 s), 1)
hunk_numbers (s ∷ rest) = (or_number 0 (parse_u32 s), or_number 1 (parse_u32 (join "," rest)))

-- The range that a hunk header adds, with the sum wrapped.
unfoldable pub hunk_range : ℕ → ℕ → List (ℕ × ℕ)
hunk_range start len =
    if ltb 0 start
    then (start, max ((start + (len - 1)) % 2 ^ 32) start) ∷ []
    else if len == 0
    then (max start 1, max start 1) ∷ []
    else []

unfoldable pub find_plus : List String → Option String
find_plus [] = none
find_plus (t ∷ ts) = let rest = find_plus ts in if starts_with t "+" then some t else rest

unfoldable pub push_hunk : Option String → FileDiff → FileDiff
push_hunk none f = f
push_hunk (some plus) f =
    let n = hunk_numbers (split b',' (drop_chars 1 plus)) in
    record f { new_ranges = f.new_ranges ++ hunk_range n.0 n.1 }

-- `files.last_mut()`
unfoldable pub update_last : (FileDiff → FileDiff) → List FileDiff → List FileDiff
update_last u [] = []
update_last u (f ∷ []) = u f ∷ []
update_last u (f ∷ g ∷ fs) = f ∷ update_last u (g ∷ fs)

abbrev pub or_blank : Option String → String
or_blank none = ""
or_blank (some s) = s

-- The file that a line `+++ ` opens.
unfoldable pub new_file : Option String → String → FileDiff
new_file old_path new =
    if str_eq new "/dev/null"
    then record { path = or_blank old_path; status = deleted; new_ranges = [] }
    else record {
      path = trim_prefix b'b' new;
      status = if str_eq (or_blank old_path) "/dev/null" then added else modified;
      new_ranges = [];
    }

-- One line of the output.
unfoldable pub parse_line : String → List FileDiff × Option String → List FileDiff × Option String
parse_line line (files, old_path) =
    if starts_with line "--- "
    then (files, some (trim_prefix b'a' (trim (drop_chars 4 line))))
    else if starts_with line "+++ "
    then (files ++ (new_file old_path (trim (drop_chars 4 line)) ∷ []), old_path)
    else if starts_with line "@@"
    then (update_last (push_hunk (find_plus (split b' ' line))) files, old_path)
    else (files, old_path)

unfoldable pub parse_lines :
    List String → List FileDiff × Option String → List FileDiff × Option String
parse_lines [] r = r
parse_lines (l ∷ ls) r = parse_lines ls (parse_line l r)

drop_cr : String → String
drop_cr String.[] = ""
drop_cr (String.◌∷◌ c s) =
    let rest = drop_cr s in if code c == 13 && str_eq s "" then "" else String.◌∷◌ c rest

-- `output.lines()`: no last empty line, and no carriage return at the end of a line.
lines_of : List String → List String
unfolding drop_cr
lines_of [] = []
lines_of (l ∷ []) = if str_eq l "" then [] else l ∷ []
lines_of (l ∷ m ∷ ls) = drop_cr l ∷ lines_of (m ∷ ls)

unfoldable pub lines : String → List String
unfolding lines_of
lines output = lines_of (split 10 output)

unfoldable pub parse_diff : String → List FileDiff
parse_diff output = (parse_lines (lines output) ([], none)).0

unfoldable pub overlaps : List (ℕ × ℕ) → ℕ → ℕ → Bool
overlaps [] start end = false
overlaps ((a, b) ∷ ranges) start end = (leb a end && leb start b) || overlaps ranges start end
