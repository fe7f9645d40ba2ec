-- ===== src/Graph/Changes/Examples.antt =====
-- A small diff, and what crates/gitpixel-graph reads from it.
use gitpixel.Base.{[], ◌∷◌, ◌≡◌, refl, String}
use gitpixel.Base.{All}
use gitpixel.Graph.Text.{split, join, trim, trim_start, trim_end}
use gitpixel.Graph.Changes.{
  parse_lines, parse_line, lines, drop_chars, trim_prefix, new_file, update_last, push_hunk,
  find_plus, hunk_numbers, hunk_range, parse_u32, digits, parse_diff, modified,
}
use gitpixel.Graph.Changes.Ranges.{HasRanges, parse_diff_ranges}

abbrev diff_text : String
diff_text = "--- a/src/lib.rs\n+++ b/src/lib.rs\n@@ -3,2 +3,4 @@ fn f\n+x\n"

parse_diff_ranges_example : All HasRanges (parse_diff diff_text)
parse_diff_ranges_example = parse_diff_ranges diff_text

diff_parsed :
    parse_diff diff_text
    ≡ record { path = "src/lib.rs"; status = modified; new_ranges = (3, 6) ∷ [] } ∷ []
unfolding parse_diff parse_lines parse_line lines split trim trim_start trim_end drop_chars
    trim_prefix new_file update_last push_hunk find_plus hunk_numbers hunk_range parse_u32 digits
    join
diff_parsed = refl
