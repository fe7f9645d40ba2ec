-- ===== src/Graph/Imports.antt =====
-- crates/gitpixel-graph/src/imports.rs: from the text of an import to a file of the repository, and `lang_of`
-- of crates/gitpixel-graph/src/extract.rs.
pub mod Listed
mod Examples
use Prim.Native.String.{◌++◌}
use gitpixel.Base.{
  ℕ, zero, suc, ◌-◌, Bool, true, false, not, ◌&&◌, ◌||◌, List, [], ◌∷◌, map, Option, none, some,
  ◌==◌,
}
use gitpixel.Base.{String, str_eq, starts_with, has, take, drop, length, if◌then◌else◌}
use gitpixel.Graph.Text.{
  split, split_text, join, trim, trim_colons, ends_with, contains_char, after_last, before_last,
  replace_char, leading,
}
use gitpixel.Graph.Store.{select}
use Prim.Native.Char.{Char}

unfoldable pub lang_of_extension : String → Option String
lang_of_extension ext =
    if has ext ("ts" ∷ "mts" ∷ "cts" ∷ [])
    then some "ts"
    else if str_eq ext "tsx"
    then some "tsx"
    else if has ext ("js" ∷ "jsx" ∷ "mjs" ∷ "cjs" ∷ [])
    then some "js"
    else if str_eq ext "rs"
    then some "rust"
    else if str_eq ext "go"
    then some "go"
    else if str_eq ext "java"
    then some "java"
    else if str_eq ext "py"
    then some "python"
    else none

unfoldable pub lang_of : String → Option String
lang_of path =
    let file = after_last b'/' path in
    if contains_char b'.' file then lang_of_extension (after_last b'.' file) else none

unfoldable pub dir_of : String → String
dir_of path = before_last b'/' path

unfoldable pub pop : List String → List String
pop [] = []
pop (p ∷ []) = []
pop (p ∷ q ∷ ps) = p ∷ pop (q ∷ ps)

-- One segment of a relative path, at the end of the parts so far.
unfoldable pub push_segment : List String → String → List String
push_segment parts seg =
    if str_eq seg "" || str_eq seg "."
    then parts
    else if str_eq seg ".."
    then pop parts
    else push parts seg
  where
    push : List String → String → List String
    push [] s = s ∷ []
    push (p ∷ ps) s = p ∷ push ps s

unfoldable pub push_segments : List String → List String → List String
push_segments parts [] = parts
push_segments parts (s ∷ ss) = push_segments (push_segment parts s) ss

unfoldable pub normalize : String → String → String
normalize base_dir rel =
    join "/"
      (push_segments (if str_eq base_dir "" then [] else split b'/' base_dir) (split b'/' rel))

-- The first of the files that passes a test.
unfoldable pub find_file : (String → Bool) → List String → Option String
find_file p [] = none
find_file p (f ∷ fs) = let rest = find_file p fs in if p f then some f else rest

unfoldable pub first_suffix_match : List String → String → Option String
first_suffix_match all_files suffix =
    find_file (λ f. str_eq f suffix || ends_with f ("/" ++ suffix)) all_files

-- The first of the candidates that is a file.
unfoldable pub try_each : List String → List String → Option String
try_each all_files [] = none
try_each all_files (c ∷ cs) =
    let rest = try_each all_files cs in if has c all_files then some c else rest

abbrev pub or_else : Option String → Option String → Option String
or_else none o = o
or_else (some p) o = some p

abbrev pub js_exts : List String
js_exts = ".ts" ∷ ".tsx" ∷ ".js" ∷ ".jsx" ∷ ".mjs" ∷ ".cjs" ∷ []

abbrev pub is_some : Option String → Bool
is_some none = false
is_some (some s) = true

unfoldable pub resolve_js : String → String → List String → Option String
resolve_js spec importer_rel all_files =
    let base = normalize (dir_of importer_rel) spec in
    if not (starts_with spec ".")
    then none
    else if is_some (lang_of base) && has base all_files
    then some base
    else or_else (try_each all_files (map (λ ext. base ++ ext) js_exts))
        (try_each all_files (map (λ ext. base ++ "/index" ++ ext) js_exts))

abbrev pub non_empty : List String → List String
non_empty ss = select (λ s. not (str_eq s "")) ss

abbrev pub first_or : String → List String → String
first_or d [] = d
first_or d (s ∷ ss) = s

-- The segments of a Rust path, without its alias, its braces and its glob.
unfoldable pub rust_segments : String → List String
rust_segments spec =
    let unaliased = first_or spec (split_text " as " spec) in
    let path = trim (trim_colons (first_or unaliased (split b'{' unaliased))) in
    select (λ s. not (str_eq s "") && not (str_eq s "*")) (split_text "::" path)

-- The loop over the leading `super` segments.
unfoldable pub super_root : String → List String → String × List String
super_root dir [] = (dir_of dir, [])
super_root dir (s ∷ rest) = elim (str_eq s "super") [
  | true ↦ super_root (dir_of dir) rest
  | false ↦ (dir_of dir, s ∷ rest)
]

-- The roots to look under and the segments below them; `none` for the crates of the language.
unfoldable pub rust_roots : String → List String → Option (List String × List String)
rust_roots importer_dir [] = none
rust_roots importer_dir (s ∷ segs) =
    if str_eq s "crate"
    then some ("src" ∷ "" ∷ [], segs)
    else if str_eq s "self"
    then some (importer_dir ∷ [], segs)
    else if str_eq s "super"
    then (let up = super_root importer_dir segs in some (up.0 ∷ [], up.1))
    else if has s ("std" ∷ "core" ∷ "alloc" ∷ [])
    then none
    else some ("src" ∷ "" ∷ importer_dir ∷ [], s ∷ segs)

unfoldable pub try_roots : List String → String → List String → Option String
try_roots all_files modpath [] = none
try_roots all_files modpath (root ∷ roots) =
    let base = if str_eq root "" then modpath else root ++ "/" ++ modpath in
    or_else (try_each all_files ((base ++ ".rs") ∷ (base ++ "/mod.rs") ∷ []))
      (try_roots all_files modpath roots)

-- The loop over `(1..=segs.len()).rev()`.
unfoldable pub rust_loop : ℕ → List String → List String → List String → Option String
rust_loop zero all_files roots segs = none
rust_loop (suc k) all_files roots segs =
    let modpath = join "/" (take (suc k) segs) in
    or_else (try_roots all_files modpath roots)
      (or_else (first_suffix_match all_files (modpath ++ ".rs")) (rust_loop k all_files roots segs))

abbrev rust_under : List String → Option (List String × List String) → Option String
rust_under all_files none = none
rust_under all_files (some (roots, segs)) = rust_loop (length segs) all_files roots segs

unfoldable pub resolve_rust : String → String → List String → Option String
resolve_rust spec importer_rel all_files =
    rust_under all_files (rust_roots (dir_of importer_rel) (rust_segments spec))

unfoldable pub up_dirs : ℕ → String → String
up_dirs zero dir = dir
up_dirs (suc n) dir = up_dirs n (dir_of dir)

unfoldable pub python_loop : ℕ → List String → List String → Option String
python_loop zero all_files segs = none
python_loop (suc k) all_files segs =
    let modpath = join "/" (take (suc k) segs) in
    let file = modpath ++ ".py" in
    let init_file = modpath ++ "/__init__.py" in
    or_else (try_each all_files (file ∷ [])) (
      or_else (first_suffix_match all_files file) (
        or_else (try_each all_files (init_file ∷ []))
          (or_else (first_suffix_match all_files init_file) (python_loop k all_files segs))))

-- The base of a relative import: a directory, and the segments below it.
unfoldable pub python_base : String → List String → String
python_base dir [] = dir
python_base dir (s ∷ segs) =
    if str_eq dir "" then join "/" (s ∷ segs) else dir ++ "/" ++ join "/" (s ∷ segs)

-- Absolute and relative imports: how many dots lead, and the segments.
abbrev pub python_under : ℕ → List String → String → List String → Option String
python_under zero segs importer_rel all_files = python_loop (length segs) all_files segs
python_under (suc n) segs importer_rel all_files =
    let base = python_base (up_dirs n (dir_of importer_rel)) segs in
    try_each all_files ((base ++ ".py") ∷ (base ++ "/__init__.py") ∷ [])

unfoldable pub resolve_python : String → String → List String → Option String
resolve_python spec importer_rel all_files =
    let dots = leading b'.' spec in
    python_under dots.0 (non_empty (split b'.' dots.1)) importer_rel all_files

abbrev pub in_directory : String → String → String → Bool
in_directory extension suffix f =
    ends_with f extension && (str_eq (dir_of f) suffix || ends_with (dir_of f) ("/" ++ suffix))

unfoldable pub go_loop : ℕ → List String → List String → Option String
go_loop zero all_files segs = none
go_loop (suc k) all_files segs =
    or_else (find_file (in_directory ".go" (join "/" (drop (length segs - suc k) segs))) all_files)
      (go_loop k all_files segs)

unfoldable pub resolve_go : String → List String → Option String
resolve_go spec all_files =
    let segs = non_empty (split b'/' spec) in go_loop (length segs) all_files segs

unfoldable pub drop_last_two : String → String
drop_last_two String.[] = ""
drop_last_two (String.◌∷◌ c s) =
    let rest = drop_last_two s in if str_eq s ".*" then String.◌∷◌ c "" else String.◌∷◌ c rest

unfoldable pub resolve_java : String → List String → Option String
resolve_java spec all_files =
    let slashes = replace_char b'.' "/" in
    if ends_with spec ".*"
    then find_file
        (in_directory ".java" (slashes (if str_eq spec ".*" then "" else drop_last_two spec)))
        all_files
    else or_else (first_suffix_match all_files (slashes spec ++ ".java"))
        (first_suffix_match all_files (after_last b'.' spec ++ ".java"))

unfoldable pub resolve_import : String → String → List String → Option String
resolve_import spec importer_rel all_files = elim (lang_of importer_rel) [
  | none ↦ none
  | some lang ↦
      if has lang ("ts" ∷ "tsx" ∷ "js" ∷ [])
      then resolve_js spec importer_rel all_files
      else if str_eq lang "rust"
      then resolve_rust spec importer_rel all_files
      else if str_eq lang "python"
      then resolve_python spec importer_rel all_files
      else if str_eq lang "go"
      then resolve_go spec all_files
      else if str_eq lang "java"
      then resolve_java spec all_files
      else none
]
