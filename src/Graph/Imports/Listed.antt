-- ===== src/Graph/Imports/Listed.antt =====
-- The answers of crates/gitpixel-graph/src/imports.rs are files of the repository.
use gitpixel.Base.{
  ℕ, zero, suc, Bool, true, false, ◌&&◌, List, [], ◌∷◌, Option, none, some, ◌≡◌, refl, inl, inr,
  arith, Bool-cases, Option-cases, eq_iff,
}
use gitpixel.Base.{String, str_eq, has, length, if◌then◌else◌}
use gitpixel.Graph.Text.{ends_with}
use gitpixel.Graph.Imports.{
  lang_of, find_file, first_suffix_match, try_each, or_else, is_some, dir_of, normalize, resolve_js,
  rust_under, rust_loop, try_roots, resolve_rust, python_loop, python_under, resolve_python,
  go_loop, resolve_go, resolve_java, resolve_import,
}

-- What is found stands in the list.
abbrev pub Listed : List String → Option String → Type 0
Listed files none = Unit
Listed files (some f) = has f files ≡ true

module _ (files : List String) where
  or_else-Listed :
      (o p : Option String) → Listed files o → Listed files p → Listed files (or_else o p)
  or_else-Listed none p a b = b
  or_else-Listed (some f) p a b = a

  if_Listed :
      (b : Bool) (o p : Option String)
      → (b ≡ true → Listed files o)
      → Listed files p
      → Listed files (if b then o else p)
  if_Listed true o p a c = a refl
  if_Listed false o p a c = c

  find_file-Listed :
      (p : String → Bool) (fs : List String)
      → ((f : String) → has f fs ≡ true → has f files ≡ true)
      → Listed files (find_file p fs)
  unfolding find_file
  find_file-Listed p [] sub = tt
  find_file-Listed p (f ∷ fs) sub =
      if_Listed (p f) (some f) (find_file p fs) (λ e. sub f (ground (arith, eq_iff f f)))
        (find_file-Listed p fs (λ g there. sub g (ground arith)))

  try_each-Listed : (cs : List String) → Listed files (try_each files cs)
  unfolding try_each
  try_each-Listed [] = tt
  try_each-Listed (c ∷ cs) =
      if_Listed (has c files) (some c) (try_each files cs) (λ e. e) (try_each-Listed cs)

  suffix-Listed : (suffix : String) → Listed files (first_suffix_match files suffix)
  unfolding first_suffix_match
  suffix-Listed suffix = find_file-Listed _ files (λ f there. there)

  resolve_js-Listed : (spec importer : String) → Listed files (resolve_js spec importer files)
  unfolding resolve_js
  resolve_js-Listed spec importer =
      if_Listed _ none _ (λ e. tt)
        (if_Listed
          (is_some (lang_of (normalize (dir_of importer) spec))
            && has (normalize (dir_of importer) spec) files)
          (some (normalize (dir_of importer) spec)) _ (λ e. ground arith)
          (or_else-Listed _ _ (try_each-Listed _) (try_each-Listed _)))

  try_roots-Listed :
      (modpath : String) (roots : List String) → Listed files (try_roots files modpath roots)
  unfolding try_roots
  try_roots-Listed modpath [] = tt
  try_roots-Listed modpath (r ∷ rs) =
      or_else-Listed _ _ (try_each-Listed _) (try_roots-Listed modpath rs)

  rust_loop-Listed :
      (k : ℕ) (roots segs : List String) → Listed files (rust_loop k files roots segs)
  unfolding rust_loop
  rust_loop-Listed zero roots segs = tt
  rust_loop-Listed (suc k) roots segs =
      or_else-Listed _ _ (try_roots-Listed _ roots)
        (or_else-Listed _ _ (suffix-Listed _) (rust_loop-Listed k roots segs))

  rust_under-Listed : (o : Option (List String × List String)) → Listed files (rust_under files o)
  rust_under-Listed none = tt
  rust_under-Listed (some (roots, segs)) = rust_loop-Listed (length segs) roots segs

  python_loop-Listed : (k : ℕ) (segs : List String) → Listed files (python_loop k files segs)
  unfolding python_loop
  python_loop-Listed zero segs = tt
  python_loop-Listed (suc k) segs = or_else-Listed _ _ (try_each-Listed _) (
      or_else-Listed _ _ (suffix-Listed _) (
        or_else-Listed _ _ (try_each-Listed _)
          (or_else-Listed _ _ (suffix-Listed _) (python_loop-Listed k segs))))

  python_under-Listed :
      (dots : ℕ) (segs : List String) (importer : String)
      → Listed files (python_under dots segs importer files)
  python_under-Listed zero segs importer = python_loop-Listed (length segs) segs
  python_under-Listed (suc n) segs importer = try_each-Listed _

  go_loop-Listed : (k : ℕ) (segs : List String) → Listed files (go_loop k files segs)
  unfolding go_loop
  go_loop-Listed zero segs = tt
  go_loop-Listed (suc k) segs =
      or_else-Listed _ _ (find_file-Listed _ files (λ f there. there)) (go_loop-Listed k segs)

  resolve_java-Listed : (spec : String) → Listed files (resolve_java spec files)
  unfolding resolve_java
  resolve_java-Listed spec = elim (Bool-cases (ends_with spec ".*")) [
    | inl e ↦ rw (resolve_java, e) (find_file-Listed _ files (λ f there. there))
    | inr e ↦ rw (resolve_java, e) (or_else-Listed _ _ (suffix-Listed _) (suffix-Listed _))
  ]

  -- An import is resolved to one of the files, or not at all: the answer is never a path that is made up.
  pub resolve_import-Listed :
      (spec importer : String) → Listed files (resolve_import spec importer files)
  unfolding resolve_import resolve_rust resolve_python resolve_go
  resolve_import-Listed spec importer = elim (Option-cases (lang_of importer)) [
    | inl e ↦ rw (resolve_import, e) tt
    | inr (lang, e) ↦
        rw (resolve_import, e)
          (if_Listed (has lang ("ts" ∷ "tsx" ∷ "js" ∷ [])) _ _
            (λ b. resolve_js-Listed spec importer)
            (if_Listed (str_eq lang "rust") _ _ (λ b. rust_under-Listed _)
              (if_Listed (str_eq lang "python") _ _ (λ b. python_under-Listed _ _ importer)
                (if_Listed (str_eq lang "go") _ _ (λ b. go_loop-Listed _ _)
                  (if_Listed (str_eq lang "java") _ _ (λ b. resolve_java-Listed spec) tt)))))
  ]
