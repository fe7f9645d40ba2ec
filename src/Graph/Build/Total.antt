-- ===== src/Graph/Build/Total.antt =====
-- The passes of crates/gitpixel-graph/src/build.rs never index out of range, if the extraction does not.
use gitpixel.Base.{
  ℕ, zero, suc, ◌<◌, true, false, List, [], ◌∷◌, Option, none, some, ◌≡◌, refl, sym, ap, ◌∙◌, inl,
  inr, arith, subst, Bool-cases, Option-cases, eq_iff,
}
use gitpixel.Base.{String, str_eq, length, All, find, insert, find-insert}
use gitpixel.Graph.Store.{GraphStore, replace_file}
use gitpixel.Graph.Resolve.{PendingCall, FileCalls}
use gitpixel.Graph.Build.{
  Extracted, FileExtraction, RawSymbol, RawCall, Tree, nth, enclosing_id, pending_call, calls_of,
  store_imports, extract_tree, store_symbols, store_files, link_file, link_files,
}
use gitpixel.Graph.Build.Fresh.{store_imports_meta}

abbrev pub InRange : ℕ → Option ℕ → Type 0
InRange n none = Unit
InRange n (some i) = i < n

-- The calls of an extraction stand in its symbols.
abbrev pub IsIndexed : FileExtraction → Type 0
IsIndexed fx = All (λ c. InRange (length fx.symbols) c.enclosing_index) fx.calls

nth-some : (i : ℕ) (ids : List ℕ) → i < length ids → (s : ℕ) × (nth i ids ≡ some s)
unfolding nth
nth-some i [] h = absurd (omega arith)
nth-some zero (x ∷ xs) h = (x, refl)
nth-some (suc i) (x ∷ xs) h = nth-some i xs (omega arith)

enclosing_id-some :
    (ids : List ℕ) (o : Option ℕ)
    → InRange (length ids) o
    → (e : Option ℕ) × (enclosing_id ids o ≡ some e)
unfolding enclosing_id
enclosing_id-some ids none h = (none, refl)
enclosing_id-some ids (some i) h =
    let (s, e) = nth-some i ids h in (some s, rw (enclosing_id, e) refl)

calls_of-some :
    (ids : List ℕ) (cs : List RawCall)
    → All (λ c. InRange (length ids) c.enclosing_index) cs
    → (r : List PendingCall) × (calls_of ids cs ≡ some r)
unfolding calls_of
calls_of-some ids [] a = ([], refl)
calls_of-some ids (c ∷ cs) a =
    let (e, f) = enclosing_id-some ids c.enclosing_index a.0 in
    let (r, g) = calls_of-some ids cs a.1 in (pending_call c e ∷ r, rw (calls_of, f, g) refl)

-- The second pass finds the file of each extraction, and an id for each index.
abbrev pub Ready : List (String × ℕ) → List Extracted → List (List ℕ) → Type 0
Ready m [] idss = Unit
Ready m (e ∷ es) [] = true ≡ false
Ready m (e ∷ es) (ids ∷ idss) =
    ((k : ℕ) × (find e.rel m ≡ some k))
    × All (λ c. InRange (length ids) c.enclosing_index) e.fx.calls
    × Ready m es idss

module _ (new_id : List ℕ → ℕ) where
  pub link_files-some :
      (paths : List String) (m : List (String × ℕ)) (es : List Extracted) (idss : List (List ℕ))
      (g : GraphStore)
      → Ready m es idss
      → (r : List FileCalls × GraphStore) × (link_files new_id paths m es idss g ≡ some r)
        × (r.1.meta ≡ g.meta)
  unfolding link_files link_file
  link_files-some paths m [] idss g ready = (([], g), refl, refl)
  link_files-some paths m (e ∷ es) [] g ready = absurd cc
  link_files-some paths m (e ∷ es) (ids ∷ idss) g ((k, f), a, ready) =
      let (cs, c) = calls_of-some ids e.fx.calls a in
      let (r, l, same) =
        link_files-some paths m es idss (store_imports paths m k e.rel e.fx.imports g) ready in
      (
        (record { file_id = k; calls = cs } ∷ r.0, r.1),
        rw (link_files, link_file, f, c, l) refl,
        same ∙ store_imports_meta paths m k e.rel e.fx.imports g,
      )

  length-store_symbols :
      (rel : String) (file_id : ℕ) (ss : List RawSymbol) (g : GraphStore)
      → length (store_symbols new_id rel file_id ss g).0 ≡ length ss
  unfolding store_symbols
  length-store_symbols rel file_id [] g = refl
  length-store_symbols rel file_id (s ∷ ss) g = ap suc (length-store_symbols rel file_id ss _)

  insert_found :
      (j k : String) (v : ℕ) (m : List (String × ℕ))
      → (w : ℕ) × (find k m ≡ some w)
      → (w : ℕ) × (find k (insert j v m) ≡ some w)
  insert_found j k v m (w, e) = elim (Bool-cases (str_eq j k)) [
    | inl same ↦ (v, rw (find-insert j k v m, same) refl)
    | inr other ↦ (w, rw (find-insert j k v m, other) e)
  ]

  store_files_found :
      (es : List Extracted) (k : String) (m : List (String × ℕ)) (g : GraphStore)
      → (w : ℕ) × (find k m ≡ some w)
      → (w : ℕ) × (find k (store_files new_id es m g).0 ≡ some w)
  unfolding store_files
  store_files_found [] k m g found = found
  store_files_found (e ∷ es) k m g found =
      store_files_found es k _ _ (insert_found e.rel k _ m found)

  pub store_files-Ready :
      (es : List Extracted) (m : List (String × ℕ)) (g : GraphStore)
      → All (λ e. IsIndexed e.fx) es
      → Ready (store_files new_id es m g).0 es (store_files new_id es m g).1
  unfolding store_files
  store_files-Ready [] m g a = tt
  store_files-Ready (e ∷ es) m g a =
      let file : ℕ × GraphStore = replace_file new_id e.rel e.blob_oid e.fx.lang g in
      let sized : length (store_symbols new_id e.rel file.0 e.fx.symbols file.1).0
          ≡ length e.fx.symbols =
        length-store_symbols e.rel file.0 e.fx.symbols file.1 in
      (
        store_files_found es e.rel _ _
            (file.0, rw (find-insert e.rel e.rel file.0 m, (eq_iff e.rel e.rel).1 refl) refl),
        subst (λ n. All (λ c. InRange n c.enclosing_index) e.fx.calls) (sym sized) a.0,
        store_files-Ready es _ _ a.1,
      )

module _ (extract : String → List ℕ → Option FileExtraction) (blob_oid : List ℕ → String) where
  pub extract_tree-IsIndexed :
      (inputs : Tree)
      → ((rel : String) (content : List ℕ) (fx : FileExtraction)
          → extract rel content ≡ some fx
          → IsIndexed fx)
      → All (λ e. IsIndexed e.fx) (extract_tree extract blob_oid inputs)
  unfolding extract_tree
  extract_tree-IsIndexed [] sound = tt
  extract_tree-IsIndexed ((rel, content) ∷ inputs) sound =
      elim (Option-cases (extract rel content)) [
        | inl e ↦ rw (extract_tree, e) (extract_tree-IsIndexed inputs sound)
        | inr (fx, e) ↦
            rw (extract_tree, e) (sound rel content fx e, extract_tree-IsIndexed inputs sound)
      ]
