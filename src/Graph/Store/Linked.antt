-- ===== src/Graph/Store/Linked.antt =====
-- The tables of crates/gitpixel-graph/src/store.rs refer to each other: what the operations keep of it.
use gitpixel.Base.{
  ℕ, Bool, true, false, not, List, [], ◌∷◌, ◌++◌, map, ◌≡◌, refl, ◌==◌, ◌||◌, inl, inr, ap, arith,
}
use gitpixel.Base.{String, elem, All, Option-cases, Bool-cases}
use gitpixel.Graph.Store.{
  select, delete, ids_in_file, file_by_path, clear_file, update_file_row, remove_file, replace_file,
}
use gitpixel.Graph.Store.{FileRow, SymbolRow, EdgeRow, GraphStore}

abbrev pub symbol_ids : List SymbolRow → List ℕ
symbol_ids = map (λ s. s.id)

abbrev pub file_ids : List FileRow → List ℕ
file_ids = map (λ f. f.id)

abbrev pub EndsIn : List ℕ → EdgeRow → Type 0
EndsIn ids e = (elem e.src_id ids ≡ true) × (elem e.dst_id ids ≡ true)

-- Edges end in symbols, and symbols stand in files.
pub record Linked (g : GraphStore) : Type 0 where
  pub edges_end : All (EndsIn (symbol_ids g.symbols)) g.edges
  pub symbols_stand : All (λ s. elem s.file_id (file_ids g.files) ≡ true) g.symbols

module _ {ℓ} {A : Type ℓ} (q : A → Bool) (x : A) (xs : List A) where
  pub select_in : q x ≡ true → select q (x ∷ xs) ≡ x ∷ select q xs
  unfolding select
  select_in e = rw (select, e) refl

  pub select_out : q x ≡ false → select q (x ∷ xs) ≡ select q xs
  unfolding select
  select_out e = rw (select, e) refl

module _ {ℓ κ λ'} {A : Type ℓ} {P : A → Type κ} {Q : A → Type λ'} where
  pub All-select :
      (q : A → Bool) (xs : List A)
      → ((x : A) → q x ≡ true → P x → Q x)
      → All P xs
      → All Q (select q xs)
  unfolding select
  All-select q [] step a = tt
  All-select q (x ∷ xs) step a = elim (Bool-cases (q x)) [
    | inl e ↦ rw e (step x e a.0, All-select q xs step a.1)
    | inr e ↦ rw e (All-select q xs step a.1)
  ]

  pub All-imp : (xs : List A) → ((x : A) → P x → Q x) → All P xs → All Q xs
  All-imp [] step a = tt
  All-imp (x ∷ xs) step a = (step x a.0, All-imp xs step a.1)

pub All-append {ℓ κ} :
    {A : Type ℓ} (P : A → Type κ) (xs ys : List A) → All P xs → All P ys → All P (xs ++ ys)
All-append P [] ys a b = b
All-append P (x ∷ xs) ys a b = (a.0, All-append P xs ys a.1 b)

-- A symbol that is not of the file stays.
pub kept_symbol :
    (i a : ℕ) (ss : List SymbolRow)
    → elem a (symbol_ids ss) ≡ true
    → elem a (ids_in_file i ss) ≡ false
    → elem a (symbol_ids (delete (λ s. s.file_id == i) ss)) ≡ true
unfolding select ids_in_file
kept_symbol i a [] there gone = there
kept_symbol i a (s ∷ ss) there gone = elim (Bool-cases (s.file_id == i)) [
  | inl e ↦ rw e (kept_symbol i a ss (ground arith) (ground arith))
  | inr e ↦ rw e (ground (arith, kept_symbol i a ss))
]

negated : (b : Bool) → not b ≡ true → b ≡ false
negated b e = ground arith

clear_file-Linked : (i : ℕ) (g : GraphStore) → Linked g → Linked (clear_file i g)
unfolding clear_file
clear_file-Linked i g l =
    let gone : List ℕ = ids_in_file i g.symbols in
    let kept : List ℕ = symbol_ids (delete (λ s. s.file_id == i) g.symbols) in
    let from : All
        (λ e. (elem e.src_id kept ≡ true) × (elem e.dst_id (symbol_ids g.symbols) ≡ true))
        (delete (λ e. elem e.src_id gone) g.edges) =
      All-select {P = EndsIn (symbol_ids g.symbols)} (λ e. not (elem e.src_id gone)) g.edges
        (λ e stays p. (kept_symbol i e.src_id g.symbols p.0 (negated _ stays), p.1)) l.edges_end in
    record {
      edges_end =
          All-select
            {P = λ e. (elem e.src_id kept ≡ true) × (elem e.dst_id (symbol_ids g.symbols) ≡ true)}
            (λ e. not (elem e.dst_id gone)) (delete (λ e. elem e.src_id gone) g.edges)
            (λ e stays p. (p.0, kept_symbol i e.dst_id g.symbols p.1 (negated _ stays))) from;
      symbols_stand =
          All-select (λ s. not (s.file_id == i)) g.symbols (λ s stays p. p) l.symbols_stand;
    }

update_file_row_ids :
    (i : ℕ) (b t : String) (fs : List FileRow) → file_ids (update_file_row i b t fs) ≡ file_ids fs
unfolding update_file_row
update_file_row_ids i b t [] = refl
update_file_row_ids i b t (f ∷ fs) = elim (Bool-cases (f.id == i)) [
  | inl e ↦ rw e (ap (λ r. f.id ∷ r) (update_file_row_ids i b t fs))
  | inr e ↦ rw e (ap (λ r. f.id ∷ r) (update_file_row_ids i b t fs))
]

-- A file that is not the removed one stays.
kept_file :
    (i a : ℕ) (fs : List FileRow)
    → elem a (file_ids fs) ≡ true
    → (a == i) ≡ false
    → elem a (file_ids (delete (λ r. r.id == i) fs)) ≡ true
unfolding select
kept_file i a [] there other = there
kept_file i a (f ∷ fs) there other = elim (Bool-cases (f.id == i)) [
  | inl e ↦ rw e (kept_file i a fs (ground arith) other)
  | inr e ↦ rw e (ground (arith, kept_file i a fs))
]

still_stands :
    (a : ℕ) (xs ys : List FileRow)
    → elem a (file_ids xs) ≡ true
    → elem a (file_ids (xs ++ ys)) ≡ true
still_stands a [] ys there = absurd (ground arith)
still_stands a (x ∷ xs) ys there = ground (arith, still_stands a xs ys)

-- After the replacement of a file, new or known, the edges still end in symbols and the symbols
-- stand in files, if they did before.
pub replace_file-Linked :
    (new_id : List ℕ → ℕ) (path oid lang : String) (g : GraphStore)
    → Linked g
    → Linked (replace_file new_id path oid lang g).1
unfolding replace_file
replace_file-Linked new_id path oid lang g l = elim (Option-cases (file_by_path path g)) [
  | inl e ↦
      rw (e, replace_file)
        record {
          edges_end = l.edges_end;
          symbols_stand =
              All-imp g.symbols (λ s p. still_stands s.file_id g.files _ p) l.symbols_stand;
        }
  | inr (f, e) ↦
      let h : Linked (clear_file f.id g) = clear_file-Linked f.id g l in
      rw (e, replace_file)
        record {
          edges_end = h.edges_end;
          symbols_stand =
              rw (update_file_row_ids f.id oid lang (clear_file f.id g).files) h.symbols_stand;
        }
]

either : (a b : Bool) → not (a || b) ≡ true → (a ≡ false) × (b ≡ false)
either a b e = ground arith

-- After the removal of a file the edges still end in symbols and the symbols stand in files, if
-- they did before.
pub remove_file-Linked : (path : String) (g : GraphStore) → Linked g → Linked (remove_file path g)
unfolding remove_file
remove_file-Linked path g l = elim (Option-cases (file_by_path path g)) [
  | inl e ↦ rw (remove_file, e) l
  | inr (f, e) ↦
      let gone : List ℕ = ids_in_file f.id g.symbols in
      rw (remove_file, e)
        record {
          edges_end =
              All-select {P = EndsIn (symbol_ids g.symbols)}
                (λ e. not (elem e.src_id gone || elem e.dst_id gone)) g.edges
                (λ e stays p.
                  let out : (elem e.src_id gone ≡ false) × (elem e.dst_id gone ≡ false) =
                    either _ _ stays in
                  (
                    kept_symbol f.id e.src_id g.symbols p.0 out.0,
                    kept_symbol f.id e.dst_id g.symbols p.1 out.1,
                  ))
                l.edges_end;
          symbols_stand =
              All-select {P = λ s. elem s.file_id (file_ids g.files) ≡ true}
                (λ s. not (s.file_id == f.id)) g.symbols
                (λ s stays p. kept_file f.id s.file_id g.files p (negated _ stays)) l.symbols_stand;
        }
]
