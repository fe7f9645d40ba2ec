-- ===== src/Graph/Resolve/Decide.antt =====
-- What the decisions of crates/gitpixel-graph/src/resolve.rs are worth.
use gitpixel.Base.{
  ℕ, Bool, true, false, ◌&&◌, List, [], ◌∷◌, Option, ◌≡◌, refl, sym, ◌==◌, inl, inr, arith, subst,
  Bool-cases, Option-cases, ==_iff,
}
use gitpixel.Base.{String, elem, length, ltb, All, find}
use gitpixel.Graph.Store.{select}
use gitpixel.Graph.Store.Linked.{All-select}
use gitpixel.Graph.Trace.{get}
use gitpixel.Graph.Resolve.{
  ResolveIndex, Candidate, Decision, exact, probable, unresolved, best, best_from, key_less,
  or_empty, decide, decide_raw, decide_beyond, decide_imported, decide_unique, import_hits,
  files_of, binding_files, has_real_receiver, capped, exact_or,
}

-- A candidate with the property whose symbol is the id.
abbrev pub Named : (Candidate → Type 0) → ℕ → Type 0
Named P id = (c : Candidate) × (c.symbol_id ≡ id) × P c

-- The target of an exact decision has the first property, that of a probable one the second.
abbrev pub Targets : (Candidate → Type 0) → (Candidate → Type 0) → Decision → Type 0
Targets P Q (exact id) = Named P id
Targets P Q (probable id) = Named Q id
Targets P Q unresolved = Unit

best_from_lem :
    (P : Candidate → Type 0) (c : Candidate) (cs : List Candidate)
    → P c
    → All P cs
    → P (best_from c cs)
unfolding best_from
best_from_lem P c [] p a = p
best_from_lem P c (d ∷ ds) p a = elim (Bool-cases (key_less d c)) [
  | inl e ↦ rw (best_from, e) (best_from_lem P d ds a.0 a.1)
  | inr e ↦ rw (best_from, e) (best_from_lem P c ds p a.1)
]

module _ (P Q : Candidate → Type 0) where
  best-exact_or :
      (cs : List Candidate) (d : Decision)
      → All P cs
      → Targets P Q d
      → Targets P Q (exact_or (best cs) d)
  unfolding best
  best-exact_or [] d a t = t
  best-exact_or (c ∷ cs) d a t = (best_from c cs, refl, best_from_lem P c cs a.0 a.1)

  decide_unique_lem : (cs : List Candidate) → All Q cs → Targets P Q (decide_unique cs)
  unfolding decide_unique best files_of
  decide_unique_lem [] a = tt
  decide_unique_lem (c ∷ cs) a = elim (Bool-cases (length (files_of (c ∷ cs)) == 1)) [
    | inl e ↦ rw (decide_unique, e) (best_from c cs, refl, best_from_lem Q c cs a.0 a.1)
    | inr e ↦ rw (decide_unique, e) tt
  ]

  decide_imported_lem :
      (hits cs : List Candidate) → All P hits → All Q cs → Targets P Q (decide_imported hits cs)
  unfolding decide_imported
  decide_imported_lem hits cs a b = elim (Bool-cases (length (files_of hits) == 1)) [
    | inl e ↦
        rw (decide_imported, e) (best-exact_or hits (decide_unique cs) a (decide_unique_lem cs b))
    | inr e ↦ elim (Bool-cases (ltb 1 (length (files_of hits)))) [
      | inl f ↦ rw (decide_imported, e, f) tt
      | inr f ↦ rw (decide_imported, e, f) (decide_unique_lem cs b)
    ]
  ]

-- The file of a candidate is the caller's, or one from which the caller imports the name.
pub data Visible (idx : ResolveIndex) (caller : ℕ) (name : String) (c : Candidate) : Type 0 where
  own : c.file_id ≡ caller → Visible idx caller name c
  imported :
      elem c.file_id (or_empty (binding_files caller name idx.import_bindings)) ≡ true
      → elem c.file_id (or_empty (get caller idx.imports_of)) ≡ true
      → Visible idx caller name c

abbrev pub candidates : ResolveIndex → String → List Candidate
candidates idx name = or_empty (find name idx.by_name)

module _ (P : Candidate → Type 0) (idx : ResolveIndex) (caller : ℕ) (name : String) where
  -- Exact decisions are about visible candidates.
  abbrev pub Decides : Decision → Type 0
  Decides = Targets (λ c. P c × Visible idx caller name c) P

  decide_beyond_lem : (cs : List Candidate) → All P cs → Decides (decide_beyond idx caller name cs)
  unfolding decide_beyond import_hits
  decide_beyond_lem cs a = elim (Option-cases (get caller idx.imports_of)) [
    | inl e ↦ rw (decide_beyond, e) (decide_unique_lem _ P cs a)
    | inr (files, e) ↦
        rw (decide_beyond, e)
          (decide_imported_lem _ P _ cs
            (All-select {P = P}
              (λ c.
                elem c.file_id (or_empty (binding_files caller name idx.import_bindings))
                && elem c.file_id files)
              cs
              (λ c hit p. (
                p,
                imported (ground arith)
                    (subst (λ o. elem c.file_id (or_empty o) ≡ true) (sym e) (ground arith)),
              ))
              a)
            a)
  ]

  decide_raw_lem : All P (candidates idx name) → Decides (decide_raw idx caller name)
  unfolding decide_raw
  decide_raw_lem a = elim (Option-cases (find name idx.by_name)) [
    | inl e ↦ rw (decide_raw, e) tt
    | inr (cs, e) ↦
        let all : All P cs = subst (λ o. All P (or_empty o)) e a in
        rw (decide_raw, e)
          (best-exact_or _ P (select (λ c. c.file_id == caller) cs)
            (decide_beyond idx caller name cs)
            (All-select {P = P} (λ c. c.file_id == caller) cs
              (λ c same p. (p, own ((==_iff c.file_id caller).0 same))) all)
            (decide_beyond_lem cs all))
  ]

  capped_lem :
      (real : Bool) (d : Decision)
      → Decides d
      → Decides (capped real d) × ((id : ℕ) → capped real d ≡ exact id → real ≡ false)
  capped_lem real (probable id) t = (t, λ i e. absurd (ground arith))
  capped_lem real unresolved t = (t, λ i e. absurd (ground arith))
  capped_lem true (exact id) (c, e, (p, v)) = ((c, e, p), λ i e. absurd (ground arith))
  capped_lem false (exact id) t = (t, λ i e. refl)

  -- A decision is about a candidate for the name, so it has what all candidates for the name have.
  -- If it is exact, the candidate's file is the caller's or one from which the caller imports the
  -- name, and the call has no real receiver.
  pub decide_lem :
      (receiver : Option String)
      → All P (candidates idx name)
      → Decides (decide idx caller name receiver)
        × ((id : ℕ)
            → decide idx caller name receiver ≡ exact id
            → has_real_receiver receiver ≡ false)
  unfolding decide
  decide_lem receiver a =
      capped_lem (has_real_receiver receiver) (decide_raw idx caller name) (decide_raw_lem a)
