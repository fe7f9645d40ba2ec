-- ===== src/IndexSet/Collect.antt =====
-- Which paths the loops over the file ids of the layers collect.
use gitpixel.Base.{
  ℕ, zero, suc, ◌<◌, ◌≡◌, ◌↔◌, ◌⊎◌, inl, inr, refl, subst, Bool, true, false, ◌||◌, List, [], ◌∷◌,
  Option, none, some, arith,
}
use gitpixel.Base.{
  String, str_eq, eq_iff, length, has, ◌==◌, elem, insert_path, has-insert_path, Bool-cases,
}
use gitpixel.IndexSet.{path_of, insert_visible, collect, insert_all}

-- A file id that the loop reaches gives the path.
abbrev pub At : List String → List ℕ → String → Type 0
At files ids p = (x : ℕ) × (elem x ids ≡ true) × (path_of files x ≡ some p)

has-insert_visible :
    (hidden : String → Bool) (o : Option String) (p : String) (paths : List String)
    → has p (insert_visible hidden o paths) ≡ true
      ↔ ((o ≡ some p) × (hidden p ≡ false)) ⊎ (has p paths ≡ true)
unfolding insert_visible
has-insert_visible hidden none p paths = (λ m. inr m, λ m. elim m [ inl a ↦ cc | inr b ↦ b ])
has-insert_visible hidden (some q) p paths = elim (Bool-cases (hidden q)) [
  | inl e ↦
      rw e (λ m. inr m, λ m. elim m [ inl (same, v) ↦ (let e' : q ≡ p = cc in cc) | inr b ↦ b ])
  | inr e ↦ rw e (
    λ m. elim (Bool-cases (str_eq p q)) [
      | inl same ↦ let e' : p ≡ q = (eq_iff p q).0 same in inl (cc, cc)
      | inr other ↦ inr (ground (arith, has-insert_path q p paths))
    ],
    λ m. elim m [
      | inl (same, v) ↦
          (let e' : p ≡ q = cc in ground (arith, has-insert_path q p paths, (eq_iff p q).1 e'))
      | inr b ↦ ground (arith, has-insert_path q p paths)
    ],
  )
]

pub has-collect :
    (hidden : String → Bool) (files : List String) (ids : List ℕ) (p : String) (paths : List String)
    → has p (collect hidden files ids paths) ≡ true
      ↔ (At files ids p × (hidden p ≡ false)) ⊎ (has p paths ≡ true)
unfolding collect
has-collect hidden files [] p paths = (λ m. inr m, λ m. elim m [ inl a ↦ cc | inr b ↦ b ])
has-collect hidden files (id ∷ ids) p paths =
    let later : List String = insert_visible hidden (path_of files id) paths in
    let (to, from) = has-collect hidden files ids p later in
    let (to_one, from_one) = has-insert_visible hidden (path_of files id) p paths in
    (
      λ m. elim (to m) [
        | inl ((x, e, at), v) ↦ inl ((x, ground arith, at), v)
        | inr b ↦ elim (to_one b) [
          | inl (at, v) ↦ inl ((id, ground arith, at), v)
          | inr old ↦ inr old
        ]
      ],
      λ m. elim m [
        | inl ((x, e, at), v) ↦ elim (Bool-cases (x == id)) [
          | inl same ↦
              (let e' : x ≡ id = ground arith in
                from (inr (from_one (inl (subst (λ (i : ℕ). path_of files i ≡ some p) e' at, v)))))
          | inr other ↦ from (inl ((x, ground arith, at), v))
        ]
        | inr old ↦ from (inr (from_one (inr old)))
      ],
    )

pub has-insert_all :
    (ps : List String) (p : String) (paths : List String)
    → has p (insert_all ps paths) ≡ (has p ps || has p paths)
unfolding insert_all
has-insert_all [] p paths = refl
has-insert_all (q ∷ ps) p paths =
    ground (arith, has-insert_all ps p (insert_path q paths), has-insert_path q p paths, eq_iff p q)

pub path_of-below :
    (files : List String) (x : ℕ) (p : String) → path_of files x ≡ some p → x < length files
unfolding path_of
path_of-below [] x p e = cc
path_of-below (q ∷ files) zero p e = omega arith
path_of-below (q ∷ files) (suc x) p e = omega (arith, path_of-below files x p e)

pub or_cases : (a b : Bool) → (a || b) ≡ true → (a ≡ true) ⊎ (b ≡ true)
or_cases a b e = ground arith

pub or_left : (a b : Bool) → a ≡ true → (a || b) ≡ true
or_left a b e = ground arith

pub or_right : (a b : Bool) → b ≡ true → (a || b) ≡ true
or_right a b e = ground arith
