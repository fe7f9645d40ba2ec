-- ===== src/IndexSet/Reconcile/Diff.antt =====
-- Which paths of a diff `reconcile_delta` indexes again and which it supersedes.
use gitpixel.Base.{
  ℕ, ◌≡◌, ◌↔◌, ◌⊎◌, inl, inr, refl, Bool, true, false, not, ◌&&◌, ◌||◌, List, [], ◌∷◌, arith,
}
use gitpixel.Base.{String, str_eq, eq_iff, ◌==◌, has, has-add, Bool-cases}
use gitpixel.IndexSet.{is_internal}
use gitpixel.IndexSet.Reconcile.{push_change, split_diff, tombstone_set}

-- Whether an entry of the diff has the path and the status.
abbrev pub Entry : List (ℕ × String) → ℕ → String → Type 0
Entry [] status p = ⊥
Entry ((s, q) ∷ diff) status p = ((status ≡ s) × (p ≡ q)) ⊎ Entry diff status p

pub has-tombstone_set : (p : String) (ps : List String) → has p (tombstone_set ps) ≡ has p ps
unfolding tombstone_set
has-tombstone_set p [] = refl
has-tombstone_set p (q ∷ ps) =
    ground (arith, has-add q p (tombstone_set ps), has-tombstone_set p ps)

-- The path has an entry with another status than the one given.
abbrev pub has_other : ℕ → String → List (ℕ × String) → Bool
has_other except p [] = false
has_other except p ((s, q) ∷ diff) = (str_eq p q && not (s == except)) || has_other except p diff

pub has_other_iff :
    (except : ℕ) (p : String) (diff : List (ℕ × String))
    → has_other except p diff ≡ true
      ↔ ((status : ℕ) × Entry diff status p × ((status == except) ≡ false))
has_other_iff except p [] = (λ m. cc, λ (s, e, n). absurd e)
has_other_iff except p ((s, q) ∷ diff) =
    let (to, from) = has_other_iff except p diff in
    (
      λ m. elim (Bool-cases (str_eq p q && not (s == except))) [
        | inl e ↦ (s, inl (refl, (eq_iff p q).0 (ground arith)), ground arith)
        | inr e ↦ (let (status, entry, n) = to (ground arith) in (status, inr entry, n))
      ],
      λ (status, entry, n). elim entry [
        | inl (e, f) ↦ ground (arith, (eq_iff p q).1 f)
        | inr t ↦ ground (arith, from (status, t, n))
      ],
    )

internal_other : (p q : String) → is_internal p ≡ false → is_internal q ≡ true → str_eq p q ≡ false
internal_other p q i j = elim (Bool-cases (str_eq p q)) [
  | inl s ↦ (let same : p ≡ q = (eq_iff p q).0 s in cc)
  | inr other ↦ other
]

pub changed-has_other :
    (p : String) (diff : List (ℕ × String))
    → is_internal p ≡ false
    → has p (split_diff diff).changed ≡ has_other 68 p diff
unfolding split_diff push_change
changed-has_other p [] i = refl
changed-has_other p ((s, q) ∷ diff) i = elim (Bool-cases (is_internal q)) [
  | inl j ↦ rw (j, internal_other p q i j) (changed-has_other p diff i)
  | inr j ↦ rw j (elim (Bool-cases (s == 65)) [
    | inl a ↦ rw a (ground (arith, changed-has_other p diff i))
    | inr a ↦ rw a (elim (Bool-cases (s == 68)) [
      | inl d ↦ rw d (ground (arith, changed-has_other p diff i))
      | inr d ↦ rw d (ground (arith, changed-has_other p diff i))
    ])
  ])
]

pub tombstones-has_other :
    (p : String) (diff : List (ℕ × String))
    → is_internal p ≡ false
    → has p (split_diff diff).tombstones ≡ has_other 65 p diff
unfolding split_diff push_change
tombstones-has_other p [] i = refl
tombstones-has_other p ((s, q) ∷ diff) i = elim (Bool-cases (is_internal q)) [
  | inl j ↦ rw (j, internal_other p q i j) (tombstones-has_other p diff i)
  | inr j ↦ rw j (elim (Bool-cases (s == 65)) [
    | inl a ↦ rw a (ground (arith, tombstones-has_other p diff i))
    | inr a ↦ rw a (elim (Bool-cases (s == 68)) [
      | inl d ↦ rw d (ground (arith, tombstones-has_other p diff i))
      | inr d ↦ rw d (ground (arith, tombstones-has_other p diff i))
    ])
  ])
]
