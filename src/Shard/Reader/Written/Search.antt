-- ===== src/Shard/Reader/Written/Search.antt =====
-- The binary search of shard.rs over the sorted hashes of a builder.
use gitpixel.Base.{
  ℕ, zero, suc, ◌≤◌, ◌<◌, ◌≡◌, refl, sym, ◌∙◌, true, false, ◌&&◌, List, [], ◌∷◌, arith, inl, inr,
}
use gitpixel.Base.{ltb, ◌==◌, length, get_or, elem, Rises, Bool-cases}
use gitpixel.Shard.Builder.{ids_of}
use gitpixel.Shard.Writer.{keys}
use gitpixel.Shard.Reader.{lower_bound}
use gitpixel.Shard.Reader.Bounds.{Lands, lower_bound_lem}

at_least_first : (lo : ℕ) (hs : List ℕ) (i : ℕ) → Rises lo hs → i < length hs → lo ≤ get_or hs i 0
at_least_first lo [] i up h = absurd (omega (arith, h))
at_least_first lo (x ∷ hs) zero up h = up.0
at_least_first lo (x ∷ hs) (suc i) up h =
    omega (arith, up.0, at_least_first x hs i up.1 (omega (arith, h)))

pub get_or-Rises :
    (lo : ℕ) (hs : List ℕ) (i j : ℕ)
    → Rises lo hs
    → i ≤ j
    → j < length hs
    → get_or hs i 0 ≤ get_or hs j 0
get_or-Rises lo [] i j up le h = absurd (omega (arith, h))
get_or-Rises lo (x ∷ hs) zero zero up le h = omega arith
get_or-Rises lo (x ∷ hs) zero (suc j) up le h = at_least_first x hs j up.1 (omega (arith, h))
get_or-Rises lo (x ∷ hs) (suc i) zero up le h = absurd (omega (arith, le))
get_or-Rises lo (x ∷ hs) (suc i) (suc j) up le h =
    get_or-Rises x hs i j up.1 (omega (arith, le)) (omega (arith, h))

-- Where a member of a list stands.
pub index_of :
    (h : ℕ) (hs : List ℕ) → elem h hs ≡ true → (i : ℕ) × (i < length hs) × (get_or hs i 0 ≡ h)
index_of h [] e = cc
index_of h (x ∷ hs) e = elim (Bool-cases (h == x)) [
  | inl same ↦ (0, omega arith, ground arith)
  | inr other ↦
      let later : elem h hs ≡ true = ground arith in
      let (i, below, at) = index_of h hs later in (suc i, omega (arith, below), at)
]

pub ids_of-absent : (h : ℕ) (m : List (ℕ × List ℕ)) → elem h (keys m) ≡ false → ids_of h m ≡ []
unfolding keys ids_of
ids_of-absent h [] e = refl
ids_of-absent h ((k, ids) ∷ m) e = ground (arith, ids_of-absent h m)

pub elem-get_or : (hs : List ℕ) (i : ℕ) → i < length hs → elem (get_or hs i 0) hs ≡ true
elem-get_or [] i h = absurd (omega (arith, h))
elem-get_or (x ∷ hs) zero h = ground arith
elem-get_or (x ∷ hs) (suc i) h = ground (arith, elem-get_or hs i (omega (arith, h)))

module _ (hs : List ℕ) (up : Rises 0 hs) (key : ℕ → ℕ)
    (key_at : (i : ℕ) → i < length hs → key i ≡ get_or hs i 0) (h : ℕ) where
  abbrev place : ℕ
  place = lower_bound key h (length hs) 0 (length hs)

  lands : Lands key h 0 (length hs) place
  lands =
      lower_bound_lem key h (length hs) 0 (length hs)
        (λ i j a b c.
          omega (arith, key_at i (omega (arith, b, c)), key_at j c, get_or-Rises 0 hs i j up b c))
        (omega arith) (omega arith)

  present : (i : ℕ) → i < length hs → get_or hs i 0 ≡ h → (place < length hs) × (key place ≡ h)
  present i below at =
      let early : ¬ (i < place) =
        λ lt. absurd (omega (arith, lands.below i (omega arith) lt, key_at i below, at)) in
      let low : place ≤ i = omega (arith, early) in
      let inside : place < length hs = omega (arith, low, below) in
      (
        inside,
        omega (
          arith,
          lands.above place (omega arith) inside,
          key_at place inside,
          get_or-Rises 0 hs place i up low below,
          at,
        ),
      )

  -- The search finds a hash exactly if it is one of the sorted hashes.
  pub lower_bound-elem : (ltb place (length hs) && key place == h) ≡ elem h hs
  lower_bound-elem = elim (Bool-cases (elem h hs)) [
    | inl e ↦ let (i, below, at) = index_of h hs e in ground (arith, present i below at)
    | inr e ↦ elim (Bool-cases (ltb place (length hs) && key place == h)) [
      | inl found ↦ ground (arith, elem-get_or hs place, key_at place)
      | inr missed ↦ missed ∙ sym e
    ]
  ]
