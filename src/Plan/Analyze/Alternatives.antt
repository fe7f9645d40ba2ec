-- ===== src/Plan/Analyze/Alternatives.antt =====
-- The alternatives that plan.rs collects: products of lists, and the members of a class.
use gitpixel.Base.{
  ℕ, zero, suc, ◌+◌, ◌-◌, ◌≤◌, ◌<◌, ◌≡◌, ap, subst, inl, inr, List, [], ◌∷◌, ◌++◌, some, map, arith,
}
use gitpixel.Base.{Bool-cases, Option-cases, ltb, ◌==◌, length}
use gitpixel.Plan.Syntax.{InRanges}
use gitpixel.Plan.Utf8.{from_u32, encode_utf8, from_u32-eq}
use gitpixel.Plan.Query.Sound.{OneOf}
use gitpixel.Plan.Analyze.{max_class_expansion, push_bytes, byte_alternatives}
use gitpixel.Plan.Analyze.{push_chars, char_alternatives}
use gitpixel.Plan.Analyze.{cross}

pub OneOf-append_left : (s : List ℕ) (xs ys : List (List ℕ)) → OneOf s xs → OneOf s (xs ++ ys)
OneOf-append_left s [] ys m = absurd m
OneOf-append_left s (x ∷ xs) ys (inl e) = inl e
OneOf-append_left s (x ∷ xs) ys (inr m) = inr (OneOf-append_left s xs ys m)

pub OneOf-append_right : (s : List ℕ) (xs ys : List (List ℕ)) → OneOf s ys → OneOf s (xs ++ ys)
OneOf-append_right s [] ys m = m
OneOf-append_right s (x ∷ xs) ys m = inr (OneOf-append_right s xs ys m)

OneOf-map_prefix :
    (u v : List ℕ) (alts : List (List ℕ))
    → OneOf v alts
    → OneOf (u ++ v) (map (λ alt. u ++ alt) alts)
OneOf-map_prefix u v [] m = absurd m
OneOf-map_prefix u v (alt ∷ alts) (inl e) = inl (rw e)
OneOf-map_prefix u v (alt ∷ alts) (inr m) = inr (OneOf-map_prefix u v alts m)

pub OneOf-cross :
    (u v : List ℕ) (run alts : List (List ℕ))
    → OneOf u run
    → OneOf v alts
    → OneOf (u ++ v) (cross run alts)
unfolding cross
OneOf-cross u v [] alts m n = absurd m
OneOf-cross u v (prefix ∷ run) alts (inl e) n =
    OneOf-append_left (u ++ v) (map (λ alt. prefix ++ alt) alts) (cross run alts)
      (rw e (OneOf-map_prefix prefix v alts n))
OneOf-cross u v (prefix ∷ run) alts (inr m) n =
    OneOf-append_right (u ++ v) (map (λ alt. prefix ++ alt) alts) (cross run alts)
      (OneOf-cross u v run alts m n)

-- Classes.

-- The alternatives of the ranges read so far stay, and each value of the ranges to come is added.
OneOf-push_bytes_old :
    (s : List ℕ) (byte n : ℕ) (alts : List (List ℕ))
    → OneOf s alts
    → OneOf s (push_bytes byte n alts)
unfolding push_bytes
OneOf-push_bytes_old s byte zero alts m = m
OneOf-push_bytes_old s byte (suc n) alts m =
    OneOf-push_bytes_old s (byte + 1) n (alts ++ (byte ∷ []) ∷ []) (OneOf-append_left s alts _ m)

OneOf-push_bytes :
    (b byte n : ℕ) (alts : List (List ℕ))
    → byte ≤ b
    → b < byte + n
    → OneOf (b ∷ []) (push_bytes byte n alts)
unfolding push_bytes
OneOf-push_bytes b byte zero alts lo hi = absurd (omega arith)
OneOf-push_bytes b byte (suc n) alts lo hi = elim (Bool-cases (b == byte)) [
  | inl e ↦
      OneOf-push_bytes_old (b ∷ []) (byte + 1) n (alts ++ (byte ∷ []) ∷ [])
        (OneOf-append_right (b ∷ []) alts ((byte ∷ []) ∷ []) (inl (ground arith)))
  | inr e ↦ OneOf-push_bytes b (byte + 1) n (alts ++ (byte ∷ []) ∷ []) (ground arith) (omega arith)
]

module _ (s : List ℕ) where
  byte_alternatives_old :
      (ranges : List (ℕ × ℕ)) (alts : List (List ℕ)) {out : List (List ℕ)}
      → byte_alternatives ranges alts ≡ some out
      → OneOf s alts
      → OneOf s out
  unfolding byte_alternatives
  byte_alternatives_old [] alts {out} e m = let same : alts ≡ out = cc in subst (OneOf s) same m
  byte_alternatives_old ((lo, hi) ∷ ranges) alts e m =
      elim (Bool-cases (ltb max_class_expansion (hi - lo + length alts))) [
        | inl wide ↦ cc
        | inr narrow ↦
            byte_alternatives_old ranges (push_bytes lo (hi + 1 - lo) alts) (rw narrow at e)
              (OneOf-push_bytes_old s lo (hi + 1 - lo) alts m)
      ]

byte_alternatives_sound :
    (b : ℕ) (ranges : List (ℕ × ℕ)) (alts : List (List ℕ)) {out : List (List ℕ)}
    → byte_alternatives ranges alts ≡ some out
    → InRanges b ranges
    → OneOf (b ∷ []) out
unfolding byte_alternatives
byte_alternatives_sound b [] alts e r = absurd r
byte_alternatives_sound b ((lo, hi) ∷ ranges) alts e r =
    let more : List (List ℕ) = push_bytes lo (hi + 1 - lo) alts in
    elim (Bool-cases (ltb max_class_expansion (hi - lo + length alts))) [
      | inl wide ↦ cc
      | inr narrow ↦ elim r [
        | inl (above, below) ↦
            byte_alternatives_old (b ∷ []) ranges more (rw narrow at e)
              (OneOf-push_bytes b lo (hi + 1 - lo) alts above (omega arith))
        | inr later ↦ byte_alternatives_sound b ranges more (rw narrow at e) later
      ]
    ]

OneOf-push_chars_old :
    (s : List ℕ) (cp n : ℕ) (alts : List (List ℕ)) {out : List (List ℕ)}
    → push_chars cp n alts ≡ some out
    → OneOf s alts
    → OneOf s out
unfolding push_chars
OneOf-push_chars_old s cp zero alts {out} e m = let same : alts ≡ out = cc in subst (OneOf s) same m
OneOf-push_chars_old s cp (suc n) alts e m = elim (Option-cases (from_u32 cp)) [
  | inl absent ↦ ground arith
  | inr (ch, found) ↦
      OneOf-push_chars_old s (cp + 1) n (alts ++ encode_utf8 ch ∷ []) (rw (found, push_chars) at e)
        (OneOf-append_left s alts _ m)
]

OneOf-push_chars :
    (c cp n : ℕ) (alts : List (List ℕ)) {out : List (List ℕ)}
    → push_chars cp n alts ≡ some out
    → cp ≤ c
    → c < cp + n
    → OneOf (encode_utf8 c) out
unfolding push_chars
OneOf-push_chars c cp zero alts e lo hi = absurd (omega arith)
OneOf-push_chars c cp (suc n) alts e lo hi = elim (Option-cases (from_u32 cp)) [
  | inl absent ↦ ground arith
  | inr (ch, found) ↦
      let more : List (List ℕ) = alts ++ encode_utf8 ch ∷ [] in
      elim (Bool-cases (c == cp)) [
        | inl same ↦
            let ch-c : c ≡ ch = ground (arith, from_u32-eq cp found) in
            OneOf-push_chars_old (encode_utf8 c) (cp + 1) n more (rw (found, push_chars) at e) (
              OneOf-append_right (encode_utf8 c) alts (encode_utf8 ch ∷ [])
                (inl (ap encode_utf8 ch-c)))
        | inr later ↦
            OneOf-push_chars c (cp + 1) n more (rw (found, push_chars) at e) (ground arith)
              (omega arith)
      ]
]

module _ (s : List ℕ) where
  char_alternatives_old :
      (ranges : List (ℕ × ℕ)) (alts : List (List ℕ)) {out : List (List ℕ)}
      → char_alternatives ranges alts ≡ some out
      → OneOf s alts
      → OneOf s out
  unfolding char_alternatives
  char_alternatives_old [] alts {out} e m = let same : alts ≡ out = cc in subst (OneOf s) same m
  char_alternatives_old ((lo, hi) ∷ ranges) alts e m =
      elim (Bool-cases (ltb max_class_expansion (hi - lo + length alts))) [
        | inl wide ↦ cc
        | inr narrow ↦ elim (Option-cases (push_chars lo (hi + 1 - lo) alts)) [
          | inl bad ↦ ground arith
          | inr (more, pushed) ↦
              char_alternatives_old ranges more (rw (narrow, pushed, char_alternatives) at e)
                (OneOf-push_chars_old s lo (hi + 1 - lo) alts pushed m)
        ]
      ]

char_alternatives_sound :
    (c : ℕ) (ranges : List (ℕ × ℕ)) (alts : List (List ℕ)) {out : List (List ℕ)}
    → char_alternatives ranges alts ≡ some out
    → InRanges c ranges
    → OneOf (encode_utf8 c) out
unfolding char_alternatives
char_alternatives_sound c [] alts e r = absurd r
char_alternatives_sound c ((lo, hi) ∷ ranges) alts e r =
    elim (Bool-cases (ltb max_class_expansion (hi - lo + length alts))) [
      | inl wide ↦ cc
      | inr narrow ↦ elim (Option-cases (push_chars lo (hi + 1 - lo) alts)) [
        | inl bad ↦ ground arith
        | inr (more, pushed) ↦ elim r [
          | inl (above, below) ↦
              char_alternatives_old (encode_utf8 c) ranges more
                (rw (narrow, pushed, char_alternatives) at e)
                (OneOf-push_chars c lo (hi + 1 - lo) alts pushed above (omega arith))
          | inr later ↦
              char_alternatives_sound c ranges more (rw (narrow, pushed, char_alternatives) at e)
                later
        ]
      ]
    ]

-- What `class_alternatives` returns for a class of bytes has every member of the class, and for a class
-- of characters the encoding of every member.
pub class_alternatives_complete :
    (ranges : List (ℕ × ℕ)) (out : List (List ℕ)) (c : ℕ)
    → InRanges c ranges
    → (byte_alternatives ranges [] ≡ some out → OneOf (c ∷ []) out)
      × (char_alternatives ranges [] ≡ some out → OneOf (encode_utf8 c) out)
class_alternatives_complete ranges out c r =
    (λ e. byte_alternatives_sound c ranges [] e r, λ e. char_alternatives_sound c ranges [] e r)
