-- ===== src/Recall/Batches.antt =====
-- The batches of turns that segment.rs of crates/gitpixel-recall takes from the table, whose ids ascend.
use gitpixel.Base.{
  ℕ, zero, suc, ◌≤◌, ◌<◌, ◌≡◌, refl, sym, ap, subst, ◌⊎◌, inl, inr, List, [], ◌∷◌, max, arith,
}
use gitpixel.Base.{ltb, ltb→lt, length, take, length-take, Ascends, Ascends-weaken, All, Bool-cases}
use native.Mathlib.Decide.{dec_lt}
use gitpixel.Recall.{Turn, newer, turns_for_indexing, max_id}
use gitpixel.Recall.Segment.{Among}

abbrev pub ids : List Turn → List ℕ
ids [] = []
ids (t ∷ turns) = t.id ∷ ids turns

pub Among-above :
    (lo : ℕ) (turns : List Turn) (t : Turn) → Ascends lo (ids turns) → Among t turns → lo ≤ t.id
Among-above lo [] t up m = absurd m
Among-above lo (u ∷ turns) t up (inl same) = omega (arith, up.0, ap (λ (v : Turn). v.id) same)
Among-above lo (u ∷ turns) t up (inr later) =
    omega (arith, up.0, Among-above (suc u.id) turns t up.1 later)

newer-Ascends :
    (after lo : ℕ) (turns : List Turn)
    → Ascends lo (ids turns)
    → Ascends lo (ids (newer after turns))
unfolding newer
newer-Ascends after lo [] up = tt
newer-Ascends after lo (u ∷ turns) up = elim (Bool-cases (ltb after u.id)) [
  | inl new ↦ rw new (up.0, newer-Ascends after (suc u.id) turns up.1)
  | inr old ↦ rw old (
      Ascends-weaken (suc u.id) lo (ids (newer after turns)) (omega (arith, up.0))
        (newer-Ascends after (suc u.id) turns up.1))
]

Among-newer :
    (after : ℕ) (turns : List Turn) (t : Turn)
    → after < t.id
    → Among t turns
    → Among t (newer after turns)
unfolding newer
Among-newer after [] t h m = absurd m
Among-newer after (u ∷ turns) t h m = elim (Bool-cases (ltb after u.id)) [
  | inl new ↦
      rw new (elim m [ inl same ↦ inl same | inr later ↦ inr (Among-newer after turns t h later) ])
  | inr old ↦ rw old (elim m [
    | inl same ↦ absurd (ground (arith, ap (λ (v : Turn). v.id) same))
    | inr later ↦ Among-newer after turns t h later
  ])
]

-- A turn of an ascending list is among the first ones, or behind all of them.
Among-or_behind :
    (k lo : ℕ) (turns : List Turn) (t : Turn)
    → Ascends lo (ids turns)
    → Among t turns
    → Among t (take k turns) ⊎ All (λ (u : Turn). u.id < t.id) (take k turns)
Among-or_behind zero lo turns t up m = inr tt
Among-or_behind (suc k) lo [] t up m = absurd m
Among-or_behind (suc k) lo (u ∷ turns) t up (inl same) = inl (inl same)
Among-or_behind (suc k) lo (u ∷ turns) t up (inr later) =
    elim (Among-or_behind k (suc u.id) turns t up.1 later) [
      | inl front ↦ inl (inr front)
      | inr behind ↦ inr (Among-above (suc u.id) turns t up.1 later, behind)
    ]

max_id_below :
    (c m : ℕ) (batch : List Turn) → m < c → All (λ (u : Turn). u.id < c) batch → max_id m batch < c
unfolding max_id
max_id_below c m [] h a = h
max_id_below c m (u ∷ batch) h a = max_id_below c (max u.id m) batch (omega (arith, h, a.0)) a.1

max_id_above : (m : ℕ) (batch : List Turn) → m ≤ max_id m batch
unfolding max_id
max_id_above m [] = omega arith
max_id_above m (u ∷ batch) = omega (arith, max_id_above (max u.id m) batch)

-- A turn that is newer than the mark and not newer than the mark after the batch is in the batch.
pub in_batch :
    (after limit : ℕ) (turns : List Turn) (t : Turn)
    → Ascends 0 (ids turns)
    → Among t turns
    → after < t.id
    → t.id ≤ max_id after (turns_for_indexing after limit turns)
    → Among t (turns_for_indexing after limit turns)
unfolding turns_for_indexing
in_batch after limit turns t up m new upto =
    elim (Among-or_behind limit 0 (newer after turns) t (newer-Ascends after 0 turns up)
      (Among-newer after turns t new m)) [
        | inl found ↦ found
        | inr behind ↦ absurd (
            omega
              (arith, upto, max_id_below t.id after (take limit (newer after turns)) new behind))
      ]

newer_fewer :
    (a b : ℕ) (turns : List Turn) → a ≤ b → length (newer b turns) ≤ length (newer a turns)
unfolding newer
newer_fewer a b [] h = omega arith
newer_fewer a b (u ∷ turns) h = ground (arith, newer_fewer a b turns h)

newer_strictly_fewer :
    (a b : ℕ) (turns : List Turn) (t : Turn)
    → Among t turns
    → a < t.id
    → t.id ≤ b
    → length (newer b turns) < length (newer a turns)
unfolding newer
newer_strictly_fewer a b [] t m new upto = absurd m
newer_strictly_fewer a b (u ∷ turns) t (inl same) new upto =
    ground (arith, newer_fewer a b turns (omega (arith, new, upto)), ap (λ (v : Turn). v.id) same)
newer_strictly_fewer a b (u ∷ turns) t (inr later) new upto =
    ground (arith, newer_strictly_fewer a b turns t later new upto)

Among-newer_back :
    (after : ℕ) (turns : List Turn) (t : Turn)
    → Among t (newer after turns)
    → Among t turns × (after < t.id)
unfolding newer
Among-newer_back after [] t m = absurd m
Among-newer_back after (u ∷ turns) t m = elim (Bool-cases (ltb after u.id)) [
  | inl new ↦ elim (rw new at m) [
    | inl same ↦ (inl same, omega (arith, ltb→lt after u.id new, ap (λ (v : Turn). v.id) same))
    | inr later ↦
        let (among, newer_than) = Among-newer_back after turns t later in (inr among, newer_than)
  ]
  | inr old ↦
      let (among, newer_than) = Among-newer_back after turns t (rw old at m) in
      (inr among, newer_than)
]

Among-take : (k : ℕ) (turns : List Turn) (t : Turn) → Among t (take k turns) → Among t turns
Among-take zero turns t m = absurd m
Among-take (suc k) [] t m = absurd m
Among-take (suc k) (u ∷ turns) t (inl same) = inl same
Among-take (suc k) (u ∷ turns) t (inr later) = inr (Among-take k turns t later)

-- A batch that is not empty leaves fewer turns.
pub batch_progress :
    (after limit : ℕ) (turns : List Turn) (t : Turn) (ts : List Turn)
    → turns_for_indexing after limit turns ≡ t ∷ ts
    → length (newer (max_id after (t ∷ ts)) turns) < length (newer after turns)
unfolding turns_for_indexing max_id
batch_progress after limit turns t ts e =
    let first : Among t (take limit (newer after turns)) = subst (Among t) (sym e) (inl refl) in
    let (among, newer_than) =
      Among-newer_back after turns t (Among-take limit (newer after turns) t first) in
    newer_strictly_fewer after (max_id (max t.id after) ts) turns t among newer_than
      (omega (arith, max_id_above (max t.id after) ts))

none_taken :
    (limit : ℕ) (turns : List Turn) (t : Turn)
    → 0 < limit
    → take limit turns ≡ []
    → Among t turns
    → ⊥
none_taken zero turns t h e m = absurd (omega (arith, h))
none_taken (suc k) [] t h e m = m
none_taken (suc k) (u ∷ turns) t h e m = cc

-- When a batch is empty, no turn is newer than the mark.
pub none_newer :
    (after limit : ℕ) (turns : List Turn) (t : Turn)
    → 0 < limit
    → turns_for_indexing after limit turns ≡ []
    → Among t turns
    → t.id ≤ after
unfolding turns_for_indexing
none_newer after limit turns t h e m = elim (dec_lt after t.id) [
  | yes newer_than ↦
      absurd (none_taken limit (newer after turns) t h e (Among-newer after turns t newer_than m))
  | no not_newer ↦ omega (arith, not_newer)
]

pub length-turns_for_indexing :
    (after limit : ℕ) (turns : List Turn) → length (turns_for_indexing after limit turns) ≤ limit
unfolding turns_for_indexing
length-turns_for_indexing after limit turns = omega (arith, length-take limit (newer after turns))

pub length-newer : (after : ℕ) (turns : List Turn) → length (newer after turns) ≤ length turns
unfolding newer
length-newer after [] = omega arith
length-newer after (u ∷ turns) = ground (arith, length-newer after turns)
