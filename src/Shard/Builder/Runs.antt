-- ===== src/Shard/Builder/Runs.antt =====
-- A posting run of shard.rs reads back as the list that it was made of.
use gitpixel.Base.{
  ℕ, zero, suc, ◌-◌, ◌^◌, ◌≤◌, ◌<◌, ◌≡◌, refl, false, List, [], ◌∷◌, ◌++◌, Option, none, some,
  arith,
}
use gitpixel.Base.{leb, length, Ascends, IsSorted, All, subst, inl, inr, Bool-cases, Option-cases}
use gitpixel.Shard.Varint.{write_varint, read_varint}
use gitpixel.Shard.Varint.RoundTrip.{read_varint-write_varint, read_varint-shorter}
use gitpixel.Shard.Builder.{
  write_deltas, write_run, next_id, push_read, read_ids, or_empty, read_run,
}

-- One round that reads a varint and accepts its id.
read_ids_step :
    (fuel : ℕ) (run : List ℕ) (prev : Option ℕ) (file_count delta id : ℕ) (rest ids : List ℕ)
    → read_varint run ≡ some (delta, rest)
    → next_id prev delta ≡ some id
    → id < file_count
    → read_ids fuel rest (some id) file_count ≡ some ids
    → read_ids (suc fuel) run prev file_count ≡ some (id ∷ ids)
unfolding read_ids push_read
read_ids_step fuel [] prev file_count delta id rest ids r n lt e =
    absurd (omega (arith, read_varint-shorter [] delta rest r))
read_ids_step fuel (b ∷ run) prev file_count delta id rest ids r n lt e =
    let ok : leb file_count id ≡ false = ground arith in rw (r, n, ok, e, read_ids) refl

abbrev pub Below : ℕ → List ℕ → Type 0
Below n ids = All (λ id. id < n) ids

read_ids-nil :
    (fuel : ℕ) (prev : Option ℕ) (file_count : ℕ) → read_ids fuel [] prev file_count ≡ some []
unfolding read_ids
read_ids-nil zero prev file_count = refl
read_ids-nil (suc fuel) prev file_count = refl

longer : (v : ℕ) (rest : List ℕ) → v < 2 ^ 32 → length rest < length (write_varint v ++ rest)
longer v rest h = read_varint-shorter _ v rest (read_varint-write_varint v rest h)

read_ids-write_deltas :
    (fuel prev file_count : ℕ) (ids : List ℕ)
    → Ascends (suc prev) ids
    → Below file_count ids
    → file_count ≤ 2 ^ 32
    → length (write_deltas prev ids) ≤ fuel
    → read_ids fuel (write_deltas prev ids) (some prev) file_count ≡ some ids
unfolding write_deltas
read_ids-write_deltas fuel prev file_count [] up below h f =
    read_ids-nil fuel (some prev) file_count
read_ids-write_deltas zero prev file_count (id ∷ ids) up below h f =
    absurd (omega (arith, longer (id - prev) (write_deltas id ids) (omega arith)))
read_ids-write_deltas (suc fuel) prev file_count (id ∷ ids) up below h f =
    let rest : List ℕ = write_deltas id ids in
    read_ids_step fuel _ (some prev) file_count (id - prev) id rest ids
      (read_varint-write_varint (id - prev) rest (omega arith)) (unfold next_id in ground arith)
      (omega arith)
      (read_ids-write_deltas fuel id file_count ids up.1 below.1 h
        (omega (arith, longer (id - prev) rest (omega arith))))

first :
    (fuel file_count id : ℕ) (ids : List ℕ)
    → length (write_deltas id ids) < fuel
    → IsSorted (id ∷ ids)
    → Below file_count (id ∷ ids)
    → file_count ≤ 2 ^ 32
    → read_ids fuel (write_varint id ++ write_deltas id ids) none file_count ≡ some (id ∷ ids)
first zero file_count id ids f up below h = absurd (omega arith)
first (suc fuel) file_count id ids f up below h =
    read_ids_step fuel _ none file_count id id (write_deltas id ids) ids
      (read_varint-write_varint id (write_deltas id ids) (omega arith)) (unfold next_id in refl)
      below.0 (read_ids-write_deltas fuel id file_count ids up.1 below.1 h (omega arith))

-- A strictly ascending list of ids of files reads back as itself from the run that `write` makes of it, if
-- the file ids fit 32 bits.
pub read_run-write_run :
    (file_count : ℕ) (ids : List ℕ)
    → IsSorted ids
    → Below file_count ids
    → file_count ≤ 2 ^ 32
    → read_run (write_run ids) file_count ≡ ids
unfolding read_run write_run
read_run-write_run file_count [] up below h = rw (read_ids-nil 0 none file_count) refl
read_run-write_run file_count (id ∷ ids) up below h =
    let rest : List ℕ = write_deltas id ids in
    let run : List ℕ = write_varint id ++ rest in
    let shorter : length rest < length run = longer id rest (omega arith) in
    rw (first (length run) file_count id ids (omega arith) up below h) refl

push_read-Below :
    (file_count id : ℕ) (read : Option (List ℕ)) (ids : List ℕ)
    → push_read id read ≡ some ids
    → id < file_count
    → ((later : List ℕ) → read ≡ some later → Below file_count later)
    → Below file_count ids
unfolding push_read
push_read-Below file_count id none ids e h later = cc
push_read-Below file_count id (some xs) ids e h later =
    let same : id ∷ xs ≡ ids = cc in subst (Below file_count) same (h, later xs refl)

read_ids-Below :
    (fuel : ℕ) (run : List ℕ) (prev : Option ℕ) (file_count : ℕ) (ids : List ℕ)
    → read_ids fuel run prev file_count ≡ some ids
    → Below file_count ids
unfolding read_ids
read_ids-Below zero [] prev file_count ids e =
    let same : [] ≡ ids = cc in subst (Below file_count) same tt
read_ids-Below (suc fuel) [] prev file_count ids e =
    let same : [] ≡ ids = cc in subst (Below file_count) same tt
read_ids-Below zero (b ∷ run) prev file_count ids e = cc
read_ids-Below (suc fuel) (b ∷ run) prev file_count ids e =
    elim (Option-cases (read_varint (b ∷ run))) [
      | inl bad ↦ ground arith
      | inr ((delta, rest), r) ↦ elim (Option-cases (next_id prev delta)) [
        | inl bad ↦ ground arith
        | inr (id, n) ↦ elim (Bool-cases (leb file_count id)) [
          | inl out ↦ ground arith
          | inr inside ↦
              push_read-Below file_count id (read_ids fuel rest (some id) file_count) ids
                (rw (r, n, inside, read_ids) at e) (ground arith)
                (λ later f. read_ids-Below fuel rest (some id) file_count later f)
        ]
      ]
    ]

or_empty-Below :
    (file_count : ℕ) (read : Option (List ℕ))
    → ((ids : List ℕ) → read ≡ some ids → Below file_count ids)
    → Below file_count (or_empty read)
unfolding or_empty
or_empty-Below file_count none h = tt
or_empty-Below file_count (some ids) h = h ids refl

-- Whatever the bytes of a run are, every id that is read from it is below the file count.
pub read_run-Below : (run : List ℕ) (file_count : ℕ) → Below file_count (read_run run file_count)
unfolding read_run
read_run-Below run file_count =
    or_empty-Below file_count (read_ids (length run) run none file_count)
      (λ ids e. read_ids-Below (length run) run none file_count ids e)
