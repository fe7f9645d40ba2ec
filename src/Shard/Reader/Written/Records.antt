-- ===== src/Shard/Reader/Written/Records.antt =====
-- The records and runs of the sections of shard.rs, at their offsets.
use mathlib.Core.List.{flatten}
use gitpixel.Base.{
  ℕ, zero, suc, ◌+◌, ◌*◌, ◌%◌, ◌^◌, ◌<◌, ◌≤◌, ◌≡◌, refl, sym, ◌∙◌, subst, List, [], ◌∷◌, ◌++◌,
  arith,
}
use gitpixel.Base.{length, get_or, drop, length-append, append_assoc, drop-drop, drop-append}
use gitpixel.Shard.Builder.{ids_of, write_run}
use gitpixel.Shard.Writer.{to_le_bytes}
use gitpixel.Shard.Reader.{number_at}
use gitpixel.Shard.Reader.Written.Fields.{length-to_le_bytes, next_field, number_at-to_le_bytes}
use gitpixel.Shard.Reader.Written.Layout.{record_of, records_of, runs_of, length-record_of}

-- Where the run of the hash `i` starts.
unfoldable pub start_of : List (ℕ × List ℕ) → List ℕ → ℕ → ℕ
start_of m hs zero = 0
start_of m [] (suc i) = 0
start_of m (h ∷ hs) (suc i) = length (write_run (ids_of h m)) + start_of m hs i

drop-first : (xs ys : List ℕ) (n : ℕ) → length xs ≡ n → drop n (xs ++ ys) ≡ ys
drop-first xs ys n e = rw (sym e) (drop-append xs ys)

drop-front : (xs ys : List ℕ) (n k : ℕ) → length xs ≡ n → drop (n + k) (xs ++ ys) ≡ drop k ys
drop-front xs ys n k e =
    sym (drop-drop n k (n + k) (xs ++ ys) refl) ∙ (rw (drop-first xs ys n e) refl)

pub drop-records_of :
    (m : List (ℕ × List ℕ)) (hs : List ℕ) (start i : ℕ) (tail : List ℕ)
    → i < length hs
    → drop (i * 20) (records_of m start hs ++ tail)
      ≡ record_of m (start + start_of m hs i) (get_or hs i 0)
        ++ (records_of m (start + start_of m hs (suc i)) (drop (suc i) hs) ++ tail)
unfolding records_of start_of
drop-records_of m [] start i tail h = absurd (omega (arith, h))
drop-records_of m (x ∷ hs) start zero tail h =
    let len : ℕ = length (write_run (ids_of x m)) in
    let here : start + 0 ≡ start = omega arith in
    let next : start + (len + 0) ≡ start + len = omega arith in
    rw (here, next) (append_assoc (record_of m start x) (records_of m (start + len) hs) tail)
drop-records_of m (x ∷ hs) start (suc i) tail h =
    let len : ℕ = length (write_run (ids_of x m)) in
    let rest : List ℕ = records_of m (start + len) hs in
    let twenty : suc i * 20 ≡ 20 + i * 20 = omega arith in
    let here : start + (len + start_of m hs i) ≡ start + len + start_of m hs i = omega arith in
    let next : start + (len + start_of m hs (suc i)) ≡ start + len + start_of m hs (suc i) =
      omega arith in
    rw
      (
        twenty,
        here,
        next,
        append_assoc (record_of m start x) rest tail,
        drop-front (record_of m start x) (rest ++ tail) 20 (i * 20) (length-record_of m start x),
      )
      (drop-records_of m hs (start + len) i tail (omega (arith, h)))

pub drop-runs_of :
    (m : List (ℕ × List ℕ)) (hs : List ℕ) (i : ℕ) (tail : List ℕ)
    → i < length hs
    → drop (start_of m hs i) (runs_of m hs ++ tail)
      ≡ write_run (ids_of (get_or hs i 0) m) ++ (runs_of m (drop (suc i) hs) ++ tail)
unfolding runs_of start_of
drop-runs_of m [] i tail h = absurd (omega (arith, h))
drop-runs_of m (x ∷ hs) zero tail h = append_assoc (write_run (ids_of x m)) (runs_of m hs) tail
drop-runs_of m (x ∷ hs) (suc i) tail h =
    let run : List ℕ = write_run (ids_of x m) in
    rw
      (
        append_assoc run (runs_of m hs) tail,
        drop-front run (runs_of m hs ++ tail) (length run) (start_of m hs i) refl,
      )
      (drop-runs_of m hs i tail (omega (arith, h)))

pub run_within :
    (m : List (ℕ × List ℕ)) (hs : List ℕ) (i : ℕ)
    → i < length hs
    → start_of m hs i + length (write_run (ids_of (get_or hs i 0) m)) ≤ length (runs_of m hs)
unfolding runs_of start_of
run_within m [] i h = absurd (omega (arith, h))
run_within m (x ∷ hs) zero h = omega (arith, length-append (write_run (ids_of x m)) (runs_of m hs))
run_within m (x ∷ hs) (suc i) h = omega (
  arith,
  length-append (write_run (ids_of x m)) (runs_of m hs),
  run_within m hs i (omega (arith, h)),
)

-- What is read of a record.
pub record_of-number_at :
    (whole tail : List ℕ) (m : List (ℕ × List ℕ)) (off start h : ℕ)
    → drop off whole ≡ record_of m start h ++ tail
    → h < 2 ^ 64
    → start < 2 ^ 64
    → length (write_run (ids_of h m)) < 2 ^ 32
    → (number_at whole off 8 ≡ h)
      × (number_at whole (off + 8) 8 ≡ start)
      × (number_at whole (off + 16) 4 ≡ length (write_run (ids_of h m)))
unfolding record_of
record_of-number_at whole tail m off start h e fits_h fits_start fits_len =
    let at_8 = next_field whole _ tail _ off 8 e (length-to_le_bytes 8 h) in
    let at_16 = next_field whole _ tail _ (off + 8) 8 at_8 (length-to_le_bytes 8 start) in
    let sum : off + 8 + 8 ≡ off + 16 = omega arith in
    let low : ℕ = length (write_run (ids_of h m)) % 2 ^ 32 in
    let at : drop (off + 16) whole ≡ flatten (to_le_bytes 4 low ∷ []) ++ tail =
      subst (λ n. drop n whole ≡ flatten (to_le_bytes 4 low ∷ []) ++ tail) sum at_16 in
    let len : number_at whole (off + 16) 4 ≡ low =
      number_at-to_le_bytes whole tail [] (off + 16) 4 low at (omega arith) in
    (
      number_at-to_le_bytes whole tail _ off 8 h e fits_h,
      number_at-to_le_bytes whole tail _ (off + 8) 8 start at_8 fits_start,
      len ∙ (omega (arith, fits_len)),
    )
