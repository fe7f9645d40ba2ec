-- ===== src/Shard/Reader/Written/Layout.antt =====
-- The lookup and postings sections that the loop of `ShardBuilder::write` in shard.rs appends to, as lists by gram.
use gitpixel.Base.{ℕ, ◌+◌, ◌-◌, ◌*◌, ◌%◌, ◌^◌, ◌≡◌, refl, List, [], ◌∷◌, ◌++◌, arith}
use gitpixel.Base.{length, sort_unstable, length-append, append_assoc, append_nil}
use mathlib.Core.List.{flatten}
use gitpixel.Shard.Builder.{ids_of, write_run}
use gitpixel.Shard.Writer.{to_le_bytes, Buffers, push_gram, push_grams, gram_buffers, keys}
use gitpixel.Shard.Reader.Written.Fields.{length-to_le_bytes}

-- The record of a gram whose run starts at `start`.
unfoldable pub record_of : List (ℕ × List ℕ) → ℕ → ℕ → List ℕ
record_of m start h = flatten (
    to_le_bytes 8 h
    ∷ to_le_bytes 8 start
    ∷ to_le_bytes 4 (length (write_run (ids_of h m)) % 2 ^ 32)
    ∷ [])

unfoldable pub records_of : List (ℕ × List ℕ) → ℕ → List ℕ → List ℕ
records_of m start [] = []
records_of m start (h ∷ hs) =
    record_of m start h ++ records_of m (start + length (write_run (ids_of h m))) hs

unfoldable pub runs_of : List (ℕ × List ℕ) → List ℕ → List ℕ
runs_of m [] = []
runs_of m (h ∷ hs) = write_run (ids_of h m) ++ runs_of m hs

push_gram_lem :
    (m : List (ℕ × List ℕ)) (h : ℕ) (b : Buffers)
    → push_gram m h b ≡ record {
      lookup = b.lookup ++ record_of m (length b.runs) h;
      runs = b.runs ++ write_run (ids_of h m);
    }
unfolding push_gram record_of
push_gram_lem m h b =
    let run : List ℕ = write_run (ids_of h m) in
    let len : length (b.runs ++ run) - length b.runs ≡ length run =
      omega (arith, length-append b.runs run) in
    rw len refl

-- The loop appends the records and the runs of its hashes.
pub push_grams_lem :
    (m : List (ℕ × List ℕ)) (hs : List ℕ) (b : Buffers)
    → push_grams m hs b ≡ record {
      lookup = b.lookup ++ records_of m (length b.runs) hs;
      runs = b.runs ++ runs_of m hs;
    }
unfolding push_grams records_of runs_of
push_grams_lem m [] b = rw (append_nil b.lookup, append_nil b.runs) refl
push_grams_lem m (h ∷ hs) b =
    let run : List ℕ = write_run (ids_of h m) in
    rw
      (
        push_grams_lem m hs (push_gram m h b),
        push_gram_lem m h b,
        length-append b.runs run,
        append_assoc b.runs run (runs_of m hs),
        append_assoc b.lookup (record_of m (length b.runs) h)
            (records_of m (length b.runs + length run) hs),
      )
      refl

pub gram_buffers_lem :
    (m : List (ℕ × List ℕ))
    → gram_buffers m ≡ record {
      lookup = records_of m 0 (sort_unstable (keys m));
      runs = runs_of m (sort_unstable (keys m));
    }
unfolding gram_buffers
gram_buffers_lem m = push_grams_lem m (sort_unstable (keys m)) (record { lookup = []; runs = [] })

pub length-record_of : (m : List (ℕ × List ℕ)) (start h : ℕ) → length (record_of m start h) ≡ 20
unfolding record_of flatten
length-record_of m start h =
    let len : ℕ = length (write_run (ids_of h m)) % 2 ^ 32 in
    omega (
      arith,
      length-append (to_le_bytes 8 h) (to_le_bytes 8 start ++ (to_le_bytes 4 len ++ [])),
      length-append (to_le_bytes 8 start) (to_le_bytes 4 len ++ []),
      length-append (to_le_bytes 4 len) [],
      length-to_le_bytes 8 h,
      length-to_le_bytes 8 start,
      length-to_le_bytes 4 len,
    )

pub length-records_of :
    (m : List (ℕ × List ℕ)) (start : ℕ) (hs : List ℕ)
    → length (records_of m start hs) ≡ length hs * 20
unfolding records_of
length-records_of m start [] = refl
length-records_of m start (h ∷ hs) =
    let len : ℕ = length (write_run (ids_of h m)) in
    omega (
      arith,
      length-append (record_of m start h) (records_of m (start + len) hs),
      length-record_of m start h,
      length-records_of m (start + len) hs,
    )
