-- ===== src/Shard/Reader/Bounds.antt =====
-- What an opened shard guarantees, and what its lookup finds.
use native.Mathlib.Decide.{dec_lt}
use gitpixel.Base.{
  ℕ, zero, suc, ◌+◌, ◌*◌, ◌/◌, ◌%◌, ◌^◌, ◌≤◌, ◌<◌, ◌≡◌, Bool, true, false, not, ◌&&◌, List, [],
  Option, none, inl, inr, subst, arith,
}
use gitpixel.Base.{
  String, ltb, leb, ◌==◌, if◌then◌else◌, length, take, drop, Bool-cases, Option-cases,
}
use gitpixel.Shard.Builder.{read_run}
use gitpixel.Shard.Builder.Runs.{Below, read_run-Below}
use gitpixel.Shard.Writer.{magic}
use gitpixel.Shard.Reader.{
  Shard, Outcome, err, ok, Header, ShardError, read_header, check_header, opened, with_files,
  after_ids, open_shard, lower_bound, run_of, postings, number_at, record_hash, read_oid, read_id,
  until_zero, bytes_eq, corrupt, version_mismatch,
}

-- The sections of a shard are in order and within the file.
pub record InFile (s : Shard) : Type 0 where
  pub after_header : 192 ≤ s.lookup_off
  pub in_order : s.lookup_off + s.gram_count * 20 ≤ s.postings_off
  pub within : s.postings_off + s.postings_len ≤ length s.mmap

record Checked (mmap : List ℕ) (h : Header) : Type 0 where
  after_header : 192 ≤ h.lookup_off
  in_order : h.lookup_off + h.gram_count * 20 ≤ h.postings_off
  within : h.postings_off + h.postings_len ≤ length mmap

check_header_lem : (mmap : List ℕ) (h : Header) → check_header mmap h ≡ none → Checked mmap h
unfolding check_header
check_header_lem mmap h e = record {
  after_header = ground arith;
  in_order = ground arith;
  within = ground arith;
}

accepted :
    (b : Bool) (x : ShardError) (rest : Outcome Shard) (s : Shard)
    → (if b then err x else rest) ≡ ok s
    → rest ≡ ok s
accepted true x rest s e = cc
accepted false x rest s e = e

module _ (from_utf8 : List ℕ → Option String) where
  with_files-InFile :
      (mmap : List ℕ) (h : Header) (oid : Option String) (id : String)
      (files : Outcome (List String)) (s : Shard)
      → Checked mmap h
      → with_files from_utf8 mmap h oid id files ≡ ok s
      → InFile s
  unfolding with_files
  with_files-InFile mmap h oid id (err x) s c e = cc
  with_files-InFile mmap h oid id (ok files) s c e =
      let same : opened from_utf8 mmap h oid id files ≡ s = cc in
      subst InFile same
        (record { after_header = c.after_header; in_order = c.in_order; within = c.within })

  after_ids-InFile :
      (mmap : List ℕ) (h : Header) (oid : Outcome (Option String)) (id : Outcome String) (s : Shard)
      → after_ids from_utf8 mmap h oid id ≡ ok s
      → InFile s
  unfolding after_ids
  after_ids-InFile mmap h (err x) id s e = cc
  after_ids-InFile mmap h (ok oid) (err x) s e = cc
  after_ids-InFile mmap h (ok oid) (ok id) s e = elim (Option-cases (check_header mmap h)) [
    | inl pass ↦
        with_files-InFile mmap h oid id _ s (check_header_lem mmap h pass)
          (rw (pass, after_ids) at e)
    | inr (x, fail) ↦ ground arith
  ]

  -- Whatever the bytes of a file are, if `open` accepts it, then the lookup section and the postings section lie
  -- within the file, behind the header, in this order.
  pub open_shard-InFile : (mmap : List ℕ) (s : Shard) → open_shard from_utf8 mmap ≡ ok s → InFile s
  unfolding open_shard
  open_shard-InFile mmap s e =
      after_ids-InFile mmap (read_header mmap)
        (read_oid from_utf8 (until_zero (take 40 (drop 16 mmap))))
        (read_id from_utf8 (until_zero (take 64 (drop 56 mmap)))) s
        (accepted (not (number_at mmap 8 4 == 1)) (version_mismatch (number_at mmap 8 4)) _ s (
          accepted (not (bytes_eq (take 8 mmap) magic)) (corrupt "bad magic") _ s
            (accepted (ltb (length mmap) 192) (corrupt "file shorter than header") _ s e)))

in_range : (b : Bool) (n : ℕ) (ids : List ℕ) → Below n ids → Below n (if b then ids else [])
in_range true n ids h = h
in_range false n ids h = tt

run_of-Below : (s : Shard) (i : ℕ) → Below (length s.files % 2 ^ 32) (run_of s i)
unfolding run_of
run_of-Below s i =
    let off : ℕ = number_at s.mmap (s.lookup_off + i * 20 + 8) 8 in
    let len : ℕ = number_at s.mmap (s.lookup_off + i * 20 + 16) 4 in
    in_range (ltb (off + len) (2 ^ 64) && leb (off + len) s.postings_len) (length s.files % 2 ^ 32)
      (read_run (take len (drop (s.postings_off + off) s.mmap)) (length s.files % 2 ^ 32))
      (read_run-Below (take len (drop (s.postings_off + off) s.mmap)) (length s.files % 2 ^ 32))

-- Whatever the bytes of a shard are, every id that `postings` returns is below its number of files.
pub postings-Below : (s : Shard) (hash : ℕ) → Below (length s.files % 2 ^ 32) (postings s hash)
unfolding postings
postings-Below s hash =
    let n : ℕ = s.gram_count in
    let i : ℕ = lower_bound (record_hash s) hash n 0 n in
    in_range (leb (s.lookup_off + n * 20) (length s.mmap) && (ltb i n && record_hash s i == hash))
      (length s.files % 2 ^ 32) (run_of s i) (run_of-Below s i)

-- Where a search ends: before it all keys are below the hash, and from it on none is.
pub record Lands (key : ℕ → ℕ) (hash lo hi r : ℕ) : Type 0 where
  pub low : lo ≤ r
  pub high : r ≤ hi
  pub below : (i : ℕ) → lo ≤ i → i < r → key i < hash
  pub above : (i : ℕ) → r ≤ i → i < hi → hash ≤ key i

-- With as much fuel as the range is long, the binary search over keys that never descend in the range ends at an index
-- of it, or its end, before which all keys are below the hash and from which on none is.
pub lower_bound_lem :
    (key : ℕ → ℕ) (hash fuel lo hi : ℕ)
    → ((i j : ℕ) → lo ≤ i → i ≤ j → j < hi → key i ≤ key j)
    → lo ≤ hi
    → hi ≤ lo + fuel
    → Lands key hash lo hi (lower_bound key hash fuel lo hi)
unfolding lower_bound
lower_bound_lem key hash zero lo hi up h f = record {
  low = omega arith;
  high = omega arith;
  below = λ i a b. absurd (omega arith);
  above = λ i a b. absurd (omega arith);
}
lower_bound_lem key hash (suc fuel) lo hi up h f =
    let mid : ℕ = (lo + hi) / 2 in
    elim (Bool-cases (ltb lo hi)) [
      | inl wide ↦
          let low_mid : lo ≤ mid = ground arith in
          let mid_high : mid < hi = ground arith in
          elim (Bool-cases (ltb (key mid) hash)) [
            | inl small ↦
                let r : Lands key hash (mid + 1) hi (lower_bound key hash fuel (mid + 1) hi) =
                  lower_bound_lem key hash fuel (mid + 1) hi (λ i j a b c. up i j (omega arith) b c)
                    (omega arith) (omega arith) in
                rw (wide, small)
                  (record {
                    low = omega (arith, r.low);
                    high = r.high;
                    below = λ i a b. elim (dec_lt i (mid + 1)) [
                      | yes near ↦
                          (let k : key i ≤ key mid = up i mid a (omega arith) mid_high in
                            ground arith)
                      | no far ↦ r.below i (omega arith) b
                    ];
                    above = r.above;
                  })
            | inr big ↦
                let r : Lands key hash lo mid (lower_bound key hash fuel lo mid) =
                  lower_bound_lem key hash fuel lo mid (λ i j a b c. up i j a b (omega arith))
                    low_mid (omega arith) in
                rw (wide, big)
                  (record {
                    low = r.low;
                    high = omega (arith, r.high);
                    below = r.below;
                    above = λ i a b. elim (dec_lt i mid) [
                      | yes near ↦ r.above i a near
                      | no far ↦
                          (let k : key mid ≤ key i = up mid i low_mid (omega arith) b in
                            ground arith)
                    ];
                  })
          ]
      | inr empty ↦
          let same : lo ≡ hi = ground arith in
          rw (empty, same)
            (record {
              low = omega arith;
              high = omega arith;
              below = λ i a b. absurd (omega arith);
              above = λ i a b. absurd (omega arith);
            })
    ]
