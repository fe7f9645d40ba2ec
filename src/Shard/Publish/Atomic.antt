-- ===== src/Shard/Publish/Atomic.antt =====
-- The file of a shard is replaced as a whole by `ShardBuilder::write` of shard.rs, or not at all.
use mathlib.Core.List.{flatten}
use gitpixel.Base.{
  ℕ, ◌≡◌, ◌≢◌, refl, sym, ◌∙◌, ap, ◌⊎◌, inl, inr, List, [], ◌∷◌, ◌++◌, Option, none, some, String,
}
use gitpixel.Base.{All, Option-cases, append_assoc, append_nil}
use gitpixel.Shard.Publish.{
  IoError, FileSystem, IsFileSystem, remove_stale, run_calls, write_shard, write_chunks,
  create_parent, write_calls,
}
use gitpixel.Shard.Builder.{ShardBuilder}
use gitpixel.Shard.Writer.{shard_sections, shard_bytes}

abbrev pub last {ℓ} : {A : Type ℓ} → A → List A → A
last d [] = d
last d (x ∷ xs) = last x xs

module _ {Disk : Type 0} (fs : FileSystem Disk) (is_fs : IsFileSystem fs) (tmp dest : String)
    (apart : dest ≢ tmp) (bytes : List ℕ) (old : Option (List ℕ)) where
  -- At every moment the file is the old one or the new one; at the end it is the new one exactly if no call failed.
  pub record Atomic (d : Disk) (r : List Disk × Option IoError) : Type 0 where
    pub always :
        All (λ (d' : Disk). (fs.content d' dest ≡ old) ⊎ (fs.content d' dest ≡ some bytes)) r.0
    pub ends :
        ((r.1 ≡ none) × (fs.content (last d r.0) dest ≡ some bytes))
        ⊎ ((e : IoError) × (r.1 ≡ some e) × (fs.content (last d r.0) dest ≡ old))

  -- A call that leaves the file alone, before calls that replace it as a whole.
  call-Atomic :
      (call : Disk → Disk × Option IoError) (calls : List (Disk → Disk × Option IoError)) (d : Disk)
      → fs.content (call d).0 dest ≡ old
      → ((call d).1 ≡ none → Atomic (call d).0 (run_calls fs calls (call d).0))
      → Atomic d (run_calls fs (call ∷ calls) d)
  unfolding run_calls
  call-Atomic call calls d same later = elim (Option-cases (call d).1) [
    | inl fine ↦
        let rest : Atomic (call d).0 (run_calls fs calls (call d).0) = later fine in
        rw (fine, run_calls) (record { always = (inl same, rest.always); ends = rest.ends })
    | inr (e, bad) ↦
        rw (bad, run_calls) (record { always = (inl same, tt); ends = inr (e, refl, same) })
  ]

  rename-Atomic :
      (d : Disk)
      → fs.content d dest ≡ old
      → fs.content d tmp ≡ some bytes
      → Atomic d (run_calls fs (fs.rename tmp dest ∷ []) d)
  unfolding run_calls
  rename-Atomic d same written = elim (Option-cases (fs.rename tmp dest d).1) [
    | inl fine ↦
        let new = is_fs.rename_moves tmp dest d fine ∙ written in
        rw (fine, run_calls) (record { always = (inr new, tt); ends = inl (refl, new) })
    | inr (e, bad) ↦
        let kept = is_fs.rename_fails tmp dest dest d e bad ∙ same in
        rw (bad, run_calls) (record { always = (inl kept, tt); ends = inr (e, refl, kept) })
  ]

  chunks-Atomic :
      (chunks : List (List ℕ)) (d : Disk) (so_far : List ℕ)
      → so_far ++ flatten chunks ≡ bytes
      → fs.content d dest ≡ old
      → fs.content d tmp ≡ some so_far
      → Atomic d (
          run_calls fs
            (write_chunks fs tmp chunks ++ (fs.sync_all tmp ∷ fs.rename tmp dest ∷ []))
            d)
  unfolding write_chunks flatten
  chunks-Atomic [] d so_far total same written =
      let whole : fs.content d tmp ≡ some bytes =
        written ∙ ap (λ (bs : List ℕ). some bs) (sym (append_nil so_far) ∙ total) in
      call-Atomic (fs.sync_all tmp) _ d (is_fs.sync_all_keeps tmp dest d ∙ same) (λ fine.
        rename-Atomic (fs.sync_all tmp d).0 (is_fs.sync_all_keeps tmp dest d ∙ same)
          (is_fs.sync_all_keeps tmp tmp d ∙ whole))
  chunks-Atomic (chunk ∷ chunks) d so_far total same written =
      let kept : fs.content (fs.write_all tmp chunk d).0 dest ≡ old =
        is_fs.write_all_keeps tmp dest chunk d apart ∙ same in
      call-Atomic (fs.write_all tmp chunk) _ d kept (λ fine.
        chunks-Atomic chunks (fs.write_all tmp chunk d).0 (so_far ++ chunk)
          (append_assoc so_far chunk (flatten chunks) ∙ total) kept
          (is_fs.write_all_adds tmp chunk so_far d written fine))

  file-Atomic :
      (chunks : List (List ℕ)) (d : Disk)
      → flatten chunks ≡ bytes
      → fs.content d dest ≡ old
      → Atomic d (
          run_calls fs
            (remove_stale fs tmp
              ∷ fs.create_new tmp
              ∷ (write_chunks fs tmp chunks ++ (fs.sync_all tmp ∷ fs.rename tmp dest ∷ [])))
            d)
  unfolding remove_stale
  file-Atomic chunks d total same =
      let removed : fs.content (fs.remove_file tmp d).0 dest ≡ old =
        is_fs.remove_file_keeps tmp dest d apart ∙ same in
      call-Atomic (remove_stale fs tmp) _ d removed (λ gone.
        let d' : Disk = (fs.remove_file tmp d).0 in
        let kept : fs.content (fs.create_new tmp d').0 dest ≡ old =
          is_fs.create_new_keeps tmp dest d' apart ∙ removed in
        call-Atomic (fs.create_new tmp) _ d' kept (λ fine.
          chunks-Atomic chunks (fs.create_new tmp d').0 [] total kept
            (is_fs.create_new_empty tmp d' fine)))

  pub write_calls-Atomic :
      (parent : Option String) (chunks : List (List ℕ)) (d : Disk)
      → flatten chunks ≡ bytes
      → fs.content d dest ≡ old
      → Atomic d (run_calls fs (write_calls fs parent tmp dest chunks) d)
  unfolding write_calls create_parent
  write_calls-Atomic none chunks d total same = file-Atomic chunks d total same
  write_calls-Atomic (some dir) chunks d total same =
      let kept : fs.content (fs.create_dir_all dir d).0 dest ≡ old =
        is_fs.create_dir_all_keeps dir dest d ∙ same in
      call-Atomic (fs.create_dir_all dir) _ d kept
        (λ fine. file-Atomic chunks (fs.create_dir_all dir d).0 total kept)

-- Whatever calls fail: while a builder is written, the file at `dest` is always the old one or has all the bytes of the
-- shard; at the end it has these bytes if no call failed, and is the old one if a call failed.
pub write_shard-Atomic :
    {Disk : Type 0} (fs : FileSystem Disk) (is_fs : IsFileSystem fs) (to_utf8 : String → List ℕ)
    (parent : Option String) (tmp dest : String) (apart : dest ≢ tmp) (b : ShardBuilder) (d : Disk)
    → Atomic fs is_fs tmp dest apart
        (shard_bytes to_utf8 b)
        (fs.content d dest)
        d
        (write_shard fs to_utf8 parent tmp dest b d)
unfolding write_shard shard_bytes
write_shard-Atomic fs is_fs to_utf8 parent tmp dest apart b d =
    write_calls-Atomic fs is_fs tmp dest apart (shard_bytes to_utf8 b) (fs.content d dest) parent
      (shard_sections to_utf8 b) d refl refl
