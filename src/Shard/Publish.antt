-- ===== src/Shard/Publish.antt =====
-- How `ShardBuilder::write` of crates/gitpixel-core/src/shard.rs puts a file into its place: a temporary file, written and
-- synced, is renamed. The calls of std::fs are the fields of `FileSystem`, with what their documentation says.
pub mod Atomic
mod Examples
use gitpixel.Base.{ℕ, ◌≡◌, ◌≢◌, List, [], ◌∷◌, ◌++◌, Option, none, some, String}
use gitpixel.Shard.Builder.{ShardBuilder}
use gitpixel.Shard.Writer.{shard_sections}

pub data IoError : Type 0 where
  not_found : IoError
  other : IoError

-- Each call gives the disk after it and its error, if it has one.
pub record FileSystem (Disk : Type 0) : Type 0 where
  pub content : Disk → String → Option (List ℕ)
  pub create_dir_all : String → Disk → Disk × Option IoError
  pub remove_file : String → Disk → Disk × Option IoError
  pub create_new : String → Disk → Disk × Option IoError
  pub write_all : String → List ℕ → Disk → Disk × Option IoError
  pub sync_all : String → Disk → Disk × Option IoError
  pub rename : String → String → Disk → Disk × Option IoError

-- A call on one path leaves the files at the others, whether it fails or not; a new file is empty; bytes are added at
-- the end; a renamed file has the bytes that it had, and a rename that fails changes nothing.
pub record IsFileSystem {Disk : Type 0} (fs : FileSystem Disk) : Type 0 where
  pub create_dir_all_keeps :
      (dir p : String) (d : Disk) → fs.content (fs.create_dir_all dir d).0 p ≡ fs.content d p
  pub remove_file_keeps :
      (p q : String) (d : Disk) → q ≢ p → fs.content (fs.remove_file p d).0 q ≡ fs.content d q
  pub create_new_keeps :
      (p q : String) (d : Disk) → q ≢ p → fs.content (fs.create_new p d).0 q ≡ fs.content d q
  pub create_new_empty :
      (p : String) (d : Disk)
      → (fs.create_new p d).1 ≡ none
      → fs.content (fs.create_new p d).0 p ≡ some []
  pub write_all_keeps :
      (p q : String) (bs : List ℕ) (d : Disk)
      → q ≢ p
      → fs.content (fs.write_all p bs d).0 q ≡ fs.content d q
  pub write_all_adds :
      (p : String) (bs old : List ℕ) (d : Disk)
      → fs.content d p ≡ some old
      → (fs.write_all p bs d).1 ≡ none
      → fs.content (fs.write_all p bs d).0 p ≡ some (old ++ bs)
  pub sync_all_keeps : (p q : String) (d : Disk) → fs.content (fs.sync_all p d).0 q ≡ fs.content d q
  pub rename_moves :
      (p q : String) (d : Disk)
      → (fs.rename p q d).1 ≡ none
      → fs.content (fs.rename p q d).0 q ≡ fs.content d p
  pub rename_fails :
      (p q r : String) (d : Disk) (e : IoError)
      → (fs.rename p q d).1 ≡ some e
      → fs.content (fs.rename p q d).0 r ≡ fs.content d r

module _ {Disk : Type 0} (fs : FileSystem Disk) where
  -- The error that is no file to remove is none.
  unfoldable pub unless_not_found : Option IoError → Option IoError
  unless_not_found none = none
  unless_not_found (some not_found) = none
  unless_not_found (some other) = some other

  unfoldable pub remove_stale : String → Disk → Disk × Option IoError
  remove_stale tmp d = let (d', e) = fs.remove_file tmp d in (d', unless_not_found e)

  -- Calls one after the other up to the first error: the disks after each, and the error.
  unfoldable pub run_calls : List (Disk → Disk × Option IoError) → Disk → List Disk × Option IoError
  run_calls [] d = ([], none)
  run_calls (call ∷ calls) d =
      let (d', e) = call d in
      let (later, end) = run_calls calls d' in
      elim e [ none ↦ (d' ∷ later, end) | some err ↦ (d' ∷ [], some err) ]

  unfoldable pub write_chunks : String → List (List ℕ) → List (Disk → Disk × Option IoError)
  write_chunks tmp [] = []
  write_chunks tmp (chunk ∷ chunks) = fs.write_all tmp chunk ∷ write_chunks tmp chunks

  unfoldable pub create_parent : Option String → List (Disk → Disk × Option IoError)
  create_parent none = []
  create_parent (some parent) = fs.create_dir_all parent ∷ []

  -- The calls of `write`, for the sections that it writes. `tmp` is `dest.with_extension("tmp")`; a section counts as
  -- written when the buffer in front of the file has handed it on.
  unfoldable pub write_calls :
      Option String → String → String → List (List ℕ) → List (Disk → Disk × Option IoError)
  write_calls parent tmp dest chunks =
      create_parent parent
      ++ (remove_stale tmp
          ∷ fs.create_new tmp
          ∷ (write_chunks tmp chunks ++ (fs.sync_all tmp ∷ fs.rename tmp dest ∷ [])))

  -- `write` of a builder.
  unfoldable pub write_shard :
      (String → List ℕ)
      → Option String
      → String
      → String
      → ShardBuilder
      → Disk
      → List Disk × Option IoError
  write_shard to_utf8 parent tmp dest b d =
      run_calls (write_calls parent tmp dest (shard_sections to_utf8 b)) d
