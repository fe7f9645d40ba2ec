-- ===== src/Overlay/Examples.antt =====
-- The theorems of the overlay at concrete files.
use gitpixel.Base.{ℕ, ◌≡◌, List, [], ◌∷◌, ◌||◌, some}
use gitpixel.Base.{str_eq, if◌then◌else◌, has, find}
use gitpixel.Overlay.{Overlay, new, refresh_file, remove_file}
use gitpixel.Overlay.Laws.{
  IsValid, grams_of, new-IsValid, refresh_file-IsValid, remove_file-IsValid,
}
use gitpixel.Overlay.Laws.{refresh_file_lem}

-- Every byte is a gram.
abbrev bytes : List ℕ → List ℕ
bytes content = content

abbrev edited : Overlay
edited = refresh_file bytes "a.rs" (some (7 ∷ 8 ∷ [])) (remove_file "b.rs" new)

edited-IsValid : IsValid edited
edited-IsValid =
    refresh_file-IsValid bytes "a.rs" (some (7 ∷ 8 ∷ [])) (remove_file-IsValid "b.rs" new-IsValid)

refresh_file_lem_example :
    (find "a.rs" edited.files ≡ (
      if str_eq "a.rs" "a.rs"
      then grams_of bytes (some (7 ∷ 8 ∷ []))
      else find "a.rs" (remove_file "b.rs" new).files))
    × (has "a.rs" edited.tombstones
        ≡ (str_eq "a.rs" "a.rs" || has "a.rs" (remove_file "b.rs" new).tombstones))
refresh_file_lem_example =
    refresh_file_lem bytes "a.rs" "a.rs" (some (7 ∷ 8 ∷ [])) (remove_file "b.rs" new)
