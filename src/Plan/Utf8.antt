-- ===== src/Plan/Utf8.antt =====
-- `char::from_u32` and `char::encode_utf8` of the standard library, which plan.rs uses on classes.
use gitpixel.Base.{ℕ, ◌≡◌, arith, ◌+◌, ◌/◌, ◌%◌, ◌&&◌, ◌||◌, List, [], ◌∷◌, Option, none, some}
use gitpixel.Base.{ltb, leb, if◌then◌else◌}

unfoldable pub from_u32 : ℕ → Option ℕ
from_u32 c = if (leb 0xd800 c && leb c 0xdfff) || ltb 0x10ffff c then none else some c

unfoldable pub encode_utf8 : ℕ → List ℕ
encode_utf8 c =
    if ltb c 0x80
    then c ∷ []
    else if ltb c 0x800
    then (0xc0 + c / 0x40) ∷ (0x80 + c % 0x40) ∷ []
    else if ltb c 0x10000
    then (0xe0 + c / 0x1000) ∷ (0x80 + c / 0x40 % 0x40) ∷ (0x80 + c % 0x40) ∷ []
    else (0xf0 + c / 0x40000)
      ∷ (0x80 + c / 0x1000 % 0x40)
      ∷ (0x80 + c / 0x40 % 0x40)
      ∷ (0x80 + c % 0x40)
      ∷ []

-- A code point that is a `char` is kept.
pub from_u32-eq : (c : ℕ) {ch : ℕ} → from_u32 c ≡ some ch → ch ≡ c
unfolding from_u32
from_u32-eq c e = ground arith
