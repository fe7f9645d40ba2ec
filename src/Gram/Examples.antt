-- ===== src/Gram/Examples.antt =====
-- The trigram extractor at a concrete hash.
use gitpixel.Base.{ℕ, ◌+◌, ◌*◌, List, [], ◌∷◌}
use gitpixel.Gram.{IsSound}
use gitpixel.Gram.Trigram.{trigram, trigram-IsSound}

-- A hash of short strings, in place of xxh3.
abbrev sum_hash : List ℕ → ℕ
sum_hash [] = 7
sum_hash (b ∷ bs) = b + 31 * sum_hash bs

trigram-IsSound_example : IsSound (trigram sum_hash)
trigram-IsSound_example = trigram-IsSound sum_hash
