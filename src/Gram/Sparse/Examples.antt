-- ===== src/Gram/Sparse/Examples.antt =====
-- The sparse extractor at a concrete text, with a hash and a weigher in place of xxh3 and the CRC.
use gitpixel.Base.{ℕ, ◌+◌, ◌*◌, ◌≡◌, ◌↔◌, refl, List, [], ◌∷◌, map, arith}
use gitpixel.Gram
use gitpixel.Gram.Sparse.{
  SparseGramExtractor, emit, sparse_grams, sparse, emit_all, grams_loop, round_lefts, pop_loop,
  expire, window_weight,
}
use gitpixel.Gram.Sparse.Grams.{In, IsValid, IsGram, sparse_grams_iff}
use gitpixel.Gram.Sparse.Sound.{sparse-IsSound}

abbrev sum_hash : List ℕ → ℕ
sum_hash [] = 7
sum_hash (b ∷ bs) = b + 31 * sum_hash bs

abbrev by_value : SparseGramExtractor
by_value = record { weight = sum_hash; min_len = 3; max_len = 5 }

by_value-IsValid : IsValid by_value
by_value-IsValid = record {
  min_bound = omega arith;
  ordered = omega arith;
  max_bound = omega arith;
}

abbrev text : List ℕ
text = 97 ∷ 98 ∷ 97 ∷ 99 ∷ 97 ∷ []

-- Three grams of three bytes and one of four.
four_hits :
    map {B = ℕ × ℕ} (λ hit. (hit.start, hit.len)) (sparse_grams sum_hash by_value text)
    ≡ (0, 3) ∷ (1, 3) ∷ (0, 4) ∷ (2, 3) ∷ []
unfolding sparse_grams round_lefts pop_loop expire window_weight grams_loop emit_all emit
four_hits = refl

sparse-IsSound_example : Gram.IsSound (sparse sum_hash by_value)
sparse-IsSound_example = sparse-IsSound sum_hash by_value by_value-IsValid

sparse_grams_iff_example :
    In (emit sum_hash by_value text 0 1) (sparse_grams sum_hash by_value text) ↔ (
      (i : ℕ) × (j : ℕ) × IsGram sum_hash by_value text i j
      × (emit sum_hash by_value text 0 1 ≡ emit sum_hash by_value text i j))
sparse_grams_iff_example =
    sparse_grams_iff sum_hash by_value text (emit sum_hash by_value text 0 1) by_value-IsValid
