-- ===== src/Shard/Varint/RoundTrip.antt =====
-- Varints of shard.rs read back as they were written.
use gitpixel.Base.{
  ℕ, zero, suc, ◌+◌, ◌*◌, ◌/◌, ◌%◌, ◌^◌, ◌≤◌, ◌<◌, ◌≡◌, List, [], ◌∷◌, ◌++◌, some, arith,
}
use gitpixel.Base.{length, ap}
use native.Mathlib.Nat.{div-add-mod}
use native.Mathlib.Numerals.{towards_suc}
use gitpixel.Shard.Varint.{write_loop, write_varint, read_loop, read_varint}

pow_seven : (s : ℕ) → 2 ^ (s + 7) ≡ 128 * 2 ^ s
pow_seven s = simp towards_suc (omega arith)

-- The lowest group of a value and the groups above it.
groups : (v s : ℕ) → v * 2 ^ s ≡ v % 128 * 2 ^ s + v / 128 * 2 ^ (s + 7)
groups v s = omega (
  arith,
  ap (λ (t : ℕ). t * 2 ^ s) (div-add-mod v 128),
  ap (λ (t : ℕ). v / 128 * t) (pow_seven s),
)

read_loop-write_loop :
    (fuel v acc shift : ℕ) (rest : List ℕ)
    → v < 128 ^ suc fuel
    → shift + 7 * fuel ≤ 28
    → acc + v * 2 ^ shift < 2 ^ 32
    → read_loop (write_loop (suc fuel) v ++ rest) acc shift ≡ some (acc + v * 2 ^ shift, rest)
unfolding read_loop write_loop
read_loop-write_loop zero v acc shift rest hv hs fits = ground (arith, groups v shift)
read_loop-write_loop (suc fuel) v acc shift rest hv hs fits = ground (
  arith,
  groups v shift,
  read_loop-write_loop fuel (v / 128) (acc + v % 128 * 2 ^ shift) (shift + 7) rest (omega arith),
)

-- `read_varint` reads back every `u32` that `write_varint` wrote, and leaves what follows it.
pub read_varint-write_varint :
    (v : ℕ) (rest : List ℕ) → v < 2 ^ 32 → read_varint (write_varint v ++ rest) ≡ some (v, rest)
unfolding read_varint write_varint
read_varint-write_varint v rest h =
    ground (arith, read_loop-write_loop 4 v 0 0 rest (omega arith) (omega arith) (omega arith))

read_loop-shorter :
    (buf : List ℕ) (acc shift v : ℕ) (rest : List ℕ)
    → read_loop buf acc shift ≡ some (v, rest)
    → length rest < length buf
unfolding read_loop
read_loop-shorter [] acc shift v rest e = cc
read_loop-shorter (b ∷ buf) acc shift v rest e =
    ground (arith, read_loop-shorter buf (acc + b % 128 * 2 ^ shift % 2 ^ 32) (shift + 7) v rest)

-- What `read_varint` leaves is shorter than what it was given.
pub read_varint-shorter :
    (buf : List ℕ) (v : ℕ) (rest : List ℕ)
    → read_varint buf ≡ some (v, rest)
    → length rest < length buf
unfolding read_varint
read_varint-shorter buf v rest e = read_loop-shorter buf 0 0 v rest e
