-- ===== src/Shard/Reader/Written/Fields.antt =====
-- Fields of a fixed width in shard.rs, written one after the other, read back at their offsets.
use native.Mathlib.Nat.{div-add-mod}
use gitpixel.Base.{ℕ, zero, suc, ◌+◌, ◌/◌, ◌^◌, ◌<◌, ◌≡◌, refl, sym, ◌∙◌, List, ◌∷◌, ◌++◌, arith}
use mathlib.Core.List.{flatten}
use gitpixel.Base.{append_assoc, length, take, drop, take-append, drop-append, drop-drop}
use gitpixel.Shard.Writer.{to_le_bytes, zero_bytes}
use gitpixel.Shard.Reader.{from_le_bytes, number_at}

pub length-to_le_bytes : (n v : ℕ) → length (to_le_bytes n v) ≡ n
unfolding to_le_bytes
length-to_le_bytes zero v = refl
length-to_le_bytes (suc n) v = rw (length-to_le_bytes n (v / 256)) refl

pub from_le_bytes-to_le_bytes : (n v : ℕ) → v < 256 ^ n → from_le_bytes (to_le_bytes n v) ≡ v
unfolding to_le_bytes from_le_bytes
from_le_bytes-to_le_bytes zero v h = omega (arith, h)
from_le_bytes-to_le_bytes (suc n) v h =
    omega (arith, from_le_bytes-to_le_bytes n (v / 256) (omega (arith, h)), div-add-mod v 256)

pub take-field : {A : Type 0} (xs ys : List A) (n : ℕ) → length xs ≡ n → take n (xs ++ ys) ≡ xs
take-field xs ys n e = rw (sym e) (take-append xs ys)

pub drop-field :
    (whole xs ys : List ℕ) (off n : ℕ)
    → drop off whole ≡ xs ++ ys
    → length xs ≡ n
    → drop (off + n) whole ≡ ys
drop-field whole xs ys off n e len =
    sym (drop-drop off n (off + n) whole refl) ∙ (rw (e, sym len) (drop-append xs ys))

-- From the start of a field to the start of the next one.
pub next_field :
    (whole x ys : List ℕ) (xs : List (List ℕ)) (off n : ℕ)
    → drop off whole ≡ flatten (x ∷ xs) ++ ys
    → length x ≡ n
    → drop (off + n) whole ≡ flatten xs ++ ys
unfolding flatten
next_field whole x ys xs off n e len =
    drop-field whole x (flatten xs ++ ys) off n (e ∙ append_assoc x (flatten xs) ys) len

pub take-next_field :
    (whole x ys : List ℕ) (xs : List (List ℕ)) (off n : ℕ)
    → drop off whole ≡ flatten (x ∷ xs) ++ ys
    → length x ≡ n
    → take n (drop off whole) ≡ x
unfolding flatten
take-next_field whole x ys xs off n e len =
    rw (e, append_assoc x (flatten xs) ys) (take-field x (flatten xs ++ ys) n len)

-- The number of a field that starts at an offset.
pub number_at-to_le_bytes :
    (whole ys : List ℕ) (xs : List (List ℕ)) (off n v : ℕ)
    → drop off whole ≡ flatten (to_le_bytes n v ∷ xs) ++ ys
    → v < 256 ^ n
    → number_at whole off n ≡ v
unfolding number_at
number_at-to_le_bytes whole ys xs off n v e h =
    rw (take-next_field whole (to_le_bytes n v) ys xs off n e (length-to_le_bytes n v))
      (from_le_bytes-to_le_bytes n v h)

pub length-zero_bytes : (n : ℕ) → length (zero_bytes n) ≡ n
unfolding zero_bytes
length-zero_bytes zero = refl
length-zero_bytes (suc n) = rw (length-zero_bytes n) refl
