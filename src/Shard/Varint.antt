-- ===== src/Shard/Varint.antt =====
-- `write_varint` and `read_varint` of crates/gitpixel-core/src/shard.rs. `x & 0x7f` is `x % 128`,
-- `byte | 0x80` on a byte below 128 is `byte + 128`, and `v |= group << shift` adds a group to a value below
-- `2 ^ shift`, within 32 bits.
pub mod RoundTrip
use gitpixel.Base.{ℕ, zero, suc, ◌+◌, ◌*◌, ◌/◌, ◌%◌, ◌^◌, List, [], ◌∷◌, Option, none, some}
use gitpixel.Base.{ltb, leb, ◌==◌, if◌then◌else◌}

-- The loop of `write_varint`; a `u32` takes at most five rounds.
unfoldable pub write_loop : ℕ → ℕ → List ℕ
write_loop zero v = []
write_loop (suc fuel) v =
    let byte = v % 128 in
    let more = (byte + 128) ∷ write_loop fuel (v / 128) in if v / 128 == 0 then byte ∷ [] else more

unfoldable pub write_varint : ℕ → List ℕ
write_varint v = write_loop 5 v

-- `buf` is what the position has not reached; the result has the value and what is left of it.
unfoldable pub read_loop : List ℕ → ℕ → ℕ → Option (ℕ × List ℕ)
read_loop [] v shift = none
read_loop (byte ∷ buf) v shift =
    let v' = v + byte % 128 * 2 ^ shift % 2 ^ 32 in
    let more = read_loop buf v' (shift + 7) in
    if ltb byte 128 then some (v', buf) else if leb 35 (shift + 7) then none else more

unfoldable pub read_varint : List ℕ → Option (ℕ × List ℕ)
read_varint buf = read_loop buf 0 0
