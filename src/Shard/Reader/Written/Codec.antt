-- ===== src/Shard/Reader/Written/Codec.antt =====
-- An encoding of texts by the numbers of their characters, with its decoding: a pair of functions at which the
-- hypotheses on `as_bytes` and `from_utf8` of the standard library hold, for shard.rs at concrete builders.
use Prim.Native.Nat.{Ordering, compare}
use Prim.Native.Char.{Char, char, code, IsLt, IsScalar}
use Prim.Native.String.{[] as empty, ◌∷◌ as ◌∷ᶜ◌}
use text.Mathlib.TextEquality.{Char-path}
use gitpixel.Base.{ℕ, ◌≡◌, refl, ap, List, [], ◌∷◌, Option, none, some, String}

-- The clauses of `IsScalar`.
abbrev BothLt : Ordering → Ordering → Type 0
BothLt Ordering.lt o = IsLt o
BothLt Ordering.eq o = ⊥
BothLt Ordering.gt o = ⊥

abbrev LtOrBothLt : Ordering → Ordering → Ordering → Type 0
LtOrBothLt Ordering.lt o p = Unit
LtOrBothLt Ordering.eq o p = BothLt o p
LtOrBothLt Ordering.gt o p = BothLt o p

is_lt : (o : Ordering) → Dec (IsLt o)
is_lt Ordering.lt = yes tt
is_lt Ordering.eq = no (λ x. x)
is_lt Ordering.gt = no (λ x. x)

are_lt : (o p : Ordering) → Dec (BothLt o p)
are_lt Ordering.lt p = is_lt p
are_lt Ordering.eq p = no (λ x. x)
are_lt Ordering.gt p = no (λ x. x)

in_range : (o p q : Ordering) → Dec (LtOrBothLt o p q)
in_range Ordering.lt p q = yes tt
in_range Ordering.eq p q = are_lt p q
in_range Ordering.gt p q = are_lt p q

is_scalar : (n : ℕ) → Dec (IsScalar n)
is_scalar n = in_range (compare n 55296) (compare 57343 n) (compare n 1114112)

unfoldable pub encode : String → List ℕ
encode empty = []
encode (c ∷ᶜ s) = code c ∷ encode s

push_char : (n : ℕ) → Dec (IsScalar n) → Option String → Option String
push_char n (yes p) (some s) = some (char n p ∷ᶜ s)
push_char n (yes p) none = none
push_char n (no p) rest = none

unfoldable pub decode : List ℕ → Option String
unfolding push_char is_scalar in_range are_lt is_lt
decode [] = some empty
decode (n ∷ ns) = push_char n (is_scalar n) (decode ns)

push_char_lem :
    (c : Char) (d : Dec (IsScalar (code c))) (s : String)
    → push_char (code c) d (some s) ≡ some (c ∷ᶜ s)
unfolding push_char
push_char_lem c (yes p) s = ap (λ (x : Char). some (x ∷ᶜ s)) (Char-path (char (code c) p) c refl)
push_char_lem (char n p) (no q) s = absurd (q p)

pub decode-encode : (s : String) → decode (encode s) ≡ some s
unfolding decode encode
decode-encode empty = refl
decode-encode (c ∷ᶜ s) = rw (decode-encode s) (push_char_lem c (is_scalar (code c)) s)
