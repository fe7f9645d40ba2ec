-- ===== src/Graph/Text.antt =====
-- The operations of Rust's `str` that crates/gitpixel-graph uses, on native texts.
use Prim.Native.Char.{Char, code}
use Prim.Native.String.{◌++◌, count}
use gitpixel.Base.{
  leb, ◌+◌, true, zero, suc, ◌-◌, starts_with, false, String, Bool, List, [], ◌∷◌, ℕ, ◌||◌, ◌&&◌,
  ◌==◌, if◌then◌else◌, str_eq,
}

-- `c.is_whitespace()` for the characters of ASCII.
abbrev pub is_whitespace : Char → Bool
is_whitespace c =
    code c == 32 || code c == 9 || code c == 10 || code c == 11 || code c == 12 || code c == 13

unfoldable pub trim_start : String → String
trim_start String.[] = String.[]
trim_start (String.◌∷◌ c s) =
    let rest = trim_start s in if is_whitespace c then rest else String.◌∷◌ c s

-- The text up to its last character that is not blank.
unfoldable pub trim_end : String → String
trim_end String.[] = String.[]
trim_end (String.◌∷◌ c s) =
    let rest = trim_end s in if is_whitespace c && str_eq rest "" then "" else String.◌∷◌ c rest

unfoldable pub trim : String → String
trim s = trim_end (trim_start s)

abbrev push_first : Char → List String → List String
push_first c [] = String.◌∷◌ c "" ∷ []
push_first c (p ∷ ps) = String.◌∷◌ c p ∷ ps

-- `s.split(c)`: the pieces between the occurrences of a character, at least one.
unfoldable pub split : ℕ → String → List String
split c String.[] = "" ∷ []
split c (String.◌∷◌ d s) =
    let rest = split c s in if code d == c then "" ∷ rest else push_first d rest

unfoldable pub join : String → List String → String
join sep [] = ""
join sep (s ∷ []) = s
join sep (s ∷ t ∷ ts) = s ++ sep ++ join sep (t ∷ ts)

-- `s.ends_with(t)`
unfoldable pub ends_with : String → String → Bool
ends_with String.[] t = str_eq "" t
ends_with (String.◌∷◌ c s) t = let rest = ends_with s t in str_eq (String.◌∷◌ c s) t || rest

abbrev pub contains_char : ℕ → String → Bool
contains_char a String.[] = false
contains_char a (String.◌∷◌ c s) = code c == a || contains_char a s

-- The text after the last occurrence of a character, or all of it.
unfoldable pub after_last : ℕ → String → String
after_last a String.[] = ""
after_last a (String.◌∷◌ c s) =
    let rest = after_last a s in
    if contains_char a s then rest else if code c == a then s else String.◌∷◌ c s

-- The text before the last occurrence of a character; empty if there is none.
unfoldable pub before_last : ℕ → String → String
before_last a String.[] = ""
before_last a (String.◌∷◌ c s) =
    let rest = before_last a s in if contains_char a s then String.◌∷◌ c rest else ""

-- `s.replace(a, b)` for characters.
unfoldable pub replace_char : ℕ → Char → String → String
replace_char a b String.[] = ""
replace_char a b (String.◌∷◌ c s) =
    let rest = replace_char a b s in String.◌∷◌ (if code c == a then b else c) rest

-- `n` is the length of the separator, `k` how many of its characters are still to be passed over.
split_from : String → ℕ → ℕ → String → List String
split_from sep n k String.[] = "" ∷ []
split_from sep n (suc k) (String.◌∷◌ c s) = split_from sep n k s
split_from sep n zero (String.◌∷◌ c s) = elim (starts_with (String.◌∷◌ c s) sep) [
  | true ↦ "" ∷ split_from sep n (n - 1) s
  | false ↦ push_first c (split_from sep n 0 s)
]

-- `s.split(sep)` for a separator that is a text.
unfoldable pub split_text : String → String → List String
unfolding split_from
split_text sep s = split_from sep (count sep) 0 s

are_colons : String → Bool
are_colons String.[] = true
are_colons (String.◌∷◌ c String.[]) = false
are_colons (String.◌∷◌ c (String.◌∷◌ d s)) = code c == b':' && code d == b':' && are_colons s

-- `s.trim_end_matches("::")`
unfoldable pub trim_colons : String → String
unfolding are_colons
trim_colons String.[] = ""
trim_colons (String.◌∷◌ c s) =
    let rest = trim_colons s in if are_colons (String.◌∷◌ c s) then "" else String.◌∷◌ c rest

-- How often a character leads a text, and what follows.
unfoldable pub leading : ℕ → String → ℕ × String
leading a String.[] = (0, "")
leading a (String.◌∷◌ c s) =
    let rest = leading a s in if code c == a then (suc rest.0, rest.1) else (0, String.◌∷◌ c s)

abbrev lower : ℕ → ℕ
lower c = if leb 65 c && leb c 90 then c + 32 else c

-- `s.to_ascii_lowercase()`, compared with a text in lower case.
unfoldable pub is_lowercase_of : String → String → Bool
is_lowercase_of String.[] String.[] = true
is_lowercase_of (String.◌∷◌ c s) (String.◌∷◌ d t) =
    let rest = is_lowercase_of s t in lower (code d) == code c && rest
is_lowercase_of _ _ = false
