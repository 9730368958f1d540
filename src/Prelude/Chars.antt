-- ===== src/Prelude/Chars.antt =====
-- Rust's `str` as the list of its Unicode scalar values, with the methods that the program calls.
use Prim.Native.Char.{code}
use Prim.Native.Nat.{zero, suc, ℕ, ◌+◌, ◌/◌, ◌%◌}
use Prim.Native.String.{String}
use mathlib.Core.Bool.{Bool, true, false, ◌&&◌, ◌||◌}
use mathlib.Core.List.{List, [], ◌∷◌, ◌++◌, map, reverse}
use intermcp.Prelude.Tests.{ltb, leb, eqb, if◌then◌else◌}
use intermcp.Prelude.Keys.{◌==◌, text_eq, text_is_eq}
use intermcp.Prelude.Lists.{length}

abbrev pub Text : Type 0
Text = List ℕ

-- A literal.
abbrev pub codes : String → Text
codes String.[] = []
codes (String.◌∷◌ c s) = code c ∷ codes s

-- `char::is_whitespace`: the characters with the property White_Space.
unfoldable pub is_whitespace : ℕ → Bool
is_whitespace c =
    (leb 9 c && leb c 13)
    || eqb c 32
    || eqb c 0x85
    || eqb c 0xA0
    || eqb c 0x1680
    || (leb 0x2000 c && leb c 0x200A)
    || eqb c 0x2028
    || eqb c 0x2029
    || eqb c 0x202F
    || eqb c 0x205F
    || eqb c 0x3000

unfoldable pub trim_start : Text → Text
trim_start [] = []
trim_start (c ∷ s) = let rest = trim_start s in if is_whitespace c then rest else c ∷ s

unfoldable pub trim : Text → Text
unfolding trim_start is_whitespace
trim s = reverse (trim_start (reverse (trim_start s)))

unfoldable pub starts_with : Text → Text → Bool
starts_with s [] = true
starts_with [] (p ∷ pat) = false
starts_with (c ∷ s) (p ∷ pat) = eqb c p && starts_with s pat

unfoldable pub ends_with : Text → Text → Bool
unfolding starts_with
ends_with s pat = starts_with (reverse s) (reverse pat)

unfoldable pub contains : Text → Text → Bool
unfolding starts_with
contains [] pat = starts_with [] pat
contains (c ∷ s) pat = starts_with (c ∷ s) pat || contains s pat

unfoldable pub contains_char : Text → ℕ → Bool
contains_char [] c = false
contains_char (d ∷ s) c = eqb d c || contains_char s c

unfoldable pub lower_ascii : ℕ → ℕ
lower_ascii c = if leb b'A' c && leb c b'Z' then c + 32 else c

unfoldable pub to_ascii_lowercase : Text → Text
unfolding lower_ascii
to_ascii_lowercase s = map lower_ascii s

unfoldable pub eq_ignore_ascii_case : Text → Text → Bool
unfolding to_ascii_lowercase text_eq
eq_ignore_ascii_case s t = to_ascii_lowercase s == to_ascii_lowercase t

-- `s.replace('\\', "/")`.
unfoldable pub forward_slashes : Text → Text
forward_slashes s = map (λ c. if eqb c 92 then 47 else c) s

-- `s.split(sep)`: the pieces between the separators, one at least.
unfoldable pub split : ℕ → Text → List Text
split sep [] = [] ∷ []
split sep (c ∷ s) = elim (eqb c sep) [
  | true ↦ [] ∷ split sep s
  | false ↦ elim (split sep s) [ [] ↦ (c ∷ []) ∷ [] | p ∷ ps ↦ (c ∷ p) ∷ ps ]
]

-- The bytes of a character, and of a text.
unfoldable pub encode : ℕ → List ℕ
encode c =
    if ltb c 0x80
    then c ∷ []
    else if ltb c 0x800
    then (192 + c / 64) ∷ (128 + c % 64) ∷ []
    else if ltb c 0x10000
    then (224 + c / 4096) ∷ (128 + c / 64 % 64) ∷ (128 + c % 64) ∷ []
    else (240 + c / 262144) ∷ (128 + c / 4096 % 64) ∷ (128 + c / 64 % 64) ∷ (128 + c % 64) ∷ []

unfoldable pub as_bytes : Text → List ℕ
unfolding encode
as_bytes [] = []
as_bytes (c ∷ s) = encode c ++ as_bytes s

-- `str::len` counts bytes.
unfoldable pub len : Text → ℕ
unfolding as_bytes
len s = length (as_bytes s)

-- `to_string` on a number: its decimal digits. Twenty suffice for 64 bits.
unfoldable pub digits : ℕ → ℕ → Text
digits zero n = []
digits (suc fuel) n =
    let rest = digits fuel (n / 10) in
    if ltb n 10 then (48 + n) ∷ [] else rest ++ (48 + n % 10) ∷ []

unfoldable pub to_string : ℕ → Text
unfolding digits
to_string n = digits 20 n

-- `split_whitespace`, with the word that is read: no word is empty.
unfoldable pub words : Text → Text → List Text
unfolding is_whitespace
words current [] = elim current [ [] ↦ [] | a ∷ w ↦ (a ∷ w) ∷ [] ]
words current (c ∷ s) = elim (is_whitespace c) [
  | true ↦ elim current [ [] ↦ words [] s | a ∷ w ↦ (a ∷ w) ∷ words [] s ]
  | false ↦ words (current ++ c ∷ []) s
]

unfoldable pub split_whitespace : Text → List Text
unfolding words
split_whitespace s = words [] s
