-- ===== src/Server/Redaction.antt =====
-- src/server.rs: `redact_for_log`. The scans test for ASCII, so they are the same on bytes and on
-- characters; places are counted in characters here.
pub mod Ranges
pub mod Reference
pub mod Matches
mod Tests
use intermcp.Prelude.{
  take, ℕ, zero, suc, ◌+◌, ◌-◌, Text, codes, Bool, true, false, not, ◌&&◌, ◌||◌, Option, none, some,
  List, [], ◌∷◌, ◌++◌, leb, ltb, eqb, any, is_empty, starts_with, to_ascii_lowercase, drop, length,
  if◌then◌else◌,
}

abbrev pub Range : Type 0
Range = ℕ × ℕ

-- `while j < len && test(bytes[j]) { j += 1; }`
count_while : (ℕ → Bool) → Text → ℕ
count_while test [] = 0
count_while test (c ∷ s) = let rest = suc (count_while test s) in if test c then rest else 0

is_blank : ℕ → Bool
is_blank c = eqb c b' ' || eqb c 9

is_ascii_whitespace : ℕ → Bool
is_ascii_whitespace c = eqb c 32 || eqb c 9 || eqb c 10 || eqb c 12 || eqb c 13

is_token_char : ℕ → Bool
is_token_char c =
    (leb b'a' c && leb c b'z')
    || (leb b'A' c && leb c b'Z')
    || (leb b'0' c && leb c b'9')
    || any (λ m. eqb c m) (codes "_-.=")

is_secret_separator : ℕ → Bool
is_secret_separator c = any (λ m. eqb c m) (codes "\"' \t\r\n:=")

-- 1. The value behind "authorization: bearer"; `rest` begins behind "bearer".
value_length : (before : ℕ) → Text → Option ℕ
value_length before rest =
    let blanks = count_while is_blank rest in
    let value = count_while (λ c. not (is_ascii_whitespace c)) (drop blanks rest) in
    if leb 1 blanks && leb 1 value then some (before + blanks + value) else none

bearer_behind : (before : ℕ) → Text → Option ℕ
bearer_behind before rest =
    if starts_with (to_ascii_lowercase rest) (codes "bearer")
    then value_length (before + 6) (drop 6 rest)
    else none

authorization_length : Text → Option ℕ
authorization_length remaining =
    let rest = drop 14 remaining in
    let blanks = count_while is_blank rest in
    if starts_with (to_ascii_lowercase remaining) (codes "authorization:")
    then bearer_behind (14 + blanks) (drop blanks rest)
    else none

-- 2. "Bearer " and eight characters or more.
bearer_length : Text → Option ℕ
bearer_length remaining =
    let n = count_while is_token_char (drop 7 remaining) in
    if starts_with remaining (codes "Bearer ") && leb 8 n then some (7 + n) else none

-- 3. A keyword, separators, and twelve characters or more.
abbrev keywords : List Text
keywords =
    codes "api_key"
    ∷ codes "api-key"
    ∷ codes "apikey"
    ∷ codes "signing_key"
    ∷ codes "signing-key"
    ∷ codes "signingkey"
    ∷ codes "password"
    ∷ codes "secret"
    ∷ codes "token"
    ∷ []

keyword_length : List Text → Text → ℕ
keyword_length [] lower = 0
keyword_length (kw ∷ kws) lower =
    if starts_with lower kw then length kw else keyword_length kws lower

secret_behind : ℕ → Text → Option ℕ
secret_behind kw_len rest =
    let separators = count_while is_secret_separator rest in
    let value = count_while is_token_char (drop separators rest) in
    if leb 1 kw_len && (leb 1 separators && leb 12 value)
    then some (kw_len + separators + value)
    else none

secret_length : Text → Option ℕ
secret_length remaining =
    let kw_len = keyword_length keywords (to_ascii_lowercase remaining) in
    secret_behind kw_len (drop kw_len remaining)

-- One pass over the characters with their places.
pub matches_of : (Text → Option ℕ) → ℕ → Text → List Range
matches_of find i [] = []
matches_of find i (c ∷ s) =
    let rest = matches_of find (suc i) s in
    elim (find (c ∷ s)) [ none ↦ rest | some n ↦ (i, i + n) ∷ rest ]

unfoldable pub all_matches : Text → List Range
unfolding matches_of authorization_length bearer_behind value_length bearer_length secret_length
    secret_behind keyword_length count_while is_blank is_ascii_whitespace is_token_char
    is_secret_separator
all_matches s =
    matches_of authorization_length 0 s
    ++ (matches_of bearer_length 0 s ++ matches_of secret_length 0 s)

-- `sort_by_key(|m| (m.0, m.1))`
is_before : Range → Range → Bool
is_before p q = ltb p.0 q.0 || (eqb p.0 q.0 && leb p.1 q.1)

pub insert_range : Range → List Range → List Range
insert_range p [] = p ∷ []
insert_range p (q ∷ qs) =
    let rest = insert_range p qs in if is_before p q then p ∷ q ∷ qs else q ∷ rest

pub sort_ranges : List Range → List Range
sort_ranges [] = []
sort_ranges (p ∷ ps) = insert_range p (sort_ranges ps)

-- The merging loop; the last range of `merged` is still open.
pub merge_open : Range → List Range → List Range
merge_open last [] = last ∷ []
merge_open last (r ∷ rs) = elim (leb r.0 last.1) [
  | true ↦ merge_open (last.0, (if ltb last.1 r.1 then r.1 else last.1)) rs
  | false ↦ last ∷ merge_open r rs
]

pub merge_ranges : List Range → List Range
merge_ranges [] = []
merge_ranges (r ∷ rs) = merge_open r rs

abbrev pub redacted : Text
redacted = codes "[REDACTED]"

-- The result from `last_idx` on, where `s` is the text from there on.
pub build : (last_idx : ℕ) → List Range → Text → Text
build last_idx [] s = s
build last_idx ((start, end) ∷ rs) s =
    take (start - last_idx) s ++ (redacted ++ build end rs (drop (end - last_idx) s))

unfoldable pub redact_for_log : Text → Text
unfolding all_matches build merge_ranges merge_open sort_ranges insert_range is_before
redact_for_log s = build 0 (merge_ranges (sort_ranges (all_matches s))) s
