-- ===== src/Tools/System.antt =====
-- src/tools/system.rs: how a command line is read before it runs. The scans of its quotes, the
-- separation of chained commands, and the name of its binary.
pub mod Splitting
pub mod Cutting
pub mod Rules
pub mod Binaries
pub mod Plain
pub mod Validation
mod Tests
use intermcp.Prelude.{
  ℕ, Text, codes, Bool, true, false, not, ◌&&◌, ◌||◌, Option, none, some, List, [], ◌∷◌, ◌++◌, eqb,
  any, is_empty, is_whitespace, trim, starts_with, if◌then◌else◌, reverse, ends_with, length, drop,
}
use intermcp.Policy.Paths.{Component, normal, root_dir, cur_dir, parent_dir, components}

-- The two flags of the scans.
pub record Quotes : Type 0 where
  pub in_single : Bool
  pub in_double : Bool

abbrev pub unquoted : Quotes
unquoted = record { in_single = false; in_double = false }

abbrev pub is_inside : Quotes → Bool
is_inside q = q.in_single || q.in_double

-- The flags after a character that opens or closes quotes.
unfoldable pub quote : Quotes → ℕ → Option Quotes
quote q c =
    if eqb c b'\'' && not q.in_double
    then some (record q { in_single = not q.in_single })
    else if eqb c b'"' && not q.in_single
    then some (record q { in_double = not q.in_double })
    else none

pub is_shell_meta : ℕ → Bool
is_shell_meta c = any (λ m. eqb c m) (codes ";&|\n\r()<>")

pub meta_from : Quotes → Text → Bool
meta_from q [] = false
meta_from q (c ∷ s) = elim (quote q c) [
  | some q' ↦ meta_from q' s
  | none ↦ (not (is_inside q) && is_shell_meta c) || meta_from q s
]

unfoldable pub contains_unquoted_shell_meta : Text → Bool
unfolding meta_from quote is_shell_meta
contains_unquoted_shell_meta cmd = meta_from unquoted cmd

pub is_separator : ℕ → Bool
is_separator c = any (λ m. eqb c m) (codes ";\n|&")

-- `&&` or `||` begins here; `s` is the text behind `c`.
pub is_doubled : ℕ → Text → Bool
is_doubled c [] = false
is_doubled c (d ∷ s) = (eqb c b'&' && eqb d b'&') || (eqb c b'|' && eqb d b'|')

-- The loop. `skip` says that the last turn has stepped over this character too.
pub split_from : (skip : Bool) → Quotes → (current : Text) → Text → List Text
split_from skip q current [] = if is_empty (trim current) then [] else current ∷ []
split_from true q current (c ∷ s) = split_from false q current s
split_from false q current (c ∷ s) = elim (quote q c) [
  | some q' ↦ split_from false q' (current ++ c ∷ []) s
  | none ↦ elim (not (is_inside q) && is_separator c) [
    | true ↦ current ∷ split_from (is_doubled c s) q [] s
    | false ↦ split_from false q (current ++ c ∷ []) s
  ]
]

unfoldable pub split_chained_commands : Text → List Text
unfolding split_from quote is_separator is_doubled
split_chained_commands cmd = split_from false unquoted [] cmd

-- A tilde is expanded behind these characters.
is_expansion_start : ℕ → Bool
is_expansion_start p = is_whitespace p || any (λ m. eqb p m) (codes "\"'=:;|&/")

ends_expansion : Text → Bool
ends_expansion [] = true
ends_expansion (d ∷ s) = eqb d b'/' || is_whitespace d

starts_expansion : Option ℕ → Bool
starts_expansion none = true
starts_expansion (some p) = is_expansion_start p

tilde_from : (prev : Option ℕ) → Text → Bool
tilde_from prev [] = false
tilde_from prev (c ∷ s) =
    (eqb c b'~' && (starts_expansion prev || ends_expansion s)) || tilde_from (some c) s

unfoldable pub contains_tilde_expansion : Text → Bool
unfolding tilde_from starts_expansion ends_expansion is_expansion_start is_whitespace
contains_tilde_expansion s = tilde_from none s

-- `Path::file_name`
unfoldable pub last_name : List Component → Option Text
last_name [] = none
last_name (c ∷ []) = elim c [
  | normal s ↦ some s
  | root_dir ↦ none
  | cur_dir ↦ none
  | parent_dir ↦ none
]
last_name (c ∷ d ∷ cs) = last_name (d ∷ cs)

unfoldable pub file_name : Text → Option Text
unfolding last_name components
file_name path = last_name (components path)

before_last_dot : Text → Option Text
before_last_dot [] = none
before_last_dot (c ∷ s) = elim (before_last_dot s) [
  | some b ↦ some (c ∷ b)
  | none ↦ if eqb c b'.' then some [] else none
]

stem : Text → Text
stem name = elim (before_last_dot name) [ none ↦ name | some b ↦ if is_empty b then name else b ]

-- `Path::file_stem`
unfoldable pub file_stem : Text → Option Text
unfolding file_name stem before_last_dot
file_stem path = elim (file_name path) [ none ↦ none | some name ↦ some (stem name) ]

abbrev is_slash : ℕ → Bool
is_slash c = eqb c b'/' || eqb c 92

drop_slashes : Text → Text
drop_slashes [] = []
drop_slashes (c ∷ s) = let rest = drop_slashes s in if is_slash c then rest else c ∷ s

-- `rsplit(['/', '\\']).next()`
last_segment : Text → Text → Text
last_segment current [] = current
last_segment current (c ∷ s) = last_segment (if is_slash c then [] else current ++ c ∷ []) s

-- `name.strip_suffix(".exe").unwrap_or(name)`
without_exe : Text → Text
without_exe name = if ends_with name (codes ".exe") then reverse (drop 4 (reverse name)) else name

abbrev unwrap_or {ℓ} : {A : Type ℓ} → Option A → A → A
unwrap_or none d = d
unwrap_or (some a) d = a

relative_name : Text → Text
relative_name s = let last = last_segment [] (drop_slashes s) in unwrap_or (file_stem last) last

unfoldable pub extract_binary_name : Text → Text
unfolding file_stem without_exe relative_name last_segment drop_slashes
extract_binary_name raw =
    let s = trim raw in
    elim (if starts_with s (codes "/") then file_name s else none) [
      | some name ↦ without_exe name
      | none ↦ relative_name s
    ]
