-- ===== src/Tools/System/Plain.antt =====
-- src/tools/system.rs: what stands outside of the quotes of a text in which
-- `contains_unquoted_shell_meta` finds nothing, and where a tilde stands in one in which
-- `contains_tilde_expansion` finds none.
use intermcp.Prelude.{
  ℕ, ◌≡◌, ◌≢◌, refl, sym, ap, ◌∙◌, arith, Text, codes, Bool, true, false, ◌&&◌, ◌||◌, Option, none,
  some, List, [], ◌∷◌, ◌++◌, eqb, eqb_iff, any, All, is_whitespace, not, Bool-cases, ◌⊎◌, inl, inr,
  if◌then◌else◌,
}
use intermcp.Tools.System.{
  contains_tilde_expansion, tilde_from, starts_expansion, ends_expansion, is_expansion_start,
  contains_unquoted_shell_meta, meta_from, is_shell_meta, quote, is_inside,
}
use intermcp.Tools.System.Cutting.{Mode, plain, in_single, in_double, flags}
use intermcp.Tools.System.Splitting.{meta_plain, meta_quote}

-- The character before what follows a text.
abbrev pub last_of : Option ℕ → Text → Option ℕ
last_of prev [] = prev
last_of prev (c ∷ s) = last_of (some c) s

-- A tilde behind `prev` and before `rest` stands between two characters; the first is no blank and
-- none of "\"'=:;|&/", the second no blank and no slash.
abbrev pub IsBetween : Option ℕ → Text → Type 0
IsBetween prev rest =
    (p d : ℕ) × (r : Text) × (prev ≡ some p)
    × (rest ≡ d ∷ r)
    × (is_whitespace p ≡ false)
    × All (λ x. p ≢ x) (codes "\"'=:;|&/")
    × (is_whitespace d ≡ false)
    × (d ≢ b'/')

none_of : (p : ℕ) (xs : List ℕ) → any (λ m. eqb p m) xs ≡ false → All (λ x. p ≢ x) xs
none_of p [] h = tt
none_of p (x ∷ xs) h = ((λ e. ground (arith, eqb_iff p x)), none_of p xs (ground arith))

between :
    (prev : Option ℕ) (rest : Text)
    → (starts_expansion prev || ends_expansion rest) ≡ false
    → IsBetween prev rest
unfolding starts_expansion ends_expansion is_expansion_start
between none rest h = cc
between (some p) [] h = absurd (ground arith)
between (some p) (d ∷ r) h = (
  p,
  d,
  r,
  refl,
  refl,
  ground arith,
  none_of p (codes "\"'=:;|&/") (ground arith),
  ground arith,
  ground arith,
)

tilde_found :
    (prev : Option ℕ) (before rest : Text)
    → tilde_from prev (before ++ b'~' ∷ rest) ≡ false
    → IsBetween (last_of prev before) rest
unfolding tilde_from
tilde_found prev [] rest h = between prev rest (ground arith)
tilde_found prev (c ∷ before) rest h = tilde_found (some c) before rest (ground arith)

abbrev pub HasInnerTildes : Text → Type 0
HasInnerTildes raw =
    (before rest : Text) → raw ≡ before ++ b'~' ∷ rest → IsBetween (last_of none before) rest

pub tilde-HasInnerTildes : (raw : Text) → contains_tilde_expansion raw ≡ false → HasInnerTildes raw
unfolding contains_tilde_expansion
tilde-HasInnerTildes raw h before rest e =
    tilde_found none before rest (ap (λ s. tilde_from none s) (sym e) ∙ h)

abbrev switched : Mode → ℕ → Option Mode
switched plain c = if eqb c 39 then some in_single else if eqb c 34 then some in_double else none
switched in_single c = if eqb c 39 then some plain else none
switched in_double c = if eqb c 34 then some plain else none

abbrev is_plain : Mode → Bool
is_plain plain = true
is_plain in_single = false
is_plain in_double = false

-- The characters outside of quotes, without the quotes.
pub outside_quotes : Mode → Text → Text
outside_quotes m [] = []
outside_quotes m (c ∷ s) = elim (switched m c) [
  | some m' ↦ outside_quotes m' s
  | none ↦ elim (is_plain m) [ true ↦ c ∷ outside_quotes m s | false ↦ outside_quotes m s ]
]

abbrev Switch : Mode → ℕ → Type 0
Switch m c =
    ((m' : Mode) × (quote (flags m) c ≡ some (flags m')) × (switched m c ≡ some m'))
    ⊎ ((quote (flags m) c ≡ none) × (switched m c ≡ none))

switch : (m : Mode) (c : ℕ) → Switch m c
unfolding quote
switch plain c = elim (Bool-cases (eqb c 39)) [
  | inl e ↦ inl (in_single, ground arith, ground arith)
  | inr n ↦ elim (Bool-cases (eqb c 34)) [
    | inl e ↦ inl (in_double, ground arith, ground arith)
    | inr n' ↦ inr (ground arith, ground arith)
  ]
]
switch in_single c = elim (Bool-cases (eqb c 39)) [
  | inl e ↦ inl (plain, ground arith, ground arith)
  | inr n ↦ inr (ground arith, ground arith)
]
switch in_double c = elim (Bool-cases (eqb c 34)) [
  | inl e ↦ inl (plain, ground arith, ground arith)
  | inr n ↦ inr (ground arith, ground arith)
]

-- The character is none of those by which a shell chains, redirects or groups commands.
abbrev pub IsNoMeta : ℕ → Type 0
IsNoMeta c = All (λ m. c ≢ m) (codes ";&|\n\r()<>")

outside_switched :
    (m m' : Mode) (c : ℕ) (s : Text)
    → switched m c ≡ some m'
    → outside_quotes m (c ∷ s) ≡ outside_quotes m' s
unfolding outside_quotes
outside_switched m m' c s e = ground arith

outside_char :
    (c : ℕ) (s : Text)
    → switched plain c ≡ none
    → outside_quotes plain (c ∷ s) ≡ c ∷ outside_quotes plain s
unfolding outside_quotes
outside_char c s e = ground arith

outside_inner :
    (m : Mode) (c : ℕ) (s : Text)
    → is_plain m ≡ false
    → switched m c ≡ none
    → outside_quotes m (c ∷ s) ≡ outside_quotes m s
unfolding outside_quotes
outside_inner m c s i e = ground arith

outside_kept :
    (m : Mode) (c : ℕ) (s : Text)
    → switched m c ≡ none
    → (not (is_inside (flags m)) && is_shell_meta c) ≡ false
    → All IsNoMeta (outside_quotes m s)
    → All IsNoMeta (outside_quotes m (c ∷ s))
unfolding is_shell_meta
outside_kept plain c s e k h = rw (outside_char c s e) (none_of c (codes ";&|\n\r()<>") k, h)
outside_kept in_single c s e k h = rw (outside_inner in_single c s refl e) h
outside_kept in_double c s e k h = rw (outside_inner in_double c s refl e) h

meta_free :
    (m : Mode) (s : Text) → meta_from (flags m) s ≡ false → All IsNoMeta (outside_quotes m s)
meta_free m [] h = (unfold outside_quotes in tt)
meta_free m (c ∷ s) h = elim (switch m c) [
  | inl (m', e, r) ↦
      rw (outside_switched m m' c s r) (meta_free m' s (meta_quote (flags m) (flags m') c s e h))
  | inr (e, r) ↦
      let (here, later) = meta_plain (flags m) c s e h in
      outside_kept m c s r here (meta_free m s later)
]

pub meta-free_outside :
    (raw : Text)
    → contains_unquoted_shell_meta raw ≡ false
    → All IsNoMeta (outside_quotes plain raw)
unfolding contains_unquoted_shell_meta
meta-free_outside raw h = meta_free plain raw h
