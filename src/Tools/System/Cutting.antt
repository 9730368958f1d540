-- ===== src/Tools/System/Cutting.antt =====
-- src/tools/system.rs: `split_chained_commands` against a description of its own: a reader of quotes
-- with three modes, and a command line as its pieces with the separators between them.
use intermcp.Prelude.{
  ◌≡◌, refl, sym, ap, ◌∙◌, arith, ℕ, Text, codes, Bool, true, false, not, ◌&&◌, ◌||◌, Option, none,
  some, List, [], ◌∷◌, ◌++◌, ◌⊎◌, inl, inr, drop, eqb, eqb_iff, is_empty, trim, starts_with,
  if◌then◌else◌, Bool-cases, Option-cases,
}
use mathlib.Core.Path.{subst}
use mathlib.Core.List.{append_assoc, append-nil}
use intermcp.Tools.System.{
  Quotes, unquoted, is_inside, quote, is_separator, is_doubled, split_from, split_chained_commands,
}
use intermcp.Tools.System.Splitting.{split-skip, split-quote, split-kept, split-parted, one_piece}

pub data Mode : Type 0 where
  plain in_single in_double : Mode

-- A character that is read; none is a separator outside of quotes.
pub step : Mode → ℕ → Option Mode
step plain c =
    if eqb c 39
    then some in_single
    else if eqb c 34
    then some in_double
    else if eqb c b';' || eqb c 10 || eqb c b'|' || eqb c b'&'
    then none
    else some plain
step in_single c = if eqb c 39 then some plain else some in_single
step in_double c = if eqb c 34 then some plain else some in_double

pub reads : Mode → Text → Option Mode
unfolding step
reads m [] = some m
reads m (c ∷ s) = elim (step m c) [ none ↦ none | some m' ↦ reads m' s ]

-- What stands between two pieces, before `rest`: a sign that is doubled is one separator.
abbrev pub Separates : Text → Text → Type 0
Separates sep rest =
    (sep ≡ codes ";")
    ⊎ (sep ≡ 10 ∷ [])
    ⊎ (sep ≡ codes "||")
    ⊎ (sep ≡ codes "&&")
    ⊎ ((sep ≡ codes "|") × (starts_with rest (codes "|") ≡ false))
    ⊎ ((sep ≡ codes "&") × (starts_with rest (codes "&") ≡ false))

-- The pieces of a command line, in their order. A piece has no separator outside of its quotes and
-- closes them, if another is behind it; only a blank end is left out.
pub data Cuts : Text → List Text → Type 0 where
  blank : (t : Text) (m : Mode) → reads plain t ≡ some m → is_empty (trim t) ≡ true → Cuts t []
  last :
      (t : Text) (m : Mode) → reads plain t ≡ some m → is_empty (trim t) ≡ false → Cuts t (t ∷ [])
  parted :
      (text piece sep rest : Text) (pieces : List Text)
      → reads plain piece ≡ some plain
      → Separates sep rest
      → text ≡ piece ++ (sep ++ rest)
      → Cuts rest pieces
      → Cuts text (piece ∷ pieces)

abbrev pub flags : Mode → Quotes
flags plain = unquoted
flags in_single = record { in_single = true; in_double = false }
flags in_double = record { in_single = false; in_double = true }

-- One turn, in the code and in the reader.
abbrev Turn : Mode → ℕ → Type 0
Turn m c =
    ((m' : Mode) × (quote (flags m) c ≡ some (flags m')) × (step m c ≡ some m'))
    ⊎ ((quote (flags m) c ≡ none)
        × ((not (is_inside (flags m)) && is_separator c) ≡ false)
        × (step m c ≡ some m))
    ⊎ ((quote (flags m) c ≡ none)
        × ((not (is_inside (flags m)) && is_separator c) ≡ true)
        × (m ≡ plain))

turn : (m : Mode) (c : ℕ) → Turn m c
unfolding step quote is_separator
turn plain c = elim (Bool-cases (eqb c 39)) [
  | inl e ↦ inl (in_single, ground arith, ground arith)
  | inr n ↦ elim (Bool-cases (eqb c 34)) [
    | inl e ↦ inl (in_double, ground arith, ground arith)
    | inr n' ↦ elim (Bool-cases (eqb c b';' || eqb c 10 || eqb c b'|' || eqb c b'&')) [
      | inl e ↦ inr (inr (ground arith, ground arith, refl))
      | inr o ↦ inr (inl (ground arith, ground arith, ground arith))
    ]
  ]
]
turn in_single c = elim (Bool-cases (eqb c 39)) [
  | inl e ↦ inl (plain, ground arith, ground arith)
  | inr n ↦ inr (inl (ground arith, refl, ground arith))
]
turn in_double c = elim (Bool-cases (eqb c 34)) [
  | inl e ↦ inl (plain, ground arith, ground arith)
  | inr n ↦ inr (inl (ground arith, refl, ground arith))
]

reads-cons : (k k' : Mode) (c : ℕ) (t : Text) → step k c ≡ some k' → reads k (c ∷ t) ≡ reads k' t
unfolding reads
reads-cons k k' c t e = ground arith

reads-stuck : (k : Mode) (c : ℕ) (t : Text) → step k c ≡ none → reads k (c ∷ t) ≡ none
unfolding reads
reads-stuck k c t e = ground arith

reads-push :
    (k m m' : Mode) (t : Text) (c : ℕ)
    → reads k t ≡ some m
    → step m c ≡ some m'
    → reads k (t ++ c ∷ []) ≡ some m'
reads-push k m m' [] c h e = (unfold reads in ground arith)
reads-push k m m' (d ∷ t) c h e = elim (Option-cases (step k d)) [
  | inl stuck ↦ ground (arith, reads-stuck k d t stuck)
  | inr (k', q) ↦
      reads-cons k k' d (t ++ c ∷ []) q ∙ reads-push k' m m' t c (sym (reads-cons k k' d t q) ∙ h) e
]

-- What the loop has still to read.
abbrev after : Bool → Text → Text
after false s = s
after true s = drop 1 s

sign : (c : ℕ) → is_separator c ≡ true → (c ≡ b';') ⊎ (c ≡ 10) ⊎ (c ≡ b'|') ⊎ (c ≡ b'&')
unfolding is_separator
sign c h = ground arith

abbrev Separated : ℕ → Text → Type 0
Separated c s =
    (sep : Text) × Separates sep (after (is_doubled c s) s)
    × (c ∷ s ≡ sep ++ after (is_doubled c s) s)

Separated-semicolon : (s : Text) → Separated b';' s
unfolding is_doubled
Separated-semicolon [] = (codes ";", inl refl, refl)
Separated-semicolon (d ∷ s) = (codes ";", inl refl, refl)

Separated-newline : (s : Text) → Separated 10 s
unfolding is_doubled
Separated-newline [] = (10 ∷ [], inr (inl refl), refl)
Separated-newline (d ∷ s) = (10 ∷ [], inr (inl refl), refl)

Separated-bar : (s : Text) → Separated b'|' s
unfolding is_doubled starts_with
Separated-bar [] = (codes "|", inr (inr (inr (inr (inl (refl, refl))))), refl)
Separated-bar (d ∷ s) = elim (Bool-cases (eqb d b'|')) [
  | inl e ↦ rw e (codes "||", inr (inr (inl refl)), ground (arith, eqb_iff d b'|'))
  | inr n ↦ rw n (codes "|", inr (inr (inr (inr (inl (refl, rw n refl))))), refl)
]

Separated-ampersand : (s : Text) → Separated b'&' s
unfolding is_doubled starts_with
Separated-ampersand [] = (codes "&", inr (inr (inr (inr (inr (refl, refl))))), refl)
Separated-ampersand (d ∷ s) = elim (Bool-cases (eqb d b'&')) [
  | inl e ↦ rw e (codes "&&", inr (inr (inr (inl refl))), ground (arith, eqb_iff d b'&'))
  | inr n ↦ rw n (codes "&", inr (inr (inr (inr (inr (refl, rw n refl))))), refl)
]

Separated-sign :
    (c : ℕ) (s : Text) → (c ≡ b';') ⊎ (c ≡ 10) ⊎ (c ≡ b'|') ⊎ (c ≡ b'&') → Separated c s
Separated-sign c s (inl e) = subst (λ x. Separated x s) (sym e) (Separated-semicolon s)
Separated-sign c s (inr (inl e)) = subst (λ x. Separated x s) (sym e) (Separated-newline s)
Separated-sign c s (inr (inr (inl e))) = subst (λ x. Separated x s) (sym e) (Separated-bar s)
Separated-sign c s (inr (inr (inr e))) = subst (λ x. Separated x s) (sym e) (Separated-ampersand s)

-- The end of the loop.
one_piece-Cuts : (m : Mode) (t : Text) → reads plain t ≡ some m → Cuts t (one_piece t)
one_piece-Cuts m t h = elim (Bool-cases (is_empty (trim t))) [
  | inl e ↦ rw e (blank t m h e)
  | inr n ↦ rw n (last t m h n)
]

split_from-Cuts :
    (skip : Bool) (m : Mode) (current s : Text)
    → reads plain current ≡ some m
    → Cuts (current ++ after skip s) (split_from skip (flags m) current s)
split_from-Cuts true m current [] h =
    (unfold split_from in rw append-nil (one_piece-Cuts m current h))
split_from-Cuts false m current [] h =
    (unfold split_from in rw append-nil (one_piece-Cuts m current h))
split_from-Cuts true m current (c ∷ s) h =
    rw (split-skip (flags m) current c s) (split_from-Cuts false m current s h)
split_from-Cuts false m current (c ∷ s) h = elim (turn m c) [
  | inl (m', e, r) ↦ rw (split-quote (flags m) current c s (flags m') e) (
      rw append_assoc at
        (split_from-Cuts false m' (current ++ c ∷ []) s (reads-push plain m m' current c h r)))
  | inr (inl (e, k, r)) ↦ rw (split-kept (flags m) current c s e k) (
      rw append_assoc at
        (split_from-Cuts false m (current ++ c ∷ []) s (reads-push plain m m current c h r)))
  | inr (inr (e, k, is_plain)) ↦
      let (sep, separates, text) = Separated-sign c s (sign c (ground arith)) in
      let none_read : reads plain [] ≡ some m = (unfold reads in ap some (sym is_plain)) in
      rw (split-parted (flags m) current c s e k) (
        parted (current ++ c ∷ s) current sep (after (is_doubled c s) s)
          (split_from (is_doubled c s) (flags m) [] s) (h ∙ ap some is_plain) separates
          (ap (λ t. current ++ t) text) (split_from-Cuts (is_doubled c s) m [] s none_read))
]

-- `split_chained_commands` cuts a command line at its separators outside of quotes, which are ";", a
-- newline, "|", "&", "||" and "&&": the line is its pieces, in their order, with such a separator
-- behind each but the last, and no piece has one outside of its quotes. Nothing else is left out but
-- a blank end behind the last separator.
pub split-Cuts : (cmd : Text) → Cuts cmd (split_chained_commands cmd)
unfolding split_chained_commands reads
split-Cuts cmd = split_from-Cuts false plain [] cmd refl
