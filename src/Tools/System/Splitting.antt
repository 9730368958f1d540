-- ===== src/Tools/System/Splitting.antt =====
-- src/tools/system.rs: the turns of the loop in `split_chained_commands`, and the commands that it
-- leaves whole.
use intermcp.Prelude.{
  ◌≡◌, refl, arith, ℕ, Text, true, false, not, ◌&&◌, none, some, List, [], ◌∷◌, ◌++◌, inl, inr,
  is_empty, trim, if◌then◌else◌, Option-cases, ap, ◌∙◌,
}
use mathlib.Core.List.{append_assoc, append-nil}
use intermcp.Tools.System.{
  Quotes, unquoted, is_inside, quote, is_shell_meta, meta_from, contains_unquoted_shell_meta,
  is_separator, is_doubled, split_from, split_chained_commands,
}

separator-meta : (c : ℕ) → is_shell_meta c ≡ false → is_separator c ≡ false
unfolding is_shell_meta is_separator
separator-meta c h = ground arith

-- A text as the only piece, unless it is blank.
abbrev pub one_piece : Text → List Text
one_piece t = if is_empty (trim t) then [] else t ∷ []

not_separated :
    (q : Quotes) (c : ℕ)
    → (not (is_inside q) && is_shell_meta c) ≡ false
    → (not (is_inside q) && is_separator c) ≡ false
not_separated q c h = ground (arith, separator-meta c)

pub meta_plain :
    (q : Quotes) (c : ℕ) (s : Text)
    → quote q c ≡ none
    → meta_from q (c ∷ s) ≡ false
    → ((not (is_inside q) && is_shell_meta c) ≡ false) × (meta_from q s ≡ false)
unfolding meta_from
meta_plain q c s e h = ground arith

pub meta_quote :
    (q q' : Quotes) (c : ℕ) (s : Text)
    → quote q c ≡ some q'
    → meta_from q (c ∷ s) ≡ false
    → meta_from q' s ≡ false
unfolding meta_from
meta_quote q q' c s e h = ground arith

-- The turns of the loop: at quotes, inside a piece, and at a separator.
module _ (q : Quotes) (current : Text) (c : ℕ) (s : Text) where
  pub split-skip : split_from true q current (c ∷ s) ≡ split_from false q current s
  unfolding split_from
  split-skip = refl

  pub split-quote :
      (q' : Quotes)
      → quote q c ≡ some q'
      → split_from false q current (c ∷ s) ≡ split_from false q' (current ++ c ∷ []) s
  unfolding split_from
  split-quote q' e = ground arith

  pub split-kept :
      quote q c ≡ none
      → (not (is_inside q) && is_separator c) ≡ false
      → split_from false q current (c ∷ s) ≡ split_from false q (current ++ c ∷ []) s
  unfolding split_from
  split-kept e k = ground arith

  pub split-parted :
      quote q c ≡ none
      → (not (is_inside q) && is_separator c) ≡ true
      → split_from false q current (c ∷ s) ≡ current ∷ split_from (is_doubled c s) q [] s
  unfolding split_from
  split-parted e k = ground arith

pub whole-end : (q : Quotes) (current : Text) → split_from false q current [] ≡ one_piece current
unfolding split_from
whole-end q current = refl

whole :
    (q : Quotes) (current s : Text)
    → meta_from q s ≡ false
    → split_from false q current s ≡ one_piece (current ++ s)
whole q current [] h = rw append-nil (whole-end q current)
whole q current (c ∷ s) h = elim (Option-cases (quote q c)) [
  | inl e ↦
      let (here, later) = meta_plain q c s e h in
      split-kept q current c s e (not_separated q c here)
      ∙ whole q (current ++ c ∷ []) s later
      ∙ ap one_piece (append_assoc current (c ∷ []) s)
  | inr (q', e) ↦
      split-quote q current c s q' e
      ∙ whole q' (current ++ c ∷ []) s (meta_quote q q' c s e h)
      ∙ ap one_piece (append_assoc current (c ∷ []) s)
]

-- A command without unquoted shell characters is one piece, the whole of it, unless it is blank.
pub split-whole :
    (cmd : Text)
    → contains_unquoted_shell_meta cmd ≡ false
    → split_chained_commands cmd ≡ (if is_empty (trim cmd) then [] else cmd ∷ [])
unfolding contains_unquoted_shell_meta split_chained_commands
split-whole cmd h = whole unquoted [] cmd h
