-- ===== src/Policy/Files/Description.antt =====
-- Denied patterns and directories of src/policy.rs, in words of their own: what a text is free of,
-- and what is below a directory.
use intermcp.Prelude.{
  ◌≡◌, ◌≢◌, ◌⊎◌, inl, inr, refl, sym, ap, ◌∙◌, arith, Text, Bool, true, false, Option, none, some,
  List, [], ◌∷◌, ◌++◌, ◌&&◌, ◌||◌, contains-inside, ends_with-append, not_true, any, map, ==_iff,
  text_is_eq, contains, ends_with, Bool-cases,
}
use intermcp.Policy.Glob.{glob_like_match}
use intermcp.Policy.Paths.{
  Component, root_dir, cur_dir, parent_dir, normal, component_eq, components, prefixes, ancestors,
  same_path, has_ancestor,
}
use intermcp.Policy.Files.{
  lower_slashed, canonical_or_normalized, is_denied, is_within_dir, is_within_any, trim_end_slashes,
  canonical_within,
}

-- The glob matcher does not accept the text; the pattern stands nowhere in it; and it does not end
-- with the pattern without the slashes at its end.
pub record IsFreeOf (text pattern : Text) : Type 0 where
  pub no_match : glob_like_match text pattern ≡ false
  pub not_inside : (before rest : Text) → text ≢ before ++ (pattern ++ rest)
  pub not_at_end : (before : Text) → text ≢ before ++ trim_end_slashes pattern

free :
    (text pattern : Text)
    → glob_like_match text pattern ≡ false
    → contains text pattern ≡ false
    → ends_with text (trim_end_slashes pattern) ≡ false
    → IsFreeOf text pattern
free text pattern g c e = record {
  no_match = g;
  not_inside = λ before rest same.
      not_true (contains text pattern) c
        (ap (λ t. contains t pattern) same ∙ contains-inside before pattern rest);
  not_at_end = λ before same. not_true (ends_with text (trim_end_slashes pattern)) e (
      ap (λ t. ends_with t (trim_end_slashes pattern)) same
      ∙ ends_with-append before (trim_end_slashes pattern));
}

component_eq-eq : (a b : Component) → component_eq a b ≡ true → a ≡ b
component_eq-eq root_dir root_dir h = refl
component_eq-eq root_dir cur_dir h = cc
component_eq-eq root_dir parent_dir h = cc
component_eq-eq root_dir (normal t) h = cc
component_eq-eq cur_dir root_dir h = cc
component_eq-eq cur_dir cur_dir h = refl
component_eq-eq cur_dir parent_dir h = cc
component_eq-eq cur_dir (normal t) h = cc
component_eq-eq parent_dir root_dir h = cc
component_eq-eq parent_dir cur_dir h = cc
component_eq-eq parent_dir parent_dir h = refl
component_eq-eq parent_dir (normal t) h = cc
component_eq-eq (normal s) root_dir h = cc
component_eq-eq (normal s) cur_dir h = cc
component_eq-eq (normal s) parent_dir h = cc
component_eq-eq (normal s) (normal t) h = ap normal ((==_iff s t).0 h)

-- The components of a path begin with those of another.
abbrev pub StartsWith : List Component → List Component → Type 0
StartsWith cs ds = (rest : List Component) × (cs ≡ ds ++ rest)

same_head :
    (c b : Component) (bs : List Component) (ps : List (List Component))
    → any (λ a. same_path a (b ∷ bs)) (map (λ p. c ∷ p) ps) ≡ true
    → (c ≡ b) × (any (λ a. same_path a bs) ps ≡ true)
same_head c b bs [] h = cc
same_head c b bs (p ∷ ps) h = elim (Bool-cases (component_eq c b && same_path p bs)) [
  | inl e ↦ (component_eq-eq c b (ground arith), ground arith)
  | inr n ↦ let (same, found) = same_head c b bs ps (ground arith) in (same, ground arith)
]

empty_path : (bs : List Component) → same_path [] bs ≡ true → bs ≡ []
empty_path [] h = refl
empty_path (b ∷ bs) h = cc

longer :
    (c : Component) (cs ds : List Component)
    → any (λ a. same_path a ds) (map (λ p. c ∷ p) (prefixes cs)) ≡ true
    → StartsWith (c ∷ cs) ds
longer c cs [] h = (c ∷ cs, refl)
longer c [] (b ∷ bs) h =
    let (same, found) = same_head c b bs (prefixes []) h in
    ([], ap (λ x. x ∷ []) same ∙ ap (λ ds. b ∷ (ds ++ [])) (sym (empty_path bs (ground arith))))
longer c (c' ∷ cs) (b ∷ bs) h =
    let (same, found) = same_head c b bs (prefixes (c' ∷ cs)) h in
    elim (Bool-cases (same_path [] bs)) [
      | inl e ↦ (
        c' ∷ cs,
        ap (λ x. x ∷ c' ∷ cs) same ∙ ap (λ ds. b ∷ (ds ++ c' ∷ cs)) (sym (empty_path bs e)),
      )
      | inr n ↦
          let (rest, more) = longer c' cs bs (ground arith) in
          (rest, ap (λ x. x ∷ c' ∷ cs) same ∙ ap (λ ds. b ∷ ds) more)
    ]

within_prefixes :
    (cs ds : List Component) → any (λ a. same_path a ds) (prefixes cs) ≡ true → StartsWith cs ds
within_prefixes [] ds h = ([], sym (rw (empty_path ds (ground arith)) refl))
within_prefixes (c ∷ cs) ds h = elim (Bool-cases (same_path [] ds)) [
  | inl e ↦ (c ∷ cs, ap (λ x. x ++ c ∷ cs) (sym (empty_path ds e)))
  | inr n ↦ longer c cs ds (ground arith)
]

within_ancestors :
    (cs ds : List Component) → any (λ a. same_path a ds) (ancestors cs) ≡ true → StartsWith cs ds
unfolding ancestors
within_ancestors [] ds h = within_prefixes [] ds h
within_ancestors (root_dir ∷ cs) ds h = longer root_dir cs ds h
within_ancestors (cur_dir ∷ cs) ds h = within_prefixes (cur_dir ∷ cs) ds h
within_ancestors (parent_dir ∷ cs) ds h = within_prefixes (parent_dir ∷ cs) ds h
within_ancestors (normal s ∷ cs) ds h = within_prefixes (normal s ∷ cs) ds h

has_ancestor-StartsWith :
    (target dir : Text)
    → has_ancestor target dir ≡ true
    → StartsWith (components target) (components dir)
has_ancestor-StartsWith target dir h =
    within_ancestors (components target) (components dir) (unfold has_ancestor in h)

pub either_of : (b c : Bool) → (b || c) ≡ true → (b ≡ true) ⊎ (c ≡ true)
either_of true c h = inl refl
either_of false c h = inr h

module _ (to_lowercase : Text → Text) (canonicalize : Text → Option Text) where
  -- The path begins with the directory, component by component, as they are written or in their
  -- canonical forms. A `..` is a component like any other.
  abbrev pub IsBelow : Text → Text → Type 0
  IsBelow path dir =
      StartsWith (components path) (components dir)
      ⊎ ((real_path : Text) × (real_dir : Text) × (canonicalize path ≡ some real_path)
          × (canonicalize dir ≡ some real_dir)
          × StartsWith (components real_path) (components real_dir))

  abbrev pub IsBelowSome : Text → List Text → Type 0
  IsBelowSome path [] = ⊥
  IsBelowSome path (dir ∷ dirs) = IsBelow path dir ⊎ IsBelowSome path dirs

  canonical_within-StartsWith :
      (o p : Option Text)
      → canonical_within to_lowercase canonicalize o p ≡ true
      → (real_path : Text) × (real_dir : Text) × (o ≡ some real_path)
        × (p ≡ some real_dir)
        × StartsWith (components real_path) (components real_dir)
  unfolding canonical_within
  canonical_within-StartsWith none p h = cc
  canonical_within-StartsWith (some t) none h = cc
  canonical_within-StartsWith (some t) (some d) h =
      (t, d, refl, refl, has_ancestor-StartsWith t d h)

  is_within_dir-IsBelow :
      (path dir : Text) → is_within_dir to_lowercase canonicalize path dir ≡ true → IsBelow path dir
  unfolding is_within_dir
  is_within_dir-IsBelow path dir h = elim (either_of (has_ancestor path dir) _ h) [
    | inl written ↦ inl (has_ancestor-StartsWith path dir written)
    | inr real ↦ inr (canonical_within-StartsWith (canonicalize path) (canonicalize dir) real)
  ]

  pub is_within_any-IsBelowSome :
      (path : Text) (dirs : List Text)
      → is_within_any to_lowercase canonicalize path dirs ≡ true
      → IsBelowSome path dirs
  is_within_any-IsBelowSome path [] h = cc
  is_within_any-IsBelowSome path (dir ∷ dirs) h =
      elim (either_of (is_within_dir to_lowercase canonicalize path dir) _ h) [
        | inl here ↦ inl (is_within_dir-IsBelow path dir here)
        | inr there ↦ inr (is_within_any-IsBelowSome path dirs there)
      ]

  -- A path, as it is written and in its canonical or normalized form, is free of a pattern; both are
  -- in lower case and with slashes only.
  pub record IsFree (path pattern : Text) : Type 0 where
    pub as_written :
        IsFreeOf
          (lower_slashed to_lowercase canonicalize path)
          (lower_slashed to_lowercase canonicalize pattern)
    pub as_resolved :
        IsFreeOf
          (lower_slashed to_lowercase canonicalize
            (canonical_or_normalized to_lowercase canonicalize path))
          (lower_slashed to_lowercase canonicalize pattern)

  abbrev Freed : Text → Text → Type 0
  Freed text pattern =
      (glob_like_match text pattern ≡ false)
      × (contains text pattern ≡ false)
      × (ends_with text (trim_end_slashes pattern) ≡ false)

  is_denied-tests :
      (raw norm pattern : Text)
      → is_denied to_lowercase canonicalize raw norm pattern ≡ false
      → Freed raw (lower_slashed to_lowercase canonicalize pattern)
        × Freed norm (lower_slashed to_lowercase canonicalize pattern)
  unfolding is_denied
  is_denied-tests raw norm pattern h =
      ((ground arith, ground arith, ground arith), (ground arith, ground arith, ground arith))

  pub is_denied-IsFree :
      (path pattern : Text)
      → is_denied to_lowercase canonicalize
          (lower_slashed to_lowercase canonicalize path)
          (lower_slashed to_lowercase canonicalize
            (canonical_or_normalized to_lowercase canonicalize path))
          pattern
        ≡ false
      → IsFree path pattern
  is_denied-IsFree path pattern h =
      let ((g, c, e), (g', c', e')) = is_denied-tests _ _ pattern h in
      record { as_written = free _ _ g c e; as_resolved = free _ _ g' c' e' }
