-- ===== src/Policy/Files/Access.antt =====
-- What `check_filesystem` (src/policy.rs) establishes when it lets an access through.
use intermcp.Prelude.{
  ◌≡◌, ◌⊎◌, inl, inr, refl, ap, ◌∙◌, arith, Text, Bool, true, false, Option, List, [], ◌∷◌, not,
  ◌&&◌, ◌||◌, is_empty, contains_char, All,
}
use intermcp.Error.{ok}
use intermcp.Policy.Engine.{
  PolicyEngine, matches_denied, pass, violate_if, ◌>>◌, is_enforcing, enforcing,
}
use intermcp.Policy.Checks.{bind-ok, violate_if-ok}
use intermcp.Policy.Files.Description.{
  IsFree, IsBelowSome, is_denied-IsFree, is_within_any-IsBelowSome, either_of,
}
use intermcp.Policy.Files.{
  lower_slashed, canonical_or_normalized, is_denied, deny, is_within_any, check_nul, check_denied,
  check_write, check_read, check_filesystem,
}

empty_or :
    (dirs : List Text) (b : Bool)
    → (not (is_empty dirs) && not b) ≡ false
    → (dirs ≡ []) ⊎ (b ≡ true)
empty_or [] b h = inl refl
empty_or (d ∷ dirs) true h = inr refl
empty_or (d ∷ dirs) false h = absurd (ground arith)

read_cases :
    (dirs : List Text) (b c : Bool)
    → (not (is_empty dirs) && not (b || c)) ≡ false
    → (dirs ≡ []) ⊎ (b ≡ true) ⊎ (c ≡ true)
read_cases dirs b c h = elim (empty_or dirs (b || c) h) [
  | inl none_named ↦ inl none_named
  | inr found ↦ inr (either_of b c found)
]

module _ (to_lowercase : Text → Text) (canonicalize : Text → Option Text) where
  deny-ok :
      (path raw_str norm_str : Text) (patterns : List Text) (e e' : PolicyEngine)
      → is_enforcing e.policy.mode ≡ true
      → deny to_lowercase canonicalize path raw_str norm_str patterns e ≡ (e', ok tt)
      → All (λ p. is_denied to_lowercase canonicalize raw_str norm_str p ≡ false) patterns
        × (e' ≡ e)
  unfolding deny pass
  deny-ok path raw_str norm_str [] e e' enf h = (tt, cc)
  deny-ok path raw_str norm_str (pattern ∷ patterns) e e' enf h =
      let (e1, a, first, rest) =
        bind-ok
          (violate_if (is_denied to_lowercase canonicalize raw_str norm_str pattern)
            (matches_denied path pattern))
          (λ _. deny to_lowercase canonicalize path raw_str norm_str patterns) e e' tt h in
      let (free, same) = violate_if-ok _ _ e e1 enf first in
      let (others, same') = deny-ok path raw_str norm_str patterns e1 e' (rw same enf) rest in
      ((free, others), same' ∙ same)

  check_nul-ok :
      (path : Text) (e e' : PolicyEngine)
      → is_enforcing e.policy.mode ≡ true
      → check_nul to_lowercase canonicalize path e ≡ (e', ok tt)
      → (contains_char path 0 ≡ false) × (e' ≡ e)
  unfolding check_nul
  check_nul-ok path e e' enf h = violate_if-ok _ _ e e' enf h

  denied-IsFree :
      (path : Text) (patterns : List Text)
      → All
          (λ p.
            is_denied to_lowercase canonicalize
              (lower_slashed to_lowercase canonicalize path)
              (lower_slashed to_lowercase canonicalize
                (canonical_or_normalized to_lowercase canonicalize path))
              p
            ≡ false)
          patterns
      → All (IsFree to_lowercase canonicalize path) patterns
  denied-IsFree path [] h = tt
  denied-IsFree path (pattern ∷ patterns) (here, h) =
      (is_denied-IsFree to_lowercase canonicalize path pattern here, denied-IsFree path patterns h)

  check_denied-ok :
      (path : Text) (e e' : PolicyEngine)
      → is_enforcing e.policy.mode ≡ true
      → check_denied to_lowercase canonicalize path e ≡ (e', ok tt)
      → All (IsFree to_lowercase canonicalize path) e.policy.filesystem.denied × (e' ≡ e)
  unfolding check_denied
  check_denied-ok path e e' enf h =
      let patterns = e.policy.filesystem.denied in
      let (unmatched, same) = deny-ok path _ _ patterns e e' enf h in
      (denied-IsFree path patterns unmatched, same)

  -- A path to be written is below a directory that may be written, if any is named.
  abbrev pub MayWrite : Text → PolicyEngine → Type 0
  MayWrite path e =
      (e.policy.filesystem.read_write ≡ [])
      ⊎ IsBelowSome to_lowercase canonicalize path e.policy.filesystem.read_write

  -- A read is below a directory that may be read or written, if one to be read is named.
  abbrev pub MayRead : Text → PolicyEngine → Type 0
  MayRead path e =
      (e.policy.filesystem.read_only ≡ [])
      ⊎ IsBelowSome to_lowercase canonicalize path e.policy.filesystem.read_only
      ⊎ IsBelowSome to_lowercase canonicalize path e.policy.filesystem.read_write

  -- A test that finds a directory for the path.
  below :
      (path : Text) (dirs : List Text)
      → is_within_any to_lowercase canonicalize path dirs ≡ true
      → IsBelowSome to_lowercase canonicalize path dirs
  below = is_within_any-IsBelowSome to_lowercase canonicalize

  may_write :
      (path : Text) (e : PolicyEngine)
      → (e.policy.filesystem.read_write ≡ [])
        ⊎ (is_within_any to_lowercase canonicalize path e.policy.filesystem.read_write ≡ true)
      → MayWrite path e
  may_write path e (inl none_named) = inl none_named
  may_write path e (inr found) = inr (below path e.policy.filesystem.read_write found)

  may_read :
      (path : Text) (e : PolicyEngine)
      → (e.policy.filesystem.read_only ≡ [])
        ⊎ (is_within_any to_lowercase canonicalize path e.policy.filesystem.read_only ≡ true)
        ⊎ (is_within_any to_lowercase canonicalize path e.policy.filesystem.read_write ≡ true)
      → MayRead path e
  may_read path e (inl none_named) = inl none_named
  may_read path e (inr (inl found)) = inr (inl (below path e.policy.filesystem.read_only found))
  may_read path e (inr (inr found)) = inr (inr (below path e.policy.filesystem.read_write found))

  check_write-ok :
      (path : Text) (is_write : Bool) (e e' : PolicyEngine)
      → is_enforcing e.policy.mode ≡ true
      → check_write to_lowercase canonicalize path is_write e ≡ (e', ok tt)
      → (is_write ≡ true → MayWrite path e) × (e' ≡ e)
  unfolding check_write
  check_write-ok path is_write e e' enf h =
      let (passed, same) = violate_if-ok _ _ e e' enf h in
      ((λ w. may_write path e (empty_or e.policy.filesystem.read_write _ (rw w at passed))), same)

  check_read-ok :
      (path : Text) (is_write : Bool) (e e' : PolicyEngine)
      → is_enforcing e.policy.mode ≡ true
      → check_read to_lowercase canonicalize path is_write e ≡ (e', ok tt)
      → (is_write ≡ false → MayRead path e) × (e' ≡ e)
  unfolding check_read
  check_read-ok path is_write e e' enf h =
      let (passed, same) = violate_if-ok _ _ e e' enf h in
      ((λ r. may_read path e (read_cases _ _ _ (rw r at passed))), same)

  -- In enforcing mode an access that `check_filesystem` lets through leaves the engine as it was,
  -- and its path has no NUL. As it is written, and in its canonical or normalized form, no denied
  -- pattern stands in it, nor at its end without the slashes at the pattern's end, and the glob
  -- matcher accepts none; all in lower case, with slashes for backslashes. The components of a path
  -- that is written begin with those of a directory that may be written, if any is named, and those
  -- of a path that is read with those of one that may be read or written, if one to be read is
  -- named, as they are written or in the canonical forms. A `..` is not resolved in what is written.
  pub check_filesystem-ok :
      (path : Text) (is_write : Bool) (e e' : PolicyEngine)
      → e.policy.mode ≡ enforcing
      → check_filesystem to_lowercase canonicalize path is_write e ≡ (e', ok tt)
      → (e' ≡ e)
        × (contains_char path 0 ≡ false)
        × All (IsFree to_lowercase canonicalize path) e.policy.filesystem.denied
        × (is_write ≡ true → MayWrite path e)
        × (is_write ≡ false → MayRead path e)
  check_filesystem-ok path is_write e e' mode h =
      let enf : is_enforcing e.policy.mode ≡ true = ap is_enforcing mode in
      let denied = check_denied to_lowercase canonicalize path in
      let writes = check_write to_lowercase canonicalize path is_write in
      let reads = check_read to_lowercase canonicalize path is_write in
      let (e1, a1, h1, r1) =
        bind-ok (check_nul to_lowercase canonicalize path) (λ _. denied >> (writes >> reads)) e e'
          tt (unfold check_filesystem in h) in
      let (e2, a2, h2, r2) = bind-ok denied (λ _. writes >> reads) e1 e' tt r1 in
      let (e3, a3, h3, r3) = bind-ok writes (λ _. reads) e2 e' tt r2 in
      let (no_nul, same1) = check_nul-ok path e e1 enf h1 in
      let (free, same2) = check_denied-ok path e1 e2 (rw same1 enf) h2 in
      let same12 = same2 ∙ same1 in
      let (write, same3) = check_write-ok path is_write e2 e3 (rw same12 enf) h3 in
      let same123 = same3 ∙ same12 in
      let (read, same4) = check_read-ok path is_write e3 e' (rw same123 enf) r3 in
      (same4 ∙ same123, no_nul, rw same1 at free, rw same12 at write, rw same123 at read)
