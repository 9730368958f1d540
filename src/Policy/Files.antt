-- ===== src/Policy/Files.antt =====
-- src/policy.rs: `check_filesystem`. The canonical path of a text, which `dunce` reads from the file
-- system, and the lower case of Unicode are parameters. Paths are taken to be Unicode.
pub mod Description
pub mod Access
pub mod Traversal
use intermcp.Prelude.{
  ℕ, Text, codes, Bool, true, false, Option, none, some, List, [], ◌∷◌, ◌++◌, ◌==◌, text_is_eq, eqb,
  ◌||◌, ◌&&◌, not, if◌then◌else◌, any, reverse, contains, contains_char, ends_with, forward_slashes,
  is_empty,
}
use intermcp.Policy.Engine.{
  PolicyEngine, PolicyViolation, nul_byte, matches_denied, write_denied, read_denied, Check, pass,
  violate_if, ◌>>◌, ◌>>=◌,
}
use intermcp.Policy.Glob.{glob_like_match}
use intermcp.Policy.Paths.{components, has_ancestor, normalize, path_text}

unfoldable pub drop_slashes : Text → Text
drop_slashes [] = []
drop_slashes (c ∷ s) = let rest = drop_slashes s in if eqb c b'/' then rest else c ∷ s

-- `trim_end_matches('/')`
unfoldable pub trim_end_slashes : Text → Text
unfolding drop_slashes
trim_end_slashes s = reverse (drop_slashes (reverse s))

module _ (to_lowercase : Text → Text) (canonicalize : Text → Option Text) where
  abbrev pub lower_slashed : Text → Text
  lower_slashed s = forward_slashes (to_lowercase s)

  canonical_or : Text → Option Text → Text
  canonical_or path (some c) = c
  canonical_or path none = path_text (normalize [] (components path))

  unfoldable pub canonical_or_normalized : Text → Text
  unfolding canonical_or
  canonical_or_normalized path = canonical_or path (canonicalize path)

  -- The six tests of a denied pattern.
  unfoldable pub is_denied : Text → Text → Text → Bool
  unfolding trim_end_slashes
  is_denied raw_str norm_str pattern =
      let p_norm = lower_slashed pattern in
      let p_trimmed = trim_end_slashes p_norm in
      glob_like_match raw_str p_norm
      || glob_like_match norm_str p_norm
      || contains raw_str p_norm
      || contains norm_str p_norm
      || ends_with raw_str p_trimmed
      || ends_with norm_str p_trimmed

  -- 1. The denied patterns.
  deny : Text → Text → Text → List Text → Check (Unit {0})
  deny path raw_str norm_str [] = pass tt
  deny path raw_str norm_str (pattern ∷ patterns) = do
    violate_if (is_denied raw_str norm_str pattern) (matches_denied path pattern)
    deny path raw_str norm_str patterns

  canonical_within : Option Text → Option Text → Bool
  canonical_within (some c_target) (some c_allowed) = has_ancestor c_target c_allowed
  canonical_within _ _ = false

  unfoldable pub is_within_dir : Text → Text → Bool
  unfolding canonical_within
  is_within_dir target allowed_dir =
      has_ancestor target allowed_dir
      || canonical_within (canonicalize target) (canonicalize allowed_dir)

  abbrev pub is_within_any : Text → List Text → Bool
  is_within_any path dirs = any (λ dir. is_within_dir path dir) dirs

  check_nul : Text → Check (Unit {0})
  check_nul path e = violate_if (contains_char path 0) nul_byte e

  check_denied : Text → Check (Unit {0})
  check_denied path e =
      deny path (lower_slashed path) (lower_slashed (canonical_or_normalized path))
        e.policy.filesystem.denied e

  -- 2. Writing.
  check_write : Text → Bool → Check (Unit {0})
  check_write path is_write e =
      let dirs = e.policy.filesystem.read_write in
      violate_if (is_write && not (is_empty dirs) && not (is_within_any path dirs))
        (write_denied path) e

  -- 3. Reading.
  check_read : Text → Bool → Check (Unit {0})
  check_read path is_write e =
      let readable = e.policy.filesystem.read_only in
      let writable = e.policy.filesystem.read_write in
      violate_if
        (not is_write
          && not (is_empty readable)
          && not (is_within_any path readable || is_within_any path writable))
        (read_denied path) e

  unfoldable pub check_filesystem : Text → Bool → Check (Unit {0})
  unfolding check_nul check_denied check_write check_read deny violate_if pass
  check_filesystem path is_write = do
    check_nul path
    check_denied path
    check_write path is_write
    check_read path is_write
