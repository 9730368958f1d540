-- ===== src/Policy/FilesTests.antt =====
-- Runs and instances for the glob matcher and the file checks of src/policy.rs. Lower case is the
-- one of ASCII, and no path has a canonical form.
use intermcp.Prelude.{
  contains, starts_with, ends_with, forward_slashes, split, text_eq, encode, ◌≡◌, refl, codes, Text,
  [], ◌∷◌, Option, none, true, false, All, contains_char, to_ascii_lowercase, as_bytes, is_some,
  text_is_eq, ◌↔◌,
}
use intermcp.Policy.Paths.{has_ancestor, components, normalize, path_text}
use intermcp.Policy.Files.{
  trim_end_slashes, canonical_or_normalized, is_denied, check_filesystem, is_within_dir,
}
use intermcp.Error.{ok}
use intermcp.Policy.Engine.{DeclarativePolicy, enforcing, default_limits, new}
use intermcp.Policy.Glob.{
  glob_like_match, component_match, component_loop, component_fuel, path_loop, path_fuel,
}
use intermcp.Policy.Glob.Fuel.{loops_end}
use intermcp.Policy.Glob.Matching.{Matches}
use intermcp.Policy.Glob.Complete.{component_match-Matches_iff}
use intermcp.Policy.Files.Description.{IsFree}
use intermcp.Policy.Files.Access.{MayWrite, MayRead, check_filesystem-ok}
use intermcp.Policy.Files.Traversal.{traversal_is_within}

abbrev canonical : Text → Option Text
canonical path = none

abbrev policy : DeclarativePolicy
policy = record {
  mode = enforcing;
  filesystem = record { read_only = []; read_write = codes "/w" ∷ []; denied = codes "*.pem" ∷ [] };
  shell = record { allowed_binaries = []; blocked_patterns = []; require_approval = [] };
  limits = default_limits;
}

nested_match : glob_like_match (codes "a/b/c.pem") (codes "**/*.pem") ≡ true
unfolding glob_like_match text_eq encode as_bytes
nested_match = refl

-- A run of `a` before the rest: the matcher does not go back to the `**`.
repeated_missed : glob_like_match (codes "a/a/b") (codes "**/a/b") ≡ false
unfolding glob_like_match text_eq encode as_bytes
repeated_missed = refl

star_matched : component_match (codes "x.pem") (codes "*.pem") ≡ true
unfolding component_match
star_matched = refl

component_match-Matches_iff_example :
    (component_match (codes "x.pem") (codes "*.pem") ≡ true)
    ↔ Matches (codes "x.pem") (codes "*.pem")
component_match-Matches_iff_example =
    component_match-Matches_iff (codes "x.pem") (codes "*.pem")
      (refl, (refl, (refl, (refl, (refl, tt)))))

loops_end_example :
    (is_some
        (component_loop (component_fuel (codes "ab") (codes "*b")) (codes "ab") (codes "*b") none)
      ≡ true)
    × (is_some (
          path_loop
            (path_fuel (codes "a" ∷ []) (codes "**" ∷ []))
            (codes "a" ∷ [])
            (codes "**" ∷ [])
            none)
        ≡ true)
loops_end_example = loops_end (codes "ab") (codes "*b") (codes "a" ∷ []) (codes "**" ∷ [])

write_passes :
    check_filesystem to_ascii_lowercase canonical (codes "/w/x") true (new policy)
    ≡ (new policy, ok tt)
unfolding check_filesystem new is_denied is_within_dir canonical_or_normalized glob_like_match
    contains starts_with ends_with contains_char has_ancestor components normalize path_text
    trim_end_slashes forward_slashes to_ascii_lowercase text_eq encode as_bytes split
write_passes = refl

check_filesystem-ok_example :
    (new policy ≡ new policy)
    × (contains_char (codes "/w/x") 0 ≡ false)
    × All (IsFree to_ascii_lowercase canonical (codes "/w/x")) (new policy).policy.filesystem.denied
    × (true ≡ true → MayWrite to_ascii_lowercase canonical (codes "/w/x") (new policy))
    × (true ≡ false → MayRead to_ascii_lowercase canonical (codes "/w/x") (new policy))
check_filesystem-ok_example =
    check_filesystem-ok to_ascii_lowercase canonical (codes "/w/x") true (new policy) (new policy)
      (unfold new in refl) write_passes

traversal_is_within_example :
    is_within_dir to_ascii_lowercase canonical (codes "/w/../etc/passwd") (codes "/w") ≡ true
traversal_is_within_example =
    traversal_is_within to_ascii_lowercase canonical b'/' (codes "w") (codes "../etc/passwd")
