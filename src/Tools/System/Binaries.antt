-- ===== src/Tools/System/Binaries.antt =====
-- src/tools/system.rs: the program of a command: how it is named, and its file in PATH.
use intermcp.Prelude.{
  forward_slashes, Text, codes, Bool, not, ◌&&◌, ◌||◌, Option, none, some, List, [], ◌∷◌, ◌++◌,
  is_empty, starts_with, ends_with, contains, contains_char, text_is_eq, if◌then◌else◌,
  eq_ignore_ascii_case,
}
use intermcp.Error.{◌>>◌, refuse_if}
use intermcp.Tools.System.Rules.{
  environment_assignment, use_of_env, path_qualified, git_injection_rm, git_injection, Verdict,
  is_among, is_listed, contains_any,
}

-- `Path::join`
unfoldable pub path_join : Text → Text → Text
path_join dir name =
    if starts_with name (codes "/")
    then name
    else if is_empty dir || ends_with dir (codes "/")
    then dir ++ name
    else dir ++ codes "/" ++ name

-- `resolve_binary_in_path`: the first directory of PATH that has such a file.
unfoldable pub resolve_binary_in_path : (is_file : Text → Bool) → List Text → Text → Option Text
unfolding path_join
resolve_binary_in_path is_file [] binary = none
resolve_binary_in_path is_file (dir ∷ dirs) binary =
    let rest = resolve_binary_in_path is_file dirs binary in
    if is_file (path_join dir binary) then some (path_join dir binary) else rest

abbrev pub or_empty : Option Text → Text
or_empty none = []
or_empty (some s) = s

-- The normalized forms of `env`.
unfoldable pub is_env : Text → Bool
is_env s =
    is_among s
      (codes "/usr/bin/env" ∷ codes "/usr/bin/env.exe" ∷ codes "env" ∷ codes "env.exe" ∷ [])
    || ends_with s (codes "/env")
    || ends_with s (codes "/env.exe")

unfoldable pub has_path_separator : Text → Bool
has_path_separator binary = contains_char binary b'/' || contains_char binary 92

module _ (to_lowercase : Text → Text) where
  abbrev pub normalized_raw : Text → Text
  normalized_raw binary = forward_slashes (to_lowercase binary)

  -- The rules on the first token as it is written.
  unfoldable pub check_prefix : List Text → Text → Verdict (Unit {0})
  unfolding is_env is_listed has_path_separator
  check_prefix extra_allowed raw_binary = do
    refuse_if (contains_char raw_binary b'=') environment_assignment
    refuse_if (is_env (normalized_raw raw_binary)) use_of_env
    refuse_if
        (has_path_separator raw_binary
          && not (
              is_listed raw_binary extra_allowed
              || is_listed (normalized_raw raw_binary) extra_allowed))
        (path_qualified raw_binary)

  unfoldable pub check_git : Text → Text → Verdict (Unit {0})
  unfolding contains_any
  check_git raw binary =
      let lower_cmd = to_lowercase raw in
      refuse_if
        (eq_ignore_ascii_case binary (codes "git")
          && contains_any lower_cmd (
              codes "core.editor"
              ∷ codes "core.pager"
              ∷ codes "--upload-pack"
              ∷ codes "receive.fsck"
              ∷ []))
        (if contains lower_cmd (codes "rm -rf") then git_injection_rm else git_injection)
