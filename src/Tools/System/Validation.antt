-- ===== src/Tools/System/Validation.antt =====
-- src/tools/system.rs: `validate_shell_command`, and the tool that runs a command up to the start
-- of its process, both as they are built on Unix. The files of PATH, the lower case of Unicode and
-- `shell_words::split` are parameters.
pub mod Allowed
use intermcp.Tools.System.Rules.{
  not_in_allowlist, check_devices, check_destruction, tilde_expansion, resolved_elsewhere,
  recursive_deletion, path_qualified, check_interpreters, variable_expansion, use_of_env,
  join_words, git_injection, empty_command, rm_loop, not_for_path_search, is_destructive_rm,
  git_injection_rm, environment_assignment, backticks, is_listed, is_among, is_allowed,
  invalid_syntax, contains_any, command_substitution, check_raw, ShellViolation, Verdict,
}
use intermcp.Tools.System.Binaries.{
  check_git, has_path_separator, check_prefix, or_empty, resolve_binary_in_path,
}
use intermcp.Prelude.{
  ℕ, Text, codes, Bool, true, false, not, ◌&&◌, ◌||◌, Option, none, some, List, [], ◌∷◌, ◌++◌, eqb,
  any, is_empty, trim, starts_with, ends_with, contains, contains_char, ◌==◌, text_is_eq,
  if◌then◌else◌, map, eq_ignore_ascii_case, forward_slashes, split_whitespace,
}
use intermcp.Error.{Result, ok, err, ◌>>=◌, ◌>>◌, refuse_if}
use intermcp.Json.{Value, get, as_str}
use intermcp.Tools.System.{
  contains_unquoted_shell_meta, contains_tilde_expansion, extract_binary_name, file_stem,
}

-- What the tool does with its arguments: it answers at once, or starts a process.
pub data Launch : Type 0 where
  missing_command chained_commands no_tokens : Launch
  refused : ShellViolation → Launch
  spawn : (program : Text) → (arguments : List Text) → Launch

module _ (to_lowercase : Text → Text) (shell_words_split : Text → Result (List Text) Text)
    (is_file : Text → Bool) (path_dirs : List Text) where
  split_words : Result (List Text) Text → Verdict (List Text)
  split_words (ok tokens) = ok tokens
  split_words (err e) = err (invalid_syntax e)

  unfoldable pub tokenize : Text → Verdict (List Text)
  unfolding split_words
  tokenize cmd = do
    refuse_if (contains cmd (codes "$(")) command_substitution
    refuse_if (contains_char cmd b'`') backticks
    refuse_if (contains cmd (codes "${")) variable_expansion
    refuse_if (contains_tilde_expansion cmd) tilde_expansion
    split_words (shell_words_split cmd)

  -- The file that PATH leads to.
  check_resolved : List Text → Text → Option Text → Verdict (Unit {0})
  unfolding is_allowed is_listed
  check_resolved extra_allowed binary none =
      refuse_if (not (is_allowed extra_allowed binary)) (not_for_path_search binary)
  check_resolved extra_allowed binary (some resolved) =
      refuse_if (not (is_allowed extra_allowed (to_lowercase (or_empty (file_stem resolved)))))
        (resolved_elsewhere binary resolved)

  check_in_path : List Text → Text → Text → Verdict (Unit {0})
  unfolding check_resolved resolve_binary_in_path has_path_separator
  check_in_path extra_allowed raw_binary binary =
      if has_path_separator raw_binary
      then ok tt
      else check_resolved extra_allowed binary (resolve_binary_in_path is_file path_dirs binary)

  -- The rules on a command with its tokens: the first one, and all behind it.
  check_tokens : List Text → Text → List Text → Verdict (Unit {0})
  unfolding check_prefix is_allowed is_listed check_in_path rm_loop check_git join_words
      check_interpreters check_destruction check_devices extract_binary_name
  check_tokens extra_allowed raw [] = err empty_command
  check_tokens extra_allowed raw (raw_binary ∷ arguments) =
      let binary = extract_binary_name raw_binary in
      let lower_tokens = map to_lowercase (raw_binary ∷ arguments) in
      let joined_sub = join_words lower_tokens in
      do
        check_prefix to_lowercase extra_allowed raw_binary
        refuse_if (not (is_allowed extra_allowed binary)) (not_in_allowlist binary)
        check_in_path extra_allowed raw_binary binary
        refuse_if (eq_ignore_ascii_case binary (codes "rm") && rm_loop false false arguments)
            recursive_deletion
        check_git to_lowercase raw binary
        check_interpreters extra_allowed raw binary lower_tokens
        check_destruction extra_allowed raw binary lower_tokens joined_sub
        check_devices extra_allowed raw binary lower_tokens joined_sub

  unfoldable pub validate_shell_command : Text → List Text → Verdict (Unit {0})
  unfolding check_raw is_destructive_rm tokenize check_tokens
  validate_shell_command cmd extra_allowed =
      let raw = trim cmd in
      do
        refuse_if (is_empty raw) empty_command
        check_raw raw
        refuse_if (is_destructive_rm (split_whitespace raw)) recursive_deletion
        tokens ← tokenize raw
        check_tokens extra_allowed raw tokens

  unfoldable pub spawn_tokens : Verdict (List Text) → Launch
  spawn_tokens (err e) = refused e
  spawn_tokens (ok []) = no_tokens
  spawn_tokens (ok (program ∷ arguments)) = spawn program arguments

  unfoldable pub launch_validated : Text → Verdict (Unit {0}) → Launch
  launch_validated cmd_str (err violation) = refused violation
  launch_validated cmd_str (ok _) = spawn_tokens (tokenize cmd_str)

  unfoldable pub launch_command : List Text → Text → Launch
  launch_command extra cmd_str =
      if contains_unquoted_shell_meta cmd_str
        || contains_char cmd_str b'`'
        || contains cmd_str (codes "$(")
      then chained_commands
      else launch_validated cmd_str (validate_shell_command cmd_str extra)

  unfoldable pub launch_text : List Text → Option Text → Launch
  launch_text extra none = missing_command
  launch_text extra (some cmd_str) = launch_command extra cmd_str

  abbrev text_of : Option Value → Option Text
  text_of none = none
  text_of (some v) = as_str v

  unfoldable pub shell_exec : List Text → Value → Launch
  shell_exec extra args = launch_text extra (text_of (get (codes "command") args))
