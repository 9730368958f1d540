-- ===== src/Tools/System/Tests.antt =====
-- Runs of the readers of src/tools/system.rs.
use intermcp.Tools.System.Cutting.{Cuts, split-Cuts}
use intermcp.Prelude.{
  contains_char, contains, forward_slashes, eq_ignore_ascii_case, Text, List, to_ascii_lowercase,
  split_whitespace, false, ◌≡◌, refl, codes, true, ◌∷◌, [], trim, text_eq, ends_with,
}
use intermcp.Json.{as_str, Value, object, field, string, end, get}
use intermcp.Error.{Result, ok}
use intermcp.Tools.System.Validation.{
  shell_exec, spawn, launch_text, launch_command, launch_validated, spawn_tokens,
  validate_shell_command,
}
use intermcp.Tools.System.Validation.Allowed.{IsPlain, IsAllowed, shell_exec-spawn}
use intermcp.Tools.System.{
  split_chained_commands, contains_unquoted_shell_meta, contains_tilde_expansion,
  extract_binary_name,
}

split_three :
    split_chained_commands (codes "a 'x;y' && b|c; ")
    ≡ codes "a 'x;y' " ∷ codes " b" ∷ codes "c" ∷ []
unfolding split_chained_commands trim
split_three = refl

meta_in_quotes : contains_unquoted_shell_meta (codes "echo 'a;b' \"c|d\"") ≡ false
unfolding contains_unquoted_shell_meta
meta_in_quotes = refl

tilde_inside : contains_tilde_expansion (codes "cat a~b") ≡ false
unfolding contains_tilde_expansion
tilde_inside = refl

tilde_home : contains_tilde_expansion (codes "cat ~/x") ≡ true
unfolding contains_tilde_expansion
tilde_home = refl

name_of_path : extract_binary_name (codes "/usr/bin/git.exe") ≡ codes "git"
unfolding extract_binary_name trim text_eq ends_with
name_of_path = refl

name_of_windows_path : extract_binary_name (codes "C:\\bin\\tool.cmd") ≡ codes "tool"
unfolding extract_binary_name trim text_eq ends_with
name_of_windows_path = refl

-- A lower case, a cutter of words and a file system without files, for runs.
abbrev split_ok : Text → Result (List Text) Text
split_ok s = ok (split_whitespace s)

abbrev git_status : Value
git_status = object (field (codes "command") (string (codes "git status")) end)

shell_exec_git :
    shell_exec to_ascii_lowercase split_ok (λ _. false) [] [] git_status
    ≡ spawn (codes "git") (codes "status" ∷ [])
unfolding shell_exec launch_text launch_command launch_validated spawn_tokens validate_shell_command
    get text_eq as_str contains_unquoted_shell_meta contains_char contains trim
    contains_tilde_expansion split_whitespace ends_with forward_slashes to_ascii_lowercase
    eq_ignore_ascii_case
shell_exec_git = refl

shell_exec-spawn_example :
    (split_chained_commands (codes "git status") ≡ codes "git status" ∷ [])
    × IsPlain (codes "git status")
    × IsAllowed to_ascii_lowercase [] (codes "git")
unfolding trim
shell_exec-spawn_example =
    shell_exec-spawn to_ascii_lowercase split_ok (λ _. false) [] [] (codes "git status") git_status
      (codes "git") (codes "status" ∷ []) (unfold get text_eq in refl) refl shell_exec_git

split-Cuts_example :
    Cuts (codes "a 'x;y' && b|c; ") (split_chained_commands (codes "a 'x;y' && b|c; "))
split-Cuts_example = split-Cuts (codes "a 'x;y' && b|c; ")
