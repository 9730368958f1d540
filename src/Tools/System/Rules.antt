-- ===== src/Tools/System/Rules.antt =====
-- src/tools/system.rs: the rules of `validate_shell_command`, each with its violation.
use intermcp.Prelude.{
  Text, codes, Bool, true, false, not, ◌&&◌, ◌||◌, List, [], ◌∷◌, ◌++◌, any, trim, starts_with,
  ends_with, contains, contains_char, ◌==◌, text_is_eq, if◌then◌else◌, eq_ignore_ascii_case,
}
use intermcp.Error.{Result, ◌>>◌, refuse_if}
use intermcp.Tools.System.{contains_unquoted_shell_meta, contains_tilde_expansion}

pub data ShellViolation : Type 0 where
  empty_command command_substitution backticks variable_expansion : ShellViolation
  tilde_expansion chained fork_bomb recursive_deletion : ShellViolation
  environment_assignment use_of_env : ShellViolation
  path_qualified not_in_allowlist not_for_path_search : Text → ShellViolation
  resolved_elsewhere : (binary resolved : Text) → ShellViolation
  git_injection git_injection_rm : ShellViolation
  python_code perl_code ruby_code node_code encoded_command : ShellViolation
  destructive_find destructive_rsync destructive_move permission_zeroing : ShellViolation
  directory_removal disk_format block_device piped_download reverse_shell : ShellViolation
  invalid_syntax : Text → ShellViolation

abbrev pub Verdict {ℓ} : Type ℓ → Type ℓ
Verdict A = Result A ShellViolation

abbrev pub default_allowed_binaries : List Text
default_allowed_binaries =
    codes "git"
    ∷ codes "ls"
    ∷ codes "cat"
    ∷ codes "grep"
    ∷ codes "echo"
    ∷ codes "pwd"
    ∷ codes "npm"
    ∷ codes "node"
    ∷ codes "python"
    ∷ codes "python3"
    ∷ codes "curl"
    ∷ codes "rg"
    ∷ []

abbrev pub is_among : Text → List Text → Bool
is_among t texts = any (λ x. x == t) texts

-- `iter().any(|b| b.eq_ignore_ascii_case(name))`
unfoldable pub is_listed : Text → List Text → Bool
is_listed name binaries = any (λ b. eq_ignore_ascii_case b name) binaries

unfoldable pub is_allowed : List Text → Text → Bool
unfolding is_listed
is_allowed extra_allowed name =
    is_listed name default_allowed_binaries || is_listed name extra_allowed

unfoldable pub contains_any : Text → List Text → Bool
contains_any s needles = any (λ n. contains s n) needles

-- The rules on the text of the command, before it is cut into tokens.
unfoldable pub check_raw : Text → Verdict (Unit {0})
unfolding contains_any
check_raw raw = do
  refuse_if (contains raw (codes "$(")) command_substitution
  refuse_if (contains_char raw b'`') backticks
  refuse_if (contains raw (codes "${")) variable_expansion
  refuse_if (contains_tilde_expansion raw) tilde_expansion
  refuse_if (contains_unquoted_shell_meta raw) chained
  refuse_if (contains_any raw (codes ":(){ :|:& };:" ∷ codes ":(){:|:&};:" ∷ [])) fork_bomb

-- The rule on `rm` in the text that is cut at white space.
abbrev pub destructive_flags : List Text
destructive_flags =
    codes "-rf"
    ∷ codes "-fr"
    ∷ codes "-r"
    ∷ codes "-f"
    ∷ codes "-R"
    ∷ codes "-Rf"
    ∷ codes "-RF"
    ∷ codes "--recursive"
    ∷ codes "--force"
    ∷ []

unfoldable pub has_positional : Bool → List Text → Bool
has_positional past_dashdash [] = false
has_positional past_dashdash (tok ∷ toks) =
    past_dashdash
    || (let later = has_positional true toks in
        let rest = has_positional false toks in
        if tok == codes "--" then later else not (starts_with tok (codes "-")) || rest)

unfoldable pub is_rm : Text → Bool
is_rm word = word == codes "rm" || ends_with word (codes "/rm") || ends_with word (codes "\\rm")

unfoldable pub is_destructive_rm : List Text → Bool
unfolding is_rm has_positional
is_destructive_rm [] = false
is_destructive_rm (word ∷ rest) =
    is_rm word && any (λ t. is_among t destructive_flags) rest && has_positional false rest

-- The rule on the tokens of `rm`: the loop with its two flags.
unfoldable pub rm_loop : (has_r has_f : Bool) → List Text → Bool
rm_loop has_r has_f [] = false
rm_loop has_r has_f (token ∷ tokens) =
    let t = trim token in
    let r = has_r || is_among t (codes "-r" ∷ codes "-R" ∷ codes "--recursive" ∷ []) in
    let f = has_f || is_among t (codes "-f" ∷ codes "--force" ∷ []) in
    is_among t (codes "-rf" ∷ codes "-fr" ∷ codes "-Rf" ∷ codes "-RF" ∷ [])
    || (r && f)
    || rm_loop r f tokens

-- `lower_tokens.join(" ")`
unfoldable pub join_words : List Text → Text
join_words [] = []
join_words (t ∷ []) = t
join_words (t ∷ u ∷ ts) = t ++ codes " " ++ join_words (u ∷ ts)

-- The rules on single binaries; `binary` is the normalized name.
module _ (extra_allowed : List Text) (raw binary : Text) (lower_tokens : List Text) where
  abbrev pub is_binary : Text → Bool
  is_binary name = eq_ignore_ascii_case binary name

  abbrev pub has_opt_in : Text → Bool
  has_opt_in flag = is_listed flag extra_allowed

  unfoldable pub check_interpreters : Verdict (Unit {0})
  unfolding is_listed
  check_interpreters = do
    refuse_if
        ((is_binary (codes "python") || is_binary (codes "python3"))
          && is_among (codes "-c") lower_tokens
          && not (has_opt_in (codes "python -c"))
          && not (has_opt_in (codes "python3 -c")))
        python_code
    refuse_if
        (is_binary (codes "perl")
          && is_among (codes "-e") lower_tokens
          && not (has_opt_in (codes "perl -e")))
        perl_code
    refuse_if
        (is_binary (codes "ruby")
          && is_among (codes "-e") lower_tokens
          && not (has_opt_in (codes "ruby -e")))
        ruby_code
    refuse_if
        (is_binary (codes "node")
          && (is_among (codes "-e") lower_tokens || is_among (codes "--eval") lower_tokens)
          && not (has_opt_in (codes "node -e")))
        node_code
    refuse_if
        ((is_binary (codes "powershell") || is_binary (codes "pwsh"))
          && (is_among (codes "-encodedcommand") lower_tokens
              || is_among (codes "-e") lower_tokens))
        encoded_command

  unfoldable pub check_destruction : Text → Verdict (Unit {0})
  unfolding contains_any
  check_destruction joined_sub = do
    refuse_if
        (is_binary (codes "find")
          && contains_any joined_sub (codes "-delete" ∷ codes "-exec rm" ∷ []))
        destructive_find
    refuse_if (is_binary (codes "rsync") && contains joined_sub (codes "--delete"))
        destructive_rsync
    refuse_if
        (is_binary (codes "mv") && contains_any joined_sub (codes "/dev/null" ∷ codes "/*" ∷ []))
        destructive_move
    refuse_if
        (is_binary (codes "chmod") && contains_any joined_sub (codes "-r 000" ∷ codes "000 /" ∷ []))
        permission_zeroing
    refuse_if
        ((is_binary (codes "rd") || is_binary (codes "rmdir"))
          && contains_any joined_sub (codes "/s" ∷ codes "-s" ∷ []))
        directory_removal
    refuse_if
        (is_binary (codes "format")
          || is_binary (codes "diskpart")
          || (is_binary (codes "cipher") && contains joined_sub (codes "/w")))
        disk_format

  unfoldable pub check_devices : Text → Verdict (Unit {0})
  unfolding contains_any
  check_devices joined_sub = do
    refuse_if
        (contains_any raw
          (codes "/dev/sd" ∷ codes "/dev/nvme" ∷ codes "/dev/hd" ∷ codes "/dev/disk" ∷ []))
        block_device
    refuse_if
        ((is_binary (codes "curl") || is_binary (codes "wget") || is_binary (codes "base64"))
          && contains_any raw (
              codes "| sh"
              ∷ codes "| bash"
              ∷ codes "|sh"
              ∷ codes "|bash"
              ∷ codes "| zsh"
              ∷ codes "| powershell"
              ∷ codes "| cmd"
              ∷ []))
        piped_download
    refuse_if
        (contains joined_sub (codes "/dev/tcp/")
          || (is_binary (codes "nc")
              && contains_any joined_sub (codes "-e /bin/sh" ∷ codes "-e /bin/bash" ∷ [])))
        reverse_shell
