-- ===== src/Tools/System/Validation/Allowed.antt =====
-- src/tools/system.rs: what a validated command is, and what the tool starts.
use intermcp.Prelude.{
  ◌≡◌, ◌≢◌, All, ap, ◌++◌, contains-inside, not_true, refl, arith, sym, ◌∙◌, Text, codes, Bool,
  true, false, not, ◌&&◌, ◌||◌, List, [], ◌∷◌, ◌⊎◌, inl, inr, trim, contains, contains_char,
  is_empty, some,
}
use mathlib.Core.Path.{subst}
use intermcp.Tools.System.Splitting.{split-whole}
use intermcp.Tools.System.Cutting.{plain}
use intermcp.Tools.System.Plain.{
  HasInnerTildes, tilde-HasInnerTildes, IsNoMeta, outside_quotes, meta-free_outside,
}
use intermcp.Error.{Result, ok, err, refuse_if, refuse_if-ok}
use intermcp.Json.{Value, get, as_str, string}
use intermcp.Tools.System.{
  contains_unquoted_shell_meta, contains_tilde_expansion, extract_binary_name,
  split_chained_commands,
}
use intermcp.Tools.System.Rules.{Verdict, is_allowed, is_listed, check_raw}
use intermcp.Tools.System.Binaries.{check_prefix, has_path_separator, normalized_raw}
use intermcp.Tools.System.Validation.{
  validate_shell_command, tokenize, check_tokens, shell_exec, spawn, Launch, spawn_tokens,
  launch_validated, launch_command, launch_text,
}

-- No command substitution, no variable in braces, tildes only inside of words, and outside of quotes
-- no character by which a shell chains, redirects or groups commands.
pub record IsPlain (raw : Text) : Type 0 where
  pub no_substitution : (before rest : Text) → raw ≢ before ++ (codes "$(" ++ rest)
  pub no_backtick : contains_char raw b'`' ≡ false
  pub no_braced_variable : (before rest : Text) → raw ≢ before ++ (codes "${" ++ rest)
  pub inner_tildes : HasInnerTildes raw
  pub no_meta : All IsNoMeta (outside_quotes plain raw)

-- The five tests of the raw text.
raw_tests :
    (raw : Text)
    → check_raw raw ≡ ok tt
    → (contains raw (codes "$(") ≡ false)
      × (contains_char raw b'`' ≡ false)
      × (contains raw (codes "${") ≡ false)
      × (contains_tilde_expansion raw ≡ false)
      × (contains_unquoted_shell_meta raw ≡ false)
unfolding check_raw
raw_tests raw h = (ground arith, ground arith, ground arith, ground arith, ground arith)

absent :
    (raw part : Text)
    → contains raw part ≡ false
    → (before rest : Text) → raw ≢ before ++ (part ++ rest)
absent raw part h before rest same =
    not_true (contains raw part) h
      (ap (λ t. contains t part) same ∙ contains-inside before part rest)

check_raw-ok : (raw : Text) → check_raw raw ≡ ok tt → IsPlain raw
check_raw-ok raw h =
    let (substitution, backtick, variable, tilde, meta) = raw_tests raw h in
    record {
      no_substitution = absent raw (codes "$(") substitution;
      no_backtick = backtick;
      no_braced_variable = absent raw (codes "${") variable;
      inner_tildes = tilde-HasInnerTildes raw tilde;
      no_meta = meta-free_outside raw meta;
    }

refuse_if-false : {E : Type 0} (b : Bool) (e : E) → refuse_if b e ≡ ok tt → b ≡ false
refuse_if-false true e h = cc
refuse_if-false false e h = refl

false_or_true : (b c : Bool) → (b && not c) ≡ false → (b ≡ false) ⊎ (c ≡ true)
false_or_true true true h = inr refl
false_or_true true false h = cc
false_or_true false c h = inl refl

module _ (to_lowercase : Text → Text) (extra_allowed : List Text) where
  -- A program has no assignment, and no path unless that is listed; the name of its binary is
  -- listed.
  pub record IsAllowed (program : Text) : Type 0 where
    pub no_assignment : contains_char program b'=' ≡ false
    pub no_path :
        (has_path_separator program ≡ false)
        ⊎ ((is_listed program extra_allowed
              || is_listed (normalized_raw to_lowercase program) extra_allowed)
            ≡ true)
    pub binary_listed : is_allowed extra_allowed (extract_binary_name program) ≡ true

  check_prefix-ok :
      (program : Text)
      → check_prefix to_lowercase extra_allowed program ≡ ok tt
      → is_allowed extra_allowed (extract_binary_name program) ≡ true
      → IsAllowed program
  unfolding check_prefix
  check_prefix-ok program h listed =
      let (assigned, h1) = refuse_if-ok _ _ _ h in
      let (env, h2) = refuse_if-ok _ _ _ h1 in
      record {
        no_assignment = assigned;
        no_path = false_or_true _ _ (refuse_if-false _ _ h2);
        binary_listed = listed;
      }

module _ (to_lowercase : Text → Text) (shell_words_split : Text → Result (List Text) Text)
    (is_file : Text → Bool) (path_dirs : List Text) (extra_allowed : List Text) where
  abbrev validated : Text → Verdict (Unit {0})
  validated cmd =
      validate_shell_command to_lowercase shell_words_split is_file path_dirs cmd extra_allowed

  abbrev tokens_of : Text → Verdict (List Text)
  tokens_of = tokenize to_lowercase shell_words_split is_file path_dirs

  abbrev tokens_pass : Text → List Text → Verdict (Unit {0})
  tokens_pass = check_tokens to_lowercase shell_words_split is_file path_dirs extra_allowed

  check_tokens-ok :
      (raw : Text) (tokens : List Text)
      → tokens_pass raw tokens ≡ ok tt
      → (program : Text) × (arguments : List Text) × (tokens ≡ program ∷ arguments)
        × IsAllowed to_lowercase extra_allowed program
  unfolding check_tokens
  check_tokens-ok raw [] h = cc
  check_tokens-ok raw (program ∷ arguments) h = (
    program,
    arguments,
    refl,
    check_prefix-ok to_lowercase extra_allowed program (ground arith) (ground arith),
  )

  validate-parts :
      (cmd : Text)
      → validated cmd ≡ ok tt
      → (is_empty (trim cmd) ≡ false)
        × (check_raw (trim cmd) ≡ ok tt)
        × (tokens : List Text) × (tokens_of (trim cmd) ≡ ok tokens)
        × (tokens_pass (trim cmd) tokens ≡ ok tt)
  unfolding validate_shell_command
  validate-parts cmd h = go (tokens_of (trim cmd)) refl
    where
      go :
          (r : Verdict (List Text))
          → tokens_of (trim cmd) ≡ r
          → (is_empty (trim cmd) ≡ false)
            × (check_raw (trim cmd) ≡ ok tt)
            × (tokens : List Text) × (tokens_of (trim cmd) ≡ ok tokens)
            × (tokens_pass (trim cmd) tokens ≡ ok tt)
      go (ok tokens) e = (ground arith, ground arith, tokens, e, ground arith)
      go (err v) e = absurd (ground arith)

  abbrev launch : Value → Launch
  launch = shell_exec to_lowercase shell_words_split is_file path_dirs extra_allowed

  abbrev launches : Text → Verdict (Unit {0}) → Launch
  launches = launch_validated to_lowercase shell_words_split is_file path_dirs

  spawn_tokens-spawn :
      (r : Verdict (List Text)) (program : Text) (arguments : List Text)
      → spawn_tokens to_lowercase shell_words_split is_file path_dirs r ≡ spawn program arguments
      → r ≡ ok (program ∷ arguments)
  unfolding spawn_tokens
  spawn_tokens-spawn (ok []) program arguments h = cc
  spawn_tokens-spawn (ok (p ∷ ps)) program arguments h = cc
  spawn_tokens-spawn (err e) program arguments h = cc

  launches-spawn :
      (cmd : Text) (verdict : Verdict (Unit {0})) (program : Text) (arguments : List Text)
      → launches cmd verdict ≡ spawn program arguments
      → (verdict ≡ ok tt) × (tokens_of cmd ≡ ok (program ∷ arguments))
  unfolding launch_validated
  launches-spawn cmd (ok u) program arguments h = (refl, spawn_tokens-spawn _ program arguments h)
  launches-spawn cmd (err v) program arguments h = cc

  launch_command-spawn :
      (cmd program : Text) (arguments : List Text)
      → launch_command to_lowercase shell_words_split is_file path_dirs extra_allowed cmd
        ≡ spawn program arguments
      → (contains_unquoted_shell_meta cmd ≡ false)
        × (launches cmd (validated cmd) ≡ spawn program arguments)
  unfolding launch_command
  launch_command-spawn cmd program arguments h = (ground arith, ground arith)

  launch-command :
      (cmd : Text) (args : Value)
      → get (codes "command") args ≡ some (string cmd)
      → launch args
        ≡ launch_command to_lowercase shell_words_split is_file path_dirs extra_allowed cmd
  unfolding shell_exec launch_text as_str
  launch-command cmd args e = rw e

  -- A process is started only for a command that is one piece for `split_chained_commands`, and so
  -- for the policy. It holds no "$(", no backtick and no "${". A tilde stands in it only between two
  -- characters, of which the first is no blank and none of "'=:;|&/ and the second no blank and no
  -- slash. Outside of its quotes there is no semicolon, ampersand, bar, line end, parenthesis or
  -- angle bracket. The program has no "=", no path that is not listed, and a listed name. The
  -- command is taken to have no blank at either end. Of a variable without braces nothing is said.
  pub shell_exec-spawn :
      (cmd : Text) (args : Value) (program : Text) (arguments : List Text)
      → get (codes "command") args ≡ some (string cmd)
      → trim cmd ≡ cmd
      → shell_exec to_lowercase shell_words_split is_file path_dirs extra_allowed args
        ≡ spawn program arguments
      → (split_chained_commands cmd ≡ cmd ∷ [])
        × IsPlain cmd
        × IsAllowed to_lowercase extra_allowed program
  shell_exec-spawn cmd args program arguments e ends h =
      let (no_meta, spawned) =
        launch_command-spawn cmd program arguments (sym (launch-command cmd args e) ∙ h) in
      let (valid, tokenized) = launches-spawn cmd _ program arguments spawned in
      let (some_text, raw_ok, tokens, cut, passed) = validate-parts cmd valid in
      let (p, as', same, allowed) = check_tokens-ok (trim cmd) tokens passed in
      let cut_cmd : tokens_of cmd ≡ ok tokens = rw ends at cut in
      let first : p ≡ program = ground arith in
      (
        split-whole cmd no_meta ∙ rw some_text refl,
        subst IsPlain ends (check_raw-ok (trim cmd) raw_ok),
        subst (IsAllowed to_lowercase extra_allowed) first allowed,
      )
