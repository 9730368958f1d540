-- ===== src/Policy/Shell.antt =====
-- src/policy.rs: `check_shell`, and what it guarantees.
use intermcp.Prelude.{
  inl, refl, ◌⊎◌, ap, ◌∙◌, true, arith, false, All, ◌≡◌, Text, Bool, not, ◌&&◌, List, [], ◌∷◌, any,
  is_empty, ◌==◌, text_is_eq, contains, trim, if◌then◌else◌,
}
use intermcp.Error.{ok}
use intermcp.Policy.Checks.{bind-ok, violate_if-ok}
use intermcp.Policy.Engine.{
  is_enforcing, enforcing, PolicyEngine, disallowed_binary, blocked_shell_pattern,
  ShellPolicyDecision, allow, require_supervisor_approval, Check, pass, violate_if, ◌>>◌,
}

module _ (to_lowercase : Text → Text) where
  -- The loop over the blocked patterns.
  block : Text → List Text → Check (Unit {0})
  block cmd_lower [] = pass tt
  block cmd_lower (pattern ∷ patterns) = do
    violate_if (contains cmd_lower (to_lowercase pattern)) (blocked_shell_pattern pattern)
    block cmd_lower patterns

  -- The loop over the patterns that need approval.
  approval : Text → List Text → ShellPolicyDecision
  approval cmd_lower [] = allow
  approval cmd_lower (pattern ∷ patterns) =
      if contains cmd_lower (to_lowercase pattern)
      then require_supervisor_approval pattern
      else approval cmd_lower patterns

  pub is_listed : Text → List Text → Bool
  is_listed binary_clean binaries = any (λ b. to_lowercase b == binary_clean) binaries

  -- 1. The allowlist.
  check_binary : Text → Check (Unit {0})
  check_binary binary e =
      let allowed = e.policy.shell.allowed_binaries in
      violate_if (not (is_empty allowed) && not (is_listed (to_lowercase (trim binary)) allowed))
        (disallowed_binary binary) e

  -- 2. The blocked patterns.
  check_blocked : Text → Check (Unit {0})
  check_blocked raw_command e = block (to_lowercase raw_command) e.policy.shell.blocked_patterns e

  -- 3. The patterns that need a supervisor.
  check_approval : Text → Check ShellPolicyDecision
  check_approval raw_command e =
      pass (approval (to_lowercase raw_command) e.policy.shell.require_approval) e

  unfoldable pub check_shell : Text → Text → Check ShellPolicyDecision
  unfolding check_binary check_blocked check_approval block approval is_listed violate_if pass
  check_shell binary raw_command = do
    check_binary binary
    check_blocked raw_command
    check_approval raw_command

module _ (to_lowercase : Text → Text) where
  -- A pattern that the command does not contain, both in lower case.
  abbrev pub IsAbsent : Text → Text → Type 0
  IsAbsent cmd_lower pattern = contains cmd_lower (to_lowercase pattern) ≡ false

  empty_or_listed :
      (binary_clean : Text) (allowed : List Text)
      → (not (is_empty allowed) && not (is_listed to_lowercase binary_clean allowed)) ≡ false
      → (allowed ≡ []) ⊎ (is_listed to_lowercase binary_clean allowed ≡ true)
  empty_or_listed binary_clean [] h = inl refl
  empty_or_listed binary_clean (b ∷ bs) h = ground arith

  block-ok :
      (cmd_lower : Text) (patterns : List Text) (e e' : PolicyEngine)
      → is_enforcing e.policy.mode ≡ true
      → block to_lowercase cmd_lower patterns e ≡ (e', ok tt)
      → All (IsAbsent cmd_lower) patterns × (e' ≡ e)
  unfolding block pass
  block-ok cmd_lower [] e e' enf h = (tt, cc)
  block-ok cmd_lower (pattern ∷ patterns) e e' enf h =
      let (e1, a, first, rest) =
        bind-ok
          (violate_if (contains cmd_lower (to_lowercase pattern)) (blocked_shell_pattern pattern))
          (λ _. block to_lowercase cmd_lower patterns) e e' tt h in
      let (absent, same) = violate_if-ok _ _ e e1 enf first in
      let (others, same') = block-ok cmd_lower patterns e1 e' (rw same enf) rest in
      ((absent, others), same' ∙ same)

  approval-allow :
      (cmd_lower : Text) (patterns : List Text)
      → approval to_lowercase cmd_lower patterns ≡ allow
      → All (IsAbsent cmd_lower) patterns
  unfolding approval
  approval-allow cmd_lower [] h = tt
  approval-allow cmd_lower (pattern ∷ patterns) h =
      ground (arith, approval-allow cmd_lower patterns)

  check_binary-ok :
      (binary : Text) (e e' : PolicyEngine)
      → is_enforcing e.policy.mode ≡ true
      → check_binary to_lowercase binary e ≡ (e', ok tt)
      → ((e.policy.shell.allowed_binaries ≡ [])
          ⊎ (is_listed to_lowercase (to_lowercase (trim binary)) e.policy.shell.allowed_binaries
              ≡ true))
        × (e' ≡ e)
  unfolding check_binary
  check_binary-ok binary e e' enf h =
      let (listed, same) = violate_if-ok _ _ e e' enf h in
      (empty_or_listed (to_lowercase (trim binary)) e.policy.shell.allowed_binaries listed, same)

  check_blocked-ok :
      (raw_command : Text) (e e' : PolicyEngine)
      → is_enforcing e.policy.mode ≡ true
      → check_blocked to_lowercase raw_command e ≡ (e', ok tt)
      → All (IsAbsent (to_lowercase raw_command)) e.policy.shell.blocked_patterns × (e' ≡ e)
  unfolding check_blocked
  check_blocked-ok raw_command e e' enf h = block-ok (to_lowercase raw_command) _ e e' enf h

  check_approval-allow :
      (raw_command : Text) (e e' : PolicyEngine)
      → check_approval to_lowercase raw_command e ≡ (e', ok allow)
      → All (IsAbsent (to_lowercase raw_command)) e.policy.shell.require_approval × (e' ≡ e)
  unfolding check_approval pass
  check_approval-allow raw_command e e' h = (approval-allow (to_lowercase raw_command) _ (cc), cc)

  -- In enforcing mode a command that `check_shell` allows has its trimmed binary in the allowlist,
  -- unless that is empty, and contains no blocked pattern and no pattern that needs approval, all
  -- compared in lower case; and no violation is counted.
  pub check_shell-allow :
      (binary raw_command : Text) (e e' : PolicyEngine)
      → e.policy.mode ≡ enforcing
      → check_shell to_lowercase binary raw_command e ≡ (e', ok allow)
      → (e' ≡ e)
        × ((e.policy.shell.allowed_binaries ≡ [])
            ⊎ (is_listed to_lowercase (to_lowercase (trim binary)) e.policy.shell.allowed_binaries
                ≡ true))
        × All (IsAbsent (to_lowercase raw_command)) e.policy.shell.blocked_patterns
        × All (IsAbsent (to_lowercase raw_command)) e.policy.shell.require_approval
  check_shell-allow binary raw_command e e' mode h =
      let enf : is_enforcing e.policy.mode ≡ true = ap is_enforcing mode in
      let blocked = check_blocked to_lowercase raw_command in
      let approve = check_approval to_lowercase raw_command in
      let (e1, a, first, rest) =
        bind-ok (check_binary to_lowercase binary) (λ _. blocked >> approve) e e' allow
          (unfold check_shell in h) in
      let (e2, a', second, last) = bind-ok blocked (λ _. approve) e1 e' allow rest in
      let (listed, same1) = check_binary-ok binary e e1 enf first in
      let (absent, same2) = check_blocked-ok raw_command e1 e2 (rw same1 enf) second in
      let (free, same3) = check_approval-allow raw_command e2 e' last in
      let same12 = same2 ∙ same1 in (same3 ∙ same12, listed, rw same1 at absent, rw same12 at free)
