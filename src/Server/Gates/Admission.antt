-- ===== src/Server/Gates/Admission.antt =====
-- src/server.rs: what is known of a call of a tool that its gates have let through.
use intermcp.Prelude.{
  ◌≡◌, refl, ◌∙◌, Text, true, List, [], ◌∷◌, ◌⊎◌, inl, inr, text_is_eq, All, is_empty, trim,
  split_whitespace, Bool-cases,
}
use intermcp.Error.{ok}
use intermcp.Policy.Engine.{
  PolicyEngine, enforcing, ShellPolicy, ShellPolicyDecision, allow, require_supervisor_approval,
}
use intermcp.Policy.Shell.{check_shell, is_listed, IsAbsent, check_shell-allow}
use intermcp.Server.State.{Host, policy}
use intermcp.Server.Steps.{lift, bind-ok, lift-ok}
use intermcp.Server.Gates.{check_commands, check_command, decide, first_word}

module _ (host : Host) where
  -- A shell policy permits a command: its first word is in the allowlist, unless that is empty, and
  -- it has no blocked pattern and none that needs approval, all compared in lower case.
  pub record Permits (p : ShellPolicy) (sub : Text) : Type 0 where
    pub binary :
        (p.allowed_binaries ≡ [])
        ⊎ (is_listed host.to_lowercase
              (host.to_lowercase (trim (first_word (split_whitespace sub))))
              p.allowed_binaries
            ≡ true)
    pub blocked : All (IsAbsent host.to_lowercase (host.to_lowercase sub)) p.blocked_patterns
    pub approval : All (IsAbsent host.to_lowercase (host.to_lowercase sub)) p.require_approval

  abbrev pub IsPermitted : ShellPolicy → Text → Type 0
  IsPermitted p sub = (is_empty (trim sub) ≡ true) ⊎ Permits p (trim sub)

  decide-ok :
      (d : ShellPolicyDecision) (e e' : PolicyEngine)
      → decide host d e ≡ (e', ok tt)
      → (d ≡ allow) × (e' ≡ e)
  unfolding decide
  decide-ok allow e e' h = (refl, cc)
  decide-ok (require_supervisor_approval p) e e' h = cc

  pub check_command-ok :
      (sub : Text) (e e' : PolicyEngine)
      → e.policy.mode ≡ enforcing
      → check_command host sub e ≡ (e', ok tt)
      → Permits e.policy.shell sub × (e' ≡ e)
  unfolding check_command
  check_command-ok sub e e' mode h =
      let shell = check_shell host.to_lowercase (first_word (split_whitespace sub)) sub in
      let (e1, d, first, rest) = bind-ok (lift policy shell) (decide host) e e' tt h in
      let (allowed, same) = decide-ok d e1 e' rest in
      let found : shell e ≡ (e1, ok allow) = rw (← allowed) (lift-ok policy shell e e1 d first) in
      let (kept, listed, absent, free) =
        check_shell-allow host.to_lowercase _ sub e e1 mode found in
      (record { binary = listed; blocked = absent; approval = free }, same ∙ kept)

  pub check_commands-ok :
      (subs : List Text) (e e' : PolicyEngine)
      → e.policy.mode ≡ enforcing
      → check_commands host subs e ≡ (e', ok tt)
      → All (IsPermitted e.policy.shell) subs × (e' ≡ e)
  unfolding check_commands
  check_commands-ok [] e e' mode h = (tt, cc)
  check_commands-ok (sub ∷ subs) e e' mode h = elim (Bool-cases (is_empty (trim sub))) [
    | inl blank ↦
        let (others, same) = check_commands-ok subs e e' mode (rw blank at h) in
        ((inl blank, others), same)
    | inr used ↦
        let (e1, u, first, rest) =
          bind-ok (check_command host (trim sub)) (λ _. check_commands host subs) e e' tt
            (rw used at h) in
        let (permits, same1) = check_command-ok (trim sub) e e1 mode first in
        let (others, same) = check_commands-ok subs e e' mode (rw same1 at rest) in
        ((inr permits, others), same)
  ]
