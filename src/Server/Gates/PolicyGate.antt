-- ===== src/Server/Gates/PolicyGate.antt =====
-- src/server.rs: what the policy gate of "tools/call" has let through.
use intermcp.Prelude.{
  ◌==◌, text_is_eq, is_empty, Bool-cases, inl, inr, codes, false, ◌≡◌, arith, ℕ, Text, true, [],
  ==_refl, All,
}
use intermcp.Server.Gates.{
  check_filesystem, path_of, uses_files, check_policy, check_run, check_files, check_commands,
  text_at, unwrap_or,
}
use intermcp.Error.{Result, ok}
use intermcp.Json.{Value}
use intermcp.Policy.Engine.{PolicyEngine, enforcing, check_rate_limit, violate}
use intermcp.Tools.System.{split_chained_commands}
use intermcp.Server.State.{Host, policy}
use intermcp.Server.Steps.{◌>>◌, lift, bind-ok, lift-ok}
use intermcp.Server.Gates.Admission.{IsPermitted, check_commands-ok}

-- The rate limit keeps the policy.
rate-policy :
    (now : ℕ) (name : Text) (e e' : PolicyEngine) (r : Result (Unit {0}) _)
    → check_rate_limit now name e ≡ (e', r)
    → e'.policy ≡ e.policy
unfolding check_rate_limit violate
rate-policy now name e e' r h = ground arith

abbrev pub run_command : Text
run_command = codes "system_run_command"

abbrev pub command_of : Value → Text
command_of arguments = unwrap_or (text_at (codes "command") arguments) []

module _ (host : Host) where
  check_run-command :
      (arguments : Value) (e e' : PolicyEngine)
      → check_run host run_command arguments e ≡ (e', ok tt)
      → check_commands host (split_chained_commands (command_of arguments)) e ≡ (e', ok tt)
  unfolding check_run
  check_run-command arguments e e' h = rw (==_refl run_command) at h

  -- The commands that the policy gate has let through.
  pub policy-command :
      (now : ℕ) (arguments : Value) (e e' : PolicyEngine)
      → e.policy.mode ≡ enforcing
      → check_policy host now run_command arguments e ≡ (e', ok tt)
      → All (IsPermitted host e.policy.shell) (split_chained_commands (command_of arguments))
  unfolding check_policy
  policy-command now arguments e e' mode h =
      let limit = lift policy (check_rate_limit now run_command) in
      let run = check_run host run_command arguments in
      let files = check_files host run_command arguments in
      let (e1, u, first, rest) = bind-ok limit (λ _. run >> files) e e' tt h in
      let (e2, u2, second, last) = bind-ok run (λ _. files) e1 e' tt rest in
      let kept =
        rate-policy now run_command e e1 (ok tt)
          (lift-ok policy (check_rate_limit now run_command) e e1 tt first) in
      let (permitted, same) =
        check_commands-ok host _ e1 e2 (rw kept mode) (check_run-command arguments e1 e2 second) in
      rw kept at permitted

  -- The shell rules keep the engine, whatever the tool is.
  check_run-same :
      (name : Text) (arguments : Value) (e e' : PolicyEngine)
      → e.policy.mode ≡ enforcing
      → check_run host name arguments e ≡ (e', ok tt)
      → e' ≡ e
  unfolding check_run
  check_run-same name arguments e e' mode h = elim (Bool-cases (name == run_command)) [
    | inl runs ↦ (check_commands-ok host _ e e' mode (rw runs at h)).1
    | inr other ↦ ground arith
  ]

  check_files-checked :
      (name : Text) (arguments : Value) (e e' : PolicyEngine)
      → uses_files name ≡ true
      → is_empty (path_of name arguments) ≡ false
      → check_files host name arguments e ≡ (e', ok tt)
      → check_filesystem host.to_lowercase host.canonicalize
          (path_of name arguments)
          (name == codes "fs_write_file")
          e
        ≡ (e', ok tt)
  unfolding check_files
  check_files-checked name arguments e e' uses given h =
      lift-ok policy
        (check_filesystem host.to_lowercase host.canonicalize (path_of name arguments)
          (name == codes "fs_write_file"))
        e e' tt (rw (uses, given) at h)

  -- The access that the policy gate has let through.
  pub policy-files :
      (now : ℕ) (name : Text) (arguments : Value) (e e' : PolicyEngine)
      → e.policy.mode ≡ enforcing
      → uses_files name ≡ true
      → is_empty (path_of name arguments) ≡ false
      → check_policy host now name arguments e ≡ (e', ok tt)
      → (e1 : PolicyEngine) × (e1.policy ≡ e.policy)
        × (check_filesystem host.to_lowercase host.canonicalize
              (path_of name arguments)
              (name == codes "fs_write_file")
              e1
            ≡ (e', ok tt))
  unfolding check_policy
  policy-files now name arguments e e' mode uses given h =
      let limit = lift policy (check_rate_limit now name) in
      let run = check_run host name arguments in
      let files = check_files host name arguments in
      let (e1, u, first, rest) = bind-ok limit (λ _. run >> files) e e' tt h in
      let (e2, u2, second, last) = bind-ok run (λ _. files) e1 e' tt rest in
      let kept =
        rate-policy now name e e1 (ok tt)
          (lift-ok policy (check_rate_limit now name) e e1 tt first) in
      let same = check_run-same name arguments e1 e2 (rw kept mode) second in
      (e1, kept, rw same at (check_files-checked name arguments e2 e' uses given last))
