-- ===== src/Server/Execution/Admitted.antt =====
-- src/server.rs: a tool has an effect on the answer of "tools/call" only behind all gates.
use intermcp.Server.Gates.PolicyGate.{run_command, command_of, policy-command, policy-files}
use intermcp.Prelude.{
  text_eq, Bool-cases, inl, inr, ==_iff, ◌≡◌, ◌≢◌, refl, sym, ◌∙◌, Text, true, false, some, none,
  All, lookup, text_is_eq, ◌==◌, is_empty, contains_char, codes,
}
use intermcp.Server.State.{with_outcome, Server, Host, Surroundings, Refusal, Outcome, result}
use intermcp.Server.Gates.Passage.{
  gates-outcome, gates-Passed, policy_gate-ok, taint_gate-ok, vault_gate-ok,
}
use intermcp.Error.{Result, ok, err}
use intermcp.Json.{Value, string, get}
use intermcp.Policy.Engine.{PolicyEngine, enforcing}
use intermcp.Policy.Files.Description.{IsFree}
use intermcp.Policy.Files.Access.{MayWrite, MayRead, check_filesystem-ok}
use intermcp.Tools.System.{split_chained_commands}
use intermcp.Taint.{TaintTracker, privileged_execution}
use intermcp.Taint.Flows.{scan-refused_iff}
use intermcp.Vault.{TimeLockedVault, is_protected}
use intermcp.Vault.Lifecycle.{has_approval}
use intermcp.Server.Gates.{gates, uses_files, path_of, is_sink}
use intermcp.Server.Gates.Admission.{IsPermitted}
use intermcp.Server.Execution.{call_tool, after_gates, refusal_value}

command-is_sink : is_sink run_command ≡ true
unfolding is_sink text_eq
command-is_sink = refl

==-ne : (s t : Text) → s ≢ t → (s == t) ≡ false
==-ne s t h = elim (Bool-cases (s == t)) [ inl e ↦ absurd (h ((==_iff s t).0 e)) | inr e ↦ e ]

module _ (host : Host) (around : Surroundings) (name : Text) (arguments : Value) (key : Text)
    (s : Server) where
  -- What the tool gives makes a difference to the answer or to the state.
  abbrev pub ToolMatters : Outcome → Outcome → Type 0
  ToolMatters o o' =
      call_tool host (with_outcome o around) name arguments key s
      ≢ call_tool host (with_outcome o' around) name arguments key s

  refused_alike :
      (o : Outcome) (s' : Server) (r : Refusal)
      → gates host around name arguments s ≡ (s', err r)
      → call_tool host (with_outcome o around) name arguments key s
        ≡ (s', result (refusal_value host r))
  unfolding call_tool after_gates
  refused_alike o s' r h = rw (gates-outcome host around name arguments o s ∙ h) refl

  pub matters-gates :
      (o o' : Outcome)
      → ToolMatters o o'
      → (s' : Server) × (gates host around name arguments s ≡ (s', ok tt))
  matters-gates o o' m = go (gates host around name arguments s) refl
    where
      go :
          (g : Server × Result (Unit {0}) Refusal)
          → gates host around name arguments s ≡ g
          → (s' : Server) × (gates host around name arguments s ≡ (s', ok tt))
      go (s', ok u) h = (s', h)
      go (s', err r) h = absurd (m (refused_alike o s' r h ∙ sym (refused_alike o' s' r h)))

module _ (host : Host) (around : Surroundings) (arguments : Value) (key : Text) (s : Server)
    (e : PolicyEngine) where
  -- The command tool of a server whose policy is enforcing, with a taint tracker and a vault that
  -- protects that tool, makes a difference to a call under a fresh identifier only if the policy
  -- permits each of its chained commands, its arguments have no mark of untrusted data, and the
  -- identifier has been approved while the call was held.
  pub command_admitted :
      (t : TaintTracker) (v : TimeLockedVault) (o o' : Outcome)
      → s.policy_engine ≡ some e
      → e.policy.mode ≡ enforcing
      → s.taint_tracker ≡ some t
      → s.vault_lock ≡ some v
      → is_protected run_command v ≡ true
      → lookup around.approval_id v.sent ≡ none
      → ToolMatters host around run_command arguments key s o o'
      → All (IsPermitted host e.policy.shell) (split_chained_commands (command_of arguments))
        × (get (codes "_taint") arguments ≢ some (string (codes "untrusted")))
        × (has_approval around.approval_id around.vault_events ≡ true)
  command_admitted t v o o' has_policy mode has_tracker has_vault protected fresh m =
      let (s', through) = matters-gates host around run_command arguments key s o o' m in
      let p = gates-Passed host around run_command arguments s s' through in
      let (e', passed) =
        policy_gate-ok host around run_command arguments e s p.s1 has_policy p.by_policy in
      let scanned =
        taint_gate-ok host around run_command arguments t p.s2 p.s3 (p.same_tracker ∙ has_tracker)
          command-is_sink p.by_taint in
      (
        policy-command host around.policy_time arguments e e' mode passed,
        (λ marked. (scan-refused_iff arguments privileged_execution t).1 (refl, marked) scanned),
        vault_gate-ok host around run_command arguments v p.s3 s' (p.same_vault ∙ has_vault)
            protected fresh p.by_vault,
      )

  -- With a policy in enforcing mode, a tool that takes a path makes a difference to a call whose
  -- path is not empty only if the path has no NUL and is free of every denied pattern: as it is
  -- written, and in its canonical or normalized form, the pattern does not stand in it, nor at its
  -- end without the slashes at the pattern's end, and the glob matcher does not accept it; all in
  -- lower case, with slashes for backslashes. For fs_write_file its components begin with those of
  -- a directory that may be written, if any is named, and for any other tool with those of one
  -- that may be read or written, if one to be read is named, as they are written or in the
  -- canonical forms. A `..` is not resolved in what is written, and an empty path is not checked.
  pub file_admitted :
      (name : Text) (o o' : Outcome)
      → s.policy_engine ≡ some e
      → e.policy.mode ≡ enforcing
      → uses_files name ≡ true
      → is_empty (path_of name arguments) ≡ false
      → ToolMatters host around name arguments key s o o'
      → (contains_char (path_of name arguments) 0 ≡ false)
        × All
            (IsFree host.to_lowercase host.canonicalize (path_of name arguments))
            e.policy.filesystem.denied
        × (name ≡ codes "fs_write_file"
            → MayWrite host.to_lowercase host.canonicalize (path_of name arguments) e)
        × (name ≢ codes "fs_write_file"
            → MayRead host.to_lowercase host.canonicalize (path_of name arguments) e)
  file_admitted name o o' has_policy mode uses given m =
      let (s', through) = matters-gates host around name arguments key s o o' m in
      let p = gates-Passed host around name arguments s s' through in
      let (e', passed) =
        policy_gate-ok host around name arguments e s p.s1 has_policy p.by_policy in
      let (e1, kept, checked) =
        policy-files host around.policy_time name arguments e e' mode uses given passed in
      let (same, no_nul, free, write, read) =
        check_filesystem-ok host.to_lowercase host.canonicalize (path_of name arguments) _ e1 e'
          (rw kept mode) checked in
      (
        no_nul,
        rw kept at free,
        (λ is_write. rw kept at (write ((==_iff name (codes "fs_write_file")).1 is_write))),
        (λ other. rw kept at (read (==-ne name (codes "fs_write_file") other))),
      )
