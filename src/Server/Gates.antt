-- ===== src/Server/Gates.antt =====
-- src/server.rs: the checks of "tools/call" in `handle_request` before a tool is looked up.
pub mod Admission
pub mod PolicyGate
pub mod Passage
use intermcp.Prelude.{
  ℕ, Text, codes, Bool, not, ◌&&◌, ◌||◌, Option, none, some, List, [], ◌∷◌, ◌==◌, text_is_eq,
  is_empty, trim, split_whitespace, if◌then◌else◌,
}
use intermcp.Error.{ok, err, security_violation, vault_saturated}
use intermcp.Json.{Value, get, as_str}
use intermcp.Policy.Engine.{
  PolicyEngine, ShellPolicyDecision, allow, require_supervisor_approval, check_rate_limit,
}
use intermcp.Policy.Shell.{check_shell}
use intermcp.Policy.Files.{check_filesystem}
use intermcp.Guardrails.{GuardrailPolicy, check_call}
use intermcp.Guardrails.Normalization.{compute_normalized_arguments_hash}
use intermcp.Receipts.{hash_canonical_json}
use intermcp.Taint.{TaintTracker, scan_json_arguments, privileged_execution}
use intermcp.Tools.System.{split_chained_commands}
use intermcp.Vault.{
  TimeLockedVault, Request, unprotected, saturated, failed, waiting, request, settle,
}
use intermcp.Vault.Lifecycle.{run}
use intermcp.Server.State.{
  Server, Host, Surroundings, Refusal, policy, approval_required, tainted, vetoed,
}
use intermcp.Server.State
use intermcp.Server.Steps.{Step, ◌>>=◌, ◌>>◌, pass, refuse, lift, refused_as}

abbrev pub Gate : Type 0
Gate = Step Server (Unit {0})

abbrev pub text_at : Text → Value → Option Text
text_at key v = elim (get key v) [ none ↦ none | some w ↦ as_str w ]

abbrev pub unwrap_or {ℓ} : {A : Type ℓ} → Option A → A → A
unwrap_or none d = d
unwrap_or (some a) d = a

abbrev pub first_word : List Text → Text
first_word [] = []
first_word (w ∷ ws) = w

-- The tools that take a path, and those whose path is "." when none is given.
unfoldable pub lists_files : Text → Bool
lists_files name =
    name == codes "fs_list_dir"
    || name == codes "fs_list_directory"
    || name == codes "fs_search_text"

unfoldable pub uses_files : Text → Bool
unfolding lists_files
uses_files name = name == codes "fs_read_file" || name == codes "fs_write_file" || lists_files name

-- `arguments.get("path").or_else(|| arguments.get("dir")).and_then(as_str).unwrap_or(…)`
abbrev pub or_else : Option Value → Option Value → Option Value
or_else (some v) w = some v
or_else none w = w

abbrev pub string_of : Option Value → Option Text
string_of none = none
string_of (some v) = as_str v

unfoldable pub path_of : Text → Value → Text
unfolding lists_files
path_of name arguments =
    unwrap_or (string_of (or_else (get (codes "path") arguments) (get (codes "dir") arguments)))
      (if lists_files name then codes "." else [])

unfoldable pub is_sink : Text → Bool
is_sink name = name == codes "system_run_command" || name == codes "fs_write_file"

module _ (host : Host) where
  unfoldable pub decide : ShellPolicyDecision → Step PolicyEngine (Unit {0})
  decide allow = pass tt
  decide (require_supervisor_approval pattern) = refuse (approval_required pattern)

  unfoldable pub check_command : Text → Step PolicyEngine (Unit {0})
  check_command sub = do
    decision ← lift policy (check_shell host.to_lowercase (first_word (split_whitespace sub)) sub)
    decide decision

  -- The loop over the chained commands; blank ones are passed over.
  unfoldable pub check_commands : List Text → Step PolicyEngine (Unit {0})
  check_commands [] = pass tt
  check_commands (sub ∷ subs) =
      let rest = check_commands subs in
      if is_empty (trim sub) then rest else check_command (trim sub) >> rest

  unfoldable pub check_run : Text → Value → Step PolicyEngine (Unit {0})
  check_run name arguments =
      if name == codes "system_run_command"
      then check_commands
          (split_chained_commands (unwrap_or (text_at (codes "command") arguments) []))
      else pass tt

  unfoldable pub check_files : Text → Value → Step PolicyEngine (Unit {0})
  check_files name arguments =
      if uses_files name && not (is_empty (path_of name arguments))
      then lift policy (
          check_filesystem host.to_lowercase host.canonicalize (path_of name arguments)
            (name == codes "fs_write_file"))
      else pass tt

  unfoldable pub check_policy : ℕ → Text → Value → Step PolicyEngine (Unit {0})
  check_policy now name arguments = do
    lift policy (check_rate_limit now name)
    check_run name arguments
    check_files name arguments

  module _ (around : Surroundings) (name : Text) (arguments : Value) where
    unfoldable pub policy_with : Option PolicyEngine → Gate
    policy_with none s = (s, ok tt)
    policy_with (some e) s =
        let (e', r) = check_policy around.policy_time name arguments e in
        (record s { policy_engine = some e' }, r)

    unfoldable pub policy_gate : Gate
    policy_gate s = policy_with s.policy_engine s

    unfoldable pub arguments_hash : Text
    arguments_hash =
        compute_normalized_arguments_hash host.to_lowercase host.sha256 host.hex
          host.canonicalize_json host.json_text arguments

    unfoldable pub guardrail_with : Option GuardrailPolicy → Gate
    guardrail_with none s = (s, ok tt)
    guardrail_with (some p) s =
        let (p', r) = check_call around.guardrail_time name arguments_hash p in
        (record s { guardrail = some p' }, refused_as State.failed r)

    unfoldable pub guardrail_gate : Gate
    guardrail_gate s = guardrail_with s.guardrail s

    unfoldable pub taint_with : Option TaintTracker → Gate
    taint_with none s = (s, ok tt)
    taint_with (some t) s =
        if is_sink name
        then (let (t', r) = scan_json_arguments arguments privileged_execution t in
            (record s { taint_tracker = some t' }, refused_as tainted r))
        else (s, ok tt)

    unfoldable pub taint_gate : Gate
    taint_gate s = taint_with s.taint_tracker s

    -- The end of the wait: other tasks have used the vault, and other parts of the server.
    unfoldable pub answered : Text → TimeLockedVault → Gate
    answered id v s =
        let (v', approved) = settle id (run around.vault_events v) in
        (
          record (around.while_held s) { vault_lock = some v' },
          if approved then ok tt else err (vetoed name),
        )

    unfoldable pub held : Request → TimeLockedVault → Gate
    held unprotected v s = (record s { vault_lock = some v }, ok tt)
    held saturated v s =
        (record s { vault_lock = some v }, err (State.failed (security_violation vault_saturated)))
    held (failed e) v s = (record s { vault_lock = some v }, err (State.failed e))
    held (waiting id) v s = answered id v s

    unfoldable pub vault_with : Option TimeLockedVault → Gate
    vault_with none s = (s, ok tt)
    vault_with (some v) s =
        let (v', r) =
          request around.vault_time around.approval_id name arguments
            (hash_canonical_json host.sha256 host.hex host.canonicalize_json arguments) v in
        held r v' s

    unfoldable pub vault_gate : Gate
    vault_gate s = vault_with s.vault_lock s

    -- All gates, in their order.
    unfoldable pub gates : Gate
    gates = do policy_gate; guardrail_gate; taint_gate; vault_gate
