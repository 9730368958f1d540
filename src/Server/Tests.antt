-- ===== src/Server/Tests.antt =====
-- A small server of src/server.rs, and runs of its requests.
use intermcp.Policy.Files.{is_denied, canonical_or_normalized, is_within_dir, check_filesystem}
use intermcp.Policy.Glob.{glob_like_match}
use intermcp.Prelude.{
  arith, len, as_bytes, ends_with, is_empty, contains_char, lookup, text_eq, trim, split_whitespace,
  contains, insert, remove, ◌≡◌, ◌≢◌, refl, Text, codes, Bool, true, false, none, some, [], ◌∷◌,
  All, to_ascii_lowercase,
}
use intermcp.Policy.Paths.{path_text, normalize, components, has_ancestor}
use intermcp.Server.Execution.{
  total_output_bytes, serve_with, complete, after_gates, dispatch_with, serve, execute, finish,
  call_tool,
}
use intermcp.Server.Gates.{
  path_of, gates, policy_gate, policy_with, check_policy, check_run, check_commands, check_command,
  decide, check_files, uses_files, guardrail_gate, guardrail_with, taint_gate, taint_with, is_sink,
  vault_gate, vault_with, held, answered,
}
use intermcp.Policy.Files.Description.{IsFree}
use intermcp.Policy.Files.Access.{MayWrite, MayRead}
use intermcp.Server.Execution.Admitted.{file_admitted, command_admitted, ToolMatters}
use intermcp.Server.Execution.Limits.{HasBudget}
use intermcp.Server.Execution.Records.{EndsRecorded, complete-EndsRecorded}
use intermcp.Server.Masking.{redact_tool_result}
use intermcp.Protocol.Results.{result_value, text_result, internal_error}
use intermcp.Json.{as_str, Value, null, object, field, string, end, get}
use intermcp.Policy.Shell.{check_shell}
use intermcp.Receipts.{hash_canonical_json}
use intermcp.Error.{ok}
use intermcp.Policy.Engine.{PolicyEngine, enforcing, default_limits}
use intermcp.Policy.Engine
use intermcp.Guardrails.{drop_old}
use intermcp.Guardrails
use intermcp.Taint
use intermcp.Vault
use intermcp.Vault.Lifecycle.{approves, has_approval}
use intermcp.Tools.System.{split_chained_commands}
use intermcp.Server.State.{
  Server, Host, Surroundings, Tool, Body, failure, cancelled, panicked, Outcome,
}
use intermcp.Server.Gates.Admission.{IsPermitted}
use intermcp.Server.Gates.PolicyGate.{run_command, command_of}

abbrev pub small_host : Host
small_host = record {
  to_lowercase = to_ascii_lowercase;
  to_uppercase = λ t. t;
  canonicalize = λ t. none;
  vars = [];
  replacer = λ ps. none;
  json_text = λ v. [];
  sha256 = λ bs. bs;
  sha256_hex = λ bs. bs;
  hex = λ bs. bs;
  canonicalize_json = λ v. ok [];
  receipt_value = λ r. ok null;
  print_receipt = λ r. [];
  hash_value = λ v. [];
  print_entry = λ e. [];
  display = λ r. codes "refused";
  read_resource = λ u. ok null;
  get_prompt = λ n v. ok null;
}

abbrev engine : PolicyEngine
engine = Engine.new (record {
  mode = enforcing;
  filesystem = record {
    read_only = [];
    read_write = codes "/w" ∷ [];
    denied = codes "**/.env" ∷ [];
  };
  shell = record {
    allowed_binaries = codes "git" ∷ [];
    blocked_patterns = codes "push" ∷ [];
    require_approval = codes "rebase" ∷ [];
  };
  limits = default_limits;
})

abbrev command_tool : Tool
command_tool = record {
  name = run_command;
  description = codes "runs a command";
  input_schema = null;
  is_cacheable = false;
}

abbrev vault : Vault.TimeLockedVault
vault = Vault.new (run_command ∷ []) 60

abbrev pub server : Server
server = record {
  name = codes "s";
  version = codes "1";
  tools = (run_command, command_tool) ∷ [];
  resources = [];
  prompts = [];
  cache = none;
  guardrail = none;
  cancellations = [];
  smac = none;
  vault_lock = some vault;
  receipt_book = none;
  secret_env_names = [];
  taint_tracker = some Taint.new;
  policy_engine = some engine;
  session_id = codes "id";
  log_level = 2;
}

-- The supervisor approves the call while it is held.
abbrev pub approved_call : Surroundings
approved_call = record {
  policy_time = 0;
  guardrail_time = 0;
  vault_time = 0;
  approval_id = codes "a1";
  while_held = λ s. s;
  vault_events = approves (codes "a1") ∷ [];
  cache_time = 0;
  while_running = λ s. s;
  outcome = cancelled;
  output_time = 0;
  log_millis = 0;
  receipt_time = [];
  duration_us = 0;
  store_time = 0;
}

abbrev git_status : Value
git_status = object (field (codes "command") (string (codes "git status; git log")) end)

abbrev is_panic : Server × Body → Bool
is_panic (s, failure internal_error f d) = true
is_panic (s, _) = false

abbrev answer : Outcome → Bool
answer o = is_panic (
    call_tool small_host (record approved_call { outcome = o }) run_command git_status (codes "1")
      server)

answers : (answer cancelled ≡ false) × (answer panicked ≡ true)
unfolding call_tool after_gates dispatch_with serve execute finish gates policy_gate policy_with
    check_policy check_run check_commands check_command decide check_files uses_files guardrail_gate
    guardrail_with taint_gate taint_with is_sink vault_gate vault_with held answered
    Engine.check_rate_limit Engine.new lookup text_eq split_chained_commands get as_str trim
    check_shell to_ascii_lowercase split_whitespace contains Taint.scan_json_arguments Vault.request
    Vault.new hash_canonical_json Vault.settle Vault.approve insert remove
answers = (refl, refl)

tool_matters :
    ToolMatters small_host approved_call run_command git_status
      (codes "1")
      server
      cancelled
      panicked
tool_matters h = cc (answers.0, answers.1)

vault_protects : Vault.is_protected run_command vault ≡ true
unfolding Vault.is_protected Vault.new
vault_protects = refl

command_admitted_example :
    All
      (IsPermitted small_host engine.policy.shell)
      (split_chained_commands (command_of git_status))
    × (get (codes "_taint") git_status ≢ some (string (codes "untrusted")))
    × (has_approval (codes "a1") (approves (codes "a1") ∷ []) ≡ true)
unfolding Engine.new lookup Vault.new
command_admitted_example =
    command_admitted small_host approved_call git_status (codes "1") server engine Taint.new vault
      cancelled panicked refl refl refl refl vault_protects refl tool_matters

-- A write to a file of the directory that may be written.
abbrev write_file : Text
write_file = codes "fs_write_file"

abbrev write_arguments : Value
write_arguments = object (field (codes "path") (string (codes "/w/x")) end)

abbrev write_tool : Tool
write_tool = record command_tool { name = write_file; is_cacheable = true }

abbrev file_server : Server
file_server = record server { tools = (write_file, write_tool) ∷ [] }

abbrev write_answer : Outcome → Bool
write_answer o = is_panic (
    call_tool small_host (record approved_call { outcome = o }) write_file write_arguments
      (codes "1") file_server)

write_answers : (write_answer cancelled ≡ false) × (write_answer panicked ≡ true)
unfolding call_tool after_gates dispatch_with serve execute finish gates policy_gate policy_with
    check_policy check_run check_commands check_command decide check_files uses_files guardrail_gate
    guardrail_with taint_gate taint_with is_sink vault_gate vault_with held answered
    Engine.check_rate_limit Engine.new lookup text_eq split_chained_commands get as_str trim
    check_shell to_ascii_lowercase split_whitespace contains Taint.scan_json_arguments Vault.request
    Vault.new hash_canonical_json Vault.settle Vault.approve insert remove path_of check_filesystem
    contains_char is_denied glob_like_match as_bytes canonical_or_normalized path_text normalize
    components ends_with is_within_dir has_ancestor serve_with
write_answers = (refl, refl)

write_matters :
    ToolMatters small_host approved_call write_file write_arguments
      (codes "1")
      file_server
      cancelled
      panicked
write_matters h = cc (write_answers.0, write_answers.1)

write_uses_files : uses_files write_file ≡ true
unfolding uses_files text_eq
write_uses_files = refl

path_given : is_empty (path_of write_file write_arguments) ≡ false
unfolding path_of get as_str text_eq
path_given = refl

file_admitted_example :
    (contains_char (codes "/w/x") 0 ≡ false)
    × All (IsFree to_ascii_lowercase (λ t. none) (codes "/w/x")) (codes "**/.env" ∷ [])
    × (write_file ≡ codes "fs_write_file"
        → MayWrite to_ascii_lowercase (λ t. none) (codes "/w/x") engine)
    × (write_file ≢ codes "fs_write_file"
        → MayRead to_ascii_lowercase (λ t. none) (codes "/w/x") engine)
unfolding path_of get as_str text_eq Engine.new
file_admitted_example =
    file_admitted small_host approved_call write_arguments (codes "1") file_server engine write_file
      cancelled panicked refl refl write_uses_files path_given write_matters

-- A policy that allows five bytes of output, and a guardrail with a budget of ten characters.
abbrev tight_server : Server
tight_server = record file_server {
  policy_engine = some (
      Engine.new
        (record engine.policy { limits = record default_limits { max_output_bytes = 5 } }));
  guardrail = some (Guardrails.with_char_budget 10 (Guardrails.new 60 3));
}

tight-HasBudget : HasBudget tight_server.guardrail
unfolding Guardrails.with_char_budget Guardrails.new
tight-HasBudget budget e = ground arith

complete-EndsRecorded_example :
    EndsRecorded small_host approved_call write_file write_arguments true write_tool
      (result_value (redact_tool_result small_host [] (text_result (codes "too long"))))
      tight_server
      (complete small_host approved_call write_file write_arguments write_tool
        (text_result (codes "too long"))
        tight_server)
unfolding Engine.new total_output_bytes len
complete-EndsRecorded_example =
    complete-EndsRecorded small_host approved_call write_file write_arguments write_tool
      (text_result (codes "too long")) tight_server tight-HasBudget

-- Two bytes are within both limits.
short_answer :
    (complete small_host approved_call write_file write_arguments write_tool
      (text_result (codes "ok"))
      tight_server).1
    ≡ ok (result_value (redact_tool_result small_host [] (text_result (codes "ok"))))
unfolding Engine.new total_output_bytes len Guardrails.with_char_budget Guardrails.new
    redact_tool_result drop_old
short_answer =
    (complete-EndsRecorded small_host approved_call write_file write_arguments write_tool
      (text_result (codes "ok")) tight_server tight-HasBudget).0
