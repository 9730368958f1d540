-- ===== src/Server/State.antt =====
-- src/server.rs: `Server` with its builders, the responses, and the surroundings of a call.
use intermcp.Prelude.{
  ℕ, Text, Bool, Option, some, List, [], ◌∷◌, ◌++◌, HashMap, insert, length, text_is_eq, map,
}
use intermcp.Error.{Result, FastMcpError}
use intermcp.Json.{Value}
use intermcp.Protocol.Ids.{ProtocolNegotiationError}
use intermcp.Protocol.Results.{ErrorCode, CallToolResult, ToolDefinition}
use intermcp.Cache.{ToolCache}
use intermcp.Cache
use intermcp.Guardrails.{GuardrailPolicy}
use intermcp.Guardrails
use intermcp.Policy.Engine.{PolicyEngine, PolicyViolation}
use intermcp.Smac.{SmacLogger, SmacEntry}
use intermcp.Taint.{TaintTracker, TaintViolation}
use intermcp.Vault.{TimeLockedVault}
use intermcp.Vault.Lifecycle.{Event}
use intermcp.Receipts.{ReceiptBook, ExecutionReceipt, SignedReceiptRecord}

-- A tool, without its `execute`: what that gives stands in the surroundings of a call.
pub record Tool : Type 0 where
  pub name : Text
  pub description : Text
  pub input_schema : Value
  pub is_cacheable : Bool

abbrev pub definition : Tool → ToolDefinition
definition t = record { name = t.name; description = t.description; input_schema = t.input_schema }

-- The definitions of resources and prompts stand as JSON. `GLOBAL_LOG_LEVEL`, a static, stands with
-- the server. A token of `cancellations` is whether it has been cancelled.
pub record Server : Type 0 where
  pub name : Text
  pub version : Text
  pub tools : HashMap Text Tool
  pub resources : HashMap Text Value
  pub prompts : HashMap Text Value
  pub cache : Option ToolCache
  pub guardrail : Option GuardrailPolicy
  pub cancellations : HashMap Text Bool
  pub smac : Option SmacLogger
  pub vault_lock : Option TimeLockedVault
  pub receipt_book : Option ReceiptBook
  pub secret_env_names : List Text
  pub taint_tracker : Option TaintTracker
  pub policy_engine : Option PolicyEngine
  pub session_id : Text
  pub log_level : ℕ

unfoldable pub with_policy_engine : PolicyEngine → Server → Server
with_policy_engine engine s = record s { policy_engine = some engine }

unfoldable pub with_taint_tracker : TaintTracker → Server → Server
with_taint_tracker tracker s = record s { taint_tracker = some tracker }

unfoldable pub with_secret_env_names : List Text → Server → Server
with_secret_env_names names s = record s { secret_env_names = names }

unfoldable pub add_secret_env_name : Text → Server → Server
add_secret_env_name n s = record s { secret_env_names = s.secret_env_names ++ n ∷ [] }

unfoldable pub with_smac : SmacLogger → Server → Server
with_smac smac s = record s { smac = some smac }

unfoldable pub with_receipt_book : ReceiptBook → Server → Server
with_receipt_book book s = record s { receipt_book = some book }

unfoldable pub with_time_locked_vault : TimeLockedVault → Server → Server
with_time_locked_vault vault s = record s { vault_lock = some vault }

unfoldable pub with_cache : ℕ → Server → Server
with_cache ttl s = record s { cache = some (Cache.new ttl) }

unfoldable pub with_cache_bytes : ℕ → ℕ → Server → Server
with_cache_bytes ttl max_bytes s = record s { cache = some (Cache.with_max_bytes ttl max_bytes) }

unfoldable pub with_guardrails : ℕ → ℕ → Server → Server
with_guardrails max_calls_per_minute loop_threshold s = record s {
  guardrail = some (Guardrails.new max_calls_per_minute loop_threshold);
}

unfoldable pub with_guardrail_policy : GuardrailPolicy → Server → Server
with_guardrail_policy p s = record s { guardrail = some p }

unfoldable pub add_tool : Tool → Server → Server
add_tool tool s = record s { tools = insert tool.name tool s.tools }

unfoldable pub add_tools : List Tool → Server → Server
unfolding add_tool
add_tools [] s = s
add_tools (tool ∷ tools) s = add_tools tools (add_tool tool s)

unfoldable pub add_resource : Text → Value → Server → Server
add_resource uri resource s = record s { resources = insert uri resource s.resources }

unfoldable pub add_prompt : Text → Value → Server → Server
add_prompt name prompt s = record s { prompts = insert name prompt s.prompts }

abbrev pub tool_count : Server → ℕ
tool_count s = length s.tools

abbrev pub resource_count : Server → ℕ
resource_count s = length s.resources

abbrev pub prompt_count : Server → ℕ
prompt_count s = length s.prompts

-- `list_tool_definitions`
unfoldable pub list_tool_definitions : Server → List ToolDefinition
list_tool_definitions s = map (λ entry. definition entry.1) s.tools

-- Why a call of a tool is answered by `CallToolResult::error`.
pub data Refusal : Type 0 where
  policy : PolicyViolation → Refusal
  approval_required : (pattern : Text) → Refusal
  tainted : TaintViolation → Refusal
  vetoed : (tool_name : Text) → Refusal
  failed : FastMcpError → Refusal

-- The messages of `JsonRpcResponse::error`.
pub data Failure : Type 0 where
  bad_jsonrpc bad_request_id missing_request_id missing_tool_name : Failure
  request_cancelled tool_panic missing_uri missing_prompt_name : Failure
  task_failed : Text → Failure
  payload_too_large empty_batch batch_too_large : Failure
  unreadable_request unreadable_message : (error : Text) → Failure
  unsupported_version : ProtocolNegotiationError → Failure
  unknown_method unknown_tool unknown_resource unknown_prompt : Text → Failure
  read_failed retrieval_failed : FastMcpError → Failure

pub data Body : Type 0 where
  result : Value → Body
  failure : ErrorCode → Failure → Option Value → Body

pub record JsonRpcResponse : Type 0 where
  pub id : Value
  pub body : Body

-- How the task of a tool ends.
pub data Outcome : Type 0 where
  cancelled panicked : Outcome
  task_failure : Text → Outcome
  finished : Result CallToolResult FastMcpError → Outcome

-- What surrounds one call of a tool: the clocks where they are read, the random identifier of the
-- vault, what other tasks do to the server while the vault holds the call and while the tool runs,
-- and what the tool gives.
pub record Surroundings : Type 0 where
  pub policy_time : ℕ
  pub guardrail_time : ℕ
  pub vault_time : ℕ
  pub approval_id : Text
  pub while_held : Server → Server
  pub vault_events : List Event
  pub cache_time : ℕ
  pub while_running : Server → Server
  pub outcome : Outcome
  pub output_time : ℕ
  pub log_millis : ℕ
  pub receipt_time : Text
  pub duration_us : ℕ
  pub store_time : ℕ

-- The same surroundings, but for what the tool gives.
abbrev pub with_outcome : Outcome → Surroundings → Surroundings
with_outcome o around = record around { outcome = o }

-- The libraries, the environment and the file system as the server uses them. `display` is the text
-- of a refusal; `replacer` builds the replacement of some texts by "[REDACTED_BY_INTERMCP]";
-- `read_resource` and `get_prompt` are the calls of the registered closures, with their JSON.
pub record Host : Type 0 where
  pub to_lowercase : Text → Text
  pub to_uppercase : Text → Text
  pub canonicalize : Text → Option Text
  pub vars : List (Text × Text)
  pub replacer : List Text → Option (Text → Text)
  pub json_text : Value → Text
  pub sha256 : List ℕ → List ℕ
  pub sha256_hex : List ℕ → Text
  pub hex : List ℕ → Text
  pub canonicalize_json : Value → Result (List ℕ) FastMcpError
  pub receipt_value : ExecutionReceipt → Result Value FastMcpError
  pub print_receipt : SignedReceiptRecord → Text
  pub hash_value : Value → Text
  pub print_entry : SmacEntry → Text
  pub display : Refusal → Text
  pub read_resource : Text → Result Value FastMcpError
  pub get_prompt : Text → Value → Result Value FastMcpError
