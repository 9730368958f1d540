-- ===== src/Server/Execution.antt =====
-- src/server.rs: "tools/call" in `handle_request` behind its gates: the look-up, the cache, the run
-- of the tool, and what is done with its result.
pub mod Admitted
pub mod Limits
pub mod Records
pub mod Traces
use intermcp.Prelude.{
  ℕ, ◌+◌, Text, false, Option, none, some, List, [], ◌∷◌, lookup, insert, remove, text_is_eq, len,
  if◌then◌else◌,
}
use intermcp.Error.{Result, ok, err, FastMcpError}
use intermcp.Json.{Value}
use intermcp.Protocol.Results.{
  ContentItem, text, image, resource, CallToolResult, error_result, result_value, invalid_params,
  server_error, internal_error,
}
use intermcp.Cache.{ToolCache}
use intermcp.Cache
use intermcp.Guardrails.{GuardrailPolicy, record_output}
use intermcp.Policy.Engine.{PolicyEngine, check_output_size}
use intermcp.Receipts.{ReceiptBook, ReceiptStatus, success, tool_error, hash_canonical_json}
use intermcp.Receipts.Book.{Execution, record_execution}
use intermcp.Smac.{SmacLogger, log}
use intermcp.Server.State.{
  Server, Host, Tool, Surroundings, Refusal, policy, Body, failure, unknown_tool, Outcome,
  cancelled, panicked, task_failure, finished, request_cancelled, tool_panic, task_failed,
  JsonRpcResponse,
}
use intermcp.Server.State
use intermcp.Server.Steps.{Step, ◌>>◌, refused_as}
use intermcp.Server.Gates.{Gate, gates}
use intermcp.Server.Masking.{redact_tool_result}

-- The bytes of the contents that the output limit counts.
item_size : ContentItem → ℕ
item_size (text t) = len t
item_size (image bytes mime_type) = len bytes
item_size (resource r) = len r.text

unfoldable pub total_output_bytes : List ContentItem → ℕ
unfolding item_size
total_output_bytes [] = 0
total_output_bytes (i ∷ is) = item_size i + total_output_bytes is

abbrev pub or_default : Result Text FastMcpError → Text
or_default (ok h) = h
or_default (err e) = []

module _ (host : Host) where
  unfoldable pub refusal_value : Refusal → Value
  refusal_value r = result_value (error_result (host.display r))

  unfoldable pub body_of : Server × Result Value Refusal → Server × Body
  body_of (s, ok v) = (s, State.result v)
  body_of (s, err r) = (s, State.result (refusal_value r))

module _ (host : Host) (around : Surroundings) (name : Text) (arguments : Value) where
  unfoldable pub output_with : Option PolicyEngine → CallToolResult → Gate
  output_with none r s = (s, ok tt)
  output_with (some e) r s =
      let (e', verdict) = check_output_size (total_output_bytes r.content) e in
      (record s { policy_engine = some e' }, refused_as policy verdict)

  unfoldable pub output_gate : CallToolResult → Gate
  output_gate r s = output_with s.policy_engine r s

  -- The loop over the texts of the result.
  unfoldable pub record_texts : List ContentItem → Step GuardrailPolicy (Unit {0})
  record_texts [] p = (p, ok tt)
  record_texts (text t ∷ is) p =
      let (p', verdict) = record_output around.output_time t p in
      elim verdict [ ok u ↦ record_texts is p' | err e ↦ (p', err (State.failed e)) ]
  record_texts (image bytes mime_type ∷ is) p = record_texts is p
  record_texts (resource r ∷ is) p = record_texts is p

  unfoldable pub budget_with : Option GuardrailPolicy → CallToolResult → Gate
  budget_with none r s = (s, ok tt)
  budget_with (some p) r s =
      let (p', verdict) = record_texts r.content p in (record s { guardrail = some p' }, verdict)

  unfoldable pub budget_gate : CallToolResult → Gate
  budget_gate r s = budget_with s.guardrail r s

  unfoldable pub logged : Value → Option SmacLogger → Option SmacLogger
  logged json_res none = none
  logged json_res (some l) = some (
      log host.sha256_hex host.print_entry host.hash_value around.log_millis name arguments json_res
        l)

  unfoldable pub execution : Tool → Text → ReceiptStatus → Value → Execution
  execution tool session_id status output = record {
    now = around.receipt_time;
    session_id = session_id;
    tool_name = name;
    schema_hash =
        or_default
          (hash_canonical_json host.sha256 host.hex host.canonicalize_json tool.input_schema);
    input_args = arguments;
    output_res = output;
    duration_us = around.duration_us;
    status = status;
  }

  unfoldable pub receipted : Execution → Option ReceiptBook → Option ReceiptBook
  receipted x none = none
  receipted x (some b) =
      some
        (record_execution host.sha256 host.hex host.canonicalize_json host.receipt_value
          host.print_receipt x b).0

  unfoldable pub stored : Tool → Value → Option ToolCache → Option ToolCache
  stored tool json_res none = none
  stored tool json_res (some c) =
      if tool.is_cacheable
      then some (Cache.set host.json_text around.store_time name arguments json_res none c)
      else some c

  -- The end of a successful run: log, receipt and cache.
  unfoldable pub record_success : Tool → Value → Server → Server
  record_success tool json_res s = record s {
    smac = logged json_res s.smac;
    receipt_book = receipted (execution tool s.session_id success json_res) s.receipt_book;
    cache = stored tool json_res s.cache;
  }

  unfoldable pub conclude : Tool → CallToolResult → Step Server Value
  conclude tool r s = let json_res = result_value r in (record_success tool json_res s, ok json_res)

  -- The result of the tool is sized, masked, charged to the budget, and recorded.
  unfoldable pub complete : Tool → CallToolResult → Step Server Value
  complete tool r s =
      let masked = redact_tool_result host s.secret_env_names r in
      (do output_gate r; budget_gate masked; conclude tool masked) s

  unfoldable pub record_failure : Tool → FastMcpError → Server → Server
  record_failure tool e s = record s {
    receipt_book =
        receipted (execution tool s.session_id tool_error (refusal_value host (State.failed e)))
          s.receipt_book;
  }

  -- The end of the task.
  unfoldable pub finish : Tool → Outcome → Server → Server × Body
  finish tool cancelled s = (s, failure server_error request_cancelled none)
  finish tool panicked s = (s, failure internal_error tool_panic none)
  finish tool (task_failure e) s = (s, failure server_error (task_failed e) none)
  finish tool (finished (ok r)) s = body_of host (complete tool r s)
  finish tool (finished (err e)) s =
      (record_failure tool e s, State.result (refusal_value host (State.failed e)))

  module _ (key : Text) where
    -- The token of the request stands in the map while the tool runs.
    unfoldable pub execute : Tool → Server → Server × Body
    execute tool s =
        let running =
          around.while_running (record s { cancellations = insert key false s.cancellations }) in
        finish tool around.outcome
          (record running { cancellations = remove key running.cancellations })

    unfoldable pub cached : Tool → ToolCache × Option Value → Server → Server × Body
    cached tool (c, some v) s = (record s { cache = some c }, State.result v)
    cached tool (c, none) s = execute tool (record s { cache = some c })

    unfoldable pub serve_with : Tool → Option ToolCache → Server → Server × Body
    serve_with tool none s = execute tool s
    serve_with tool (some c) s =
        cached tool (Cache.get host.json_text around.cache_time name arguments c) s

    unfoldable pub serve : Tool → Server → Server × Body
    serve tool s = if tool.is_cacheable then serve_with tool s.cache s else execute tool s

    unfoldable pub dispatch_with : Option Tool → Server → Server × Body
    dispatch_with none s = (s, failure invalid_params (unknown_tool name) none)
    dispatch_with (some tool) s = serve tool s

    unfoldable pub after_gates : Server × Result (Unit {0}) Refusal → Server × Body
    after_gates (s, ok u) = dispatch_with (lookup name s.tools) s
    after_gates (s, err r) = (s, State.result (refusal_value host r))

    unfoldable pub call_tool : Server → Server × Body
    call_tool s = after_gates (gates host around name arguments s)
