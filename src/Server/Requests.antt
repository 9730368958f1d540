-- ===== src/Server/Requests.antt =====
-- src/server.rs: `handle_request`, method by method.
use intermcp.Prelude.{
  ℕ, Text, codes, true, false, not, ◌||◌, Option, none, some, List, [], ◌∷◌, ◌++◌, ◌==◌, text_is_eq,
  lookup, insert, contains, length, to_string, if◌then◌else◌, HashMap,
}
use intermcp.Error.{Result, ok, err}
use intermcp.Json.{
  Value, null, bool, number, string, array, object, Items, nil, cons, end, field, get, empty_object,
}
use intermcp.Guardrails
use intermcp.Guardrails.{GuardrailPolicy}
use intermcp.Protocol.Ids.{
  RequestId, JsonRpcRequest, to_value, to_string_key, negotiate_protocol_version,
  ProtocolNegotiationError, supported_protocol_versions,
}
use intermcp.Protocol.Results.{
  definition_value, invalid_request, invalid_params, method_not_found, server_error,
}
use intermcp.Server.State
use intermcp.Server.State.{
  Server, Host, Tool, Surroundings, Body, result, failure, Failure, JsonRpcResponse, bad_jsonrpc,
  bad_request_id, missing_request_id, missing_tool_name, missing_uri, missing_prompt_name,
  unsupported_version, unknown_method, unknown_resource, unknown_prompt, read_failed,
  retrieval_failed, list_tool_definitions,
}
use intermcp.Server.Gates.{text_at, unwrap_or}
use intermcp.Server.Execution.{call_tool}

abbrev pub Answer : Type 0
Answer = Server × Option JsonRpcResponse

abbrev pub no_id : Failure → Server → Answer
no_id f s = (s, some (record { id = null; body = failure invalid_request f none }))

-- `token.cancel()`, if there is a token.
unfoldable pub cancel : Text → Server → Server
cancel key s = elim (lookup key s.cancellations) [
  | none ↦ s
  | some t ↦ record s { cancellations = insert key true s.cancellations }
]

unfoldable pub cancel_target : Option Value → Server → Answer
cancel_target none s = no_id missing_request_id s
cancel_target (some (string k)) s = (cancel k s, none)
cancel_target (some (number n)) s = (cancel n s, none)
cancel_target (some null) s = no_id bad_request_id s
cancel_target (some (bool b)) s = no_id bad_request_id s
cancel_target (some (array vs)) s = no_id bad_request_id s
cancel_target (some (object fs)) s = no_id bad_request_id s

abbrev pub reset_guardrail : Option GuardrailPolicy → Option GuardrailPolicy
reset_guardrail none = none
reset_guardrail (some p) = some (Guardrails.reset p)

abbrev pub cancelled_params : Option Value → Server → Answer
cancelled_params none s = (s, none)
cancelled_params (some params) s = cancel_target (get (codes "requestId") params) s

-- A request without an identifier is a notification.
unfoldable pub handle_notification : Text → Option Value → Server → Answer
handle_notification method params s =
    if method == codes "notifications/cancelled"
    then cancelled_params params s
    else if method == codes "shutdown"
    then (record s { guardrail = reset_guardrail s.guardrail }, none)
    else (s, none)

unfoldable pub text_values : List Text → Items
text_values [] = nil
text_values (t ∷ ts) = cons (string t) (text_values ts)

abbrev pub capability : Value
capability = object (field (codes "listChanged") (bool false) end)

-- `InitializeResult`
unfoldable pub initialize_result : Text → Server → Value
initialize_result version s = object (
    field (codes "capabilities")
      (object (
        field (codes "prompts") capability
          (field (codes "resources") capability (field (codes "tools") capability end))))
      (field (codes "protocolVersion") (string version) (
        field (codes "serverInfo")
          (object
            (field (codes "name") (string s.name) (field (codes "version") (string s.version) end)))
          end)))

unfoldable pub negotiated : Result Text ProtocolNegotiationError → Server → Body
unfolding initialize_result text_values
negotiated (ok version) s = result (initialize_result version s)
negotiated (err e) s = failure invalid_params (unsupported_version e) (
    some (
      object (
        field (codes "supportedProtocolVersions") (array (text_values supported_protocol_versions))
          end)))

abbrev pub param_text : Text → Option Value → Option Text
param_text key none = none
param_text key (some params) = text_at key params

abbrev pub or_null : Option Value → Value
or_null none = null
or_null (some params) = params

unfoldable pub log_level_of : Text → ℕ
log_level_of level =
    if level == codes "error"
    then 0
    else if level == codes "warn"
    then 1
    else if level == codes "info"
    then 2
    else if level == codes "debug"
    then 3
    else if level == codes "trace"
    then 4
    else 2

-- The names that contain the query, of tools also by their description.
unfoldable pub matching_tools : Text → HashMap Text Tool → List Text
matching_tools query [] = []
matching_tools query ((name, tool) ∷ tools) =
    let rest = matching_tools query tools in
    if contains name query || contains tool.description query then name ∷ rest else rest

unfoldable pub matching_keys : Text → HashMap Text Value → List Text
matching_keys query [] = []
matching_keys query ((name, v) ∷ m) =
    let rest = matching_keys query m in if contains name query then name ∷ rest else rest

unfoldable pub completions : Text → Server → List Text
completions query s =
    matching_tools query s.tools
    ++ (matching_keys query s.resources ++ matching_keys query s.prompts)

-- `params.get("argument").and_then(|a| a.get("value")).and_then(as_str)`
unfoldable pub query_of : Value → Text
query_of params = elim (get (codes "argument") params) [
  | none ↦ []
  | some a ↦ unwrap_or (text_at (codes "value") a) []
]

unfoldable pub completion_result : List Text → Value
unfolding text_values
completion_result names = object (
    field (codes "completion")
      (object (
        field (codes "hasMore") (bool false) (
          field (codes "total") (number (to_string (length names)))
            (field (codes "values") (array (text_values names)) end))))
      end)

unfoldable pub definition_values : HashMap Text Tool → Items
definition_values [] = nil
definition_values (entry ∷ tools) =
    cons (definition_value (State.definition entry.1)) (definition_values tools)

unfoldable pub entry_values : HashMap Text Value → Items
entry_values [] = nil
entry_values ((k, v) ∷ m) = cons v (entry_values m)

abbrev pub listed : Text → Items → Body
listed key vs = result (object (field key (array vs) end))

module _ (host : Host) where
  unfoldable pub read_with : Text → Option Value → Body
  read_with uri none = failure invalid_params (unknown_resource uri) none
  read_with uri (some d) = elim (host.read_resource uri) [
    | ok v ↦ result v
    | err e ↦ failure server_error (read_failed e) none
  ]

  unfoldable pub read_resource : Option Text → Server → Body
  read_resource none s = failure invalid_params missing_uri none
  read_resource (some uri) s = read_with uri (lookup uri s.resources)

  unfoldable pub prompt_with : Text → Value → Option Value → Body
  prompt_with name arguments none = failure invalid_params (unknown_prompt name) none
  prompt_with name arguments (some d) = elim (host.get_prompt name arguments) [
    | ok v ↦ result v
    | err e ↦ failure server_error (retrieval_failed e) none
  ]

  unfoldable pub get_prompt : Option Text → Value → Server → Body
  get_prompt none arguments s = failure invalid_params missing_prompt_name none
  get_prompt (some name) arguments s = prompt_with name arguments (lookup name s.prompts)

  abbrev pub arguments_of : Value → Value
  arguments_of params = elim (get (codes "arguments") params) [ none ↦ empty_object | some a ↦ a ]

  unfoldable pub call_named :
      Surroundings → RequestId → Option Text → Value → Server → Server × Body
  call_named around id none arguments s = (s, failure invalid_params missing_tool_name none)
  call_named around id (some name) arguments s =
      call_tool host around name arguments (to_string_key id) s

  unfoldable pub handle_method :
      Surroundings → RequestId → Text → Option Value → Server → Server × Body
  handle_method around id method params s =
      if method == codes "initialize"
      then (
        s,
        negotiated (negotiate_protocol_version (param_text (codes "protocolVersion") params)) s,
      )
      else if method == codes "ping"
      then (s, result empty_object)
      else if method == codes "logging/setLevel"
      then (
        record s {
          log_level =
              log_level_of
                (host.to_lowercase (unwrap_or (param_text (codes "level") params) (codes "info")));
        },
        result empty_object,
      )
      else if method == codes "completion/complete"
      then (s, result (completion_result (completions (query_of (or_null params)) s)))
      else if method == codes "tools/list"
      then (s, listed (codes "tools") (definition_values s.tools))
      else if method == codes "tools/call"
      then call_named around id (text_at (codes "name") (or_null params))
          (arguments_of (or_null params)) s
      else if method == codes "resources/list"
      then (s, listed (codes "resources") (entry_values s.resources))
      else if method == codes "resources/read"
      then (s, read_resource (text_at (codes "uri") (or_null params)) s)
      else if method == codes "prompts/list"
      then (s, listed (codes "prompts") (entry_values s.prompts))
      else if method == codes "prompts/get"
      then (
        s,
        get_prompt (text_at (codes "name") (or_null params)) (arguments_of (or_null params)) s,
      )
      else (s, failure method_not_found (unknown_method method) none)

  abbrev pub respond : RequestId → Server × Body → Answer
  respond id (s, b) = (s, some (record { id = to_value id; body = b }))

  unfoldable pub handle_identified : Surroundings → RequestId → JsonRpcRequest → Server → Answer
  handle_identified around id req s =
      if not (req.jsonrpc == codes "2.0")
      then respond id (s, failure invalid_request bad_jsonrpc none)
      else respond id (handle_method around id req.method req.params s)

  unfoldable pub handle_with : Surroundings → Option RequestId → JsonRpcRequest → Server → Answer
  handle_with around none req s = handle_notification req.method req.params s
  handle_with around (some id) req s = handle_identified around id req s

  unfoldable pub handle_request : Surroundings → JsonRpcRequest → Server → Answer
  handle_request around req s = handle_with around req.id req s
