-- ===== src/Protocol/Results.antt =====
-- src/protocol.rs: results and definitions, with their JSON. The keys of an object stand in the order
-- of the map, which is theirs in the alphabet.
use intermcp.Prelude.{Text, codes, Bool, true, false, Option, none, some, List, [], ◌∷◌, text_is_eq}
use intermcp.Json.{Value, bool, string, array, object, Items, nil, cons, Fields, end, field}

-- The codes -32600, -32601, -32602, -32603, -32700 and -32000.
pub data ErrorCode : Type 0 where
  invalid_request method_not_found invalid_params internal_error : ErrorCode
  parse_error server_error : ErrorCode

pub record ResourceContent : Type 0 where
  pub uri : Text
  pub mime_type : Option Text
  pub text : Text

pub data ContentItem : Type 0 where
  text : Text → ContentItem
  image : (bytes mime_type : Text) → ContentItem
  resource : ResourceContent → ContentItem

pub record CallToolResult : Type 0 where
  pub content : List ContentItem
  pub is_error : Bool

abbrev pub text_result : Text → CallToolResult
text_result t = record { content = text t ∷ []; is_error = false }

abbrev pub error_result : Text → CallToolResult
error_result message = record { content = text message ∷ []; is_error = true }

-- The derived `Serialize`. The name of a variant is renamed, and the name of its fields is not.
mime_field : Option Text → Fields → Fields
mime_field none rest = rest
mime_field (some m) rest = field (codes "mimeType") (string m) rest

item_value : ContentItem → Value
unfolding mime_field
item_value (text t) =
    object (field (codes "text") (string t) (field (codes "type") (string (codes "text")) end))
item_value (image bytes mime_type) = object (
    field (codes "data") (string bytes) (
      field (codes "mime_type") (string mime_type)
        (field (codes "type") (string (codes "image")) end)))
item_value (resource r) = object (
    field (codes "resource")
      (object (
        mime_field r.mime_type
          (field (codes "text") (string r.text) (field (codes "uri") (string r.uri) end))))
      (field (codes "type") (string (codes "resource")) end))

item_values : List ContentItem → Items
unfolding item_value
item_values [] = nil
item_values (i ∷ is) = cons (item_value i) (item_values is)

unfoldable pub result_value : CallToolResult → Value
unfolding item_values
result_value r = object (
    field (codes "content") (array (item_values r.content))
      (field (codes "isError") (bool r.is_error) end))

pub record ToolDefinition : Type 0 where
  pub name : Text
  pub description : Text
  pub input_schema : Value

unfoldable pub definition_value : ToolDefinition → Value
definition_value d = object (
    field (codes "description") (string d.description)
      (field (codes "inputSchema") d.input_schema (field (codes "name") (string d.name) end)))
