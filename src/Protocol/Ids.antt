-- ===== src/Protocol/Ids.antt =====
-- src/protocol.rs: the version, identifiers and requests.
use intermcp.Prelude.{
  ℕ, Text, codes, Bool, true, false, Option, none, some, List, [], ◌∷◌, ◌==◌, text_is_eq, any, leb,
  ◌^◌, ◌-◌, to_string, if◌then◌else◌,
}
use intermcp.Error.{Result, ok, err}
use intermcp.Json.{Value}

abbrev pub latest_protocol_version : Text
latest_protocol_version = codes "2024-11-05"

abbrev pub supported_protocol_versions : List Text
supported_protocol_versions = codes "2024-11-05" ∷ []

pub data ProtocolNegotiationError : Type 0 where
  missing_client_version : ProtocolNegotiationError
  unsupported_client_version : (client : Text) → (supported : List Text) → ProtocolNegotiationError

unfoldable pub negotiate_protocol_version : Option Text → Result Text ProtocolNegotiationError
negotiate_protocol_version none = err missing_client_version
negotiate_protocol_version (some version) =
    if any (λ v. v == version) supported_protocol_versions
    then ok version
    else err (unsupported_client_version version supported_protocol_versions)

-- An `i64` stands as its sign and its absolute value.
pub data RequestId : Type 0 where
  number : (negative : Bool) → ℕ → RequestId
  string : Text → RequestId
  null : RequestId

-- `n.to_string()` on an `i64`
unfoldable pub signed_text : Bool → ℕ → Text
signed_text true n = b'-' ∷ to_string n
signed_text false n = to_string n

unfoldable pub to_string_key : RequestId → Text
unfolding signed_text
to_string_key (RequestId.number negative n) = signed_text negative n
to_string_key (RequestId.string s) = s
to_string_key RequestId.null = codes "null"

unfoldable pub to_value : RequestId → Value
unfolding signed_text
to_value (RequestId.number negative n) = Value.number (signed_text negative n)
to_value (RequestId.string s) = Value.string s
to_value RequestId.null = Value.null

-- `RequestId::from` on a `u64`: a number beyond `i64` is kept as its text.
unfoldable pub from_u64 : ℕ → RequestId
from_u64 n = if leb n (2 ^ 63 - 1) then RequestId.number false n else RequestId.string (to_string n)

pub record JsonRpcRequest : Type 0 where
  pub jsonrpc : Text
  pub id : Option RequestId
  pub method : Text
  pub params : Option Value
