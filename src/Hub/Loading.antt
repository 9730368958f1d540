-- ===== src/Hub/Loading.antt =====
-- src/hub.rs: the registration of the upstream tools under prefixed names. What the spawn of an
-- upstream and its `tools/list` give is a parameter of each server: none when either fails.
pub mod Names
use intermcp.Prelude.{
  ℕ, Text, codes, Bool, true, false, Option, none, some, List, [], ◌∷◌, ◌++◌, ◌||◌, text_is_eq,
  if◌then◌else◌, contains, starts_with, ends_with,
}
use intermcp.Error.{Result, ok, err, FastMcpError, security_violation, invalid_upstream_name}
use intermcp.Json.{Value}
use intermcp.Hub.Firewall.{
  ToolDefinition, PinnedToolContract, SupplyChainFirewall, member, verify_and_pin, contract_key,
}

pub record UpstreamServer : Type 0 where
  pub name : Text
  pub expected_description_hash : Option Text
  pub expected_schema_hash : Option Text
  pub tools : Option (List ToolDefinition)

pub record ProxiedTool : Type 0 where
  pub upstream_name : Text
  pub original_tool_name : Text
  pub prefixed_name : Text
  pub description : Text
  pub input_schema : Value

-- What the loops hold.
pub record Loaded : Type 0 where
  pub firewall : Option SupplyChainFirewall
  pub registered_names : List Text
  pub all_tools : List ProxiedTool

abbrev pub is_invalid_upstream : Text → Bool
is_invalid_upstream name =
    contains name (codes "__") || starts_with name (codes "_") || ends_with name (codes "_")

abbrev pub is_invalid_tool : Text → Bool
is_invalid_tool name = contains name (codes "__") || starts_with name (codes "_")

unfoldable pub register : UpstreamServer → ToolDefinition → Loaded → Loaded
register server tool l = record l {
  registered_names = contract_key server.name tool.name ∷ l.registered_names;
  all_tools =
      l.all_tools
      ++ (record {
        upstream_name = server.name;
        original_tool_name = tool.name;
        prefixed_name = contract_key server.name tool.name;
        description = tool.description;
        input_schema = tool.input_schema;
      })
        ∷ [];
}

-- `?`: an error ends the load.
abbrev pub and_then :
    Loaded × Result (Unit {0}) FastMcpError
    → (Loaded → Loaded × Result (Unit {0}) FastMcpError)
    → Loaded × Result (Unit {0}) FastMcpError
and_then (l, ok _) f = f l
and_then (l, err e) f = (l, err e)

abbrev pub finish :
    Loaded × Result (Unit {0}) FastMcpError
    → Option SupplyChainFirewall × Result (List ProxiedTool) FastMcpError
finish (l, ok _) = (l.firewall, ok l.all_tools)
finish (l, err e) = (l.firewall, err e)

module _ (sha256 : List ℕ → Text) (hash_canonical_json : Value → Option Text)
    (json_bytes : Value → List ℕ) where
  -- `all_tools` and the firewall of the state go on; an error ends the load.
  after_verify :
      UpstreamServer
      → ToolDefinition
      → Loaded
      → SupplyChainFirewall × Result PinnedToolContract FastMcpError
      → Loaded × Result (Unit {0}) FastMcpError
  unfolding register
  after_verify server tool l (fw, ok c) =
      (register server tool (record l { firewall = some fw }), ok tt)
  after_verify server tool l (fw, err e) = (record l { firewall = some fw }, err e)

  -- The firewall, if there is one, and the registration.
  admit_tool :
      UpstreamServer
      → ToolDefinition
      → Loaded
      → Option SupplyChainFirewall
      → Loaded × Result (Unit {0}) FastMcpError
  unfolding after_verify register
  admit_tool server tool l none = (register server tool l, ok tt)
  admit_tool server tool l (some fw) = after_verify server tool l (
      verify_and_pin sha256 hash_canonical_json json_bytes server.name tool
        server.expected_description_hash server.expected_schema_hash fw)

  unfoldable pub load_tool :
      UpstreamServer → ToolDefinition → Loaded → Loaded × Result (Unit {0}) FastMcpError
  unfolding admit_tool
  load_tool server tool l =
      if is_invalid_tool tool.name
      then (l, ok tt)
      else if member (contract_key server.name tool.name) l.registered_names
      then (l, ok tt)
      else admit_tool server tool l l.firewall

  unfoldable pub load_tools :
      UpstreamServer → List ToolDefinition → Loaded → Loaded × Result (Unit {0}) FastMcpError
  unfolding load_tool
  load_tools server [] l = (l, ok tt)
  load_tools server (tool ∷ tools) l =
      and_then (load_tool server tool l) (λ l'. load_tools server tools l')

  load_listed :
      UpstreamServer
      → Option (List ToolDefinition)
      → Loaded
      → Loaded × Result (Unit {0}) FastMcpError
  unfolding load_tools
  load_listed server none l = (l, ok tt)
  load_listed server (some tools) l = load_tools server tools l

  -- One turn of the loop over the servers.
  unfoldable pub load_server : UpstreamServer → Loaded → Loaded × Result (Unit {0}) FastMcpError
  unfolding load_listed
  load_server server l =
      if is_invalid_upstream server.name
      then (l, err (security_violation (invalid_upstream_name server.name)))
      else load_listed server server.tools l

  unfoldable pub load_servers :
      List UpstreamServer → Loaded → Loaded × Result (Unit {0}) FastMcpError
  unfolding load_server
  load_servers [] l = (l, ok tt)
  load_servers (server ∷ servers) l =
      and_then (load_server server l) (λ l'. load_servers servers l')

  -- The firewall is shared, and keeps what it has learnt when the load fails.
  unfoldable pub load_hub_tools_with_firewall :
      List UpstreamServer
      → Option SupplyChainFirewall
      → Option SupplyChainFirewall × Result (List ProxiedTool) FastMcpError
  unfolding load_servers
  load_hub_tools_with_firewall servers firewall =
      finish (
        load_servers servers
          (record { firewall = firewall; registered_names = []; all_tools = [] }))
