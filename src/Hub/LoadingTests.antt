-- ===== src/Hub/LoadingTests.antt =====
-- Instances for the registration of upstream tools (src/hub.rs).
use intermcp.Prelude.{
  text_eq, ends_with, ◌≡◌, refl, codes, Text, [], ◌∷◌, none, some, All, contains, starts_with,
}
use intermcp.Error.{ok}
use intermcp.Json.{empty_object}
use intermcp.Hub.Firewall.{ToolDefinition}
use intermcp.Hub.Loading.{UpstreamServer, ProxiedTool, load_hub_tools_with_firewall}
use intermcp.Hub.Loading.Names.{AreDistinct, names, IsNamed, load-IsNamed}
use intermcp.Hub.FirewallTests.{digest, canonical, json}

abbrev definition : Text → ToolDefinition
definition name = record { name = name; description = codes "d"; input_schema = empty_object }

abbrev server : UpstreamServer
server = record {
  name = codes "fs";
  expected_description_hash = none;
  expected_schema_hash = none;
  tools =
      some
        (definition (codes "read") ∷ definition (codes "_hidden") ∷ definition (codes "read") ∷ []);
}

abbrev read_tool : ProxiedTool
read_tool = record {
  upstream_name = codes "fs";
  original_tool_name = codes "read";
  prefixed_name = codes "fs__read";
  description = codes "d";
  input_schema = empty_object;
}

-- The hidden tool and the second `read` are skipped.
one_loaded :
    load_hub_tools_with_firewall digest canonical json (server ∷ []) none
    ≡ (none, ok (read_tool ∷ []))
unfolding load_hub_tools_with_firewall contains starts_with ends_with text_eq
one_loaded = refl

load-IsNamed_example : AreDistinct (names (read_tool ∷ [])) × All IsNamed (read_tool ∷ [])
load-IsNamed_example =
    load-IsNamed digest canonical json (server ∷ []) none none (read_tool ∷ []) one_loaded
