-- ===== src/Hub/Firewall.antt =====
-- src/hub.rs: the supply-chain firewall. The file that keeps the quarantine is the text set that is
-- written to it; a write is taken to succeed. SHA-256 in hexadecimal, the hash of canonical JSON and
-- the JSON printer come from libraries and are parameters.
pub mod Contracts
pub mod Pinning
use intermcp.Prelude.{
  ℕ, Text, codes, Bool, true, false, Option, none, some, List, [], ◌∷◌, ◌++◌, ◌==◌, text_is_eq, not,
  ◌&&◌, ◌||◌, if◌then◌else◌, any, HashMap, lookup, insert, as_bytes, map,
}
use intermcp.Error.{
  Result, ok, err, FastMcpError, security_violation, upstream_quarantined, refusing_tofu,
  description_drift, schema_drift, contract_drift, execution_vetoed,
}
use intermcp.Json.{Value}

-- protocol.rs.
pub record ToolDefinition : Type 0 where
  pub name : Text
  pub description : Text
  pub input_schema : Value

pub record PinnedToolContract : Type 0 where
  pub upstream_name : Text
  pub tool_name : Text
  pub description_hash : Text
  pub schema_hash : Text

pub record SupplyChainFirewall : Type 0 where
  pub pinned_contracts : HashMap Text PinnedToolContract
  pub quarantined_upstreams : List Text
  pub quarantine_file : Option (List Text)

unfoldable pub new : SupplyChainFirewall
new = record { pinned_contracts = []; quarantined_upstreams = []; quarantine_file = none }

-- `HashSet` as a list.
abbrev pub member : Text → List Text → Bool
member x s = any (λ y. y == x) s

abbrev pub insert_member : Text → List Text → List Text
insert_member x s = if member x s then s else x ∷ s

abbrev pub extend : List Text → List Text → List Text
extend s [] = s
extend s (x ∷ xs) = extend (insert_member x s) xs

load_quarantine : Option (List Text) → List Text → List Text
load_quarantine none s = s
load_quarantine (some loaded) s = extend s loaded

abbrev or_empty : Option (List Text) → List Text
or_empty none = []
or_empty (some s) = s

-- `loaded` is what the file holds, if it is there and is read as a set. The file is then as it was.
unfoldable pub with_quarantine_path : Option (List Text) → SupplyChainFirewall → SupplyChainFirewall
unfolding load_quarantine
with_quarantine_path loaded fw = record fw {
  quarantined_upstreams = load_quarantine loaded fw.quarantined_upstreams;
  quarantine_file = some (or_empty loaded);
}

persist : Option (List Text) → List Text → Option (List Text)
persist none s = none
persist (some old) s = some s

unfoldable pub persist_quarantine : SupplyChainFirewall → SupplyChainFirewall
unfolding persist
persist_quarantine fw = record fw {
  quarantine_file = persist fw.quarantine_file fw.quarantined_upstreams;
}

unfoldable pub is_quarantined : Text → SupplyChainFirewall → Bool
is_quarantined upstream_name fw = member upstream_name fw.quarantined_upstreams

unfoldable pub quarantine : Text → SupplyChainFirewall → SupplyChainFirewall
unfolding persist_quarantine
quarantine upstream_name fw =
    persist_quarantine
      (record fw { quarantined_upstreams = insert_member upstream_name fw.quarantined_upstreams })

unfoldable pub list_contracts : SupplyChainFirewall → List PinnedToolContract
list_contracts fw = map (λ e. e.1) fw.pinned_contracts

abbrev pub is_none : Option Text → Bool
is_none none = true
is_none (some x) = false

-- `expected` is given and is another hash.
abbrev pub differs : Option Text → Text → Bool
differs none hash = false
differs (some expected) hash = not (expected == hash)

-- `format!("{}__{}", upstream_name, tool.name)`
abbrev pub contract_key : Text → Text → Text
contract_key upstream_name tool_name = upstream_name ++ (codes "__" ++ tool_name)

unfoldable pub drift :
    FastMcpError
    → Text
    → SupplyChainFirewall
    → SupplyChainFirewall × Result PinnedToolContract FastMcpError
unfolding quarantine
drift e upstream_name fw = (quarantine upstream_name fw, err e)

-- The comparison with the pinned contract, or its first pinning.
pub pin :
    Text
    → ToolDefinition
    → Text × Text
    → Option PinnedToolContract
    → SupplyChainFirewall
    → SupplyChainFirewall × Result PinnedToolContract FastMcpError
unfolding drift
pin upstream_name tool (desc_hash, schema_hash) (some existing) fw =
    if not (existing.description_hash == desc_hash) || not (existing.schema_hash == schema_hash)
    then drift (security_violation (contract_drift upstream_name tool.name)) upstream_name fw
    else (fw, ok existing)
pin upstream_name tool (desc_hash, schema_hash) none fw =
    let contract : PinnedToolContract = record {
      upstream_name = upstream_name;
      tool_name = tool.name;
      description_hash = desc_hash;
      schema_hash = schema_hash;
    } in
    (
      record fw {
        pinned_contracts =
            insert (contract_key upstream_name tool.name) contract fw.pinned_contracts;
      },
      ok contract,
    )

-- From the two expected hashes on.
pub check_hashes :
    Text
    → ToolDefinition
    → Option Text
    → Option Text
    → Text × Text
    → SupplyChainFirewall
    → SupplyChainFirewall × Result PinnedToolContract FastMcpError
unfolding pin drift
check_hashes upstream_name tool expected_desc expected_schema hashes fw =
    if differs expected_desc hashes.0
    then drift (security_violation (description_drift upstream_name tool.name)) upstream_name fw
    else if differs expected_schema hashes.1
    then drift (security_violation (schema_drift upstream_name tool.name)) upstream_name fw
    else pin upstream_name tool hashes
        (lookup (contract_key upstream_name tool.name) fw.pinned_contracts) fw

module _ (sha256 : List ℕ → Text) (hash_canonical_json : Value → Option Text)
    (json_bytes : Value → List ℕ) where
  schema_hash_of : Value → Option Text → Text
  schema_hash_of schema (some h) = h
  schema_hash_of schema none = sha256 (json_bytes schema)

  unfoldable pub compute_hashes : Text → Value → Text × Text
  unfolding schema_hash_of
  compute_hashes desc schema =
      (sha256 (as_bytes desc), schema_hash_of schema (hash_canonical_json schema))

  unfoldable pub verify_and_pin :
      Text
      → ToolDefinition
      → Option Text
      → Option Text
      → SupplyChainFirewall
      → SupplyChainFirewall × Result PinnedToolContract FastMcpError
  unfolding check_hashes compute_hashes is_quarantined
  verify_and_pin upstream_name tool expected_desc expected_schema fw =
      if is_quarantined upstream_name fw
      then (fw, err (security_violation (upstream_quarantined upstream_name)))
      else if is_none expected_desc && is_none expected_schema
      then (fw, err (security_violation refusing_tofu))
      else check_hashes upstream_name tool expected_desc expected_schema
          (compute_hashes tool.description tool.input_schema) fw

-- The veto at the head of `ProxiedTool::execute`; then the upstream is called.
unfoldable pub veto : Text → Option SupplyChainFirewall → Result (Unit {0}) FastMcpError
unfolding is_quarantined
veto upstream_name none = ok tt
veto upstream_name (some fw) =
    if is_quarantined upstream_name fw
    then err (security_violation (execution_vetoed upstream_name))
    else ok tt
