-- ===== src/Hub/FirewallTests.antt =====
-- Instances for the supply-chain firewall of src/hub.rs, with a digest that keeps its bytes.
use intermcp.Prelude.{
  insert, encode, as_bytes, text_eq, ℕ, ◌≡◌, refl, codes, Text, List, [], ◌∷◌, Option, none, some,
  arith, ◌&&◌, false, lookup, text_is_eq,
}
use intermcp.Hub.Firewall.{
  compute_hashes, ToolDefinition, PinnedToolContract, SupplyChainFirewall, new, verify_and_pin,
  veto, contract_key, is_none, is_quarantined,
}
use intermcp.Error.{ok, err, security_violation, execution_vetoed, is_ok}
use intermcp.Json.{Value, empty_object}
use intermcp.Hub.Firewall.Contracts.{Matches, Drifts}
use intermcp.Hub.Firewall.Pinning.{
  verifies, quarantines, use_all, hashes, verify_and_pin-ok, refused_upstream_vetoed,
  drifted_tool_refused,
}

abbrev pub digest : List ℕ → Text
digest x = x

abbrev pub canonical : Value → Option Text
canonical v = none

abbrev pub json : Value → List ℕ
json v = codes "json"

abbrev upstream : Text
upstream = codes "files"

abbrev tool : ToolDefinition
tool = record { name = codes "read"; description = codes "d"; input_schema = empty_object }

abbrev contract : PinnedToolContract
contract = record {
  upstream_name = upstream;
  tool_name = codes "read";
  description_hash = codes "d";
  schema_hash = codes "json";
}

abbrev pinned : SupplyChainFirewall
pinned = record {
  pinned_contracts = (contract_key upstream (codes "read"), contract) ∷ [];
  quarantined_upstreams = [];
  quarantine_file = none;
}

first_is_pinned :
    verify_and_pin digest canonical json upstream tool (some (codes "d")) none new
    ≡ (pinned, ok contract)
unfolding verify_and_pin new is_quarantined compute_hashes as_bytes encode lookup insert text_eq
first_is_pinned = refl

verify_and_pin-ok_example :
    (is_quarantined upstream pinned ≡ false)
    × ((is_none (some (codes "d")) && is_none none) ≡ false)
    × Matches (some (codes "d")) (hashes digest canonical json tool).0
    × Matches none (hashes digest canonical json tool).1
    × (lookup (contract_key upstream tool.name) pinned.pinned_contracts ≡ some contract)
    × (contract.description_hash ≡ (hashes digest canonical json tool).0)
    × (contract.schema_hash ≡ (hashes digest canonical json tool).1)
verify_and_pin-ok_example =
    verify_and_pin-ok digest canonical json upstream tool (some (codes "d")) none new pinned
      contract first_is_pinned

wrong_hash_refused :
    is_ok (verify_and_pin digest canonical json upstream tool (some (codes "x")) none pinned).1
    ≡ false
unfolding verify_and_pin is_quarantined compute_hashes as_bytes encode text_eq
wrong_hash_refused = refl

refused_upstream_vetoed_example :
    veto upstream (
      some (
        use_all digest canonical json
          (quarantines (codes "other") ∷ verifies upstream tool none none ∷ [])
          (verify_and_pin digest canonical json upstream tool (some (codes "x")) none pinned).0))
    ≡ err (security_violation (execution_vetoed upstream))
refused_upstream_vetoed_example =
    refused_upstream_vetoed digest canonical json upstream tool (some (codes "x")) none pinned
      (quarantines (codes "other") ∷ verifies upstream tool none none ∷ []) refl wrong_hash_refused

abbrev changed : ToolDefinition
changed = record { name = codes "read"; description = codes "e"; input_schema = empty_object }

pinned_before : lookup (contract_key upstream changed.name) pinned.pinned_contracts ≡ some contract
unfolding lookup text_eq
pinned_before = refl

changed-Drifts : Drifts (hashes digest canonical json changed) contract
unfolding compute_hashes as_bytes encode
changed-Drifts h = ground (arith, h.0)

drifted_tool_refused_example :
    is_ok (verify_and_pin digest canonical json upstream changed (some (codes "e")) none pinned).1
    ≡ false
drifted_tool_refused_example =
    drifted_tool_refused digest canonical json upstream changed (some (codes "e")) none pinned
      contract pinned_before changed-Drifts
