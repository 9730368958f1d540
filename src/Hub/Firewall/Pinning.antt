-- ===== src/Hub/Firewall/Pinning.antt =====
-- What the firewall of src/hub.rs accepts, and what follows from a refusal.
use intermcp.Prelude.{
  ℕ, ◌≡◌, refl, arith, Text, true, false, Option, some, List, [], ◌∷◌, text_is_eq, ◌&&◌, lookup,
}
use intermcp.Error.{Result, ok, err, FastMcpError, security_violation, execution_vetoed, is_ok}
use intermcp.Json.{Value}
use intermcp.Hub.Firewall.{
  ToolDefinition, PinnedToolContract, SupplyChainFirewall, is_quarantined, quarantine, is_none,
  compute_hashes, contract_key, check_hashes, verify_and_pin, veto,
}
use intermcp.Hub.Firewall.Contracts.{
  Matches, expected-Matches, quarantine-stays, pin-ok, Drifts, check_hashes-ok,
  check_hashes-refused, check_hashes-stays, vetoed, check_hashes-drifted,
}

pub data Use : Type 0 where
  verifies : Text → ToolDefinition → (expected_desc expected_schema : Option Text) → Use
  quarantines : Text → Use

module _ (sha256 : List ℕ → Text) (hash_canonical_json : Value → Option Text)
    (json_bytes : Value → List ℕ) where
  abbrev verify :
      Text
      → ToolDefinition
      → Option Text
      → Option Text
      → SupplyChainFirewall
      → SupplyChainFirewall × Result PinnedToolContract FastMcpError
  verify = verify_and_pin sha256 hash_canonical_json json_bytes

  abbrev pub hashes : ToolDefinition → Text × Text
  hashes tool =
      compute_hashes sha256 hash_canonical_json json_bytes tool.description tool.input_schema

  verify-stays :
      (u v : Text) (tool : ToolDefinition) (ed es : Option Text) (fw : SupplyChainFirewall)
      → is_quarantined u fw ≡ true
      → is_quarantined u (verify v tool ed es fw).0 ≡ true
  unfolding verify_and_pin
  verify-stays u v tool ed es fw h =
      ground (arith, check_hashes-stays u v tool ed es (hashes tool) fw h)

  verify-refused :
      (u : Text) (tool : ToolDefinition) (ed es : Option Text) (fw : SupplyChainFirewall)
      → (is_none ed && is_none es) ≡ false
      → is_ok (verify u tool ed es fw).1 ≡ false
      → is_quarantined u (verify u tool ed es fw).0 ≡ true
  unfolding verify_and_pin
  verify-refused u tool ed es fw given h =
      ground (arith, check_hashes-refused u tool ed es (hashes tool) fw)

  verify_gates :
      (u : Text) (tool : ToolDefinition) (ed es : Option Text) (fw fw' : SupplyChainFirewall)
      (c : PinnedToolContract)
      → verify u tool ed es fw ≡ (fw', ok c)
      → (is_quarantined u fw ≡ false)
        × ((is_none ed && is_none es) ≡ false)
        × (check_hashes u tool ed es (hashes tool) fw ≡ (fw', ok c))
  unfolding verify_and_pin
  verify_gates u tool ed es fw fw' c h = (ground arith, ground arith, ground arith)

  -- A definition that `verify_and_pin` accepts comes from an upstream that is not quarantined, with
  -- an expected hash at least; each expected hash is the computed one; the contract that is
  -- returned stands under the key of the tool, with the computed hashes.
  pub verify_and_pin-ok :
      (u : Text) (tool : ToolDefinition) (ed es : Option Text) (fw fw' : SupplyChainFirewall)
      (c : PinnedToolContract)
      → verify_and_pin sha256 hash_canonical_json json_bytes u tool ed es fw ≡ (fw', ok c)
      → (is_quarantined u fw' ≡ false)
        × ((is_none ed && is_none es) ≡ false)
        × Matches ed (hashes tool).0
        × Matches es (hashes tool).1
        × (lookup (contract_key u tool.name) fw'.pinned_contracts ≡ some c)
        × (c.description_hash ≡ (hashes tool).0)
        × (c.schema_hash ≡ (hashes tool).1)
  verify_and_pin-ok u tool ed es fw fw' c h =
      let key = contract_key u tool.name in
      let (free, given, checked) = verify_gates u tool ed es fw fw' c h in
      let (desc, schema, pinned) = check_hashes-ok u tool ed es (hashes tool) fw fw' c checked in
      let (desc_same, schema_same, found, kept) =
        pin-ok u tool (hashes tool) (lookup key fw.pinned_contracts) fw fw' c refl pinned in
      (
        (unfold is_quarantined in rw kept (unfold is_quarantined in free)),
        given,
        expected-Matches ed (hashes tool).0 desc,
        expected-Matches es (hashes tool).1 schema,
        found,
        desc_same,
        schema_same,
      )

  -- A session of the firewall: definitions are verified and upstreams are quarantined.
  abbrev pub use_one : Use → SupplyChainFirewall → SupplyChainFirewall
  use_one (verifies u tool ed es) fw = (verify u tool ed es fw).0
  use_one (quarantines u) fw = quarantine u fw

  abbrev pub use_all : List Use → SupplyChainFirewall → SupplyChainFirewall
  use_all [] fw = fw
  use_all (x ∷ xs) fw = use_all xs (use_one x fw)

  use_one-stays :
      (u : Text) (x : Use) (fw : SupplyChainFirewall)
      → is_quarantined u fw ≡ true
      → is_quarantined u (use_one x fw) ≡ true
  use_one-stays u (verifies v tool ed es) fw h = verify-stays u v tool ed es fw h
  use_one-stays u (quarantines v) fw h = quarantine-stays u v fw h

  use_all-stays :
      (u : Text) (xs : List Use) (fw : SupplyChainFirewall)
      → is_quarantined u fw ≡ true
      → is_quarantined u (use_all xs fw) ≡ true
  use_all-stays u [] fw h = h
  use_all-stays u (x ∷ xs) fw h = use_all-stays u xs (use_one x fw) (use_one-stays u x fw h)

  -- When `verify_and_pin` refuses a definition for which an expected hash is given, then, whatever
  -- the firewall does afterwards, every execution of a tool of that upstream is vetoed.
  pub refused_upstream_vetoed :
      (u : Text) (tool : ToolDefinition) (ed es : Option Text) (fw : SupplyChainFirewall)
      (xs : List Use)
      → (is_none ed && is_none es) ≡ false
      → is_ok (verify_and_pin sha256 hash_canonical_json json_bytes u tool ed es fw).1 ≡ false
      → veto u (
          some
            (use_all xs (verify_and_pin sha256 hash_canonical_json json_bytes u tool ed es fw).0))
        ≡ err (security_violation (execution_vetoed u))
  refused_upstream_vetoed u tool ed es fw xs given h =
      vetoed u _ (use_all-stays u xs _ (verify-refused u tool ed es fw given h))

  -- A tool whose contract is pinned is refused with any other description or schema hash, whatever
  -- hashes are expected.
  pub drifted_tool_refused :
      (u : Text) (tool : ToolDefinition) (ed es : Option Text) (fw : SupplyChainFirewall)
      (c : PinnedToolContract)
      → lookup (contract_key u tool.name) fw.pinned_contracts ≡ some c
      → Drifts (hashes tool) c
      → is_ok (verify_and_pin sha256 hash_canonical_json json_bytes u tool ed es fw).1 ≡ false
  drifted_tool_refused u tool ed es fw c look differ =
      (unfold verify_and_pin in
        ground (arith, check_hashes-drifted u tool ed es (hashes tool) c fw look differ))
